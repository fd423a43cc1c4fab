-- ===== src/Minix/Keep.antt =====
-- The ready queues of MINIX leave alone whom the processes wait to send to.
use minix4rt.Base.{
  ℕ, Bool, true, false, Option, none, some, List, [], ◌∷◌, ◌==◌, if◌then◌else◌, ◌≡◌, refl, ap, ◌∙◌,
  inl, inr, update_keep, Bool-cases, remove,
}
use minix4rt.Plist.{plist_get}
use minix4rt.Kernel.{Kernel, Proc, set_proc, inc}
use minix4rt.Process.{pick_proc, pick_found, dispatch, prtylvl_set}
use minix4rt.Minix.{
  is_runnable, pick_idle, pick_user, pick_server, pick_task, pick_minix, pick_next, minix_pick_proc,
  ready_task, ready, is_head, unready,
}
use minix4rt.Minix.Send.{ready_if, unready_if}

-- A step keeps what a field says of every process.
abbrev pub Keeps {ℓ} : {A : Type ℓ} → (Proc → A) → Kernel → Kernel → Type ℓ
Keeps f k k' = (p : ℕ) → f (k'.proc p) ≡ f (k.proc p)

pub Keeps-if {ℓ} :
    {A : Type ℓ} (f : Proc → A) (k : Kernel) (b : Bool) (x y : Kernel)
    → Keeps f k x
    → Keeps f k y
    → Keeps f k (if b then x else y)
Keeps-if f k true x y hx hy = hx
Keeps-if f k false x y hx hy = hy

pub Keeps-set_proc {ℓ} :
    {A : Type ℓ} (f : Proc → A) (k : Kernel) (r : ℕ) (a : Proc)
    → f a ≡ f (k.proc r)
    → Keeps f k (set_proc k r a)
Keeps-set_proc f k r a e p = update_keep k.proc r a f p e

pub ready-proc : (k : Kernel) (r : ℕ) → (ready k r).proc ≡ k.proc
unfolding ready ready_task
ready-proc k r = elim (Bool-cases (k.proc r).is_task) [
  | inl e ↦ rw e (task k.task_q)
  | inr e ↦ rw e (elim (Bool-cases (k.proc r).is_user) [ inl u ↦ rw u refl | inr u ↦ rw u refl ])
]
  where
    task : (q : List ℕ) → (ready_task r q k).proc ≡ k.proc
    task [] = refl
    task (x ∷ xs) = refl

pub ready_if-proc : (k : Kernel) (r : ℕ) → (ready_if k r).proc ≡ k.proc
ready_if-proc k r = elim (Bool-cases (is_runnable (k.proc r))) [
  | inl e ↦ ap (λ (b : Bool). (if b then ready k r else k).proc) e ∙ ready-proc k r
  | inr e ↦ ap (λ (b : Bool). (if b then ready k r else k).proc) e
]

pick_minix-proc : (k : Kernel) → (pick_minix k).proc ≡ k.proc
unfolding pick_minix pick_task pick_server pick_user pick_idle
pick_minix-proc k = task k.task_q
  where
    k1 : Kernel
    k1 = record k { rtsched = false }

    user : (q : List ℕ) → (pick_user q k1).proc ≡ k.proc
    user [] = refl
    user (x ∷ xs) = refl

    server : (q : List ℕ) → (pick_server q k1).proc ≡ k.proc
    server [] = user k.user_q
    server (x ∷ xs) = refl

    task : (q : List ℕ) → (pick_task q k1).proc ≡ k.proc
    task [] = server k.server_q
    task (x ∷ xs) = refl

-- The scheduler only writes the statistics of the process that it chooses.
module _ {ℓ} {A : Type ℓ} (f : Proc → A)
    (blind : (p : Proc) (t n : ℕ) → f (record p { timestamp = t; scheds = n }) ≡ f p) where
  pick_found-Keeps : (k : Kernel) (o : Option ℕ) → Keeps f k ((pick_found k o).1)
  unfolding pick_found dispatch prtylvl_set
  pick_found-Keeps k none p = refl
  pick_found-Keeps k (some x) p =
      update_keep k.proc x
        (record (k.proc x) { timestamp = k.ticks; scheds = inc (k.proc x).scheds }) f p
        (blind (k.proc x) k.ticks (inc (k.proc x).scheds))

  pick_next-Keeps : (k : Kernel) (o : Bool × Kernel) → Keeps f k (o.1) → Keeps f k (pick_next o)
  unfolding pick_next
  pick_next-Keeps k (true, k1) h p = h p
  pick_next-Keeps k (false, k1) h p = ap (λ (g : ℕ → Proc). f (g p)) (pick_minix-proc k1) ∙ h p

  pub minix_pick_proc-Keeps : (k : Kernel) → Keeps f k (minix_pick_proc k)
  unfolding minix_pick_proc pick_proc
  minix_pick_proc-Keeps k =
      Keeps-if f k k.irqs.rtmode (pick_next (pick_proc k)) (pick_minix k)
        (pick_next-Keeps k (pick_proc k)
          (pick_found-Keeps (record k { need_sched = false }) (plist_get k.rdy_q)))
        (λ p. ap (λ (g : ℕ → Proc). f (g p)) (pick_minix-proc k))

  pub unready-Keeps : (k : Kernel) (r : ℕ) → Keeps f k (unready k r)
  unfolding unready
  unready-Keeps k r =
      Keeps-if f k (k.proc r).is_task
        (if is_head k.task_q r then (if r == k.running then minix_pick_proc kt else kt) else kt)
        (if (k.proc r).is_user
          then (if is_head k.user_q r then minix_pick_proc ku else ku)
          else (if is_head k.server_q r then minix_pick_proc ks else ks))
        (Keeps-if f k (is_head k.task_q r) (if r == k.running then minix_pick_proc kt else kt) kt
          (Keeps-if f k (r == k.running) (minix_pick_proc kt) kt (minix_pick_proc-Keeps kt)
            (λ p. refl))
          (λ p. refl))
        (Keeps-if f k (k.proc r).is_user (if is_head k.user_q r then minix_pick_proc ku else ku)
          (if is_head k.server_q r then minix_pick_proc ks else ks)
          (Keeps-if f k (is_head k.user_q r) (minix_pick_proc ku) ku (minix_pick_proc-Keeps ku)
            (λ p. refl))
          (Keeps-if f k (is_head k.server_q r) (minix_pick_proc ks) ks (minix_pick_proc-Keeps ks)
            (λ p. refl)))
    where
      kt : Kernel
      kt = record k { task_q = remove r k.task_q }

      ku : Kernel
      ku = record k { user_q = remove r k.user_q }

      ks : Kernel
      ks = record k { server_q = remove r k.server_q }

  pub unready_if-Keeps : (k : Kernel) (r : ℕ) → Keeps f k (unready_if k r)
  unready_if-Keeps k r =
      Keeps-if f k (is_runnable (k.proc r)) (unready k r) k (unready-Keeps k r) (λ p. refl)

-- The kernel after the scheduler is the old one but for what the scheduler writes.
abbrev pub rescheduled : Kernel → Kernel → Kernel
rescheduled k k' = record k {
  proc = k'.proc;
  need_sched = k'.need_sched;
  prtylvl = k'.prtylvl;
  running = k'.running;
  sys_scheds = k'.sys_scheds;
  bill = k'.bill;
  rtsched = k'.rtsched;
  task_q = k'.task_q;
  server_q = k'.server_q;
  user_q = k'.user_q;
}

abbrev pub Moved : Kernel → Kernel → Type 0
Moved k k' = k' ≡ rescheduled k k'

Moved-if :
    (k : Kernel) (b : Bool) (x y : Kernel) → Moved k x → Moved k y → Moved k (if b then x else y)
Moved-if k true x y hx hy = hx
Moved-if k false x y hx hy = hy

pick_minix-Moved : (k : Kernel) → Moved k (pick_minix k)
unfolding pick_minix pick_task pick_server pick_user pick_idle
pick_minix-Moved k = task k.task_q
  where
    k1 : Kernel
    k1 = record k { rtsched = false }

    user : (q : List ℕ) → Moved k (pick_user q k1)
    user [] = refl
    user (x ∷ xs) = refl

    server : (q : List ℕ) → Moved k (pick_server q k1)
    server [] = user k.user_q
    server (x ∷ xs) = refl

    task : (q : List ℕ) → Moved k (pick_task q k1)
    task [] = server k.server_q
    task (x ∷ xs) = refl

pick_found-Moved : (k : Kernel) (o : Option ℕ) → Moved k ((pick_found k o).1)
unfolding pick_found dispatch prtylvl_set
pick_found-Moved k none = refl
pick_found-Moved k (some x) = refl

Moved-trans : (k k1 k2 : Kernel) → Moved k k1 → Moved k1 k2 → Moved k k2
Moved-trans k k1 k2 e h = h ∙ ap (λ z. rescheduled z k2) e

pick_next-Moved : (k : Kernel) (o : Bool × Kernel) → Moved k (o.1) → Moved k (pick_next o)
unfolding pick_next
pick_next-Moved k (true, k1) h = ap (λ (z : Kernel). record z { rtsched = true }) h
pick_next-Moved k (false, k1) h = Moved-trans k k1 (pick_minix k1) h (pick_minix-Moved k1)

pub minix_pick_proc-Moved : (k : Kernel) → Moved k (minix_pick_proc k)
unfolding minix_pick_proc pick_proc
minix_pick_proc-Moved k =
    Moved-if k k.irqs.rtmode (pick_next (pick_proc k)) (pick_minix k)
      (pick_next-Moved k (pick_proc k) (
        Moved-trans k k0 (pick_found k0 (plist_get k.rdy_q)).1 refl
          (pick_found-Moved k0 (plist_get k.rdy_q))))
      (pick_minix-Moved k)
  where
    k0 : Kernel
    k0 = record k { need_sched = false }

pub unready-Moved : (k : Kernel) (r : ℕ) → Moved k (unready k r)
unfolding unready
unready-Moved k r =
    Moved-if k (k.proc r).is_task
      (if is_head k.task_q r then (if r == k.running then minix_pick_proc kt else kt) else kt)
      (if (k.proc r).is_user
        then (if is_head k.user_q r then minix_pick_proc ku else ku)
        else (if is_head k.server_q r then minix_pick_proc ks else ks))
      (Moved-if k (is_head k.task_q r) (if r == k.running then minix_pick_proc kt else kt) kt
        (Moved-if k (r == k.running) (minix_pick_proc kt) kt
          (Moved-trans k kt (minix_pick_proc kt) refl (minix_pick_proc-Moved kt)) refl)
        refl)
      (Moved-if k (k.proc r).is_user (if is_head k.user_q r then minix_pick_proc ku else ku)
        (if is_head k.server_q r then minix_pick_proc ks else ks)
        (Moved-if k (is_head k.user_q r) (minix_pick_proc ku) ku
          (Moved-trans k ku (minix_pick_proc ku) refl (minix_pick_proc-Moved ku)) refl)
        (Moved-if k (is_head k.server_q r) (minix_pick_proc ks) ks
          (Moved-trans k ks (minix_pick_proc ks) refl (minix_pick_proc-Moved ks)) refl))
  where
    kt : Kernel
    kt = record k { task_q = remove r k.task_q }

    ku : Kernel
    ku = record k { user_q = remove r k.user_q }

    ks : Kernel
    ks = record k { server_q = remove r k.server_q }

pub unready_if-Moved : (k : Kernel) (r : ℕ) → Moved k (unready_if k r)
unready_if-Moved k r = Moved-if k (is_runnable (k.proc r)) (unready k r) k (unready-Moved k r) refl

ready-Moved : (k : Kernel) (r : ℕ) → Moved k (ready k r)
unfolding ready ready_task
ready-Moved k r =
    Moved-if k (k.proc r).is_task (ready_task r k.task_q k) _ (task k.task_q)
      (Moved-if k (k.proc r).is_user _ _ refl refl)
  where
    task : (q : List ℕ) → Moved k (ready_task r q k)
    task [] = refl
    task (x ∷ xs) = refl

pub ready_if-Moved : (k : Kernel) (r : ℕ) → Moved k (ready_if k r)
ready_if-Moved k r = Moved-if k (is_runnable (k.proc r)) (ready k r) k (ready-Moved k r) refl
