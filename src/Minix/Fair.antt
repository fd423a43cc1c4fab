-- ===== src/Minix/Fair.antt =====
-- The user processes of MINIX take turns (`sched`).
use minix4rt.Base.{
  ℕ, zero, suc, List, [], ◌∷◌, ◌++◌, ◌≡◌, sym, ap, ◌∙◌, ◌⊎◌, inl, inr, length, Bool, false, none,
  if_true, if_false, if◌then◌else◌, Bool-cases,
}
use minix4rt.Plist.{plist_get, pri_lowest}
use minix4rt.Process.{pick_proc, pick_found, prtylvl_set}
use mathlib.Core.List.{append_assoc}
use mathlib.Core.Path.{subst}
use minix4rt.Kernel.{Kernel}
use minix4rt.Minix.{
  pick_task, pick_server, pick_user, pick_minix, minix_pick_proc, pick_next, rotate, sched,
}

-- The quanta of several user processes run out one after another.
abbrev pub scheds : ℕ → Kernel → Kernel
scheds zero k = k
scheds (suc n) k = scheds n (sched k)

-- The RT-kernel is not in charge, or has no ready process.
abbrev pub NoRealTime : Kernel → Type 0
NoRealTime k = (k.irqs.rtmode ≡ false) ⊎ (plist_get k.rdy_q ≡ none)

-- No task, server or real-time process wants to run.
abbrev pub OnlyUsers : Kernel → Type 0
OnlyUsers k = NoRealTime k × (k.task_q ≡ []) × (k.server_q ≡ [])

-- The state after the RT-kernel has been asked for a process and has none.
abbrev asked_if : Bool → Kernel → Kernel
asked_if rt k = record k {
  need_sched = if rt then false else k.need_sched;
  prtylvl = if rt then pri_lowest else k.prtylvl;
}

abbrev asked : Kernel → Kernel
asked k = asked_if k.irqs.rtmode k

minix_alone : (k : Kernel) → k.irqs.rtmode ≡ false → minix_pick_proc k ≡ pick_minix (asked k)
unfolding minix_pick_proc
minix_alone k off =
    if_false (pick_next (pick_proc k)) (pick_minix k) off
    ∙ ap (λ b. pick_minix (asked_if b k)) (sym off)

minix_picks : (k : Kernel) → NoRealTime k → minix_pick_proc k ≡ pick_minix (asked k)
unfolding minix_pick_proc pick_proc pick_found prtylvl_set pick_next
minix_picks k (inl off) = minix_alone k off
minix_picks k (inr none_ready) = elim (Bool-cases k.irqs.rtmode) [
  | inl e ↦
      if_true (pick_next (pick_proc k)) (pick_minix k) e
      ∙ ap (λ o. pick_next (pick_found (record k { need_sched = false }) o)) none_ready
      ∙ ap (λ b. pick_minix (asked_if b k)) (sym e)
  | inr e ↦ minix_alone k e
]

-- The process `r` runs, and `q` wait behind it.
abbrev pub Turn : ℕ → List ℕ → Kernel → Type 0
Turn r q k = (k.running ≡ r) × (k.bill ≡ r) × (k.user_q ≡ r ∷ q)

module _ (k : Kernel) (users : OnlyUsers k) where
  picked :
      (r : ℕ) (q : List ℕ)
      → minix_pick_proc (record k { user_q = r ∷ q })
        ≡ record (asked k) { user_q = r ∷ q; rtsched = false; running = r; bill = r }
  unfolding pick_minix pick_task pick_server pick_user
  picked r q =
      minix_picks (record k { user_q = r ∷ q }) (users.0)
      ∙ ap (λ t. pick_task t k1) (users.1)
      ∙ ap (λ t. pick_server t k1) (users.2)
    where
      k1 : Kernel
      k1 = record (asked k) { user_q = r ∷ q; rtsched = false }

  turned :
      (x s : ℕ) (more : List ℕ)
      → k.user_q ≡ x ∷ s ∷ more
      → sched k ≡ record (asked k) {
        user_q = s ∷ (more ++ (x ∷ []));
        rtsched = false;
        running = s;
        bill = s;
      }
  unfolding sched rotate
  turned x s more e = ap (λ q. rotate q k) e ∙ picked s (more ++ (x ∷ []))

-- Where no task or server wants to run, the RT-kernel is not in charge or finds no ready process, a process stands in the queue of user
-- processes behind some others, it runs and is charged as soon as the quanta of those have run out, one
-- `sched` for each; they wait behind it in their order, after those that stood behind it already.
pub scheds-Turn :
    (xs ys : List ℕ) (x r : ℕ) (k : Kernel)
    → OnlyUsers k
    → k.user_q ≡ x ∷ (xs ++ (r ∷ ys))
    → Turn r (ys ++ (x ∷ xs)) (scheds (suc (length xs)) k)
scheds-Turn [] ys x r k users e =
    let t = turned k users x r ys e in
    (ap (λ z. z.running) t, ap (λ z. z.bill) t, ap (λ z. z.user_q) t)
scheds-Turn (y ∷ xs) ys x r k users e =
    subst (λ (z : Kernel). Turn r (ys ++ (x ∷ y ∷ xs)) (scheds (suc (length xs)) z))
      (sym (turned k users x y (xs ++ (r ∷ ys)) e))
      (subst (λ (q : List ℕ). Turn r q (scheds (suc (length xs)) k1))
        (append_assoc ys (x ∷ []) (y ∷ xs))
        (scheds-Turn xs (ys ++ (x ∷ [])) y r k1 users
          (ap (λ q. y ∷ q) (append_assoc xs (r ∷ ys) (x ∷ [])))))
  where
    k1 : Kernel
    k1 = record (asked k) {
      user_q = y ∷ ((xs ++ (r ∷ ys)) ++ (x ∷ []));
      rtsched = false;
      running = y;
      bill = y;
    }
