-- ===== src/Sem/Up.antt =====
-- `MRT_semup` where processes wait: the first of the highest priority gets the semaphore.
use minix4rt.Base.{
  ℕ, ◌+◌, ◌-◌, ◌<◌, ◌^◌, ◌≡◌, refl, ap, ◌∙◌, inl, inr, Bool, true, false, ◌&&◌, Option, none, some,
  [], ◌∷◌, ◌++◌, arith, ltb, ◌==◌, if◌then◌else◌, has, Bool-cases, remove, update_self, update_keep,
}
use minix4rt.Plist.{Plist, nr_prty, plist_rmv, plist_get}
use minix4rt.Plist.Invariant.{plist_rmv-IsPlist}
use minix4rt.Plist.Highest.{plist_get-some}
use minix4rt.Rcode.{Rcode, ok}
use minix4rt.Vtimer.{Timers}
use minix4rt.Vtimer.Times.{IsActive}
use minix4rt.Vtimer.Pool.{Stoppable, vtimer_stop-some}
use minix4rt.Vtimer.Handlers.{vtimer_stop}
use minix4rt.Kernel.{
  Kernel, Proc, Semaphore, set_proc, set_sem, inc, sproc_pick, rdy_q_app, is_rtready,
}
use minix4rt.Kernel.Inherit.{disinherit}
use minix4rt.Sem.{
  is_negative, sproc_pty, sproc_rmv, drop_lock, hand_over, awake, map_kernel, with_code, stop_timer,
  release, no_wait, wake_removed, wake, leave, count_up, up_owned, semup,
}
use minix4rt.Sem.Value.{IsSem, Balanced, Balanced-inc}

-- The processes that wait for a semaphore stand in the lists of their priorities, and each has a
-- timer that can be stopped.
pub record Waiting (k : Kernel) (s : ℕ) : Type 0 where
  pub placed :
      (x t : ℕ)
      → t < nr_prty
      → has x ((k.sem s).plist.list t) ≡ true
      → sproc_pty (k.sem s) (k.proc x) ≡ t
  pub stoppable :
      (x t : ℕ)
      → t < nr_prty
      → has x ((k.sem s).plist.list t) ≡ true
      → (v : ℕ) × ((k.proc x).ipcvt ≡ some v) × Stoppable k.timers v
  pub active : IsActive k.timers

-- What the second half of a wake-up keeps of the semaphore `s` and of the process `x`.
record Kept (k : Kernel) (s x : ℕ) (r : Kernel) : Type 0 where
  same_plist : (r.sem s).plist ≡ (k.sem s).plist
  same_value : (r.sem s).value ≡ (k.sem s).value
  same_psem : (r.proc x).psem ≡ (k.proc x).psem

disinherit-off : (k : Kernel) (r : ℕ) → k.bpip ≡ false → disinherit k r ≡ some k
unfolding disinherit
disinherit-off k r e = rw e

-- A mutex is handed over.
hand_over-Kept :
    (k : Kernel) (s x : ℕ)
    → k.bpip ≡ false
    → (r : Kernel) × (hand_over k s x ≡ some r) × Kept k s x r
unfolding hand_over
hand_over-Kept k s x e = (
  k3,
  pass,
  record {
    same_plist = update_keep k.sem s (record (k.sem s) { carrier = some x }) (λ t. t.plist) s refl;
    same_value = update_keep k.sem s (record (k.sem s) { carrier = some x }) (λ t. t.value) s refl;
    same_psem =
        update_keep k1.proc x (record (k1.proc x) { slock_l = (k1.proc x).slock_l ++ (s ∷ []) })
          (λ p. p.psem) x refl
        ∙ update_keep k.proc k.running
            (record (k.proc k.running) { slock_l = remove s (k.proc k.running).slock_l })
            (λ p. p.psem) x refl;
  },
)
  where
    k1 : Kernel
    k1 = drop_lock k s

    k3 : Kernel
    k3 =
        set_proc (set_sem k1 s (record (k1.sem s) { carrier = some x })) x
          (record (k1.proc x) { slock_l = (k1.proc x).slock_l ++ (s ∷ []) })

    pass : (if (k3.sem s).prty_inherit then disinherit k3 k3.running else some k3) ≡ some k3
    pass = elim (Bool-cases (k3.sem s).prty_inherit) [
      | inl i ↦ rw i (disinherit-off k3 k3.running e)
      | inr i ↦ rw i
    ]

rdy_q_app-sem : (k : Kernel) (x : ℕ) → (rdy_q_app k x).sem ≡ k.sem
unfolding rdy_q_app
rdy_q_app-sem k x =
    elim (Bool-cases (ltb (k.proc x).limit (k.proc x).scheds && ltb 0 (k.proc x).limit)) [
      | inl e ↦ rw e
      | inr e ↦ rw e
    ]

-- Only P_STOP of the running process may change.
rdy_q_app-proc :
    {B : Type 0} (k : Kernel) (x y : ℕ) (field : Proc → B)
    → ((p : Proc) → field (record p { stop = true }) ≡ field p)
    → field ((rdy_q_app k x).proc y) ≡ field (k.proc y)
unfolding rdy_q_app
rdy_q_app-proc k x y field same =
    elim (Bool-cases (ltb (k.proc x).limit (k.proc x).scheds && ltb 0 (k.proc x).limit)) [
      | inl e ↦ rw e (
          update_keep k.proc k.running (record (k.proc k.running) { stop = true }) field y
            (same (k.proc k.running)))
      | inr e ↦ rw e
    ]

-- The kernel with the mark of `x` cleared.
abbrev cleared : Kernel → ℕ → Kernel
cleared k x = set_proc k x (record (k.proc x) { sem_down = false })

awake-Kept :
    (k : Kernel) (s x : ℕ) → Kept k s x (awake k x) × (((awake k x).proc x).sem_down ≡ false)
unfolding awake
awake-Kept k s x = elim (Bool-cases (is_rtready ((cleared k x).proc x))) [
  | inl e ↦ rw e (
    record {
      same_plist = ap (λ f. (f s).plist) (rdy_q_app-sem (cleared k x) x);
      same_value = ap (λ f. (f s).value) (rdy_q_app-sem (cleared k x) x);
      same_psem = rdy_q_app-proc (cleared k x) x x (λ p. p.psem) (λ p. refl) ∙ psem_same;
    },
    rdy_q_app-proc (cleared k x) x x (λ p. p.sem_down) (λ p. refl) ∙ down_false,
  )
  | inr e ↦
      rw e (record { same_plist = refl; same_value = refl; same_psem = psem_same }, down_false)
]
  where
    psem_same : ((cleared k x).proc x).psem ≡ (k.proc x).psem
    psem_same = update_keep k.proc x (record (k.proc x) { sem_down = false }) (λ p. p.psem) x refl

    down_false : ((cleared k x).proc x).sem_down ≡ false
    down_false =
        ap (λ p. p.sem_down) (update_self k.proc x (record (k.proc x) { sem_down = false }))

-- The mutex goes to the process, if it is one, and the process may run again.
release-Kept :
    (k : Kernel) (s x : ℕ)
    → k.bpip ≡ false
    → (r : Kernel) × (release s x (some k) ≡ some r) × Kept k s x r × ((r.proc x).sem_down ≡ false)
unfolding release map_kernel
release-Kept k s x e = elim (Bool-cases (k.sem s).mutex) [
  | inl m ↦
      let (h, q, kept) = hand_over-Kept k s x e in
      let (a, d) = awake-Kept h s x in
      (
        awake h x,
        as_mutex m ∙ ap (map_kernel (λ k1. awake k1 x)) q,
        record {
          same_plist = a.same_plist ∙ kept.same_plist;
          same_value = a.same_value ∙ kept.same_value;
          same_psem = a.same_psem ∙ kept.same_psem;
        },
        d,
      )
  | inr m ↦ let (a, d) = awake-Kept k s x in (awake k x, as_mutex m, a, d)
]
  where
    as_mutex :
        {b : Bool}
        → (k.sem s).mutex ≡ b
        → release s x (some k)
          ≡ map_kernel (λ k1. awake k1 x) (if b then hand_over k s x else some k)
    as_mutex m = ap (λ b. map_kernel (λ k1. awake k1 x) (if b then hand_over k s x else some k)) m

-- What a wake-up must yield: `x` is the process that gets the semaphore.
abbrev pub Woken : Kernel → ℕ → ℕ → Option (Rcode × Kernel) → Type 0
Woken k s x out =
    (r : Kernel) × (out ≡ some (ok, r))
    × IsSem (r.sem s)
    × ((r.sem s).plist.in_q + 1 ≡ (k.sem s).plist.in_q)
    × ((r.sem s).plist.list (sproc_pty (k.sem s) (k.proc x))
        ≡ remove x ((k.sem s).plist.list (sproc_pty (k.sem s) (k.proc x))))
    × ((r.proc x).sem_down ≡ false)
    × ((r.proc x).psem ≡ none)

-- The semaphore without the process `x`.
abbrev without : Kernel → ℕ → ℕ → Semaphore
without k s x = record (k.sem s) {
  plist = plist_rmv (k.sem s).plist x (sproc_pty (k.sem s) (k.proc x));
}

sproc_rmv-some :
    (k : Kernel) (s x : ℕ)
    → 0 < (k.sem s).plist.in_q
    → sproc_rmv (k.sem s) x (k.proc x) ≡ some (without k s x)
unfolding sproc_rmv
sproc_rmv-some k s x pos = rw (nonzero (k.sem s).plist.in_q pos)
  where
    nonzero : (n : ℕ) → 0 < n → (n == 0) ≡ false
    nonzero n h = ground arith

-- The kernel after the timer of the process is stopped.
abbrev timed : Kernel → ℕ → ℕ → Timers → Kernel
timed k s x t =
    set_proc (record (set_sem k s (without k s x)) { timers = t }) x
      (record (k.proc x) { psem = none })

stop_timer-some :
    (k : Kernel) (s x v : ℕ) (t : Timers)
    → (k.proc x).ipcvt ≡ some v
    → vtimer_stop k.timers v ≡ some t
    → stop_timer (set_sem k s (without k s x)) x (k.proc x).ipcvt ≡ some (timed k s x t)
unfolding stop_timer no_wait
stop_timer-some k s x v t e f =
    ap (stop_timer (set_sem k s (without k s x)) x) e
    ∙ ap (no_wait (set_sem k s (without k s x)) x) f

wake-some :
    (k : Kernel) (s x v : ℕ) (t : Timers)
    → 0 < (k.sem s).plist.in_q
    → (k.proc x).ipcvt ≡ some v
    → vtimer_stop k.timers v ≡ some t
    → wake k s (some x) ≡ release s x (some (timed k s x t))
unfolding wake wake_removed
wake-some k s x v t pos e f =
    ap (wake_removed k s x) (sproc_rmv-some k s x pos)
    ∙ ap (release s x) (stop_timer-some k s x v t e f)

semup-some :
    (k : Kernel) (s o x : ℕ) (r : Kernel)
    → (k.sem s).owner ≡ some o
    → is_negative (k.sem s).value ≡ true
    → plist_get (k.sem s).plist ≡ some x
    → wake k s (some x) ≡ some r
    → semup k s ≡ some (ok, count_up r s)
unfolding semup up_owned with_code map_kernel sproc_pick
semup-some k s o x r e n p w =
    ap (up_owned k s) e
    ∙ ap
        (λ b. with_code ok (
          map_kernel (λ k1. count_up k1 s)
            (if b then wake k s (sproc_pick (k.sem s)) else some (leave k s))))
        n
    ∙ ap (λ q. with_code ok (map_kernel (λ k1. count_up k1 s) (wake k s q))) p
    ∙ ap (λ q. with_code ok (map_kernel (λ k1. count_up k1 s) q)) w

count_up-sem :
    (r : Kernel) (s : ℕ)
    → (((count_up r s).sem s).plist ≡ (r.sem s).plist)
      × (((count_up r s).sem s).value ≡ inc (r.sem s).value)
unfolding count_up
count_up-sem r s = (
  ap (λ t. t.plist)
      (update_self r.sem s
        (record (r.sem s) { ups = inc (r.sem s).ups; value = inc (r.sem s).value })),
  ap (λ t. t.value)
      (update_self r.sem s
        (record (r.sem s) { ups = inc (r.sem s).ups; value = inc (r.sem s).value })),
)

count_up-proc : (r : Kernel) (s : ℕ) → (count_up r s).proc ≡ r.proc
unfolding count_up
count_up-proc r s = refl

plist_rmv-in_q : (pl : Plist) (x p : ℕ) → (plist_rmv pl x p).in_q ≡ pl.in_q - 1
unfolding plist_rmv
plist_rmv-in_q pl x p = refl

plist_rmv-list : (pl : Plist) (x p : ℕ) → (plist_rmv pl x p).list p ≡ remove x (pl.list p)
unfolding plist_rmv
plist_rmv-list pl x p = update_self pl.list p (remove x (pl.list p))

IsSem-waits :
    (s : Semaphore) → IsSem s → is_negative s.value ≡ true → s.value < 2 ^ 32 → 0 < s.plist.in_q
IsSem-waits s v n small = waits v.balance
  where
    waits : Balanced s.value s.plist.in_q → 0 < s.plist.in_q
    waits (inl (l, e)) = ground arith
    waits (inr (l, e)) = omega (arith, small)

-- Where priority inheritance is switched off in the system, the value of a semaphore with an owner is
-- negative and its waiting processes stand in the lists of their priorities and have timers that
-- can be stopped, an `up` does not panic and returns OK. A process that the search for the highest
-- priority finds among the waiting ones leaves its list and does not wait for the semaphore any
-- more, and the value of the semaphore still counts those who wait.
pub semup-Woken :
    (k : Kernel) (s o : ℕ)
    → IsSem (k.sem s)
    → Waiting k s
    → (k.sem s).owner ≡ some o
    → is_negative (k.sem s).value ≡ true
    → (k.sem s).value < 2 ^ 32
    → k.bpip ≡ false
    → (x : ℕ) × (plist_get (k.sem s).plist ≡ some x) × Woken k s x (semup k s)
semup-Woken k s o v w e n small b =
    let pos = IsSem-waits (k.sem s) v n small in
    let (x, found, t, below, m) = plist_get-some (k.sem s).plist v.lists pos in
    let (i, timer, st) = w.stoppable x t below m in
    let (tm, stops) = vtimer_stop-some k.timers i w.active st in
    let (r, released, kept, free) = release-Kept (timed k s x tm) s x b in
    let at = w.placed x t below m in
    let p = plist_of r (timed k s x tm) x tm refl kept.same_plist in
    (
      x,
      found,
      (
        count_up r s,
        semup-some k s o x r e n found (wake-some k s x i tm pos timer stops ∙ released),
        record {
          lists = rw p (
              plist_rmv-IsPlist (k.sem s).plist x (sproc_pty (k.sem s) (k.proc x)) v.lists
                (rw at below) (rw at m));
          balance =
              rw
                (
                  p,
                  value_of r (timed k s x tm) x tm refl kept.same_value,
                  plist_rmv-in_q (k.sem s).plist x (sproc_pty (k.sem s) (k.proc x)),
                )
                (Balanced-inc (k.sem s).value (k.sem s).plist.in_q n pos v.balance);
        },
        omega (
          arith,
          pos,
          ap (λ l. l.in_q) p,
          plist_rmv-in_q (k.sem s).plist x (sproc_pty (k.sem s) (k.proc x)),
        ),
        ap (λ l. l.list (sproc_pty (k.sem s) (k.proc x))) p
            ∙ plist_rmv-list (k.sem s).plist x (sproc_pty (k.sem s) (k.proc x)),
        ap (λ f. (f x).sem_down) (count_up-proc r s) ∙ free,
        ap (λ f. (f x).psem) (count_up-proc r s)
            ∙ kept.same_psem
            ∙ ap (λ p. p.psem) (update_self k.proc x (record (k.proc x) { psem = none })),
      ),
    )
  where
    plist_of :
        (r q : Kernel) (x : ℕ) (t : Timers)
        → q ≡ timed k s x t
        → (r.sem s).plist ≡ (q.sem s).plist
        → ((count_up r s).sem s).plist
          ≡ plist_rmv (k.sem s).plist x (sproc_pty (k.sem s) (k.proc x))
    plist_of r q x t e f =
        (count_up-sem r s).0
        ∙ f
        ∙ ap (λ a. (a.sem s).plist) e
        ∙ ap (λ a. a.plist) (update_self k.sem s (without k s x))

    value_of :
        (r q : Kernel) (x : ℕ) (t : Timers)
        → q ≡ timed k s x t
        → (r.sem s).value ≡ (q.sem s).value
        → ((count_up r s).sem s).value ≡ inc (k.sem s).value
    value_of r q x t e f =
        (count_up-sem r s).1
        ∙ ap inc (
            f
            ∙ ap (λ a. (a.sem s).value) e
            ∙ ap (λ a. a.value) (update_self k.sem s (without k s x)))
