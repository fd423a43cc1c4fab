-- ===== src/Vtimer/Clock.antt =====
-- The timer interrupt in tick mode: exactly the timers whose time has come move to the queue of
-- expired timers, in the order of their expiration.
use mathlib.Core.Path.{ap₂}
use minix4rt.Base.{
  ℕ, zero, suc, ◌+◌, ◌-◌, ◌<◌, ◌≡◌, refl, ap, sym, ◌∙◌, inl, inr, Bool, true, false, Option, some,
  List, [], ◌∷◌, arith, ◌==◌, ==_iff, ==_refl, if◌then◌else◌, has_head, Bool-cases, length,
  List-cases, remove,
}
use minix4rt.Plist.{Plist, plist_app}
use minix4rt.Vtimer.{Vtimer, Timers, vtimer_rmv}
use minix4rt.Vtimer.Times.{Schedule, times, schedule, remove_time, IsActive}
use minix4rt.Vtimer.Remove.{SameSettings, vtimer_rmv-Removed}
use minix4rt.Vtimer.Handlers.{again, move_expired, expire_first, expire_loop}

-- The timers at the front of a schedule whose time has come leave it.
abbrev pub drop_due : Schedule → Schedule
drop_due [] = []
drop_due ((x, t) ∷ s) = if t == 0 then drop_due s else (x, t) ∷ s

-- They are appended, one after the other, to the priority list of expired timers.
abbrev pub app_due : (ℕ → Vtimer) → Schedule → Plist → Plist
app_due f [] pl = pl
app_due f ((x, t) ∷ s) pl = if t == 0 then app_due f s (plist_app pl x (f x).priority) else pl

-- A tick passes.
abbrev pub elapse : Schedule → Schedule
elapse [] = []
elapse ((x, t) ∷ s) = (x, t - 1) ∷ elapse s

app_due-Same :
    (f g : ℕ → Vtimer) (s : Schedule) (pl : Plist)
    → SameSettings f g
    → app_due g s pl ≡ app_due f s pl
app_due-Same f g [] pl same = refl
app_due-Same f g ((x, t) ∷ s) pl same = elim (Bool-cases (t == 0)) [
  | inl e ↦ rw (e, (same x).1) (app_due-Same f g s (plist_app pl x (f x).priority) same)
  | inr e ↦ rw e
]

-- What the loop must yield.
abbrev pub Expired : Timers → Option (Timers × ℕ) → Type 0
Expired q o =
    (r : Timers) × (m : ℕ) × (o ≡ some (r, m))
    × IsActive r
    × (schedule r ≡ drop_due (schedule q))
    × (r.exp_q ≡ app_due q.vtimer (schedule q) q.exp_q)
    × (r.free_q ≡ q.free_q)

module _ (fuel : ℕ) (oneshot : Bool) (q : Timers) (m : ℕ) where
  loop_nil : q.act_q ≡ [] → expire_loop (suc fuel) oneshot q m ≡ some (q, m)
  unfolding expire_loop
  loop_nil e = ap (expire_first (expire_loop fuel oneshot) oneshot q m) e

  loop_stop :
      (x : ℕ) (xs : List ℕ)
      → q.act_q ≡ x ∷ xs
      → (q.earliest == 0) ≡ false
      → expire_loop (suc fuel) oneshot q m ≡ some (q, m)
  unfolding expire_loop
  loop_stop x xs e h = ap (expire_first (expire_loop fuel oneshot) oneshot q m) e ∙ rw h

  loop_next :
      (x : ℕ) (xs : List ℕ) (r : Timers)
      → q.act_q ≡ x ∷ xs
      → (q.earliest == 0) ≡ true
      → vtimer_rmv q x ≡ some r
      → expire_loop (suc fuel) oneshot q m
        ≡ expire_loop fuel oneshot
            (record r { exp_q = plist_app r.exp_q x (r.vtimer x).priority })
            (again oneshot (q.vtimer x) m)
  unfolding expire_loop
  loop_next x xs r e h k =
      ap (expire_first (expire_loop fuel oneshot) oneshot q m) e
      ∙ ap
          (λ b.
            if b
            then move_expired (expire_loop fuel oneshot) oneshot q m x (vtimer_rmv q x)
            else some (q, m))
          h
      ∙ ap (move_expired (expire_loop fuel oneshot) oneshot q m x) k

-- Moving the first timer, whose time has come, is one step of the reference functions.
step-Expired :
    (q r : Timers) (x : ℕ) (s : Schedule) (o : Option (Timers × ℕ))
    → schedule q ≡ (x, 0) ∷ s
    → schedule r ≡ s
    → r.exp_q ≡ q.exp_q
    → r.free_q ≡ q.free_q
    → SameSettings q.vtimer r.vtimer
    → Expired (record r { exp_q = plist_app r.exp_q x (r.vtimer x).priority }) o
    → Expired q o
step-Expired q r x s o e f k l same (r', m, h, a, sched, exp, free) = (
  r',
  m,
  h,
  a,
  sched ∙ ap drop_due f ∙ sym (ap drop_due e),
  exp
      ∙ ap (λ t. app_due r.vtimer t (plist_app r.exp_q x (r.vtimer x).priority)) f
      ∙ app_due-Same q.vtimer r.vtimer s _ same
      ∙ ap₂ (λ pl p. app_due q.vtimer s (plist_app pl x p)) k (same x).1
      ∙ sym (ap (λ t. app_due q.vtimer t q.exp_q) e),
  free ∙ l,
)

-- With more fuel than the queue has timers the loop of the clock handler ends without a fault. Exactly
-- the timers at the front of the schedule whose time has come leave it, and they are appended, in
-- their order and with their priorities, to the expired ones. The counters of the queue stay right
-- and the queue of free timers does not change.
pub expire_loop-Expired :
    (fuel : ℕ) (oneshot : Bool) (q : Timers) (m : ℕ)
    → IsActive q
    → length q.act_q < fuel
    → Expired q (expire_loop fuel oneshot q m)
expire_loop-Expired zero oneshot q m v h = absurd (omega arith)
expire_loop-Expired (suc fuel) oneshot q m v h = elim (List-cases q.act_q) [
  | inl e ↦ (q, m, loop_nil fuel oneshot q m e, v, no_more e, no_more' e, refl)
  | inr (x, xs, e) ↦ elim (Bool-cases (q.earliest == 0)) [
    | inr k ↦ (q, m, loop_stop fuel oneshot q m x xs e k, v, stays x xs e k, stays' x xs e k, refl)
    | inl k ↦
        let (r, e', a, rest, sched, exp, free, same) =
          vtimer_rmv-Removed q x v (rw e (has_head x xs)) in
        let next : Timers = record r { exp_q = plist_app r.exp_q x (r.vtimer x).priority } in
        let ih =
          expire_loop-Expired fuel oneshot next (again oneshot (q.vtimer x) m)
            (record { distinct = a.distinct; spanned = a.spanned; bounded = a.bounded })
            (less x xs r rest e) in
        rw (loop_next fuel oneshot q m x xs r e k e') (
          step-Expired q r x (times q.vtimer (q.earliest + (q.vtimer x).nextexp) xs) _
            (front x xs e k) (sched ∙ ap (remove_time x) (front x xs e k) ∙ first_out x _) exp free
            same ih)
  ]
]
  where
    sched_of : (xs : List ℕ) → q.act_q ≡ xs → schedule q ≡ times q.vtimer q.earliest xs
    sched_of xs e = ap (times q.vtimer q.earliest) e

    no_more : q.act_q ≡ [] → schedule q ≡ drop_due (schedule q)
    no_more e = sched_of [] e ∙ sym (ap drop_due (sched_of [] e))

    no_more' : q.act_q ≡ [] → q.exp_q ≡ app_due q.vtimer (schedule q) q.exp_q
    no_more' e = sym (ap (λ s. app_due q.vtimer s q.exp_q) (sched_of [] e))

    stays :
        (x : ℕ) (xs : List ℕ)
        → q.act_q ≡ x ∷ xs
        → (q.earliest == 0) ≡ false
        → schedule q ≡ drop_due (schedule q)
    stays x xs e k = sched_of (x ∷ xs) e ∙ sym (ap drop_due (sched_of (x ∷ xs) e) ∙ rw k)

    stays' :
        (x : ℕ) (xs : List ℕ)
        → q.act_q ≡ x ∷ xs
        → (q.earliest == 0) ≡ false
        → q.exp_q ≡ app_due q.vtimer (schedule q) q.exp_q
    stays' x xs e k = sym (ap (λ s. app_due q.vtimer s q.exp_q) (sched_of (x ∷ xs) e) ∙ rw k)

    front :
        (x : ℕ) (xs : List ℕ)
        → q.act_q ≡ x ∷ xs
        → (q.earliest == 0) ≡ true
        → schedule q ≡ (x, 0) ∷ times q.vtimer (q.earliest + (q.vtimer x).nextexp) xs
    front x xs e k =
        sched_of (x ∷ xs) e
        ∙ ap (λ t. (x, t) ∷ times q.vtimer (q.earliest + (q.vtimer x).nextexp) xs)
            ((==_iff q.earliest 0).0 k)

    first_out : (x : ℕ) (s : Schedule) → remove_time x ((x, 0) ∷ s) ≡ s
    first_out x s = rw (==_refl x)

    less :
        (x : ℕ) (xs : List ℕ) (r : Timers)
        → r.act_q ≡ remove x q.act_q
        → q.act_q ≡ x ∷ xs
        → length r.act_q < fuel
    less x xs r f e = omega (
      arith,
      ap length f,
      ap (λ l. length (remove x l)) e,
      ap length (remove_head x xs),
      ap length e,
      h,
    )
      where
        remove_head : (x : ℕ) (xs : List ℕ) → remove x (x ∷ xs) ≡ xs
        remove_head x xs = rw (==_refl x)
