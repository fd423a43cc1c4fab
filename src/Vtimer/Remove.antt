-- ===== src/Vtimer/Remove.antt =====
-- `MRT_vtimer_rmv`: one timer leaves the schedule, and all others keep their expirations.
use minix4rt.Base.{
  ℕ, ◌+◌, ◌<◌, ◌^◌, ◌≡◌, ◌≢◌, refl, ap, sym, ◌∙◌, inl, inr, true, false, Option, none, some, List,
  [], ◌∷◌, arith, ◌==◌, ==_iff, true_ne_false, has, Distinct, Distinct-remove, Bool-cases, remove,
}
use minix4rt.Plist.{Plist}
use minix4rt.Vtimer.{
  Vtimer, Timers, Status, alloc, add_l, sub_l, set_nextexp, set_flags, last?, prev?, is_at,
  rmv_adjust, rmv_unlink, vtimer_rmv,
}
use minix4rt.Vtimer.Times.{
  times, schedule, span, remove_time, IsActive, times-Agree, span-Agree, set_flags_nextexp,
}
use minix4rt.Vtimer.Last.{has-last?}
use minix4rt.Vtimer.Insert.{timers}
use minix4rt.Vtimer.Gap.{prev?-some, has_behind, times-cut, span-cut, joined, times-gap, span-gap}

-- Two pools whose timers have the same period and priority.
abbrev pub SameSettings : (ℕ → Vtimer) → (ℕ → Vtimer) → Type 0
SameSettings f g = (a : ℕ) → ((g a).period ≡ (f a).period) × ((g a).priority ≡ (f a).priority)

joined-SameSettings : (f : ℕ → Vtimer) (x p : ℕ) → SameSettings f (joined f x p)
unfolding set_nextexp
joined-SameSettings f x p a = (ground arith, ground arith)

set_flags-SameSettings : (f : ℕ → Vtimer) (x : ℕ) (s : Status) → SameSettings f (set_flags f x s)
unfolding set_flags
set_flags-SameSettings f x s a = (ground arith, ground arith)

-- What the removal of a timer must yield.
abbrev pub Removed : Timers → ℕ → Option Timers → Type 0
Removed q x o =
    (r : Timers) × (o ≡ some r)
    × IsActive r
    × (r.act_q ≡ remove x q.act_q)
    × (schedule r ≡ remove_time x (schedule q))
    × (r.exp_q ≡ q.exp_q)
    × (r.free_q ≡ q.free_q)
    × SameSettings q.vtimer r.vtimer

-- The state of the timer and its link are set last; no expiration depends on them.
unlink-Removed :
    (q r : Timers) (x : ℕ)
    → Distinct (remove x r.act_q)
    → r.act_q ≡ q.act_q
    → r.maxper ≡ span r.vtimer (remove x r.act_q)
    → r.earliest + r.maxper < 2 ^ 32
    → times r.vtimer r.earliest (remove x r.act_q) ≡ remove_time x (schedule q)
    → r.exp_q ≡ q.exp_q
    → r.free_q ≡ q.free_q
    → SameSettings q.vtimer r.vtimer
    → Removed q x (rmv_unlink x (some r))
unfolding rmv_unlink
unlink-Removed q r x d same m b s e f c = (
  timers r.exp_q r.earliest r.maxper (remove x r.act_q) r.free_q g,
  refl,
  record {
    distinct = d;
    spanned = m ∙ sym (span-Agree r.vtimer g (remove x r.act_q) (λ a _. agree a));
    bounded = b;
  },
  ap (remove x) same,
  times-Agree r.vtimer g r.earliest (remove x r.act_q) (λ a _. agree a) ∙ s,
  e,
  f,
  λ a. (
    (set_flags-SameSettings r.vtimer x alloc a).0 ∙ (c a).0,
    (set_flags-SameSettings r.vtimer x alloc a).1 ∙ (c a).1,
  ),
)
  where
    g : ℕ → Vtimer
    g = set_flags r.vtimer x alloc

    agree : (a : ℕ) → (g a).nextexp ≡ (r.vtimer a).nextexp
    agree a = set_flags_nextexp r.vtimer x alloc a

is_at_iff : (o : Option ℕ) (x : ℕ) → is_at o x ≡ true → o ≡ some x
unfolding is_at
is_at_iff none x e = cc
is_at_iff (some y) x e = ap some ((==_iff y x).0 e)

is_at-false : (o : Option ℕ) (x : ℕ) → is_at o x ≡ false → o ≢ some x
unfolding is_at
is_at-false none x e q = cc
is_at-false (some y) x e q = ground arith

module _ (exp : Plist) (e m : ℕ) (fq : List ℕ) (f : ℕ → Vtimer) (x y : ℕ) where
  -- The only timer.
  adjust-only :
      (o : Option ℕ)
      → (y == x) ≡ true
      → rmv_adjust (timers exp e m (y ∷ []) fq f) x o ≡ some (timers exp 0 0 (y ∷ []) fq f)
  unfolding rmv_adjust is_at
  adjust-only o k = rw k

  rmv-only :
      (y == x) ≡ true
      → Removed (timers exp e m (y ∷ []) fq f) x (vtimer_rmv (timers exp e m (y ∷ []) fq f) x)
  unfolding vtimer_rmv
  rmv-only k = rw (adjust-only (prev? x (y ∷ [])) k) (
      unlink-Removed (timers exp e m (y ∷ []) fq f) (timers exp 0 0 (y ∷ []) fq f) x (rw same tt)
        refl (rw same refl) (omega arith) (rw same refl) refl refl (λ a. (refl, refl)))
    where
      same : (x == y) ≡ true
      same = ground arith

  module _ (z : ℕ) (zs : List ℕ) (v : IsActive (timers exp e m (y ∷ z ∷ zs) fq f)) where
    abbrev q : Timers
    q = timers exp e m (y ∷ z ∷ zs) fq f

    adjust-first :
        (o : Option ℕ)
        → (y == x) ≡ true
        → is_at (last? (z ∷ zs)) x ≡ false
        → rmv_adjust q x o
          ≡ some (record q { earliest = add_l e (f x).nextexp; maxper = sub_l m (f x).nextexp })
    unfolding rmv_adjust
    adjust-first o k l = rw (k, l)

    adjust-last :
        (p : ℕ)
        → (y == x) ≡ false
        → is_at (last? (z ∷ zs)) x ≡ true
        → rmv_adjust q x (some p) ≡ some (record q { maxper = sub_l m (f p).nextexp })
    unfolding rmv_adjust is_at
    adjust-last p k l = rw (k, l)

    adjust-middle :
        (p : ℕ)
        → (y == x) ≡ false
        → is_at (last? (z ∷ zs)) x ≡ false
        → rmv_adjust q x (some p) ≡ some (record q { vtimer = joined f x p })
    unfolding rmv_adjust
    adjust-middle p k l = rw (k, l)

    rmv-first : (y == x) ≡ true → Removed q x (vtimer_rmv q x)
    unfolding vtimer_rmv
    rmv-first k = rw (adjust-first (prev? x (y ∷ z ∷ zs)) k not_last) (
        unlink-Removed q
          (record q { earliest = add_l e (f x).nextexp; maxper = sub_l m (f x).nextexp }) x
          (rw same v.distinct.1) refl (rw same (omega (arith, at_x, v.spanned, v.bounded)))
          (omega (arith, at_x, v.spanned, v.bounded))
          (rw same (ap (λ t. times f t (z ∷ zs)) (omega (arith, at_x, v.spanned, v.bounded)))) refl
          refl (λ a. (refl, refl)))
      where
        same : (x == y) ≡ true
        same = ground arith

        at_x : (f x).nextexp ≡ (f y).nextexp
        at_x = ap (λ a. (f a).nextexp) (sym ((==_iff y x).0 k))

        not_last : is_at (last? (z ∷ zs)) x ≡ false
        not_last = elim (Bool-cases (is_at (last? (z ∷ zs)) x)) [
          | inr o ↦ o
          | inl o ↦ absurd (
              true_ne_false (
                sym (has-last? z zs x (is_at_iff (last? (z ∷ zs)) x o))
                ∙ ap (λ a. has a (z ∷ zs)) (sym ((==_iff y x).0 k))
                ∙ v.distinct.0))
        ]

    rmv-last :
        (y == x) ≡ false
        → has x (z ∷ zs) ≡ true
        → is_at (last? (z ∷ zs)) x ≡ true
        → Removed q x (vtimer_rmv q x)
    unfolding vtimer_rmv
    rmv-last k i l =
        rw (before.1, adjust-last before.0 k l)
          (unlink-Removed q (record q { maxper = sub_l m (f before.0).nextexp }) x
            (Distinct-remove x (y ∷ z ∷ zs) v.distinct) refl
            (omega (arith, cut, v.spanned, v.bounded)) (omega (arith, cut, v.spanned, v.bounded))
            (times-cut f x e y (z ∷ zs) is_last i v.distinct) refl refl (λ a. (refl, refl)))
      where
        before : (p : ℕ) × (prev? x (y ∷ z ∷ zs) ≡ some p) × (has p (y ∷ z ∷ zs) ≡ true)
        before = prev?-some x y z zs i

        is_last : last? (y ∷ z ∷ zs) ≡ some x
        is_last = is_at_iff (last? (z ∷ zs)) x l

        cut : span f (remove x (y ∷ z ∷ zs)) + (f before.0).nextexp ≡ span f (y ∷ z ∷ zs)
        cut = span-cut f x y (z ∷ zs) before.0 is_last i v.distinct before.1

    rmv-middle :
        (y == x) ≡ false
        → has x (z ∷ zs) ≡ true
        → is_at (last? (z ∷ zs)) x ≡ false
        → Removed q x (vtimer_rmv q x)
    unfolding vtimer_rmv
    rmv-middle k i l =
        rw (before.1, adjust-middle before.0 k l)
          (unlink-Removed q (record q { vtimer = joined f x before.0 }) x
            (Distinct-remove x (y ∷ z ∷ zs) v.distinct) refl
            (v.spanned
              ∙ sym (
                  span-gap f x before.0 y (z ∷ zs) not_last i v.distinct before.1
                    (omega (arith, v.spanned, v.bounded))))
            v.bounded
            (times-gap f x before.0 e y (z ∷ zs) not_last i v.distinct before.1
              (omega (arith, v.spanned, v.bounded)))
            refl refl (joined-SameSettings f x before.0))
      where
        before : (p : ℕ) × (prev? x (y ∷ z ∷ zs) ≡ some p) × (has p (y ∷ z ∷ zs) ≡ true)
        before = prev?-some x y z zs i

        not_last : last? (y ∷ z ∷ zs) ≢ some x
        not_last = is_at-false (last? (z ∷ zs)) x l

  rmv-cases :
      (ys : List ℕ)
      → IsActive (timers exp e m (y ∷ ys) fq f)
      → has x (y ∷ ys) ≡ true
      → Removed (timers exp e m (y ∷ ys) fq f) x (vtimer_rmv (timers exp e m (y ∷ ys) fq f) x)
  rmv-cases [] v i = rmv-only (ground arith)
  rmv-cases (z ∷ zs) v i = elim (Bool-cases (y == x)) [
    | inl k ↦ rmv-first z zs v k
    | inr k ↦
        let i' = has_behind x y (z ∷ zs) i k in
        elim (Bool-cases (is_at (last? (z ∷ zs)) x)) [
          | inl l ↦ rmv-last z zs v k i' l
          | inr l ↦ rmv-middle z zs v k i' l
        ]
  ]

rmv-list :
    (exp : Plist) (e m : ℕ) (fq : List ℕ) (f : ℕ → Vtimer) (x : ℕ) (xs : List ℕ)
    → IsActive (timers exp e m xs fq f)
    → has x xs ≡ true
    → Removed (timers exp e m xs fq f) x (vtimer_rmv (timers exp e m xs fq f) x)
rmv-list exp e m fq f x [] v i = cc
rmv-list exp e m fq f x (y ∷ ys) v i = rmv-cases exp e m fq f x y ys v i

-- An active timer is taken out, wherever it stands in the queue: the schedule is the old one without
-- it, so all others keep their expirations and their order. There is no fault, the counters of
-- the queue stay right, and the queues of expired and of free timers do not change, nor does
-- the period or the priority of any timer.
pub vtimer_rmv-Removed :
    (q : Timers) (x : ℕ) → IsActive q → has x q.act_q ≡ true → Removed q x (vtimer_rmv q x)
vtimer_rmv-Removed q x v i = rmv-list q.exp_q q.earliest q.maxper q.free_q q.vtimer x q.act_q v i
