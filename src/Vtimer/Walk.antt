-- ===== src/Vtimer/Walk.antt =====
-- The loop of `MRT_vtimer_ins`: where it stops, the new timer is in its place.
use minix4rt.Base.{
  ℕ, ◌+◌, ◌≤◌, ◌<◌, ◌^◌, ◌≡◌, refl, ap, ◌∙◌, inl, inr, true, false, List, [], ◌∷◌, arith, leb, ◌==◌,
  has, has_head, has_tail, not_has_tail, ne_of_has, ne_of_has_sym, Distinct, Bool-cases,
}
use mathlib.Core.Path.{ap₂}
use minix4rt.Vtimer.{Vtimer, add_l, sub_l, set_nextexp, walk}
use minix4rt.Vtimer.Times.{
  times, span, insert_time, times-Agree, set_nextexp_other, set_nextexp_self,
}

-- The pool after the insertion of `x` between `prev` and the timer that expires at `tick`.
abbrev between : (ℕ → Vtimer) → ℕ → ℕ → ℕ → ℕ → ℕ → Vtimer
between f x p prev tick =
    let f' = set_nextexp f x (sub_l tick p) in
    set_nextexp f' prev (sub_l (f' prev).nextexp (f' x).nextexp)

between_other :
    (f : ℕ → Vtimer) (x p prev tick a : ℕ)
    → (a == x) ≡ false
    → (a == prev) ≡ false
    → (between f x p prev tick a).nextexp ≡ (f a).nextexp
between_other f x p prev tick a h k = set_nextexp_other _ prev _ a k ∙ set_nextexp_other f x _ a h

between_new :
    (f : ℕ → Vtimer) (x p prev tick : ℕ)
    → (x == prev) ≡ false
    → (between f x p prev tick x).nextexp ≡ sub_l tick p
between_new f x p prev tick k = set_nextexp_other _ prev _ x k ∙ set_nextexp_self f x _

between_prev :
    (f : ℕ → Vtimer) (x p prev tick : ℕ)
    → (prev == x) ≡ false
    → (between f x p prev tick prev).nextexp ≡ sub_l (f prev).nextexp (sub_l tick p)
between_prev f x p prev tick k =
    set_nextexp_self _ prev _ ∙ ap₂ sub_l (set_nextexp_other f x _ prev k) (set_nextexp_self f x _)

leb-false : (a b : ℕ) → b < a → leb a b ≡ false
leb-false a b h = ground arith

-- What the loop yields behind `prev`, which expires at `t`.
pub record Walked (f : ℕ → Vtimer) (x p prev t tick : ℕ) (xs : List ℕ) (r : List ℕ × (ℕ → Vtimer))
    : Type 0 where
  pub inserted : times r.1 t (prev ∷ r.0) ≡ (prev, t) ∷ insert_time x p (times f tick xs)
  pub outside :
      (a : ℕ) → (a == x) ≡ false → has a (prev ∷ xs) ≡ false → (r.1 a).nextexp ≡ (f a).nextexp

here-Walked :
    (f : ℕ → Vtimer) (x p prev t tick y : ℕ) (rest : List ℕ)
    → t + (f prev).nextexp ≡ tick
    → t ≤ p
    → p < tick
    → tick < 2 ^ 32
    → Distinct (prev ∷ y ∷ rest)
    → has x (prev ∷ y ∷ rest) ≡ false
    → Walked f x p prev t tick (y ∷ rest) (x ∷ y ∷ rest, between f x p prev tick)
here-Walked f x p prev t tick y rest e low high bound d out = record {
  inserted = rw (leb-false tick p high) (
      ap (λ s. (prev, t) ∷ s)
        (ap₂ (λ u s. (x, u) ∷ s) at_p
          (ap₂ (λ u s. (y, u) ∷ s) at_tick
            (rw (at_tick, same y (has_head y rest))
              (times-Agree f g (tick + (f y).nextexp) rest
                (λ a m. same a (has_tail a y rest m)))))));
  outside = λ a h k.
      between_other f x p prev tick a h
        (ne_of_has a prev (prev ∷ y ∷ rest) k (has_head prev (y ∷ rest)));
}
  where
    g : ℕ → Vtimer
    g = between f x p prev tick

    at_p : t + (g prev).nextexp ≡ p
    at_p = omega (
      arith,
      between_prev f x p prev tick
          (ne_of_has_sym prev x (prev ∷ y ∷ rest) (has_head prev (y ∷ rest)) out),
    )

    at_tick : t + (g prev).nextexp + (g x).nextexp ≡ tick
    at_tick = omega (
      arith,
      at_p,
      between_new f x p prev tick
          (ne_of_has x prev (prev ∷ y ∷ rest) out (has_head prev (y ∷ rest))),
    )

    same : (a : ℕ) → has a (y ∷ rest) ≡ true → (g a).nextexp ≡ (f a).nextexp
    same a m =
        between_other f x p prev tick a
          (ne_of_has_sym a x (prev ∷ y ∷ rest) (has_tail a prev (y ∷ rest) m) out)
          (ne_of_has_sym a prev (y ∷ rest) m d.0)

-- The loop goes on behind a timer that does not expire later than `p`.
step-Walked :
    (f : ℕ → Vtimer) (x p prev t tick y : ℕ) (rest : List ℕ) (r : List ℕ × (ℕ → Vtimer))
    → t + (f prev).nextexp ≡ tick
    → leb tick p ≡ true
    → has prev (y ∷ rest) ≡ false
    → (prev == x) ≡ false
    → Walked f x p y tick (tick + (f y).nextexp) rest r
    → Walked f x p prev t tick (y ∷ rest) (y ∷ r.0, r.1)
step-Walked f x p prev t tick y rest r e before d ne k = record {
  inserted = rw (k.outside prev ne d, e, before) (ap (λ s. (prev, t) ∷ s) k.inserted);
  outside = λ a h o. k.outside a h (not_has_tail a prev (y ∷ rest) o);
}

pub walk-Walked :
    (f : ℕ → Vtimer) (x p prev t tick y : ℕ) (rest : List ℕ)
    → t + (f prev).nextexp ≡ tick
    → t ≤ p
    → p < tick + span f (y ∷ rest)
    → tick + span f (y ∷ rest) < 2 ^ 32
    → Distinct (prev ∷ y ∷ rest)
    → has x (prev ∷ y ∷ rest) ≡ false
    → Walked f x p prev t tick (y ∷ rest) (walk f x p prev tick (y ∷ rest))
unfolding walk
walk-Walked f x p prev t tick y [] e low high bound d out =
    rw (leb-false tick p (omega arith))
      (here-Walked f x p prev t tick y [] e low (omega arith) (omega arith) d out)
walk-Walked f x p prev t tick y (z ∷ zs) e low high bound d out = elim (Bool-cases (leb tick p)) [
  | inr past ↦
      rw past (here-Walked f x p prev t tick y (z ∷ zs) e low (ground arith) (omega arith) d out)
  | inl before ↦
      let k =
        walk-Walked f x p y tick (tick + (f y).nextexp) z zs refl (ground arith) (omega arith)
          (omega arith) d.1 (not_has_tail x prev (y ∷ z ∷ zs) out) in
      rw (before, no_wrap)
        (step-Walked f x p prev t tick y (z ∷ zs) _ e before d.0
          (ne_of_has_sym prev x (prev ∷ y ∷ z ∷ zs) (has_head prev (y ∷ z ∷ zs)) out) k)
]
  where
    no_wrap : add_l tick (f y).nextexp ≡ tick + (f y).nextexp
    no_wrap = omega arith
