-- ===== src/Vtimer/Gap.antt =====
-- What taking a timer out of the middle or off the end of a delta list does to the expirations.
use mathlib.Core.Path.{ap₂}
use minix4rt.Base.{
  ℕ, ◌+◌, ◌<◌, ◌^◌, ◌≡◌, ap, sym, ◌∙◌, inl, inr, true, false, none, some, List, [], ◌∷◌, arith,
  ◌==◌, ==_iff, if◌then◌else◌, has, has_head, has_tail, ne_of_has, ne_of_has_sym, Distinct,
  Bool-cases, remove, ◌≢◌,
}
use minix4rt.Vtimer.{Vtimer, add_l, set_nextexp, last?, prev?}
use minix4rt.Vtimer.Last.{has-last?}
use minix4rt.Vtimer.Times.{
  times, span, remove_time, times-Agree, span-Agree, set_nextexp_other, set_nextexp_self,
}

-- The predecessor of a member that is not the first is a member before it.
pub prev?-some :
    (x y z : ℕ) (zs : List ℕ)
    → has x (z ∷ zs) ≡ true
    → (p : ℕ) × (prev? x (y ∷ z ∷ zs) ≡ some p) × (has p (y ∷ z ∷ zs) ≡ true)
prev?-some x y z [] m = (y, ground arith, has_head y (z ∷ []))
prev?-some x y z (w ∷ ws) m = elim (Bool-cases (z == x)) [
  | inl e ↦ (y, rw e, has_head y (z ∷ w ∷ ws))
  | inr e ↦
      let (p, q, i) = prev?-some x z w ws (ground arith) in (p, rw e q, has_tail p y (z ∷ w ∷ ws) i)
]

-- The predecessor is a member.
has-prev? : (x y : ℕ) (ys : List ℕ) (p : ℕ) → prev? x (y ∷ ys) ≡ some p → has p (y ∷ ys) ≡ true
has-prev? x y [] p e = cc
has-prev? x y (z ∷ zs) p e = elim (Bool-cases (z == x)) [
  | inl h ↦ ground arith
  | inr h ↦ has_tail p y (z ∷ zs) (has-prev? x z zs p (rw h at e))
]

some_eq : {a b : ℕ} → some a ≡ some b → a ≡ b
some_eq e = cc

eq_sym_false : (a b : ℕ) → (a == b) ≡ false → (b == a) ≡ false
eq_sym_false a b h = ground arith

eq_sym_true : (a b : ℕ) → (a == b) ≡ true → (b == a) ≡ true
eq_sym_true a b h = ground arith

eq_of_has_one : (x z : ℕ) → has x (z ∷ []) ≡ true → (x == z) ≡ true
eq_of_has_one x z m = ground arith

pub has_behind :
    (x z : ℕ) (zs : List ℕ) → has x (z ∷ zs) ≡ true → (z == x) ≡ false → has x zs ≡ true
has_behind x z zs m e = ground arith

-- The last timer is taken off: the others keep their expirations.
module _ (f : ℕ → Vtimer) (x : ℕ) where
  pub times-cut :
      (t y : ℕ) (ys : List ℕ)
      → last? (y ∷ ys) ≡ some x
      → has x ys ≡ true
      → Distinct (y ∷ ys)
      → times f t (remove x (y ∷ ys)) ≡ remove_time x (times f t (y ∷ ys))
  times-cut t y [] q m d = cc
  times-cut t y (z ∷ []) q m d = rw (ne_of_has_sym x y (z ∷ []) m d.0, eq_of_has_one x z m)
  times-cut t y (z ∷ w ∷ ws) q m d =
      rw (ne_of_has_sym x y (z ∷ w ∷ ws) m d.0)
        (ap (λ s. (y, t) ∷ s) (times-cut (t + (f y).nextexp) z (w ∷ ws) q (has-last? w ws x q) d.1))

  pub span-cut :
      (y : ℕ) (ys : List ℕ) (p : ℕ)
      → last? (y ∷ ys) ≡ some x
      → has x ys ≡ true
      → Distinct (y ∷ ys)
      → prev? x (y ∷ ys) ≡ some p
      → span f (remove x (y ∷ ys)) + (f p).nextexp ≡ span f (y ∷ ys)
  span-cut y [] p q m d e = cc
  span-cut y (z ∷ []) p q m d e =
      rw (ne_of_has_sym x y (z ∷ []) m d.0, eq_of_has_one x z m)
        (omega (arith, ap (λ a. (f a).nextexp) (y_is_p e (eq_of_has_one x z m))))
    where
      y_is_p : (if z == x then some y else none) ≡ some p → (x == z) ≡ true → y ≡ p
      y_is_p e h = ground arith
  span-cut y (z ∷ w ∷ ws) p q m d e =
      let not_z = ne_of_has_sym x z (w ∷ ws) (has-last? w ws x q) d.1.0 in
      let ih =
        span-cut z (w ∷ ws) p q (has-last? w ws x q) d.1 (rw (eq_sym_false x z not_z) at e) in
      rw (ne_of_has_sym x y (z ∷ w ∷ ws) m d.0, not_z) (omega (arith, rw not_z at ih))

-- A timer is taken out of the middle: its predecessor waits for both.
module _ (f : ℕ → Vtimer) (x p : ℕ) where
  abbrev pub joined : ℕ → Vtimer
  joined = set_nextexp f p (add_l (f p).nextexp (f x).nextexp)

  -- The removed timer `z` comes directly behind `y`.
  module _ (y z w : ℕ) (ws : List ℕ) (d : Distinct (y ∷ z ∷ w ∷ ws))
      (e : prev? x (y ∷ z ∷ w ∷ ws) ≡ some p) (h : (z == x) ≡ true) where
    p_is_y : p ≡ y
    p_is_y = ground arith

    x_is_z : x ≡ z
    x_is_z = ground arith

    joined_y :
        (f y).nextexp + (f z).nextexp < 2 ^ 32 → (joined y).nextexp ≡ (f y).nextexp + (f z).nextexp
    joined_y b =
        ap (λ a. (joined a).nextexp) (sym p_is_y)
        ∙ set_nextexp_self f p _
        ∙ ap₂ (λ a c. add_l (f a).nextexp (f c).nextexp) p_is_y x_is_z
        ∙ omega arith

    joined_behind : (a : ℕ) → has a (w ∷ ws) ≡ true → (joined a).nextexp ≡ (f a).nextexp
    joined_behind a m =
        set_nextexp_other f p _ a
          (rw p_is_y (ne_of_has_sym a y (z ∷ w ∷ ws) (has_tail a z (w ∷ ws) m) d.0))

  -- It comes later.
  joined_before :
      (y z w : ℕ) (ws : List ℕ)
      → Distinct (y ∷ z ∷ w ∷ ws)
      → prev? x (z ∷ w ∷ ws) ≡ some p
      → (joined y).nextexp ≡ (f y).nextexp
  joined_before y z w ws d e =
      set_nextexp_other f p _ y (ne_of_has y p (z ∷ w ∷ ws) d.0 (has-prev? x z (w ∷ ws) p e))

  pub times-gap :
      (t y : ℕ) (ys : List ℕ)
      → last? (y ∷ ys) ≢ some x
      → has x ys ≡ true
      → Distinct (y ∷ ys)
      → prev? x (y ∷ ys) ≡ some p
      → t + span f (y ∷ ys) < 2 ^ 32
      → times joined t (remove x (y ∷ ys)) ≡ remove_time x (times f t (y ∷ ys))
  times-gap t y [] q m d e b = cc
  times-gap t y (z ∷ []) q m d e b =
      absurd (q (ap some (sym ((==_iff x z).0 (eq_of_has_one x z m)))))
  times-gap t y (z ∷ w ∷ ws) q m d e b = elim (Bool-cases (z == x)) [
    | inl h ↦
        rw (ne_of_has_sym x y (z ∷ w ∷ ws) m d.0, eq_sym_true z x h)
          (ap (λ s. (y, t) ∷ s)
            (ap (λ u. times joined u (w ∷ ws))
                (omega (arith, joined_y y z w ws d e h (omega arith)))
              ∙ times-Agree f joined (t + (f y).nextexp + (f z).nextexp) (w ∷ ws)
                  (joined_behind y z w ws d e h)))
    | inr h ↦
        let e' = rw h at e in
        rw (ne_of_has_sym x y (z ∷ w ∷ ws) m d.0, joined_before y z w ws d e')
          (ap (λ s. (y, t) ∷ s)
            (times-gap (t + (f y).nextexp) z (w ∷ ws) q (has_behind x z (w ∷ ws) m h) d.1 e'
              (omega arith)))
  ]

  pub span-gap :
      (y : ℕ) (ys : List ℕ)
      → last? (y ∷ ys) ≢ some x
      → has x ys ≡ true
      → Distinct (y ∷ ys)
      → prev? x (y ∷ ys) ≡ some p
      → span f (y ∷ ys) < 2 ^ 32
      → span joined (remove x (y ∷ ys)) ≡ span f (y ∷ ys)
  span-gap y [] q m d e b = cc
  span-gap y (z ∷ []) q m d e b = absurd (q (ap some (sym ((==_iff x z).0 (eq_of_has_one x z m)))))
  span-gap y (z ∷ w ∷ ws) q m d e b = elim (Bool-cases (z == x)) [
    | inl h ↦
        rw (ne_of_has_sym x y (z ∷ w ∷ ws) m d.0, eq_sym_true z x h)
          (omega (
            arith,
            joined_y y z w ws d e h (omega arith),
            span-Agree f joined (w ∷ ws) (joined_behind y z w ws d e h),
          ))
    | inr h ↦
        let e' = rw h at e in
        let ih = span-gap z (w ∷ ws) q (has_behind x z (w ∷ ws) m h) d.1 e' (omega arith) in
        rw (ne_of_has_sym x y (z ∷ w ∷ ws) m d.0, eq_sym_false z x h)
          (omega (arith, joined_before y z w ws d e', rw (eq_sym_false z x h) at ih))
  ]
