-- ===== src/Vtimer/Last.antt =====
-- The insertion behind the last timer: only `nextexp` of that timer changes.
use minix4rt.Base.{
  ℕ, ◌+◌, ◌≤◌, ◌≡◌, refl, ap, ◌∙◌, true, false, some, List, [], ◌∷◌, ◌++◌, arith, leb, ◌==◌, has,
  has_head, has_tail, not_has_tail, ne_of_has, ne_of_has_sym, Distinct,
}
use minix4rt.Vtimer.{Vtimer, last?}
use minix4rt.Vtimer.Times.{times, span, insert_time}

pub last?-some : (y : ℕ) (ys : List ℕ) → (l : ℕ) × (last? (y ∷ ys) ≡ some l)
last?-some y [] = (y, refl)
last?-some y (z ∷ zs) = last?-some z zs

pub has-last? : (y : ℕ) (ys : List ℕ) (l : ℕ) → last? (y ∷ ys) ≡ some l → has l (y ∷ ys) ≡ true
has-last? y [] l e = ground arith
has-last? y (z ∷ zs) l e = has_tail l y (z ∷ zs) (has-last? z zs l e)

pub leb-true : (a b : ℕ) → a ≤ b → leb a b ≡ true
leb-true a b h = ground arith

-- A timer behind all others: only `nextexp` of the last one, `l`, has changed.
module _ (f g : ℕ → Vtimer) (x p l : ℕ)
    (same : (a : ℕ) → (a == x) ≡ false → (a == l) ≡ false → (g a).nextexp ≡ (f a).nextexp) where
  -- A timer that is not the last one.
  same_head :
      (y z : ℕ) (zs : List ℕ)
      → last? (z ∷ zs) ≡ some l
      → Distinct (y ∷ z ∷ zs)
      → has x (y ∷ z ∷ zs) ≡ false
      → (g y).nextexp ≡ (f y).nextexp
  same_head y z zs q d out =
      same y (ne_of_has_sym y x (y ∷ z ∷ zs) (has_head y (z ∷ zs)) out)
        (ne_of_has y l (z ∷ zs) d.0 (has-last? z zs l q))

  pub times-last :
      (e y : ℕ) (ys : List ℕ)
      → last? (y ∷ ys) ≡ some l
      → Distinct (y ∷ ys)
      → has x (y ∷ ys) ≡ false
      → e + span f (y ∷ ys) + (g l).nextexp ≡ p
      → times g e ((y ∷ ys) ++ (x ∷ [])) ≡ insert_time x p (times f e (y ∷ ys))
  times-last e y [] q d out at =
      rw (leb-true e p (omega arith))
        (ap (λ t. (y, e) ∷ (x, t) ∷ []) (ap (λ a. e + (g a).nextexp) (y_is_l q) ∙ omega arith))
    where
      y_is_l : some y ≡ some l → y ≡ l
      y_is_l e = cc
  times-last e y (z ∷ zs) q d out at =
      rw (same_head y z zs q d out, leb-true e p (omega arith))
        (ap (λ s. (y, e) ∷ s)
          (times-last (e + (f y).nextexp) z zs q d.1 (not_has_tail x y (z ∷ zs) out) (omega arith)))

  pub span-last :
      (y : ℕ) (ys : List ℕ)
      → last? (y ∷ ys) ≡ some l
      → Distinct (y ∷ ys)
      → has x (y ∷ ys) ≡ false
      → span g ((y ∷ ys) ++ (x ∷ [])) ≡ span f (y ∷ ys) + (g l).nextexp
  span-last y [] q d out = omega (arith, ap (λ a. (g a).nextexp) (y_is_l q))
    where
      y_is_l : some y ≡ some l → y ≡ l
      y_is_l e = cc
  span-last y (z ∷ zs) q d out =
      omega (arith, same_head y z zs q d out, span-last z zs q d.1 (not_has_tail x y (z ∷ zs) out))
