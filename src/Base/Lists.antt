-- ===== src/Base/Lists.antt =====
-- Lists measured by native numbers, membership as a Boolean, and predicates by recursion.
use Prim.Native.Nat.{ℕ, suc, ◌+◌}
use mathlib.Core.Path.{◌≡◌, refl, ap}
use mathlib.Core.Logic.{inl, inr}
use mathlib.Core.Bool.{Bool, true, false, ◌||◌}
use mathlib.Core.List.{List, [], ◌∷◌, ◌++◌}
use mathlib.Core.Option.{Option, none, some}
use native.Mathlib.Omega.{arith}
use minix4rt.Base.Tests.{==_refl, Bool-cases, ◌==◌, if◌then◌else◌}

module _ {ℓ} {A : Type ℓ} where
  abbrev pub length : List A → ℕ
  length [] = 0
  length (x ∷ xs) = suc (length xs)

  abbrev pub head? : List A → Option A
  head? [] = none
  head? (x ∷ xs) = some x

  abbrev pub is_empty : List A → Bool
  is_empty [] = true
  is_empty (x ∷ xs) = false

  abbrev pub All {κ} : (A → Type κ) → List A → Type κ
  All P [] = Unit
  All P (x ∷ xs) = P x × All P xs

  pub length-append : (xs ys : List A) → length (xs ++ ys) ≡ length xs + length ys
  length-append [] ys = omega arith
  length-append (x ∷ xs) ys = omega (arith, length-append xs ys)

  pub head?-append_cons :
      (xs : List A) (y : A) (ys zs : List A) → head? (xs ++ (y ∷ ys)) ≡ head? (xs ++ (y ∷ zs))
  head?-append_cons [] y ys zs = refl
  head?-append_cons (x ∷ xs) y ys zs = refl

-- Whether a number occurs in a list.
abbrev pub has : ℕ → List ℕ → Bool
has a [] = false
has a (x ∷ xs) = (a == x) || has a xs

-- The list without the first occurrence of a number.
abbrev pub remove : ℕ → List ℕ → List ℕ
remove a [] = []
remove a (x ∷ xs) = if a == x then xs else x ∷ remove a xs

-- No number occurs twice.
abbrev pub Distinct : List ℕ → Type 0
Distinct [] = Unit
Distinct (x ∷ xs) = (has x xs ≡ false) × Distinct xs

pub has-append : (a : ℕ) (xs ys : List ℕ) → has a (xs ++ ys) ≡ (has a xs || has a ys)
has-append a [] ys = refl
has-append a (x ∷ xs) ys = ground (arith, has-append a xs ys)

pub has_head : (a : ℕ) (xs : List ℕ) → has a (a ∷ xs) ≡ true
has_head a xs = ground arith

pub has_tail : (a x : ℕ) (xs : List ℕ) → has a xs ≡ true → has a (x ∷ xs) ≡ true
has_tail a x xs h = ground arith

pub not_has_tail : (a x : ℕ) (xs : List ℕ) → has a (x ∷ xs) ≡ false → has a xs ≡ false
not_has_tail a x xs h = ground arith

pub ne_of_has : (a b : ℕ) (xs : List ℕ) → has a xs ≡ false → has b xs ≡ true → (a == b) ≡ false
ne_of_has a b [] h k = cc
ne_of_has a b (x ∷ xs) h k = ground (arith, ne_of_has a b xs)

pub ne_of_has_sym : (a b : ℕ) (xs : List ℕ) → has a xs ≡ true → has b xs ≡ false → (a == b) ≡ false
ne_of_has_sym a b [] h k = cc
ne_of_has_sym a b (x ∷ xs) h k = ground (arith, ne_of_has_sym a b xs)

pub not_has_parts :
    (a : ℕ) (xs : List ℕ) (x : ℕ) (ys : List ℕ)
    → has a (xs ++ (x ∷ ys)) ≡ false
    → (has a xs ≡ false) × (has a ys ≡ false)
not_has_parts a xs x ys o = ground (arith, has-append a xs (x ∷ ys))

pub length-remove : (a : ℕ) (xs : List ℕ) → has a xs ≡ true → length (remove a xs) + 1 ≡ length xs
length-remove a [] h = ground arith
length-remove a (x ∷ xs) h = ground (arith, length-remove a xs)

pub has-remove-false : (b a : ℕ) (xs : List ℕ) → has b xs ≡ false → has b (remove a xs) ≡ false
has-remove-false b a [] h = refl
has-remove-false b a (x ∷ xs) h = ground (arith, has-remove-false b a xs)

pub has-remove_self : (a : ℕ) (xs : List ℕ) → Distinct xs → has a (remove a xs) ≡ false
has-remove_self a [] d = refl
has-remove_self a (x ∷ xs) d = ground (arith, has-remove_self a xs)

pub has-remove_ne : (b a : ℕ) (xs : List ℕ) → (b == a) ≡ false → has b (remove a xs) ≡ has b xs
has-remove_ne b a [] h = refl
has-remove_ne b a (x ∷ xs) h = ground (arith, has-remove_ne b a xs)

pub Distinct-remove : (a : ℕ) (xs : List ℕ) → Distinct xs → Distinct (remove a xs)
Distinct-remove a [] d = tt
Distinct-remove a (x ∷ xs) d = ground (arith, Distinct-remove a xs, has-remove-false x a xs)

pub Distinct-append_cons :
    (xs : List ℕ) (x : ℕ) → Distinct xs → has x xs ≡ false → Distinct (xs ++ (x ∷ []))
Distinct-append_cons [] x d h = (refl, tt)
Distinct-append_cons (y ∷ xs) x d h =
    ground (arith, Distinct-append_cons xs x, has-append y xs (x ∷ []))

-- The parts of a list without repetition have no repetition and no common member.
pub Distinct-parts :
    (xs ys : List ℕ)
    → Distinct (xs ++ ys)
    → Distinct xs × Distinct ys × ((a : ℕ) → has a xs ≡ true → has a ys ≡ false)
Distinct-parts [] ys d = (tt, d, λ a m. cc)
Distinct-parts (x ∷ xs) ys d =
    let (l, r, apart) = Distinct-parts xs ys d.1 in
    (
      (ground (arith, d.0, has-append x xs ys), l),
      r,
      λ a m. ground (arith, d.0, has-append x xs ys, apart a),
    )

pub Distinct-drop :
    (xs : List ℕ) (x : ℕ) (ys : List ℕ) → Distinct (xs ++ (x ∷ ys)) → Distinct (xs ++ ys)
Distinct-drop [] x ys d = d.1
Distinct-drop (z ∷ xs) x ys d =
    (ground (arith, d.0, has-append z xs (x ∷ ys), has-append z xs ys), Distinct-drop xs x ys d.1)

pub remove-append_cons : (x : ℕ) (xs : List ℕ) → has x xs ≡ false → remove x (xs ++ (x ∷ [])) ≡ xs
remove-append_cons x [] h = rw (==_refl x)
remove-append_cons x (y ∷ xs) h = elim (Bool-cases (x == y)) [
  | inl e ↦ ground arith
  | inr e ↦ rw e (ap (λ l. y ∷ l) (remove-append_cons x xs (not_has_tail x y xs h)))
]
