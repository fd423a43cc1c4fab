-- ===== src/Plist/Highest.antt =====
-- `MRT_plist_get` finds the first object of the highest priority that has one.
use minix4rt.Base.{
  ℕ, zero, suc, ◌+◌, ◌≤◌, ◌<◌, ◌≡◌, refl, inl, inr, true, Option, none, some, List, [], ◌∷◌, arith,
  ◌==◌, head?, length, has, ap, sym, ◌∙◌, ==_iff, Bool-cases, List-cases,
}
use minix4rt.Plist.{Plist, nr_prty, plist_get, get_loop}
use minix4rt.Plist.Invariant.{IsPlist, total}

-- What the loop finds among the `n` priorities from `p` on.
abbrev Found : Plist → ℕ → ℕ → Option ℕ → Type 0
Found pl n p none = (q : ℕ) → p ≤ q → q < p + n → pl.list q ≡ []
Found pl n p (some x) =
    (t : ℕ) × (t < p + n)
    × (head? (pl.list t) ≡ some x)
    × ((q : ℕ) → p ≤ q → q < t → pl.list q ≡ [])

empty_or_past :
    (pl : Plist) (p q : ℕ) → pl.list p ≡ [] → p ≤ q → (p < q → pl.list q ≡ []) → pl.list q ≡ []
empty_or_past pl p q e h past = elim (Bool-cases (q == p)) [
  | inl i ↦ ap pl.list ((==_iff q p).0 i) ∙ e
  | inr i ↦ past (ground arith)
]

Found-skip :
    (pl : Plist) (n p : ℕ) (r : Option ℕ)
    → pl.list p ≡ []
    → Found pl n (suc p) r
    → Found pl (suc n) p r
Found-skip pl n p none e f = λ q h k. empty_or_past pl p q e h (λ l. f q l (omega arith))
Found-skip pl n p (some x) e (t, below, first, before) =
    (t, omega arith, first, λ q h k. empty_or_past pl p q e h (λ l. before q l k))

get_loop-Found : (pl : Plist) (n p : ℕ) → IsPlist pl → Found pl n p (get_loop n p pl)
unfolding get_loop
get_loop-Found pl zero p v = λ q h k. absurd (omega arith)
get_loop-Found pl (suc n) p v = elim (List-cases (pl.list p)) [
  | inl e ↦ rw (v.bits p, e) (Found-skip pl n p _ e (get_loop-Found pl n (suc p) v))
  | inr (x, xs, e) ↦ rw (v.bits p, e) (p, omega arith, rw e, λ q h k. absurd (omega arith))
]

total-zero :
    (n p : ℕ) (f : ℕ → List ℕ) → total n p f ≡ 0 → (q : ℕ) → p ≤ q → q < p + n → length (f q) ≡ 0
unfolding total
total-zero zero p f e q h k = absurd (omega arith)
total-zero (suc n) p f e q h k = elim (Bool-cases (q == p)) [
  | inl i ↦ ap (λ a. length (f a)) ((==_iff q p).0 i) ∙ (omega arith)
  | inr i ↦ total-zero n (suc p) f (omega arith) q (ground arith) (omega arith)
]

eq_nil_of_length : (xs : List ℕ) → length xs ≡ 0 → xs ≡ []
eq_nil_of_length [] h = refl
eq_nil_of_length (x ∷ xs) h = absurd (omega arith)

pub lists-empty : (pl : Plist) → IsPlist pl → pl.in_q ≡ 0 → (q : ℕ) → q < nr_prty → pl.list q ≡ []
lists-empty pl v e q h =
    eq_nil_of_length (pl.list q) (total-zero nr_prty 0 pl.list (sym v.count ∙ e) q (omega arith) h)

-- Nothing is found if every list is empty; else the head of the first list that is not empty.
abbrev pub Highest : Plist → Option ℕ → Type 0
Highest pl none = (q : ℕ) → q < nr_prty → pl.list q ≡ []
Highest pl (some x) =
    (t : ℕ) × (t < nr_prty) × (head? (pl.list t) ≡ some x) × ((q : ℕ) → q < t → pl.list q ≡ [])

Found-Highest : (pl : Plist) (r : Option ℕ) → Found pl nr_prty 0 r → Highest pl r
Found-Highest pl none f = λ q h. f q (omega arith) h
Found-Highest pl (some x) (t, below, first, before) =
    (t, below, first, λ q h. before q (omega arith) h)

-- In a well-formed priority list the code finds the first object of the highest priority (the least
-- number) that has one, and NULL exactly where no list holds an object.
pub plist_get-Highest : (pl : Plist) → IsPlist pl → Highest pl (plist_get pl)
unfolding plist_get
plist_get-Highest pl v = elim (Bool-cases (pl.in_q == 0)) [
  | inl e ↦ rw e (λ q h.
      eq_nil_of_length (pl.list q)
        (total-zero nr_prty 0 pl.list (sym v.count ∙ (==_iff pl.in_q 0).0 e) q (omega arith) h))
  | inr e ↦ rw e (Found-Highest pl _ (get_loop-Found pl nr_prty 0 v))
]

total-empty :
    (n p : ℕ) (f : ℕ → List ℕ) → ((q : ℕ) → p ≤ q → q < p + n → f q ≡ []) → total n p f ≡ 0
unfolding total
total-empty zero p f e = refl
total-empty (suc n) p f e = omega (
  arith,
  ap length (e p (omega arith) (omega arith)),
  total-empty n (suc p) f (λ q h k. e q (omega arith) (omega arith)),
)

has-head? : (x : ℕ) (xs : List ℕ) → head? xs ≡ some x → has x xs ≡ true
has-head? x [] h = cc
has-head? x (y ∷ ys) h = ground arith

-- In a well-formed priority list whose counter is not 0 the code finds an object, and it is in the
-- list of some priority below 16.
pub plist_get-some :
    (pl : Plist)
    → IsPlist pl
    → 0 < pl.in_q
    → (x : ℕ) × (plist_get pl ≡ some x) × (t : ℕ) × (t < nr_prty) × (has x (pl.list t) ≡ true)
plist_get-some pl v pos = go (plist_get pl) refl
  where
    go :
        (r : Option ℕ)
        → plist_get pl ≡ r
        → (x : ℕ) × (plist_get pl ≡ some x) × (t : ℕ) × (t < nr_prty) × (has x (pl.list t) ≡ true)
    go none e =
        let f : Highest pl none = rw e at (plist_get-Highest pl v) in
        absurd (omega (arith, v.count, total-empty nr_prty 0 pl.list (λ q h k. f q k)))
    go (some x) e =
        let (t, below, first, _) : Highest pl (some x) = rw e at (plist_get-Highest pl v) in
        (x, e, t, below, has-head? x (pl.list t) first)
