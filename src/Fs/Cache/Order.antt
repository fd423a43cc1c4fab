-- ===== src/Fs/Cache/Order.antt =====
-- The sort of `rw_scattered` (src/fs/cache.c) only changes the order of the buffers.
use minix4rt.Base.{
  ℕ, zero, suc, ◌+◌, ◌-◌, ◌/◌, ◌≤◌, ◌<◌, Bool, true, ◌&&◌, List, [], ◌∷◌, length, has,
  if◌then◌else◌, ◌==◌, ltb, leb, ◌≡◌, refl, sym, ap, ◌∙◌, inl, inr, Bool-cases, ==_iff, arith,
}
use minix4rt.Fs.Cache.Scatter.{
  swap, sift, sift_all, gap_up, gap_down, shell_sort, elements, array_of,
}

-- The first `n` elements of two arrays are the same ones.
abbrev pub Rearranged : ℕ → (ℕ → ℕ) → (ℕ → ℕ) → Type 0
Rearranged n a b =
    ((p : ℕ) → p < n → (q : ℕ) × (q < n) × (b q ≡ a p))
    × ((p : ℕ) → p < n → (q : ℕ) × (q < n) × (b p ≡ a q))

Rearranged-refl : (n : ℕ) (a : ℕ → ℕ) → Rearranged n a a
Rearranged-refl n a = ((λ p h. (p, h, refl)), (λ p h. (p, h, refl)))

Rearranged-trans : (n : ℕ) (a b c : ℕ → ℕ) → Rearranged n a b → Rearranged n b c → Rearranged n a c
Rearranged-trans n a b c (f, g) (f', g') = (
  (λ p h. let (q, hq, e) = f p h in let (r, hr, e') = f' q hq in (r, hr, e' ∙ e)),
  (λ p h. let (q, hq, e) = g' p h in let (r, hr, e') = g q hq in (r, hr, e ∙ e')),
)

other_place : ℕ → ℕ → ℕ → ℕ
other_place i j p = if p == i then j else if p == j then i else p

other_place_lt : (n i j p : ℕ) → i < n → j < n → p < n → other_place i j p < n
unfolding other_place
other_place_lt n i j p hi hj hp = ground arith

swap-other_place : (a : ℕ → ℕ) (i j p : ℕ) → swap a i j (other_place i j p) ≡ a p
unfolding other_place
swap-other_place a i j p = ground arith

swap_back : (a : ℕ → ℕ) (i j p : ℕ) → swap a i j p ≡ a (other_place i j p)
unfolding other_place
swap_back a i j p = ground arith

swap-Rearranged : (n : ℕ) (a : ℕ → ℕ) (i j : ℕ) → i < n → j < n → Rearranged n a (swap a i j)
swap-Rearranged n a i j hi hj = (
  (λ p h. (other_place i j p, other_place_lt n i j p hi hj h, swap-other_place a i j p)),
  (λ p h. (other_place i j p, other_place_lt n i j p hi hj h, swap_back a i j p)),
)

sift-Rearranged : (m n gap p : ℕ) (key a : ℕ → ℕ) → p < n → Rearranged n a (sift m gap p key a)
unfolding sift
sift-Rearranged zero n gap p key a h = Rearranged-refl n a
sift-Rearranged (suc m) n gap p key a h =
    elim (Bool-cases (leb gap p && ltb (key (a p)) (key (a (p - gap))))) [
      | inl e ↦ rw e (
          Rearranged-trans n a (swap a (p - gap) p) (sift m gap (p - gap) key (swap a (p - gap) p))
            (swap-Rearranged n a (p - gap) p (omega (arith, h)) h)
            (sift-Rearranged m n gap (p - gap) key (swap a (p - gap) p) (omega (arith, h))))
      | inr e ↦ rw e (Rearranged-refl n a)
    ]

sift_all-Rearranged :
    (m n gap j : ℕ) (key a : ℕ → ℕ) → j + m ≤ n → Rearranged n a (sift_all m gap j key a)
unfolding sift_all
sift_all-Rearranged zero n gap j key a h = Rearranged-refl n a
sift_all-Rearranged (suc m) n gap j key a h =
    Rearranged-trans n a (sift (suc j) gap j key a)
      (sift_all m gap (suc j) key (sift (suc j) gap j key a))
      (sift-Rearranged (suc j) n gap j key a (omega (arith, h)))
      (sift_all-Rearranged m n gap (suc j) key (sift (suc j) gap j key a) (omega (arith, h)))

-- All buffers are there, if no gap is above the size; a loop with a larger one does nothing.
round-Rearranged : (n gap : ℕ) (key a : ℕ → ℕ) → Rearranged n a (sift_all (n - gap) gap gap key a)
unfolding sift_all
round-Rearranged n gap key a = elim (Bool-cases (leb gap n)) [
  | inl e ↦ sift_all-Rearranged (n - gap) n gap gap key a (ground (arith, e))
  | inr e ↦ none_left (n - gap) (ground (arith, e))
]
  where
    none_left : (m : ℕ) → m ≡ 0 → Rearranged n a (sift_all m gap gap key a)
    none_left m e = rw e (Rearranged-refl n a)

gap_down-Rearranged : (m gap n : ℕ) (key a : ℕ → ℕ) → Rearranged n a (gap_down m gap n key a)
unfolding gap_down
gap_down-Rearranged zero gap n key a = Rearranged-refl n a
gap_down-Rearranged (suc m) gap n key a = elim (Bool-cases (gap == 1)) [
  | inl e ↦ rw e (Rearranged-refl n a)
  | inr e ↦ rw e (
      Rearranged-trans n a (sift_all (n - gap / 3) (gap / 3) (gap / 3) key a)
        (gap_down m (gap / 3) n key (sift_all (n - gap / 3) (gap / 3) (gap / 3) key a))
        (round-Rearranged n (gap / 3) key a)
        (gap_down-Rearranged m (gap / 3) n key (sift_all (n - gap / 3) (gap / 3) (gap / 3) key a)))
]

pub shell_sort-Rearranged : (n : ℕ) (key a : ℕ → ℕ) → Rearranged n a (shell_sort n key a)
unfolding shell_sort
shell_sort-Rearranged n key a = gap_down-Rearranged (n + 2) (gap_up (n + 1) 1 n) n key a

-- Arrays and lists.
has-elements : (n i : ℕ) (a : ℕ → ℕ) (p : ℕ) → i ≤ p → p < i + n → has (a p) (elements n i a) ≡ true
unfolding elements
has-elements zero i a p h1 h2 = absurd (omega (arith, h1, h2))
has-elements (suc n) i a p h1 h2 = elim (Bool-cases (p == i)) [
  | inl e ↦ ground (arith, e)
  | inr e ↦ ground (arith, has-elements n (suc i) a p, h1, h2, e)
]

element_place :
    (n i : ℕ) (a : ℕ → ℕ) (x : ℕ)
    → has x (elements n i a) ≡ true
    → (p : ℕ) × (i ≤ p) × (p < i + n) × (a p ≡ x)
unfolding elements
element_place zero i a x h = absurd (cc)
element_place (suc n) i a x h = elim (Bool-cases (x == a i)) [
  | inl e ↦ (i, omega arith, omega arith, sym ((==_iff x (a i)).0 e))
  | inr e ↦
      let (p, l, u, q) = element_place n (suc i) a x (ground (arith, h, e)) in
      (p, omega (arith, l), omega (arith, u), q)
]

list_place : (l : List ℕ) (x : ℕ) → has x l ≡ true → (p : ℕ) × (p < length l) × (array_of l p ≡ x)
unfolding array_of
list_place [] x h = absurd (cc)
list_place (y ∷ l) x h = elim (Bool-cases (x == y)) [
  | inl e ↦ (0, omega arith, sym ((==_iff x y).0 e))
  | inr e ↦ let (p, u, q) = list_place l x (ground (arith, h, e)) in (suc p, omega (arith, u), q)
]

has-array_of : (l : List ℕ) (p : ℕ) → p < length l → has (array_of l p) l ≡ true
unfolding array_of
has-array_of [] p h = absurd (omega (arith, h))
has-array_of (y ∷ l) zero h = ground arith
has-array_of (y ∷ l) (suc p) h = ground (arith, has-array_of l p (omega (arith, h)))

-- The sorted list has exactly the members of the list.
pub has-sorted :
    (l : List ℕ) (key : ℕ → ℕ) (x : ℕ)
    → has x (elements (length l) 0 (shell_sort (length l) key (array_of l))) ≡ has x l
has-sorted l key x = same (there x) (back x)
  where
    there :
        (x : ℕ)
        → has x l ≡ true
        → has x (elements (length l) 0 (shell_sort (length l) key (array_of l))) ≡ true
    there x h =
        let (p, u, e) = list_place l x h in
        let (q, hq, e') = (shell_sort-Rearranged (length l) key (array_of l)).0 p u in
        ap (λ z. has z (elements (length l) 0 (shell_sort (length l) key (array_of l))))
          (sym (e' ∙ e))
        ∙ has-elements (length l) 0 (shell_sort (length l) key (array_of l)) q (omega arith)
            (omega (arith, hq))

    back :
        (x : ℕ)
        → has x (elements (length l) 0 (shell_sort (length l) key (array_of l))) ≡ true
        → has x l ≡ true
    back x h =
        let (p, _, u, e) =
          element_place (length l) 0 (shell_sort (length l) key (array_of l)) x h in
        let (q, hq, e') =
          (shell_sort-Rearranged (length l) key (array_of l)).1 p (omega (arith, u)) in
        ap (λ z. has z l) (sym e ∙ e') ∙ has-array_of l q hq

    same : {a b : Bool} → (b ≡ true → a ≡ true) → (a ≡ true → b ≡ true) → a ≡ b
    same {a} {b} f g = elim (Bool-cases a) [
      | inl e ↦ e ∙ sym (g e)
      | inr e ↦ elim (Bool-cases b) [ inl e' ↦ f e' ∙ sym e' | inr e' ↦ e ∙ sym e' ]
    ]
