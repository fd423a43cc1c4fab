-- ===== src/Alloc/RoundTrip.antt =====
-- A block that was allocated can be given back, and that restores the free memory.
use minix4rt.Base.{
  ℕ, suc, ◌+◌, ◌≤◌, ◌<◌, ◌^◌, ◌≡◌, sym, ◌∙◌, ◌≢◌, ◌⊎◌, inl, inr, Bool, true, false, ◌||◌, some, [],
  ◌∷◌, arith, leb, Bool-cases, max, true_ne_false, ◌-◌,
}
use minix4rt.Alloc.{Hole, Holes, Memory, alloc_mem, free_mem, max_hole}
use minix4rt.Alloc.Sorted.{end, Above, inside, covers, Apart}
use minix4rt.Alloc.Free.{free_mem-Freed}
use minix4rt.Alloc.Take.{TakenFrom, alloc_mem-TakenFrom}

inside_of_bounds : (a base len : ℕ) → base ≤ a → a < base + len → inside a base len ≡ true
inside_of_bounds a base len h k = ground arith

true_or : {b : Bool} → b ≡ true → (c : Bool) → (b || c) ≡ true
true_or e c = rw e

inside-both :
    (base len : ℕ) (h : Hole)
    → 0 < len
    → 0 < h.h_len
    → leb (base + len) h.h_base ≡ false
    → leb (end h) base ≡ false
    → (inside (max base h.h_base) base len ≡ true)
      × (inside (max base h.h_base) h.h_base h.h_len ≡ true)
inside-both base len h p q i j =
    let i' : h.h_base < base + len = ground arith in
    let j' : base < end h = ground arith in
    (
      inside_of_bounds (max base h.h_base) base len (omega arith) (omega arith),
      inside_of_bounds (max base h.h_base) h.h_base h.h_len (omega arith) (omega arith),
    )

overlap :
    (base len : ℕ) (h : Hole) (c : Bool)
    → 0 < len
    → 0 < h.h_len
    → (inside (max base h.h_base) base len ≡ true
        → (inside (max base h.h_base) h.h_base h.h_len || c) ≡ false)
    → (base + len ≤ h.h_base) ⊎ (end h ≤ base)
overlap base len h c p q k = elim (Bool-cases (leb (base + len) h.h_base)) [
  | inl before ↦ inl (ground arith)
  | inr i ↦ elim (Bool-cases (leb (end h) base)) [
    | inl behind ↦ inr (ground arith)
    | inr j ↦ absurd (
        true_ne_false (
          sym (true_or (inside-both base len h p q i j).1 c)
          ∙ k (inside-both base len h p q i j).0))
  ]
]

-- A block without a free address meets no hole.
pub Apart-of_not_covered :
    (lo base len : ℕ) (hs : Holes)
    → 0 < len
    → Above lo hs
    → ((a : ℕ) → inside a base len ≡ true → covers a hs ≡ false)
    → Apart base len hs
Apart-of_not_covered lo base len [] p s k = tt
Apart-of_not_covered lo base len (h ∷ hs) p s k = (
  overlap base len h (covers (max base h.h_base) hs) p s.1 (k (max base h.h_base)),
  Apart-of_not_covered (suc (end h)) base len hs p s.3
      (λ a i. or_false_right (inside a h.h_base h.h_len) (covers a hs) (k a i)),
)
  where
    or_false_right : (a b : Bool) → (a || b) ≡ false → b ≡ false
    or_false_right a b e = ground arith

covers_lt : (a lo : ℕ) (hs : Holes) → Above lo hs → covers a hs ≡ true → suc a < 2 ^ 32
covers_lt a lo [] s e = cc
covers_lt a lo (h ∷ hs) s e = ground (arith, covers_lt a (suc (end h)) hs)

or_true_right : (b c : Bool) → c ≡ true → (b || c) ≡ true
or_true_right b c e = ground arith

abbrev Restored : ℕ → ℕ → Memory → ℕ × Memory → Type 0
Restored lo clicks m (base, m') =
    m'.free_slots ≢ []
    → (m'' : Memory) × (free_mem m' base clicks ≡ some m'')
      × Above lo m''.holes
      × ((a : ℕ) → covers a m''.holes ≡ covers a m.holes)

Restored-of_Taken :
    (lo clicks : ℕ) (m : Memory) (r : ℕ × Memory)
    → Above lo m.holes
    → 0 < clicks
    → TakenFrom lo clicks m r
    → Restored lo clicks m r
Restored-of_Taken lo clicks m (base, m') s pos k slots =
    let (m'', e, f) =
      free_mem-Freed lo m' base clicks k.sorted k.above fits
        (Apart-of_not_covered lo base clicks m'.holes pos k.sorted k.gone) slots in
    (m'', e, f.0, λ a. f.1 a ∙ sym (k.exact a))
  where
    last : ℕ
    last = base + (clicks - 1)

    fits : base + clicks < 2 ^ 32
    fits = omega (
      arith,
      covers_lt last lo m.holes s (
          k.exact last
          ∙ or_true_right _ _ (inside_of_bounds last base clicks (omega arith) (omega arith))),
    )

-- Where the holes are sorted from `lo` on and the largest is big enough for a request that is not 0,
-- what is allocated can be given back if the hole table then has a free slot: there is no panic, and
-- the list is sorted again and has exactly the free addresses of before the allocation.
pub free_mem-alloc_mem :
    (lo clicks : ℕ) (m : Memory)
    → Above lo m.holes
    → 0 < clicks
    → clicks ≤ max_hole m
    → (alloc_mem m clicks).1.free_slots ≢ []
    → (m' : Memory) × (free_mem (alloc_mem m clicks).1 (alloc_mem m clicks).0 clicks ≡ some m')
      × Above lo m'.holes
      × ((a : ℕ) → covers a m'.holes ≡ covers a m.holes)
free_mem-alloc_mem lo clicks m s pos h slots =
    Restored-of_Taken lo clicks m (alloc_mem m clicks) s pos
      (alloc_mem-TakenFrom lo clicks m s pos h) slots
