-- ===== src/Alloc/Take.antt =====
-- `alloc_mem`: first fit. A block that was free is taken out of the free memory, and nothing else.
use minix4rt.Base.{
  ℕ, suc, ◌+◌, ◌-◌, ◌≤◌, ◌<◌, ◌≡◌, refl, ap, sym, ◌∙◌, ◌⊎◌, inl, inr, Bool, true, false, ◌||◌, List,
  [], ◌∷◌, arith, leb, ◌==◌, Bool-cases, length, All,
}
use mathlib.Core.Bool.{or_assoc, false≢true}
use minix4rt.Alloc.{Hole, Holes, Memory, no_mem, add_clicks, bite, alloc_loop, alloc_mem, max_hole}
use minix4rt.Alloc.Largest.{some_big, some_big-max_hole, some_big-too_large}
use minix4rt.Alloc.Sorted.{end, Above, inside, covers, covers_below, Above-le}

-- What a successful allocation yields: base, holes, free slots.
pub record Taken (lo clicks : ℕ) (hs : Holes) (free : List ℕ) (r : ℕ × Holes × List ℕ)
    : Type 0 where
  pub above : lo ≤ r.0
  pub sorted : Above lo r.1
  pub exact : (a : ℕ) → covers a hs ≡ (covers a r.1 || inside a r.0 clicks)
  pub gone : (a : ℕ) → inside a r.0 clicks ≡ true → covers a r.1 ≡ false
  pub first_fit : All (λ h. h.h_base < r.0 → h.h_len < clicks) hs
  pub slots : length r.1 + length r.2 ≡ length hs + length free

later_holes :
    (b clicks lo : ℕ) (hs : Holes)
    → b < lo
    → Above lo hs
    → All (λ h. h.h_base < b → h.h_len < clicks) hs
later_holes b clicks lo [] l s = tt
later_holes b clicks lo (h ∷ hs) l s =
    (λ k. absurd (omega arith), later_holes b clicks (suc (end h)) hs (omega arith) s.3)

inside-split :
    (a base len clicks : ℕ) (c : Bool)
    → clicks ≤ len
    → (inside a base len || c)
      ≡ ((inside a (base + clicks) (len - clicks) || c) || inside a base clicks)
inside-split a base len clicks c h = ground arith

not_inside_rest :
    (a base len clicks : ℕ)
    → inside a base clicks ≡ true
    → inside a (base + clicks) (len - clicks) ≡ false
not_inside_rest a base len clicks h = ground arith

module _ (lo clicks : ℕ) (hp : Hole) (rest : Holes) (free : List ℕ) (s : Above lo (hp ∷ rest))
    (big : leb clicks hp.h_len ≡ true) where
  later : All (λ h. h.h_base < hp.h_base → h.h_len < clicks) rest
  later = later_holes hp.h_base clicks (suc (end hp)) rest (omega arith) s.3

  small : clicks ≤ hp.h_len
  small = ground arith

  no_wrap : add_clicks hp.h_base clicks ≡ hp.h_base + clicks
  no_wrap = omega (arith, small)

  below : (a : ℕ) → inside a hp.h_base clicks ≡ true → covers a rest ≡ false
  below a i = covers_below a (suc (end hp)) rest (ground (arith, small)) s.3

  bite-Taken : Taken lo clicks (hp ∷ rest) free (bite clicks hp rest free)
  unfolding bite
  bite-Taken = elim (Bool-cases (hp.h_len - clicks == 0)) [
    | inl e ↦ rw e (record {
      above = s.0;
      sorted = Above-le (suc (end hp)) lo rest (omega arith) s.3;
      exact = λ a. ground arith;
      gone = λ a i. below a i;
      first_fit = (λ k. absurd (omega arith), later);
      slots = omega arith;
    })
    | inr e ↦ rw e (record {
      above = s.0;
      sorted = (
        omega (arith, small),
        ground arith,
        omega (arith, small),
        Above-le (suc (end hp)) _ rest (omega (arith, small)) s.3,
      );
      exact = λ a. rw no_wrap (inside-split a hp.h_base hp.h_len clicks (covers a rest) small);
      gone = λ a i. rw (no_wrap, not_inside_rest a hp.h_base hp.h_len clicks i) (below a i);
      first_fit = (λ k. absurd (omega arith), later);
      slots = omega arith;
    })
  ]

above_not_inside :
    (a : ℕ) (hp : Hole) (b clicks : ℕ)
    → suc (end hp) ≤ b
    → inside a b clicks ≡ true
    → inside a hp.h_base hp.h_len ≡ false
above_not_inside a hp b clicks h i = ground arith

-- No hole is big enough, and nothing changes; or a block is taken.
alloc_loop-cases :
    (lo clicks : ℕ) (hs : Holes) (free : List ℕ)
    → Above lo hs
    → ((some_big clicks hs ≡ false) × (alloc_loop clicks hs free ≡ (no_mem, hs, free)))
      ⊎ ((some_big clicks hs ≡ true) × Taken lo clicks hs free (alloc_loop clicks hs free))
unfolding alloc_loop
alloc_loop-cases lo clicks [] free s = inl (refl, refl)
alloc_loop-cases lo clicks (hp ∷ rest) free s = elim (Bool-cases (leb clicks hp.h_len)) [
  | inl e ↦ inr (rw e, rw e (bite-Taken lo clicks hp rest free s e))
  | inr e ↦ elim (alloc_loop-cases (suc (end hp)) clicks rest free s.3) [
    | inl (n, same) ↦ inl (rw e n, rw e (rw same refl))
    | inr (y, k) ↦ inr (
      rw e y,
      rw e (record {
        above = omega (arith, k.above, s.0);
        sorted = (s.0, s.1, s.2, k.sorted);
        exact = λ a.
            ap (λ b. inside a hp.h_base hp.h_len || b) (k.exact a)
            ∙ sym (or_assoc (inside a hp.h_base hp.h_len) _ _);
        gone = λ a i. rw (above_not_inside a hp _ clicks k.above i) (k.gone a i);
        first_fit = (λ _. ground arith, k.first_fit);
        slots = omega (arith, k.slots);
      }),
    )
  ]
]

abbrev as_memory : ℕ × Holes × List ℕ → ℕ × Memory
as_memory (base, holes, free) = (base, record { holes = holes; free_slots = free })

alloc_mem-as_memory :
    (m : Memory) (clicks : ℕ)
    → alloc_mem m clicks ≡ as_memory (alloc_loop clicks m.holes m.free_slots)
unfolding alloc_mem
alloc_mem-as_memory m clicks = refl

abbrev pub TakenFrom : ℕ → ℕ → Memory → ℕ × Memory → Type 0
TakenFrom lo clicks m (base, m') =
    Taken lo clicks m.holes m.free_slots (base, m'.holes, m'.free_slots)

-- Where the holes are sorted from `lo` on and the largest is big enough for a request that is not 0,
-- `alloc_mem` takes a block of that many free clicks: it is in the first hole that fits, and exactly its
-- addresses stop being free. The list stays sorted, no table entry is lost, and the block does not
-- start below `lo`.
pub alloc_mem-TakenFrom :
    (lo clicks : ℕ) (m : Memory)
    → Above lo m.holes
    → 0 < clicks
    → clicks ≤ max_hole m
    → TakenFrom lo clicks m (alloc_mem m clicks)
alloc_mem-TakenFrom lo clicks m s pos h =
    rw (alloc_mem-as_memory m clicks) (elim (alloc_loop-cases lo clicks m.holes m.free_slots s) [
      | inl (n, _) ↦ absurd (false≢true (sym n ∙ some_big-max_hole clicks m pos h))
      | inr (_, k) ↦ k
    ])

-- Where the holes are sorted from `lo` on and none is big enough, `alloc_mem` returns NO_MEM and changes nothing.
pub alloc_mem-no_mem :
    (lo clicks : ℕ) (m : Memory)
    → Above lo m.holes
    → max_hole m < clicks
    → alloc_mem m clicks ≡ (no_mem, m)
alloc_mem-no_mem lo clicks m s h =
    rw (alloc_mem-as_memory m clicks) (elim (alloc_loop-cases lo clicks m.holes m.free_slots s) [
      | inl (_, same) ↦ rw same
      | inr (y, _) ↦ absurd (false≢true (sym (some_big-too_large clicks m h) ∙ y))
    ])
