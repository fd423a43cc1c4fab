-- ===== src/Alloc/Free.antt =====
-- `free_mem`: exactly the block becomes free, the list stays sorted, and the code panics only when
-- the hole table has no free slot.
use minix4rt.Base.{
  ℕ, suc, ◌+◌, ◌≤◌, ◌<◌, ◌^◌, ◌≡◌, refl, ap, sym, ◌∙◌, ◌≢◌, ◌⊎◌, inl, inr, Bool, true, false, ◌||◌,
  some, List, [], ◌∷◌, arith, ltb, leb, ◌==◌, Bool-cases, length,
}
use mathlib.Core.Bool.{or_assoc}
use minix4rt.Alloc.{Hole, Holes, Memory, insert_after, place, with_slot, free_mem}
use minix4rt.Alloc.Sorted.{end, Above, inside, covers, Apart, Above-le}
use minix4rt.Alloc.Merge.{Kept, Fits, merge-Kept, merge-Kept_last}

-- What putting a block into a list must yield.
abbrev Placed : ℕ → Hole → Holes → List ℕ → Holes × List ℕ → Type 0
Placed lo new hs free r =
    Above lo r.0
    × ((a : ℕ) → covers a r.0 ≡ (covers a hs || inside a new.h_base new.h_len))
    × (length r.0 + length r.1 ≡ suc (length hs) + length free)
    × (length r.0 ≤ suc (length hs))

or_insert : (p n c : Bool) → (p || (n || c)) ≡ ((p || c) || n)
or_insert p n c = ground arith

or_front : (n c : Bool) → (n || c) ≡ (c || n)
or_front n c = ground arith

Kept-Placed :
    (lo : ℕ) (prev new : Hole) (hs : Holes) (free : List ℕ) (r : Holes × List ℕ)
    → Kept lo (prev ∷ new ∷ hs) free r
    → Placed lo new (prev ∷ hs) free r
Kept-Placed lo prev new hs free r k = (
  k.sorted,
  λ a.
      k.same a
      ∙ or_insert (inside a prev.h_base prev.h_len) (inside a new.h_base new.h_len) (covers a hs),
  omega (arith, k.slots),
  k.fewer,
)

insert_after-Placed :
    (lo : ℕ) (new prev : Hole) (hs : Holes) (free : List ℕ)
    → Fits lo prev
    → Fits (end prev) new
    → Above (suc (end prev)) hs
    → Apart new.h_base new.h_len hs
    → Placed lo new (prev ∷ hs) free (insert_after new prev hs free)
unfolding insert_after
insert_after-Placed lo new prev [] free v w s apart =
    Kept-Placed lo prev new [] free _ (merge-Kept lo prev new [] free v w tt)
insert_after-Placed lo new prev (hp ∷ rest) free v w s apart =
    elim (Bool-cases (ltb hp.h_base new.h_base)) [
      | inl t ↦
          let k =
            insert_after-Placed (suc (end prev)) new hp rest free
              (record { low = s.0; pos = s.1; fits = s.2 })
              (record { low = behind hp new t w.pos apart.0; pos = w.pos; fits = w.fits }) s.3
              apart.1 in
          rw t (
            (v.low, v.pos, v.fits, k.0),
            λ a.
                ap (λ b. inside a prev.h_base prev.h_len || b) (k.1 a)
                ∙ sym (
                    or_assoc (inside a prev.h_base prev.h_len) (covers a (hp ∷ rest))
                      (inside a new.h_base new.h_len)),
            omega (arith, k.2),
            omega (arith, k.3),
          )
      | inr f ↦ rw f (
          Kept-Placed lo prev new (hp ∷ rest) free _ (
            merge-Kept lo prev new (hp ∷ rest) free v w
              (ahead hp new f s.1 apart.0, s.1, s.2, s.3)))
    ]
  where
    behind :
        (hp new : Hole)
        → ltb hp.h_base new.h_base ≡ true
        → 0 < new.h_len
        → ((end new ≤ hp.h_base) ⊎ (end hp ≤ new.h_base))
        → end hp ≤ new.h_base
    behind hp new t pos a = ground arith

    ahead :
        (hp new : Hole)
        → ltb hp.h_base new.h_base ≡ false
        → 0 < hp.h_len
        → ((end new ≤ hp.h_base) ⊎ (end hp ≤ new.h_base))
        → end new ≤ hp.h_base
    ahead hp new t pos a = ground arith

place-Placed :
    (lo : ℕ) (new : Hole) (hs : Holes) (free : List ℕ)
    → Fits lo new
    → Above lo hs
    → Apart new.h_base new.h_len hs
    → Placed lo new hs free (place new hs free)
unfolding place
place-Placed lo new [] free w s apart =
    let k = merge-Kept_last lo new free w in
    (k.sorted, λ a. k.same a ∙ or_front _ false, k.slots, k.fewer)
place-Placed lo new (hp ∷ rest) free w s apart = elim (Bool-cases (leb new.h_base hp.h_base)) [
  | inl t ↦
      let k =
        merge-Kept lo new hp rest free w
          (record { low = ahead hp new t s.1 apart.0; pos = s.1; fits = s.2 })
          (Above-le (suc (end hp)) (end hp) rest (omega arith) s.3) in
      rw t (
        k.sorted,
        λ a. k.same a ∙ or_front (inside a new.h_base new.h_len) (covers a (hp ∷ rest)),
        omega (arith, k.slots),
        k.fewer,
      )
  | inr f ↦ rw f (
      insert_after-Placed lo new hp rest free (record { low = s.0; pos = s.1; fits = s.2 })
        (record { low = behind hp new f w.pos apart.0; pos = w.pos; fits = w.fits }) s.3 apart.1)
]
  where
    ahead :
        (hp new : Hole)
        → leb new.h_base hp.h_base ≡ true
        → 0 < hp.h_len
        → ((end new ≤ hp.h_base) ⊎ (end hp ≤ new.h_base))
        → end new ≤ hp.h_base
    ahead hp new t pos a = ground arith

    behind :
        (hp new : Hole)
        → leb new.h_base hp.h_base ≡ false
        → 0 < new.h_len
        → ((end new ≤ hp.h_base) ⊎ (end hp ≤ new.h_base))
        → end hp ≤ new.h_base
    behind hp new t pos a = ground arith

-- The table entries in use and those that are free.
abbrev pub table_size : Memory → ℕ
table_size m = length m.holes + length m.free_slots

abbrev pub Freed : ℕ → Memory → ℕ → ℕ → Memory → Type 0
Freed lo m base clicks m' =
    Above lo m'.holes
    × ((a : ℕ) → covers a m'.holes ≡ (covers a m.holes || inside a base clicks))
    × (table_size m' ≡ table_size m)
    × (length m'.holes ≤ suc (length m.holes))

-- A block from `lo` on that ends below 2^32 and meets no hole is given back to a sorted list whose
-- holes begin at `lo` or above, while the hole table has a free slot: there is no panic, exactly
-- the addresses of the block become free, the list is sorted and joined, no table entry is lost,
-- and the list grows by one hole at most.
pub free_mem-Freed :
    (lo : ℕ) (m : Memory) (base clicks : ℕ)
    → Above lo m.holes
    → lo ≤ base
    → base + clicks < 2 ^ 32
    → Apart base clicks m.holes
    → m.free_slots ≢ []
    → (m' : Memory) × (free_mem m base clicks ≡ some m') × Freed lo m base clicks m'
unfolding free_mem with_slot
free_mem-Freed lo m base clicks s low fits apart slots = elim (Bool-cases (clicks == 0)) [
  | inl z ↦ (
    m,
    rw z,
    (
      s,
      λ a. sym (
          ap (λ b. covers a m.holes || b) (inside_zero a base clicks z)
          ∙ or_front (covers a m.holes) false),
      refl,
      omega arith,
    ),
  )
  | inr p ↦ rw p (go m.free_slots refl (record { low = low; pos = ground arith; fits = fits }))
]
  where
    inside_zero : (a base clicks : ℕ) → (clicks == 0) ≡ true → inside a base clicks ≡ false
    inside_zero a base clicks z = ground arith

    go :
        (slots' : List ℕ)
        → m.free_slots ≡ slots'
        → Fits lo (record { slot = 0; h_base = base; h_len = clicks })
        → (m' : Memory) × (with_slot slots' m.holes base clicks ≡ some m')
          × Freed lo m base clicks m'
    go [] e v = absurd (slots e)
    go (slot ∷ free) e v =
        let new : Hole = record { slot = slot; h_base = base; h_len = clicks } in
        let k =
          place-Placed lo new m.holes free (record { low = v.low; pos = v.pos; fits = v.fits }) s
            apart in
        (
          record { holes = (place new m.holes free).0; free_slots = (place new m.holes free).1 },
          refl,
          (k.0, k.1, omega (arith, k.2, ap length e), k.3),
        )
