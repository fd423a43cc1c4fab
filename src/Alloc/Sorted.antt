-- ===== src/Alloc/Sorted.antt =====
-- The invariant of the hole list: holes are sorted by address, none is empty, none touches the
-- next, and all end below 2^32; and the set of free addresses that a list stands for.
use minix4rt.Base.{
  ℕ, suc, ◌+◌, ◌^◌, ◌≤◌, ◌<◌, ◌≡◌, refl, ◌⊎◌, Bool, false, ◌&&◌, ◌||◌, [], ◌∷◌, arith, ltb, leb,
}
use minix4rt.Alloc.{Hole, Holes}

abbrev pub end : Hole → ℕ
end h = h.h_base + h.h_len

-- The first hole does not begin below `lo`.
abbrev pub Above : ℕ → Holes → Type 0
Above lo [] = Unit
Above lo (h ∷ hs) = (lo ≤ h.h_base) × (0 < h.h_len) × (end h < 2 ^ 32) × Above (suc (end h)) hs

abbrev pub inside : ℕ → ℕ → ℕ → Bool
inside a base len = leb base a && ltb a (base + len)

-- Whether an address (in clicks) is free.
abbrev pub covers : ℕ → Holes → Bool
covers a [] = false
covers a (h ∷ hs) = inside a h.h_base h.h_len || covers a hs

-- A block meets none of the holes.
abbrev pub Apart : ℕ → ℕ → Holes → Type 0
Apart base len [] = Unit
Apart base len (h ∷ hs) = ((base + len ≤ h.h_base) ⊎ (end h ≤ base)) × Apart base len hs

pub Above-le : (lo lo' : ℕ) (hs : Holes) → lo' ≤ lo → Above lo hs → Above lo' hs
Above-le lo lo' [] h s = tt
Above-le lo lo' (x ∷ hs) h s = (omega arith, s.1, s.2, s.3)

pub covers_below : (a lo : ℕ) (hs : Holes) → a < lo → Above lo hs → covers a hs ≡ false
covers_below a lo [] h s = refl
covers_below a lo (x ∷ hs) h s = ground (arith, covers_below a (suc (end x)) hs)
