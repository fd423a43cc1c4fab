-- ===== src/Links/Represents.antt =====
-- What a list of links stands for: the sequence of its members, with the two counters. The three
-- operations implement those on sequences, and leave the links of all other lists alone.
pub mod Append
pub mod Insert
pub mod Remove
use minix4rt.Base.{
  ℕ, ◌≡◌, false, true, Option, none, some, List, [], ◌∷◌, arith, ◌==◌, has, has_head, Distinct,
  length, refl,
}
use minix4rt.Links.{Links, ListHead}
use minix4rt.Links.Segment.{head_or, last_of, Segment}

pub record Represents (l : ListHead) (h : Links) (xs : List ℕ) : Type 0 where
  pub count : l.in_q ≡ length xs
  pub first_link : l.first ≡ head_or xs none
  pub last_link : l.last ≡ last_of none xs
  pub chain : Segment h none xs none
  pub distinct : Distinct xs

-- What an operation leaves alone: the links outside of the list and of the link it handles.
abbrev pub SameOutside : ℕ → List ℕ → Links → Links → Type 0
SameOutside x xs h g =
    (a : ℕ) → (a == x) ≡ false → has a xs ≡ false → (g.next a ≡ h.next a) × (g.prev a ≡ h.prev a)

pub last_of-some :
    (x : ℕ) (xs : List ℕ) → (t : ℕ) × (last_of (some x) xs ≡ some t) × (has t (x ∷ xs) ≡ true)
last_of-some x [] = (x, refl, has_head x [])
last_of-some x (y ∷ ys) = let (t, e, m) = last_of-some y ys in (t, e, ground arith)
