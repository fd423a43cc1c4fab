-- ===== src/Alloc/Largest.antt =====
-- `max_hole`: the loop finds the size of the largest hole.
use minix4rt.Base.{
  ℕ, ◌≤◌, ◌<◌, ◌≡◌, ◌∙◌, Bool, true, false, ◌||◌, [], ◌∷◌, arith, ltb, leb, if◌then◌else◌,
}
use minix4rt.Alloc.{Holes, Memory, max_hole, max_loop}

-- Whether some hole is big enough.
abbrev pub some_big : ℕ → Holes → Bool
some_big clicks [] = false
some_big clicks (h ∷ hs) = leb clicks h.h_len || some_big clicks hs

max_loop-some_big :
    (clicks best : ℕ) (hs : Holes)
    → leb clicks (max_loop best hs) ≡ (leb clicks best || some_big clicks hs)
unfolding max_loop
max_loop-some_big clicks best [] = ground arith
max_loop-some_big clicks best (h ∷ hs) =
    max_loop-some_big clicks (if ltb best h.h_len then h.h_len else best) hs
    ∙ larger (some_big clicks hs)
  where
    larger :
        (b : Bool)
        → (leb clicks (if ltb best h.h_len then h.h_len else best) || b)
          ≡ (leb clicks best || (leb clicks h.h_len || b))
    larger b = ground arith

pub some_big-max_hole :
    (clicks : ℕ) (m : Memory) → 0 < clicks → clicks ≤ max_hole m → some_big clicks m.holes ≡ true
unfolding max_hole
some_big-max_hole clicks m pos h = ground (arith, max_loop-some_big clicks 0 m.holes)

pub some_big-too_large :
    (clicks : ℕ) (m : Memory) → max_hole m < clicks → some_big clicks m.holes ≡ false
unfolding max_hole
some_big-too_large clicks m h = ground (arith, max_loop-some_big clicks 0 m.holes)
