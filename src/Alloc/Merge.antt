-- ===== src/Alloc/Merge.antt =====
-- `merge` joins holes that touch, and changes nothing else: the list is sorted again, the free
-- addresses are the same, and every table entry is still in one of the two chains.
use minix4rt.Base.{
  ℕ, suc, ◌+◌, ◌^◌, ◌≤◌, ◌<◌, ◌≡◌, refl, ap, ◌∙◌, inl, inr, List, [], ◌∷◌, arith, ◌==◌, Bool-cases,
  length, true, false, ◌||◌,
}
use mathlib.Core.Bool.{or_assoc}
use minix4rt.Alloc.{Hole, Holes, add_clicks, grow, absorb, merge}
use minix4rt.Alloc.Sorted.{end, Above, inside, covers}

pub record Kept (lo : ℕ) (hs : Holes) (free : List ℕ) (r : Holes × List ℕ) : Type 0 where
  pub sorted : Above lo r.0
  pub same : (a : ℕ) → covers a r.0 ≡ covers a hs
  pub slots : length r.0 + length r.1 ≡ length hs + length free
  pub fewer : length r.0 ≤ length hs

touching :
    (h n : Hole)
    → end h < 2 ^ 32
    → (add_clicks h.h_base h.h_len == n.h_base) ≡ true
    → end h ≡ n.h_base
touching h n f e = ground arith

apart :
    (h n : Hole)
    → end h < 2 ^ 32
    → end h ≤ n.h_base
    → (add_clicks h.h_base h.h_len == n.h_base) ≡ false
    → suc (end h) ≤ n.h_base
apart h n f l e = ground arith

end-grow : (h n : Hole) → end h ≡ n.h_base → end n < 2 ^ 32 → end (grow h n) ≡ end n
unfolding grow
end-grow h n e f = omega arith

grow_len : (h n : Hole) → end h ≡ n.h_base → end n < 2 ^ 32 → (grow h n).h_len ≡ h.h_len + n.h_len
unfolding grow
grow_len h n e f = omega arith

inside-grow :
    (a : ℕ) (h n : Hole)
    → end h ≡ n.h_base
    → inside a h.h_base (h.h_len + n.h_len)
      ≡ (inside a h.h_base h.h_len || inside a n.h_base n.h_len)
inside-grow a h n e = ground arith

covers-grow :
    (a : ℕ) (h n : Hole) (rest : Holes)
    → end h ≡ n.h_base
    → end n < 2 ^ 32
    → covers a (grow h n ∷ rest) ≡ covers a (h ∷ n ∷ rest)
unfolding grow
covers-grow a h n rest e f =
    ap (λ l. inside a h.h_base l || covers a rest) (grow_len h n e f)
    ∙ ap (λ b. b || covers a rest) (inside-grow a h n e)
    ∙ or_assoc (inside a h.h_base h.h_len) (inside a n.h_base n.h_len) (covers a rest)

-- A hole that may be put in front of a list whose first hole it may touch.
pub record Fits (lo : ℕ) (hp : Hole) : Type 0 where
  pub low : lo ≤ hp.h_base
  pub pos : 0 < hp.h_len
  pub fits : end hp < 2 ^ 32

Fits-grow :
    (lo : ℕ) (hp n : Hole) → Fits lo hp → end hp ≡ n.h_base → end n < 2 ^ 32 → Fits lo (grow hp n)
unfolding grow
Fits-grow lo hp n v e f = record {
  low = v.low;
  pos = omega (arith, v.pos, grow_len hp n e f);
  fits = omega (arith, end-grow hp n e f);
}

absorb-Kept :
    (lo : ℕ) (hp : Hole) (rest : Holes) (free : List ℕ)
    → Fits lo hp
    → Above (end hp) rest
    → Kept lo (hp ∷ rest) free (absorb hp rest free)
unfolding absorb
absorb-Kept lo hp [] free v s = record {
  sorted = (v.low, v.pos, v.fits, tt);
  same = λ a. refl;
  slots = refl;
  fewer = omega arith;
}
absorb-Kept lo hp (n ∷ rest) free v s =
    elim (Bool-cases (add_clicks hp.h_base hp.h_len == n.h_base)) [
      | inl t ↦
          let e = touching hp n v.fits t in
          let g = Fits-grow lo hp n v e s.2 in
          rw t (record {
            sorted = (g.low, g.pos, g.fits, rw (end-grow hp n e s.2) s.3);
            same = λ a. covers-grow a hp n rest e s.2;
            slots = omega arith;
            fewer = omega arith;
          })
      | inr f ↦ rw f (record {
        sorted = (v.low, v.pos, v.fits, (apart hp n v.fits s.0 f, s.1, s.2, s.3));
        same = λ a. refl;
        slots = refl;
        fewer = omega arith;
      })
    ]

pub merge-Kept :
    (lo : ℕ) (hp n : Hole) (rest : Holes) (free : List ℕ)
    → Fits lo hp
    → Fits (end hp) n
    → Above (end n) rest
    → Kept lo (hp ∷ n ∷ rest) free (merge hp (n ∷ rest) free)
unfolding merge
merge-Kept lo hp n rest free v w s = elim (Bool-cases (add_clicks hp.h_base hp.h_len == n.h_base)) [
  | inl t ↦
      let e = touching hp n v.fits t in
      let k =
        absorb-Kept lo (grow hp n) rest (n.slot ∷ free) (Fits-grow lo hp n v e w.fits)
          (rw (end-grow hp n e w.fits) s) in
      rw t (record {
        sorted = k.sorted;
        same = λ a. k.same a ∙ covers-grow a hp n rest e w.fits;
        slots = omega (arith, k.slots);
        fewer = omega (arith, k.fewer);
      })
  | inr f ↦
      let k =
        absorb-Kept (suc (end hp)) n rest free
          (record { low = apart hp n v.fits w.low f; pos = w.pos; fits = w.fits }) s in
      rw f (record {
        sorted = (v.low, v.pos, v.fits, k.sorted);
        same = λ a. ap (λ b. inside a hp.h_base hp.h_len || b) (k.same a);
        slots = omega (arith, k.slots);
        fewer = omega (arith, k.fewer);
      })
]

-- The last hole has nothing to be joined with.
pub merge-Kept_last :
    (lo : ℕ) (hp : Hole) (free : List ℕ) → Fits lo hp → Kept lo (hp ∷ []) free (merge hp [] free)
unfolding merge
merge-Kept_last lo hp free v = record {
  sorted = (v.low, v.pos, v.fits, tt);
  same = λ a. refl;
  slots = refl;
  fewer = omega arith;
}
