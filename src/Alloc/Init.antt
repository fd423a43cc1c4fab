-- ===== src/Alloc/Init.antt =====
-- `mem_init`: all chunks that the kernel reports become free memory.
use minix4rt.Base.{
  ℕ, zero, suc, ◌+◌, ◌%◌, ◌≤◌, ◌<◌, ◌^◌, ◌≡◌, refl, sym, ap, ◌∙◌, Bool, true, false, ◌||◌, some,
  List, [], ◌∷◌, arith, ◌==◌, length,
}
use mathlib.Core.Bool.{or_assoc}
use minix4rt.Alloc.{Chunk, Summary, nr_holes, add_clicks, slots_from, init_loop, mem_init}
use minix4rt.Alloc.Sorted.{Above, inside, covers}
use minix4rt.Alloc.Free.{free_mem-Freed, table_size}
use minix4rt.Alloc.RoundTrip.{Apart-of_not_covered}

abbrev pub in_chunks : ℕ → List Chunk → Bool
in_chunks a [] = false
in_chunks a (c ∷ cs) = inside a c.base c.size || in_chunks a cs

abbrev pub sum_sizes : List Chunk → ℕ
sum_sizes [] = 0
sum_sizes (c ∷ cs) = c.size + sum_sizes cs

-- Chunks that are not empty, lie between `lo` and 2^32, and do not meet.
abbrev pub Separate : ℕ → List Chunk → Type 0
Separate lo [] = Unit
Separate lo (c ∷ cs) =
    (0 < c.size)
    × (lo ≤ c.base)
    × (c.base + c.size < 2 ^ 32)
    × ((a : ℕ) → inside a c.base c.size ≡ true → in_chunks a cs ≡ false)
    × Separate lo cs

-- A last answer of size 0 ends the loop.
abbrev pub stop : Chunk
stop = record { base = 0; size = 0; total = 0 }

abbrev pub Ready : ℕ → List Chunk → Summary → Summary → Type 0
Ready lo cs s r =
    Above lo r.memory.holes
    × ((a : ℕ) → covers a r.memory.holes ≡ (covers a s.memory.holes || in_chunks a cs))
    × (r.free ≡ add_clicks s.free (sum_sizes cs))
    × (table_size r.memory ≡ table_size s.memory)

size_pos : (n : ℕ) → 0 < n → (n == 0) ≡ false
size_pos n h = ground arith

or_true_left : {b : Bool} (c : Bool) → b ≡ true → (b || c) ≡ true
or_true_left c e = rw e

or_true_right : (b : Bool) {c : Bool} → c ≡ true → (b || c) ≡ true
or_true_right true e = refl
or_true_right false e = e

or_both : {b c : Bool} → b ≡ false → c ≡ false → (b || c) ≡ false
or_both e f = rw (e, f)

not_inside : (a : ℕ) (b c : Bool) → c ≡ true → (b ≡ true → c ≡ false) → b ≡ false
not_inside a true c e h = sym e ∙ h refl
not_inside a false c e h = refl

init_loop-Ready :
    (lo : ℕ) (cs : List Chunk) (s : Summary)
    → Separate lo cs
    → Above lo s.memory.holes
    → ((a : ℕ) → in_chunks a cs ≡ true → covers a s.memory.holes ≡ false)
    → length cs + length s.memory.holes ≤ table_size s.memory
    → s.free < 2 ^ 32
    → (r : Summary) × (init_loop cs s ≡ some r) × Ready lo cs s r
unfolding init_loop
init_loop-Ready lo [] s sep v out room small = (s, refl, (v, λ a. ground arith, omega arith, refl))
init_loop-Ready lo (c ∷ cs) s sep v out room small =
    let (m, e, f) =
      free_mem-Freed lo s.memory c.base c.size v sep.1 sep.2
        (Apart-of_not_covered lo c.base c.size s.memory.holes sep.0 v
          (λ a i. out a (or_true_left (in_chunks a cs) i)))
        (λ q. absurd (omega (arith, room, ap length q))) in
    let (r, q, k) =
      init_loop-Ready lo cs
        (record { memory = m; total = c.total; free = add_clicks s.free c.size }) sep.4 f.0
        (λ a i.
          f.1 a
          ∙ or_both (out a (or_true_right (inside a c.base c.size) i))
              (not_inside a (inside a c.base c.size) (in_chunks a cs) i (sep.3 a)))
        (omega (arith, room, f.2, f.3)) (omega arith) in
    (
      r,
      rw (size_pos c.size sep.0) (rw e q),
      (
        k.0,
        λ a.
            k.1 a
            ∙ ap (λ b. b || in_chunks a cs) (f.1 a)
            ∙ or_assoc (covers a s.memory.holes) (inside a c.base c.size) (in_chunks a cs),
        omega (arith, k.2),
        k.3 ∙ f.2,
      ),
    )

length-slots_from : (n i : ℕ) → length (slots_from n i) ≡ n
unfolding slots_from
length-slots_from zero i = refl
length-slots_from (suc n) i = ap suc (length-slots_from n (suc i))

-- If the kernel reports at most 128 chunks between `lo` and 2^32, none empty and no two with a common
-- click, then
-- `mem_init` does not panic; the holes are sorted, the free addresses are exactly those of the
-- chunks, `free` is the sum of their sizes as an unsigned int and all 128 table entries are in one of the two chains.
pub mem_init-Ready :
    (lo total : ℕ) (chunks : List Chunk)
    → Separate lo chunks
    → length chunks ≤ nr_holes
    → (r : Summary) × (mem_init total chunks ≡ some r)
      × Above lo r.memory.holes
      × ((a : ℕ) → covers a r.memory.holes ≡ in_chunks a chunks)
      × (r.free ≡ sum_sizes chunks % 2 ^ 32)
      × (table_size r.memory ≡ nr_holes)
unfolding mem_init
mem_init-Ready lo total chunks sep few =
    let (r, e, k) =
      init_loop-Ready lo chunks
        (record {
          memory = record { holes = []; free_slots = slots_from nr_holes 0 };
          total = total;
          free = 0;
        })
        sep tt (λ a i. refl) (omega (arith, length-slots_from nr_holes 0)) (omega arith) in
    (r, e, k.0, k.1, omega (arith, k.2), k.3 ∙ length-slots_from nr_holes 0)
