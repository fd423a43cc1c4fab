-- ===== src/Tests/AllocTests.antt =====
-- The memory manager's hole list of src/mm/alloc.c with two holes.
use minix4rt.Base.{ℕ, ◌%◌, ◌^◌, ◌≡◌, ◌≢◌, refl, inl, inr, some, List, [], ◌∷◌, arith}
use minix4rt.Alloc.{
  Memory, Chunk, Summary, nr_holes, bite, alloc_loop, alloc_mem, free_mem, max_loop, max_hole,
  mem_init,
}
use minix4rt.Alloc.Sorted.{Above, covers}
use minix4rt.Alloc.Free.{Freed, table_size, free_mem-Freed}
use minix4rt.Alloc.Take.{TakenFrom, alloc_mem-TakenFrom}
use minix4rt.Alloc.RoundTrip.{free_mem-alloc_mem}
use minix4rt.Alloc.Init.{Separate, in_chunks, sum_sizes, mem_init-Ready}

-- The clicks 10 to 14 and 20 to 23.
abbrev two_holes : Memory
two_holes = record {
  holes =
      record { slot = 0; h_base = 10; h_len = 5 }
      ∷ record { slot = 1; h_base = 20; h_len = 4 }
      ∷ [];
  free_slots = 2 ∷ 3 ∷ [];
}

two_holes-Above : Above 1 two_holes.holes
two_holes-Above =
    (omega arith, omega arith, omega arith, (omega arith, omega arith, omega arith, tt))

two_holes-max : max_hole two_holes ≡ 5
unfolding max_hole max_loop
two_holes-max = refl

left_slots : (alloc_mem two_holes 3).1.free_slots ≢ []
unfolding alloc_mem alloc_loop bite
left_slots e = cc

free_mem_example : (m' : Memory) × (free_mem two_holes 15 5 ≡ some m') × Freed 1 two_holes 15 5 m'
free_mem_example =
    free_mem-Freed 1 two_holes 15 5 two_holes-Above (omega arith) (omega arith)
      (inr (omega arith), (inl (omega arith), tt)) (λ e. cc)

alloc_mem_example : TakenFrom 1 5 two_holes (alloc_mem two_holes 5)
alloc_mem_example =
    alloc_mem-TakenFrom 1 5 two_holes two_holes-Above (omega arith) (omega (arith, two_holes-max))

free_mem-alloc_mem_example :
    (m' : Memory) × (free_mem (alloc_mem two_holes 3).1 (alloc_mem two_holes 3).0 3 ≡ some m')
    × Above 1 m'.holes
    × ((a : ℕ) → covers a m'.holes ≡ covers a two_holes.holes)
free_mem-alloc_mem_example =
    free_mem-alloc_mem 1 3 two_holes two_holes-Above (omega arith) (omega (arith, two_holes-max))
      left_slots

abbrev two_chunks : List Chunk
two_chunks =
    record { base = 1; size = 4; total = 9 } ∷ record { base = 10; size = 5; total = 9 } ∷ []

two_chunks-Separate : Separate 1 two_chunks
two_chunks-Separate = (
  omega arith,
  omega arith,
  omega arith,
  (λ a h. ground arith),
  (omega arith, omega arith, omega arith, (λ a h. refl), tt),
)

mem_init_example :
    (r : Summary) × (mem_init 0 two_chunks ≡ some r)
    × Above 1 r.memory.holes
    × ((a : ℕ) → covers a r.memory.holes ≡ in_chunks a two_chunks)
    × (r.free ≡ sum_sizes two_chunks % 2 ^ 32)
    × (table_size r.memory ≡ nr_holes)
mem_init_example = mem_init-Ready 1 0 two_chunks two_chunks-Separate (omega arith)
