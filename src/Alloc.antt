-- ===== src/Alloc.antt =====
-- src/mm/alloc.c: the hole list of the memory manager. A hole is an entry of the hole table, named
-- by its slot; the chains of `h_next` pointers from `hole_head` and from `free_slots` are the two
-- lists of a `Memory`, in the order of the chains. `phys_clicks` is an unsigned int of 32 bits, and
-- sums wrap. A panic is `none`. The answers of the kernel to SYS_MEM are an argument of `mem_init`.
pub mod Sorted
pub mod Merge
pub mod Free
pub mod Take
pub mod Largest
pub mod RoundTrip
pub mod Init
use minix4rt.Base.{
  ℕ, zero, suc, ◌+◌, ◌-◌, ◌%◌, ◌^◌, Option, none, some, List, [], ◌∷◌, ltb, leb, ◌==◌,
  if◌then◌else◌,
}

pub record Hole : Type 0 where
  pub slot : ℕ
  pub h_base : ℕ
  pub h_len : ℕ

abbrev pub Holes : Type 0
Holes = List Hole

pub record Memory : Type 0 where
  pub holes : Holes
  pub free_slots : List ℕ

abbrev pub nr_holes : ℕ
nr_holes = 128

abbrev pub no_mem : ℕ
no_mem = 0

-- The sum of two values of type `phys_clicks`.
abbrev pub add_clicks : ℕ → ℕ → ℕ
add_clicks a b = (a + b) % 2 ^ 32

-- A hole that is big enough: a piece is bitten off, and a hole that is used up leaves the list.
unfoldable pub bite : ℕ → Hole → Holes → List ℕ → ℕ × Holes × List ℕ
bite clicks hp rest free = if hp.h_len - clicks == 0 then (hp.h_base, rest, hp.slot ∷ free) else (
  hp.h_base,
  record hp { h_base = add_clicks hp.h_base clicks; h_len = hp.h_len - clicks } ∷ rest,
  free,
)

unfoldable pub alloc_loop : ℕ → Holes → List ℕ → ℕ × Holes × List ℕ
unfolding bite
alloc_loop clicks [] free = (no_mem, [], free)
alloc_loop clicks (hp ∷ rest) free =
    let (base, holes, free') = alloc_loop clicks rest free in
    if leb clicks hp.h_len then bite clicks hp rest free else (base, hp ∷ holes, free')

unfoldable pub alloc_mem : Memory → ℕ → ℕ × Memory
unfolding alloc_loop
alloc_mem m clicks =
    let (base, holes, free) = alloc_loop clicks m.holes m.free_slots in
    (base, record { holes = holes; free_slots = free })

-- The first of two holes that touch gets the memory of the second.
pub grow : Hole → Hole → Hole
grow hp next = record hp { h_len = add_clicks hp.h_len next.h_len }

-- The second half of `merge`: a hole and its successor.
pub absorb : Hole → Holes → List ℕ → Holes × List ℕ
unfolding grow
absorb hp [] free = (hp ∷ [], free)
absorb hp (next ∷ rest) free =
    if add_clicks hp.h_base hp.h_len == next.h_base
    then (grow hp next ∷ rest, next.slot ∷ free)
    else (hp ∷ next ∷ rest, free)

pub merge : Hole → Holes → List ℕ → Holes × List ℕ
unfolding grow absorb
merge hp [] free = (hp ∷ [], free)
merge hp (next ∷ rest) free =
    if add_clicks hp.h_base hp.h_len == next.h_base
    then absorb (grow hp next) rest (next.slot ∷ free)
    else let (holes, free') = absorb next rest free in (hp ∷ holes, free')

-- The walk of `free_mem` along the list, behind the hole `prev`.
pub insert_after : Hole → Hole → Holes → List ℕ → Holes × List ℕ
unfolding merge
insert_after new prev [] free = merge prev (new ∷ []) free
insert_after new prev (hp ∷ rest) free =
    let (holes, free') = insert_after new hp rest free in
    if ltb hp.h_base new.h_base then (prev ∷ holes, free') else merge prev (new ∷ hp ∷ rest) free

pub place : Hole → Holes → List ℕ → Holes × List ℕ
unfolding merge insert_after
place new [] free = merge new [] free
place new (hp ∷ rest) free =
    if leb new.h_base hp.h_base then merge new (hp ∷ rest) free else insert_after new hp rest free

pub with_slot : List ℕ → Holes → ℕ → ℕ → Option Memory
unfolding place
with_slot [] holes base clicks = none
with_slot (slot ∷ free) holes base clicks =
    let (holes', free') =
      place (record { slot = slot; h_base = base; h_len = clicks }) holes free in
    some (record { holes = holes'; free_slots = free' })

pub free_mem : Memory → ℕ → ℕ → Option Memory
unfolding with_slot
free_mem m base clicks = if clicks == 0 then some m else with_slot m.free_slots m.holes base clicks

unfoldable pub max_loop : ℕ → Holes → ℕ
max_loop best [] = best
max_loop best (hp ∷ rest) = max_loop (if ltb best hp.h_len then hp.h_len else best) rest

unfoldable pub max_hole : Memory → ℕ
unfolding max_loop
max_hole m = max_loop 0 m.holes

-- An answer of the kernel: base, size, and the total amount of memory.
pub record Chunk : Type 0 where
  pub base : ℕ
  pub size : ℕ
  pub total : ℕ

pub record Summary : Type 0 where
  pub memory : Memory
  pub total : ℕ
  pub free : ℕ

-- The slots from `i` on, `n` of them, as `mem_init` chains them.
pub slots_from : ℕ → ℕ → List ℕ
slots_from zero i = []
slots_from (suc n) i = i ∷ slots_from n (suc i)

pub init_loop : List Chunk → Summary → Option Summary
init_loop [] s = some s
init_loop (c ∷ cs) s =
    let next : Option Summary = elim (free_mem s.memory c.base c.size) [
      | none ↦ none
      | some m ↦
          init_loop cs (record { memory = m; total = c.total; free = add_clicks s.free c.size })
    ] in
    if c.size == 0 then some s else next

-- `total` is what the caller's variable held before.
pub mem_init : ℕ → List Chunk → Option Summary
unfolding slots_from init_loop free_mem
mem_init total chunks = init_loop chunks (record {
  memory = record { holes = []; free_slots = slots_from nr_holes 0 };
  total = total;
  free = 0;
})
