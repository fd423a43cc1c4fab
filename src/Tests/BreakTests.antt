-- ===== src/Tests/BreakTests.antt =====
-- The growth of segments of src/mm/break.c with a data segment of ten clicks and a stack of four.
use minix4rt.Base.{◌-◌, ◌^◌, ◌≡◌, refl, arith}
use minix4rt.Break.{
  Segs, ok, size_ok, lower, restore, check_size, resize, adjust, clicks_of, do_brk,
}
use minix4rt.Break.Room.{IsLaid}
use minix4rt.Break.Answers.{Answered, do_brk-Answered}

abbrev small_map : Segs
small_map = record {
  text = record { mem_vir = 0; mem_phys = 2000; mem_len = 8 };
  data_seg = record { mem_vir = 0; mem_phys = 2008; mem_len = 10 };
  stack = record { mem_vir = 96; mem_phys = 2104; mem_len = 4 };
}

small_map-IsLaid : IsLaid small_map
small_map-IsLaid = record {
  has_stack = λ e. omega arith;
  in_half = omega arith;
  placed = omega arith;
  in_memory = omega arith;
  data_in_half = omega arith;
}

do_brk_example : Answered small_map 6000 98 (do_brk small_map 6000 25100)
do_brk_example = do_brk-Answered small_map 6000 25100 small_map-IsLaid (omega arith) (omega arith)

-- An address inside the last click: the sum wraps, and the data segment loses its ten clicks.
last_click : (do_brk small_map (2 ^ 32 - 1) 25100).1.mp_seg.data_seg.mem_len ≡ 0
unfolding do_brk adjust clicks_of resize check_size size_ok lower
last_click = refl

last_click-ok : (do_brk small_map (2 ^ 32 - 1) 25100).1.code ≡ ok
unfolding do_brk adjust clicks_of resize check_size size_ok lower
last_click-ok = refl

-- An address a few clicks below: the margin wraps, and the sizes are taken back.
near_end : (do_brk small_map (2 ^ 32 - 256) 25100).1.mp_seg ≡ small_map
unfolding do_brk adjust clicks_of resize check_size size_ok lower restore
near_end = refl
