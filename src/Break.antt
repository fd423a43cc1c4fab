-- ===== src/Break.antt =====
-- src/mm/break.c: the growth of the data and the stack segment of a process, of which the memory
-- manager keeps the maps. Addresses are unsigned 32-bit words, in bytes or in clicks of 256 bytes,
-- and a signed long is the word of the same bits: a sum that leaves the range wraps. The answer of the
-- kernel to sys_getsp is an argument, the map that sys_newmap sends to it a part of the answer. The
-- tests of size_ok for machines with pages of 16-bit words are left out.
pub mod Room
pub mod Answers
use minix4rt.Base.{
  ℕ, ◌+◌, ◌-◌, ◌*◌, ◌/◌, ◌%◌, ◌^◌, Bool, true, false, not, ◌&&◌, ◌||◌, Option, none, some, ltb, leb,
  ◌==◌, if◌then◌else◌,
}

-- CLICK_SIZE; a shift by CLICK_SHIFT is the division by it.
abbrev pub click_size : ℕ
click_size = 256

-- SAFETY_CLICKS, with pointers of four bytes
abbrev pub safety_clicks : ℕ
safety_clicks = (384 * 4 + (256 - 1)) / 256

pub data MmCode : Type 0 where
  ok enomem : MmCode

-- `mem_phys` and the lengths are in clicks.
pub record MemMap : Type 0 where
  pub mem_vir : ℕ
  pub mem_phys : ℕ
  pub mem_len : ℕ

-- The map of a process, `mp_seg`: T, D and S.
pub record Segs : Type 0 where
  pub text : MemMap
  pub data_seg : MemMap
  pub stack : MemMap

-- The value of a routine, the map that it sends to the kernel, and the map it leaves.
pub record Answer : Type 0 where
  pub code : MmCode
  pub newmap : Option Segs
  pub mp_seg : Segs

abbrev pub add_word : ℕ → ℕ → ℕ
add_word a b = (a + b) % 2 ^ 32

abbrev pub sub_word : ℕ → ℕ → ℕ
sub_word a b = (a + (2 ^ 32 - b)) % 2 ^ 32

-- Whether the signed number of these bits is positive.
abbrev pub is_positive : ℕ → Bool
is_positive w = ltb 0 w && ltb w (2 ^ 31)

-- The shift of a signed number to the right.
abbrev pub shift_long : ℕ → ℕ
shift_long w = if ltb w (2 ^ 31) then w / 256 else (2 ^ 32 - 2 ^ 24) + w / 256

unfoldable pub size_ok : ℕ → ℕ → ℕ → MmCode
size_ok dc dvir s_vir = if ltb s_vir (add_word dvir dc) then enomem else ok

-- The lower end of the stack.
unfoldable pub lower : ℕ → ℕ → ℕ
lower s_vir sp_click = if is_positive (sub_word s_vir sp_click) then sp_click else s_vir

abbrev pub set_len : ℕ → MemMap → MemMap
set_len n m = record m { mem_len = n }

abbrev pub move_down : ℕ → MemMap → MemMap
move_down d m = record {
  mem_vir = sub_word m.mem_vir d;
  mem_phys = sub_word m.mem_phys d;
  mem_len = add_word m.mem_len d;
}

abbrev pub move_up : ℕ → MemMap → MemMap
move_up d m = record {
  mem_vir = add_word m.mem_vir d;
  mem_phys = add_word m.mem_phys d;
  mem_len = sub_word m.mem_len d;
}

-- The new sizes do not fit, and are taken back.
unfoldable pub restore : Bool → Bool → ℕ → ℕ → Segs → Segs
restore data_changed stack_changed old_clicks delta s = record s {
  data_seg = if data_changed then set_len old_clicks s.data_seg else s.data_seg;
  stack = if stack_changed then move_up delta s.stack else s.stack;
}

-- The last test of `adjust`.
unfoldable pub check_size : Bool → Bool → ℕ → ℕ → Segs → Answer
unfolding size_ok restore
check_size data_changed stack_changed old_clicks delta s =
    elim (size_ok s.data_seg.mem_len s.data_seg.mem_vir s.stack.mem_vir) [
      | ok ↦ record {
        code = ok;
        newmap = if data_changed || stack_changed then some s else none;
        mp_seg = s;
      }
      | enomem ↦ record {
        code = enomem;
        newmap = none;
        mp_seg = restore data_changed stack_changed old_clicks delta s;
      }
    ]

-- The segments are changed.
unfoldable pub resize : Segs → ℕ → ℕ → Answer
unfolding check_size
resize s data_clicks delta =
    let old_clicks = s.data_seg.mem_len in
    let data_changed = not (data_clicks == old_clicks) in
    let stack_changed = is_positive delta in
    check_size data_changed stack_changed old_clicks delta (record s {
      data_seg = if data_changed then set_len data_clicks s.data_seg else s.data_seg;
      stack = if stack_changed then move_down delta s.stack else s.stack;
    })

abbrev pub unchanged : MmCode → Segs → Answer
unchanged r s = record { code = r; newmap = none; mp_seg = s }

unfoldable pub adjust : Segs → ℕ → ℕ → Answer
unfolding lower resize
adjust s data_clicks sp =
    let sp_click = sp / click_size in
    let base_of_stack = add_word s.stack.mem_vir s.stack.mem_len in
    let gap_base = add_word (add_word s.data_seg.mem_vir data_clicks) safety_clicks in
    if s.stack.mem_len == 0
    then unchanged ok s
    else if leb base_of_stack sp_click
    then unchanged enomem s
    else if ltb (lower s.stack.mem_vir sp_click) gap_base
    then unchanged enomem s
    else resize s data_clicks (sub_word s.stack.mem_vir sp_click)

-- (char *) -1
abbrev pub bad_ptr : ℕ
bad_ptr = 2 ^ 32 - 1

-- The clicks that reach an address.
unfoldable pub clicks_of : ℕ → ℕ
clicks_of addr = shift_long (add_word addr (click_size - 1))

abbrev pub result_of : MmCode → ℕ → ℕ
result_of ok addr = addr
result_of enomem addr = bad_ptr

-- `res_ptr` and the answer, with the stack pointer that the kernel reports.
unfoldable pub do_brk : Segs → ℕ → ℕ → ℕ × Answer
unfolding adjust clicks_of
do_brk s addr sp =
    let new_clicks = clicks_of addr in
    let a = adjust s (sub_word new_clicks s.data_seg.mem_vir) sp in
    if ltb new_clicks s.data_seg.mem_vir
    then (bad_ptr, unchanged enomem s)
    else (result_of a.code addr, a)
