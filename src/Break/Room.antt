-- ===== src/Break/Room.antt =====
-- The sums of `adjust` and `do_brk` over the natural numbers, where the segments lie in the lower half
-- of the address space, and the outcome of `adjust` without the intermediate steps.
use minix4rt.Base.{
  ℕ, ◌+◌, ◌-◌, ◌^◌, ◌≤◌, ◌<◌, ◌≡◌, ◌≢◌, refl, ap, ◌∙◌, Bool, not, ◌||◌, Option, none, some, ltb,
  ◌==◌, if◌then◌else◌, arith,
}
use minix4rt.Break.{
  MemMap, Segs, MmCode, enomem, add_word, sub_word, is_positive, size_ok, lower, set_len, move_down,
  move_up, restore, check_size, resize,
}

-- The map of a process with a stack, in the lower half of the address space.
pub record IsLaid (s : Segs) : Type 0 where
  pub has_stack : s.stack.mem_len ≢ 0
  pub in_half : s.stack.mem_vir + s.stack.mem_len ≤ 2 ^ 23
  pub placed : s.stack.mem_vir ≤ s.stack.mem_phys
  pub in_memory : s.stack.mem_phys + s.stack.mem_len < 2 ^ 32
  pub data_in_half : s.data_seg.mem_vir + s.data_seg.mem_len ≤ 2 ^ 23

-- There is room for a data segment that ends at the click `end`, with the stack pointer at `sp_click`.
abbrev pub HasRoom : Segs → ℕ → ℕ → Type 0
HasRoom s end sp_click =
    (s.data_seg.mem_vir ≤ end)
    × (sp_click < s.stack.mem_vir + s.stack.mem_len)
    × (end + 6 ≤ s.stack.mem_vir)
    × (end + 6 ≤ sp_click)

-- The clicks by which the stack must grow.
abbrev pub pull : Segs → ℕ → ℕ
pull s sp_click = s.stack.mem_vir - sp_click

-- The map with a data segment up to `end`, and a stack that reaches down to `sp_click`.
abbrev pub grown : Segs → ℕ → ℕ → Segs
grown s end sp_click = record s {
  data_seg = record s.data_seg { mem_len = end - s.data_seg.mem_vir };
  stack = record {
    mem_vir = s.stack.mem_vir - pull s sp_click;
    mem_phys = s.stack.mem_phys - pull s sp_click;
    mem_len = s.stack.mem_len + pull s sp_click;
  };
}

-- The kernel is told if anything changes.
abbrev pub tell : Segs → ℕ → ℕ → Option Segs
tell s end sp_click =
    if not (end - s.data_seg.mem_vir == s.data_seg.mem_len) || ltb sp_click s.stack.mem_vir
    then some (grown s end sp_click)
    else none

pub MemMap-eq :
    {a b : MemMap} → a.mem_vir ≡ b.mem_vir → a.mem_phys ≡ b.mem_phys → a.mem_len ≡ b.mem_len → a ≡ b
MemMap-eq e f g = cc

pub is_positive_lem : (v c : ℕ) → v ≤ 2 ^ 23 → c < 2 ^ 24 → is_positive (sub_word v c) ≡ ltb c v
is_positive_lem v c hv hc = ground arith

set_len_lem : (n : ℕ) (m : MemMap) → (if not (n == m.mem_len) then set_len n m else m) ≡ set_len n m
set_len_lem n m = MemMap-eq (ground arith) (ground arith) (ground arith)

pub lower_lem : (v c : ℕ) → v ≤ 2 ^ 23 → c < 2 ^ 24 → lower v c ≡ v - (v - c)
unfolding lower
lower_lem v c hv hc = ground arith

-- The stack segment pulled down to the click `c`.
abbrev pub pulled : MemMap → ℕ → MemMap
pulled m c = record {
  mem_vir = m.mem_vir - (m.mem_vir - c);
  mem_phys = m.mem_phys - (m.mem_vir - c);
  mem_len = m.mem_len + (m.mem_vir - c);
}

move_down_lem :
    (m : MemMap) (c : ℕ)
    → m.mem_vir + m.mem_len ≤ 2 ^ 23
    → m.mem_vir ≤ m.mem_phys
    → m.mem_phys + m.mem_len < 2 ^ 32
    → (if ltb c m.mem_vir then move_down (sub_word m.mem_vir c) m else m) ≡ pulled m c
move_down_lem m c h p q = MemMap-eq (ground arith) (ground arith) (ground arith)

move_up_lem :
    (m : MemMap) (c : ℕ)
    → m.mem_vir + m.mem_len ≤ 2 ^ 23
    → m.mem_vir ≤ m.mem_phys
    → m.mem_phys + m.mem_len < 2 ^ 32
    → (if ltb c m.mem_vir then move_up (sub_word m.mem_vir c) (pulled m c) else pulled m c) ≡ m
move_up_lem m c h p q = MemMap-eq (ground arith) (ground arith) (ground arith)

set_back :
    (n : ℕ) (m : MemMap)
    → (if not (n == m.mem_len) then set_len m.mem_len (set_len n m) else set_len n m) ≡ m
set_back n m = MemMap-eq (ground arith) (ground arith) (ground arith)

-- The two changes of `resize` together.
abbrev pub resized : Segs → ℕ → ℕ → Segs
resized s n c = record s { data_seg = set_len n s.data_seg; stack = pulled s.stack c }

Segs-eq : {s t : Segs} → s.text ≡ t.text → s.data_seg ≡ t.data_seg → s.stack ≡ t.stack → s ≡ t
Segs-eq e f g = cc

pub resize_lem :
    (s : Segs) (n c : ℕ)
    → IsLaid s
    → c < 2 ^ 24
    → resize s n (sub_word s.stack.mem_vir c)
      ≡ check_size
          (not (n == s.data_seg.mem_len))
          (ltb c s.stack.mem_vir)
          s.data_seg.mem_len
          (sub_word s.stack.mem_vir c)
          (resized s n c)
unfolding resize
resize_lem s n c l hc =
    ap
      (λ b.
        check_size (not (n == s.data_seg.mem_len)) b s.data_seg.mem_len (sub_word s.stack.mem_vir c)
          (record s {
            data_seg = if not (n == s.data_seg.mem_len) then set_len n s.data_seg else s.data_seg;
            stack = if b then move_down (sub_word s.stack.mem_vir c) s.stack else s.stack;
          }))
      (is_positive_lem s.stack.mem_vir c (let q = l.in_half in omega arith) hc)
    ∙ ap
        (check_size (not (n == s.data_seg.mem_len)) (ltb c s.stack.mem_vir) s.data_seg.mem_len
          (sub_word s.stack.mem_vir c))
        (Segs-eq refl (set_len_lem n s.data_seg)
          (move_down_lem s.stack c l.in_half l.placed l.in_memory))

-- What is taken back is what was there.
pub restore_lem :
    (s : Segs) (n c : ℕ)
    → IsLaid s
    → restore
        (not (n == s.data_seg.mem_len))
        (ltb c s.stack.mem_vir)
        s.data_seg.mem_len
        (sub_word s.stack.mem_vir c)
        (resized s n c)
      ≡ s
unfolding restore
restore_lem s n c l =
    Segs-eq refl (set_back n s.data_seg) (move_up_lem s.stack c l.in_half l.placed l.in_memory)

-- Where the new sizes fit, the map is changed and sent, and the answer is good.
pub check_size-fits :
    (d t : Bool) (old delta : ℕ) (s : Segs)
    → add_word s.data_seg.mem_vir s.data_seg.mem_len ≤ s.stack.mem_vir
    → check_size d t old delta s
      ≡ record { code = MmCode.ok; newmap = if d || t then some s else none; mp_seg = s }
unfolding check_size size_ok
check_size-fits d t old delta s h = ground arith

pub check_size-fails :
    (d t : Bool) (old delta : ℕ) (s : Segs)
    → s.stack.mem_vir < add_word s.data_seg.mem_vir s.data_seg.mem_len
    → check_size d t old delta s
      ≡ record { code = enomem; newmap = none; mp_seg = restore d t old delta s }
unfolding check_size size_ok
check_size-fails d t old delta s h = ground arith
