-- ===== src/Break/Answers.antt =====
-- What `adjust` and `do_brk` answer, against the description over the natural numbers.
use minix4rt.Base.{
  ℕ, ◌+◌, ◌-◌, ◌/◌, ◌^◌, ◌≤◌, ◌<◌, ◌≡◌, ap, ◌∙◌, ◌⊎◌, inl, inr, not, ◌||◌, none, some, ltb, leb,
  ◌==◌, if◌then◌else◌, if_false, Bool-cases, arith,
}
use minix4rt.Break.{
  Segs, Answer, MmCode, enomem, add_word, sub_word, lower, resize, unchanged, adjust, clicks_of,
  do_brk, bad_ptr, result_of,
}
use minix4rt.Break.Room.{
  IsLaid, HasRoom, grown, tell, resized, lower_lem, resize_lem, restore_lem, check_size-fits,
  check_size-fails,
}

-- The answer where there is room.
abbrev pub granted : Segs → ℕ → ℕ → Answer
granted s end c = record { code = MmCode.ok; newmap = tell s end c; mp_seg = grown s end c }

adjust-high :
    (s : Segs) (n sp : ℕ)
    → IsLaid s
    → s.stack.mem_vir + s.stack.mem_len ≤ sp / 256
    → adjust s n sp ≡ unchanged enomem s
unfolding adjust
adjust-high s n sp l h = ground arith

adjust-meets :
    (s : Segs) (n sp : ℕ)
    → IsLaid s
    → lower s.stack.mem_vir (sp / 256) < add_word (add_word s.data_seg.mem_vir n) 6
    → adjust s n sp ≡ unchanged enomem s
unfolding adjust
adjust-meets s n sp l h = ground arith

adjust-resizes :
    (s : Segs) (n sp : ℕ)
    → IsLaid s
    → sp / 256 < s.stack.mem_vir + s.stack.mem_len
    → add_word (add_word s.data_seg.mem_vir n) 6 ≤ lower s.stack.mem_vir (sp / 256)
    → adjust s n sp ≡ resize s n (sub_word s.stack.mem_vir (sp / 256))
unfolding adjust
adjust-resizes s n sp l h g = ground arith

-- A segment with no room between it and the stack does not fit.
abbrev pub Short : Segs → ℕ → ℕ → Type 0
Short s end c = (s.stack.mem_vir < end + 6) ⊎ (c < end + 6)

resize-Short :
    (s : Segs) (n c : ℕ)
    → IsLaid s
    → c < 2 ^ 24
    → s.stack.mem_vir < add_word s.data_seg.mem_vir n
    → resize s n (sub_word s.stack.mem_vir c) ≡ unchanged enomem s
resize-Short s n c l hc h =
    resize_lem s n c l hc
    ∙ check_size-fails (not (n == s.data_seg.mem_len)) (ltb c s.stack.mem_vir) s.data_seg.mem_len
        (sub_word s.stack.mem_vir c) (resized s n c) (omega arith)
    ∙ ap (unchanged enomem) (restore_lem s n c l)

-- A sum that wraps is a segment beyond the stack.
beyond :
    (v x c low : ℕ)
    → v ≤ 2 ^ 23
    → c < 2 ^ 24
    → x < 2 ^ 32
    → low ≡ v - (v - c)
    → add_word x 6 ≤ low
    → (v < x + 6) ⊎ (c < x + 6)
    → v < x
beyond v x c low hv hc hx e g (inl h) = omega arith
beyond v x c low hv hc hx e g (inr h) = omega arith

adjust-Short :
    (s : Segs) (n sp : ℕ)
    → IsLaid s
    → sp < 2 ^ 32
    → s.data_seg.mem_vir + n < 2 ^ 32
    → sp / 256 < s.stack.mem_vir + s.stack.mem_len
    → Short s (s.data_seg.mem_vir + n) (sp / 256)
    → adjust s n sp ≡ unchanged enomem s
adjust-Short s n sp l hs hn h short =
    let v = s.stack.mem_vir in
    let half : v ≤ 2 ^ 23 = (let q = l.in_half in omega arith) in
    let same : lower v (sp / 256) ≡ v - (v - sp / 256) =
      lower_lem v (sp / 256) half (omega arith) in
    let word : add_word s.data_seg.mem_vir n ≡ s.data_seg.mem_vir + n = omega arith in
    let gap = add_word (add_word s.data_seg.mem_vir n) 6 in
    elim (Bool-cases (ltb (lower v (sp / 256)) gap)) [
      | inl e ↦ adjust-meets s n sp l (ground arith)
      | inr e ↦
          adjust-resizes s n sp l h (ground arith)
          ∙ resize-Short s n (sp / 256) l (omega arith) (
              let b : v < s.data_seg.mem_vir + n =
                beyond v (s.data_seg.mem_vir + n) (sp / 256) (lower v (sp / 256)) half (omega arith)
                  hn same (ground arith) short in
              omega arith)
    ]

adjust-granted :
    (s : Segs) (n sp : ℕ)
    → IsLaid s
    → sp < 2 ^ 32
    → HasRoom s (s.data_seg.mem_vir + n) (sp / 256)
    → adjust s n sp ≡ granted s (s.data_seg.mem_vir + n) (sp / 256)
adjust-granted s n sp l hs (_, h, r, q) =
    let v = s.stack.mem_vir in
    let c = sp / 256 in
    let half : v ≤ 2 ^ 23 = (let q = l.in_half in omega arith) in
    let same : lower v c ≡ v - (v - c) = lower_lem v c half (omega arith) in
    adjust-resizes s n sp l h (omega arith)
    ∙ resize_lem s n c l (omega arith)
    ∙ check_size-fits (not (n == s.data_seg.mem_len)) (ltb c v) s.data_seg.mem_len (sub_word v c)
        (resized s n c) (omega arith)
    ∙ ap
        (λ k. record {
          code = MmCode.ok;
          newmap = if not (k == s.data_seg.mem_len) || ltb c v then some (resized s k c) else none;
          mp_seg = resized s k c;
        })
        (let e : n ≡ (s.data_seg.mem_vir + n) - s.data_seg.mem_vir = omega arith in e)

-- The clicks of an address, rounded up, where the sum of `do_brk` does not leave the signed range; the
-- sum is beyond the lower half where it does.
clicks_of_lem :
    (addr : ℕ)
    → addr ≤ 2 ^ 32 - 256
    → ((clicks_of addr ≡ (addr + 255) / 256) × ((addr + 255) / 256 < 2 ^ 23))
      ⊎ ((2 ^ 24 < clicks_of addr) × (clicks_of addr < 2 ^ 32) × (2 ^ 23 ≤ (addr + 255) / 256))
unfolding clicks_of
clicks_of_lem addr h = elim (Bool-cases (ltb (addr + 255) (2 ^ 31))) [
  | inl e ↦ inl (ground arith)
  | inr e ↦ inr (ground arith)
]

-- The click behind the last one of a data segment that reaches an address.
abbrev pub end_of : ℕ → ℕ
end_of addr = (addr + 255) / 256

grown-IsLaid : (s : Segs) (end c : ℕ) → IsLaid s → HasRoom s end c → IsLaid (grown s end c)
grown-IsLaid s end c l r = record {
  has_stack = (let p = l.has_stack in omega arith);
  in_half = (let p = l.in_half in omega arith);
  placed = (let p = l.placed in omega arith);
  in_memory = (let (p, q) : _ × _ = (l.in_memory, l.placed) in omega arith);
  data_in_half = (let (p, (a, _, b, _)) : _ × _ = (l.in_half, r) in omega arith);
}

-- What do_brk must yield.
abbrev pub Answered : Segs → ℕ → ℕ → ℕ × Answer → Type 0
Answered s addr c a =
    (HasRoom s (end_of addr) c
      × (a ≡ (addr, granted s (end_of addr) c))
      × IsLaid (grown s (end_of addr) c))
    ⊎ (¬ HasRoom s (end_of addr) c × (a ≡ (bad_ptr, unchanged enomem s)))

do_brk-low :
    (s : Segs) (addr sp : ℕ)
    → clicks_of addr < s.data_seg.mem_vir
    → do_brk s addr sp ≡ (bad_ptr, unchanged enomem s)
unfolding do_brk
do_brk-low s addr sp h = ground arith

do_brk-adjust :
    (s : Segs) (addr sp : ℕ) (a : Answer)
    → s.data_seg.mem_vir ≤ clicks_of addr
    → clicks_of addr < 2 ^ 32
    → adjust s (clicks_of addr - s.data_seg.mem_vir) sp ≡ a
    → do_brk s addr sp ≡ (result_of a.code addr, a)
unfolding do_brk
do_brk-adjust s addr sp a h w e =
    let n = sub_word (clicks_of addr) s.data_seg.mem_vir in
    let same : n ≡ clicks_of addr - s.data_seg.mem_vir = omega arith in
    if_false {b = ltb (clicks_of addr) s.data_seg.mem_vir} (bad_ptr, unchanged enomem s)
      (result_of (adjust s n sp).code addr, adjust s n sp) (ground arith)
    ∙ ap (λ b. (result_of b.code addr, b)) (ap (λ k. adjust s k sp) same ∙ e)

adjust-no_room :
    (s : Segs) (n sp : ℕ)
    → IsLaid s
    → sp < 2 ^ 32
    → s.data_seg.mem_vir + n < 2 ^ 32
    → ¬ HasRoom s (s.data_seg.mem_vir + n) (sp / 256)
    → adjust s n sp ≡ unchanged enomem s
adjust-no_room s n sp l hs hn full =
    elim (Bool-cases (ltb (sp / 256) (s.stack.mem_vir + s.stack.mem_len))) [
      | inl e ↦
          adjust-Short s n sp l hs hn (ground arith)
            (elim (Bool-cases (ltb (s.stack.mem_vir) (s.data_seg.mem_vir + n + 6))) [
              | inl h ↦ inl (ground arith)
              | inr h ↦ inr (ground arith)
            ])
      | inr e ↦ adjust-high s n sp l (ground arith)
    ]

HasRoom-cases : (s : Segs) (end c : ℕ) → HasRoom s end c ⊎ ¬ HasRoom s end c
HasRoom-cases s end c =
    let low = ltb end s.data_seg.mem_vir in
    let high = leb (s.stack.mem_vir + s.stack.mem_len) c in
    let short = ltb s.stack.mem_vir (end + 6) || ltb c (end + 6) in
    elim (Bool-cases (low || high || short)) [
      | inl e ↦ inr (λ (a, b, d, g). ground arith)
      | inr e ↦ inl (ground arith, ground arith, ground arith, ground arith)
    ]

do_brk-grants :
    (s : Segs) (addr sp : ℕ)
    → IsLaid s
    → sp < 2 ^ 32
    → clicks_of addr ≡ end_of addr
    → HasRoom s (end_of addr) (sp / 256)
    → do_brk s addr sp ≡ (addr, granted s (end_of addr) (sp / 256))
do_brk-grants s addr sp l hs e room =
    let (a, b, d, g) : _ × _ × _ × _ = room in
    let half = l.in_half in
    let n = clicks_of addr - s.data_seg.mem_vir in
    let end : s.data_seg.mem_vir + n ≡ end_of addr = omega arith in
    do_brk-adjust s addr sp (granted s (end_of addr) (sp / 256)) (omega arith) (omega arith) (
      adjust-granted s n sp l hs (omega arith, omega arith, omega arith, omega arith)
      ∙ ap (λ k. granted s k (sp / 256)) end)

do_brk-refuses :
    (s : Segs) (addr sp : ℕ)
    → IsLaid s
    → sp < 2 ^ 32
    → clicks_of addr < 2 ^ 32
    → ¬ HasRoom s (clicks_of addr) (sp / 256)
    → do_brk s addr sp ≡ (bad_ptr, unchanged enomem s)
do_brk-refuses s addr sp l hs w full =
    let n = clicks_of addr - s.data_seg.mem_vir in
    elim (Bool-cases (ltb (clicks_of addr) s.data_seg.mem_vir)) [
      | inl e ↦ do_brk-low s addr sp (ground arith)
      | inr e ↦
          let le : s.data_seg.mem_vir ≤ clicks_of addr = ground arith in
          do_brk-adjust s addr sp (unchanged enomem s) le w (
            adjust-no_room s n sp l hs (omega arith)
              (λ (a, b, d, g). full (le, b, omega arith, omega arith)))
    ]

-- `do_brk` for an address of at most 2^32 - 256 and a map with a stack, whose data and stack lie in the
-- lower half of the address space, and the stack in physical memory not below its virtual place. Where
-- the data segment can end behind the address, with the margin of six clicks to the stack and to the
-- stack pointer, and the stack pointer is not above the stack, the answer is the address; the data
-- segment ends there, the stack reaches down to the stack pointer and keeps its other end, the kernel
-- gets the map if anything changed, and the map is again such a map. Where it cannot, the answer is
-- ENOMEM and -1, the map is as before, and the kernel gets none.
pub do_brk-Answered :
    (s : Segs) (addr sp : ℕ)
    → IsLaid s
    → addr ≤ 2 ^ 32 - 256
    → sp < 2 ^ 32
    → Answered s addr (sp / 256) (do_brk s addr sp)
do_brk-Answered s addr sp l ha hs =
    let half = l.in_half in
    elim (clicks_of_lem addr ha) [
      | inl (e, _) ↦ elim (HasRoom-cases s (end_of addr) (sp / 256)) [
        | inl room ↦ inl (
          room,
          do_brk-grants s addr sp l hs e room,
          grown-IsLaid s (end_of addr) (sp / 256) l room,
        )
        | inr full ↦ inr (
          full,
          do_brk-refuses s addr sp l hs (omega arith)
              (λ (a, b, d, g). full (omega arith, b, omega arith, omega arith)),
        )
      ]
      | inr (a, b, d) ↦ inr (
        λ (_, _, h, _). omega arith,
        do_brk-refuses s addr sp l hs b (λ (_, _, h, _). omega arith),
      )
    ]
