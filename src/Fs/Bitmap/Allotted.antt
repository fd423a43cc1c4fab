-- ===== src/Fs/Bitmap/Allotted.antt =====
-- What alloc_bit does to the bits of a map, and that free_bit undoes it.
use minix4rt.Base.{
  ℕ, ◌+◌, ◌*◌, ◌/◌, ◌%◌, ◌≤◌, ◌<◌, ◌≡◌, ◌≢◌, refl, ap, sym, ◌∙◌, subst, true_ne_false, ◌⊎◌, inl,
  inr, Bool, true, false, ◌||◌, Option, none, some, leb, ◌==◌, if◌then◌else◌, if_true, if_false,
  Bool-cases, ==_iff, ==_refl, arith,
}
use minix4rt.Fs.Bitmap.{
  Blocks, SuperBlock, MapKind, conv2, word_loop, no_bit, start_block, map_bits, bit_blocks,
  write_bit, block_loop, alloc_bit, free_bit,
}
use minix4rt.Fs.Bitmap.Rounds.{Taken, Nothing, block_loop-cases, visits}
use minix4rt.Fs.Bitmap.Bits.{bit_at, write_bit-bit_at, full-bit_at, free-bit_at}

if_or : (b c : Bool) → (if b then true else c) ≡ (b || c)
if_or true c = refl
if_or false c = refl

or_self : (n : ℕ) (c : Bool) → (n == n || c) ≡ true
or_self n c = ap (λ b. b || c) (==_refl n)

-- Blocks outside the map keep their chunks.
abbrev pub KeepsOthers : SuperBlock → MapKind → Blocks → Blocks → Type 0
KeepsOthers sp map m m' =
    (b : ℕ)
    → (b < start_block sp map) ⊎ (start_block sp map + bit_blocks sp map ≤ b)
    → m'.b_bitmap b ≡ m.b_bitmap b

-- What alloc_bit must yield: a bit that was clear, or no bit of a map that is full.
abbrev pub Allotted : SuperBlock → MapKind → Blocks → ℕ × Blocks → Type 0
Allotted sp map m r =
    ((r ≡ (no_bit, m)) × ((c : ℕ) → c < map_bits sp map → bit_at sp map m c ≡ true))
    ⊎ ((r.0 ≢ no_bit)
        × (r.0 < map_bits sp map)
        × (bit_at sp map m r.0 ≡ false)
        × ((c : ℕ) → bit_at sp map r.1 c ≡ (c == r.0 || bit_at sp map m c))
        × KeepsOthers sp map m r.1)

write_bit-KeepsOthers :
    (sp : SuperBlock) (map : MapKind) (m : Blocks) (j word i : ℕ) (v : Bool)
    → j < bit_blocks sp map
    → KeepsOthers sp map m (write_bit sp map m j word i v)
unfolding write_bit
write_bit-KeepsOthers sp map m j word i v h b (inl lt) =
    if_false {b = b == start_block sp map + j} _ (m.b_bitmap b) (ground arith)
write_bit-KeepsOthers sp map m j word i v h b (inr ge) =
    if_false {b = b == start_block sp map + j} _ (m.b_bitmap b) (ground arith)

Taken-Allotted :
    (sp : SuperBlock) (map : MapKind) (m : Blocks) (r : ℕ × Blocks)
    → bit_at sp map m 0 ≡ true
    → Taken sp map m r
    → Allotted sp map m r
Taken-Allotted sp map m r zeroth (j, f, h, free, e) =
    let clear = free-bit_at sp map m j f free in
    let r' : ℕ × Blocks = (f.number, write_bit sp map m j f.word f.bit true) in
    subst (Allotted sp map m) (sym e) (
      inr (
        (λ z. true_ne_false (sym zeroth ∙ ap (bit_at sp map m) (sym z) ∙ clear)),
        free.within,
        clear,
        (λ c.
            write_bit-bit_at sp map m j f.word f.bit true c free.in_block free.in_word
            ∙ ap (λ x. if c == x then true else bit_at sp map m c) (sym free.numbered)
            ∙ if_or (c == f.number) (bit_at sp map m c)),
        write_bit-KeepsOthers sp map m j f.word f.bit true h,
      ))

Nothing-Allotted :
    (sp : SuperBlock) (map : MapKind) (m : Blocks) (block word : ℕ) (r : ℕ × Blocks)
    → block < bit_blocks sp map
    → map_bits sp map ≤ bit_blocks sp map * 8192
    → Nothing sp map m (bit_blocks sp map + 1) block word r
    → Allotted sp map m r
Nothing-Allotted sp map m block word r hb cover (e, _, rounds) = inl (
  e,
  λ c h.
      let (d, below, at) : _ × _ × _ =
        visits (bit_blocks sp map) block (c / 8192) (omega arith) hb in
      full-bit_at sp map m c
        (ap
            (λ j.
              word_loop sp.s_native (map_bits sp map) (m.b_bitmap (start_block sp map + j)) j 512 0)
            (sym at)
          ∙ rounds d (omega arith))
        h,
)

-- Where the blocks of a map on a file system that is not read only hold all its bits, and bit 0 is set,
-- alloc_bit does not panic, wherever it starts. Either it yields a bit of the map that was clear, which is set
-- then, while all other bits of the map and all blocks outside it are as before; or it yields NO_BIT,
-- nothing is changed, and all bits of the map are set.
pub alloc_bit-Allotted :
    (sp : SuperBlock) (map : MapKind) (origin : ℕ) (m : Blocks)
    → sp.s_rd_only ≡ false
    → map_bits sp map ≤ bit_blocks sp map * 8192
    → 0 < map_bits sp map
    → bit_at sp map m 0 ≡ true
    → (r : ℕ × Blocks) × (alloc_bit sp map origin m ≡ some r) × Allotted sp map m r
unfolding alloc_bit
alloc_bit-Allotted sp map origin m writable cover some_bit zeroth =
    let start = if leb (map_bits sp map) origin then 0 else origin in
    let n = bit_blocks sp map + 1 in
    let word = start % 8192 / 16 in
    let r = block_loop sp map m n (start / 8192) word in
    let inside : start < map_bits sp map = ground arith in
    let hb : start / 8192 < bit_blocks sp map = omega arith in
    (
      r,
      if_false {b = sp.s_rd_only} none (some r) writable,
      elim (block_loop-cases sp map m n (start / 8192) word (omega arith) hb) [
        | inl taken ↦ Taken-Allotted sp map m r zeroth taken
        | inr nothing ↦ Nothing-Allotted sp map m (start / 8192) word r hb cover nothing
      ],
    )

-- A bit that is set is cleared, and nothing else is changed.
free_bit-Cleared :
    (sp : SuperBlock) (map : MapKind) (c : ℕ) (m : Blocks)
    → sp.s_rd_only ≡ false
    → bit_at sp map m c ≡ true
    → (m' : Blocks) × (free_bit sp map c m ≡ some m')
      × ((d : ℕ) → bit_at sp map m' d ≡ (if d == c then false else bit_at sp map m d))
unfolding free_bit bit_at
free_bit-Cleared sp map c m writable set =
    let m' = write_bit sp map m (c / 8192) (c % 8192 / 16) (c % 16) false in
    let number : c / 8192 * 8192 + c % 8192 / 16 * 16 + c % 16 ≡ c = omega arith in
    let busy : Option Blocks =
      if conv2 sp.s_native (m.b_bitmap (start_block sp map + c / 8192) (c % 8192 / 16)) (c % 16)
      then some m'
      else none in
    (
      m',
      if_false {b = sp.s_rd_only} none busy writable ∙ if_true (some m') none set,
      λ d.
          write_bit-bit_at sp map m (c / 8192) (c % 8192 / 16) (c % 16) false d (omega arith)
            (omega arith)
          ∙ ap (λ x. if d == x then false else bit_at sp map m d) number,
    )

cleared_again :
    (sp : SuperBlock) (map : MapKind) (m : Blocks) (c d : ℕ)
    → bit_at sp map m c ≡ false
    → (if d == c then false else (d == c || bit_at sp map m d)) ≡ bit_at sp map m d
cleared_again sp map m c d clear = elim (Bool-cases (d == c)) [
  | inl e ↦
      if_true false (d == c || bit_at sp map m d) e
      ∙ sym clear
      ∙ ap (bit_at sp map m) (sym ((==_iff d c).0 e))
  | inr e ↦ if_false false (d == c || bit_at sp map m d) e ∙ ap (λ b. b || bit_at sp map m d) e
]

restored :
    (sp : SuperBlock) (map : MapKind) (m : Blocks) (r : ℕ × Blocks)
    → sp.s_rd_only ≡ false
    → r.0 ≢ no_bit
    → Allotted sp map m r
    → (m' : Blocks) × (free_bit sp map r.0 r.1 ≡ some m')
      × ((c : ℕ) → bit_at sp map m' c ≡ bit_at sp map m c)
restored sp map m r writable taken (inl (same, _)) = absurd (taken (ap (λ x. x.0) same))
restored sp map m r writable taken (inr (_, _, clear, bits, _)) =
    let (m', freed, after) : _ × _ × _ =
      free_bit-Cleared sp map r.0 r.1 writable (bits r.0 ∙ or_self r.0 (bit_at sp map m r.0)) in
    (
      m',
      freed,
      λ c.
          after c
          ∙ ap (λ b. if c == r.0 then false else b) (bits c)
          ∙ cleared_again sp map m r.0 c clear,
    )

-- Where the blocks of a map on a file system that is not read only hold all its bits, bit 0 is set, and
-- alloc_bit yields another bit than NO_BIT, free_bit of it does not panic, and all bits of the map are as
-- before.
pub free_bit-alloc_bit :
    (sp : SuperBlock) (map : MapKind) (origin : ℕ) (m : Blocks) (r : ℕ × Blocks)
    → sp.s_rd_only ≡ false
    → map_bits sp map ≤ bit_blocks sp map * 8192
    → 0 < map_bits sp map
    → bit_at sp map m 0 ≡ true
    → alloc_bit sp map origin m ≡ some r
    → r.0 ≢ no_bit
    → (m' : Blocks) × (free_bit sp map r.0 r.1 ≡ some m')
      × ((c : ℕ) → bit_at sp map m' c ≡ bit_at sp map m c)
free_bit-alloc_bit sp map origin m r writable cover some_bit zeroth e taken =
    let (r', e', allotted) : _ × _ × _ =
      alloc_bit-Allotted sp map origin m writable cover some_bit zeroth in
    let same : r' ≡ r = cc in
    restored sp map m r writable taken (subst (Allotted sp map m) same allotted)
