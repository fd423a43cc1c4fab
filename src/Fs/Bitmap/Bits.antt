-- ===== src/Fs/Bitmap/Bits.antt =====
-- The bits of a map as one sequence, over the blocks and words, and what the write of a bit does to it.
use minix4rt.Base.{
  ℕ, ◌+◌, ◌*◌, ◌/◌, ◌%◌, ◌<◌, ◌≡◌, ◌≢◌, ap, sym, ◌∙◌, ◌⊎◌, inl, inr, Bool, true, false, ◌&&◌, none,
  ltb, ◌==◌, if◌then◌else◌, if_true, if_false, Bool-cases, ==_iff, update, arith,
}
use minix4rt.Fs.Bitmap.{
  Chunk, Found, Blocks, SuperBlock, MapKind, conv2, swapped, word_loop, start_block, map_bits,
  write_bit,
}
use minix4rt.Fs.Bitmap.Search.{IsFree, word_loop-full}

-- Two swaps give the bits back.
conv2-conv2 : (norm : Bool) (w : Chunk) (i : ℕ) → i < 16 → conv2 norm (conv2 norm w) i ≡ w i
unfolding conv2
conv2-conv2 true w i h = ground arith
conv2-conv2 false w i h =
    let back : swapped (swapped i) ≡ i = ground arith in
    let small : ltb i 16 ≡ true = ground arith in
    let small' : ltb (swapped i) 16 ≡ true = ground arith in
    ap (λ b. b && (ltb (swapped i) 16 && w (swapped (swapped i)))) small
    ∙ ap (λ b. b && w (swapped (swapped i))) small'
    ∙ ap w back

-- The chunk in which a bit of a map lies, and the bit.
abbrev pub chunk_at : SuperBlock → MapKind → Blocks → ℕ → Chunk
chunk_at sp map m c = m.b_bitmap (start_block sp map + c / 8192) (c % 8192 / 16)

unfoldable pub bit_at : SuperBlock → MapKind → Blocks → ℕ → Bool
bit_at sp map m c = conv2 sp.s_native (chunk_at sp map m c) (c % 16)

chunk_same :
    (f : ℕ → ℕ → Chunk) (n word : ℕ) (k : Chunk) (b w : ℕ)
    → b ≡ n
    → w ≡ word
    → update f n (update (f n) word k) b w ≡ k
chunk_same f n word k b w e g = ground arith

chunk_other :
    (f : ℕ → ℕ → Chunk) (n word : ℕ) (k : Chunk) (b w : ℕ)
    → (b ≢ n) ⊎ (w ≢ word)
    → update f n (update (f n) word k) b w ≡ f b w
chunk_other f n word k b w (inl h) = ground arith
chunk_other f n word k b w (inr h) = elim (Bool-cases (b == n)) [
  | inl e ↦
      let same : b ≡ n = (==_iff b n).0 e in
      ap (λ g. g w) (if_true (update (f n) word k) (f b) e)
      ∙ if_false {b = w == word} k (f n w) (ground arith)
      ∙ ap (λ x. f x w) (sym same)
  | inr e ↦ ap (λ g. g w) (if_false (update (f n) word k) (f b) e)
]

-- The place of a bit in the map.
pub place-number :
    (j word i c : ℕ)
    → word < 512
    → i < 16
    → c ≡ j * 8192 + word * 16 + i
    → (c / 8192 ≡ j) × (c % 8192 / 16 ≡ word) × (c % 16 ≡ i)
place-number j word i c hw hi e = (omega arith, omega arith, omega arith)

pub bit_at-place :
    (sp : SuperBlock) (map : MapKind) (m : Blocks) (j word i c : ℕ)
    → (c / 8192 ≡ j) × (c % 8192 / 16 ≡ word) × (c % 16 ≡ i)
    → bit_at sp map m c ≡ conv2 sp.s_native (m.b_bitmap (start_block sp map + j) word) i
unfolding bit_at
bit_at-place sp map m j word i c (e, f, g) =
    ap (λ x. conv2 sp.s_native (m.b_bitmap (start_block sp map + x) (c % 8192 / 16)) (c % 16)) e
    ∙ ap (λ x. conv2 sp.s_native (m.b_bitmap (start_block sp map + j) x) (c % 16)) f
    ∙ ap (conv2 sp.s_native (m.b_bitmap (start_block sp map + j) word)) g

-- A number that differs in its block or its word.
other_place :
    (sp : SuperBlock) (map : MapKind) (j word i c : ℕ)
    → word < 512
    → i < 16
    → (c / 8192 == j && c % 8192 / 16 == word) ≡ false
    → ((start_block sp map + c / 8192 ≢ start_block sp map + j) ⊎ (c % 8192 / 16 ≢ word))
      × ((c == j * 8192 + word * 16 + i) ≡ false)
other_place sp map j word i c hw hi e = elim (Bool-cases (c / 8192 == j)) [
  | inl same ↦ let differ : c % 8192 / 16 ≢ word = (λ g. ground arith) in (inr differ, ground arith)
  | inr differ ↦
      let apart : c / 8192 ≢ j = (λ g. ground arith) in
      (inl (λ g. apart (omega arith)), ground arith)
]

-- One bit of the map is written, and no other one.
pub write_bit-bit_at :
    (sp : SuperBlock) (map : MapKind) (m : Blocks) (j word i : ℕ) (v : Bool) (c : ℕ)
    → word < 512
    → i < 16
    → bit_at sp map (write_bit sp map m j word i v) c
      ≡ (if c == j * 8192 + word * 16 + i then v else bit_at sp map m c)
unfolding bit_at write_bit
write_bit-bit_at sp map m j word i v c hw hi =
    let n = start_block sp map + j in
    let b = start_block sp map + c / 8192 in
    let w = c % 8192 / 16 in
    let norm = sp.s_native in
    let k = update (conv2 norm (m.b_bitmap n word)) i v in
    let here = j * 8192 + word * 16 + i in
    elim (Bool-cases (c / 8192 == j && w == word)) [
      | inl e ↦
          let block : c / 8192 ≡ j = ground arith in
          let place : w ≡ word = ground arith in
          let test : (c % 16 == i) ≡ (c == here) = ground arith in
          ap (λ x. conv2 norm x (c % 16))
            (chunk_same m.b_bitmap n word (conv2 norm k) b w
              (ap (λ x. start_block sp map + x) block) place)
          ∙ conv2-conv2 norm k (c % 16) (omega arith)
          ∙ ap (λ x. if c % 16 == i then v else conv2 norm x (c % 16))
              (ap (λ x. m.b_bitmap x word) (ap (λ x. start_block sp map + x) (sym block))
                ∙ ap (m.b_bitmap b) (sym place))
          ∙ ap (λ x. if x then v else conv2 norm (m.b_bitmap b w) (c % 16)) test
      | inr e ↦
          let (apart, other) : _ × _ = other_place sp map j word i c hw hi e in
          ap (λ x. conv2 norm x (c % 16)) (chunk_other m.b_bitmap n word (conv2 norm k) b w apart)
          ∙ sym (if_false v (bit_at sp map m c) other)
    ]

-- A block without free bits, within the map.
pub full-bit_at :
    (sp : SuperBlock) (map : MapKind) (m : Blocks) (c : ℕ)
    → word_loop sp.s_native
        (map_bits sp map)
        (m.b_bitmap (start_block sp map + c / 8192))
        (c / 8192)
        512
        0
      ≡ none
    → c < map_bits sp map
    → bit_at sp map m c ≡ true
unfolding bit_at
full-bit_at sp map m c e h =
    word_loop-full sp.s_native (map_bits sp map) (m.b_bitmap (start_block sp map + c / 8192))
      (c / 8192) 512 0 (c % 8192 / 16) (c % 16) e (omega arith) (omega arith) (omega arith)
      (omega arith)

-- A free bit that the search finds is clear in the map.
pub free-bit_at :
    (sp : SuperBlock) (map : MapKind) (m : Blocks) (j : ℕ) (f : Found)
    → IsFree sp.s_native (map_bits sp map) (m.b_bitmap (start_block sp map + j)) j f
    → bit_at sp map m f.number ≡ false
free-bit_at sp map m j f free =
    bit_at-place sp map m j f.word f.bit f.number
      (place-number j f.word f.bit f.number free.in_block free.in_word free.numbered)
    ∙ free.clear
