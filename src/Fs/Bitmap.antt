-- ===== src/Fs/Bitmap.antt =====
-- src/fs/super.c: the bit maps of inodes and zones, alloc_bit and free_bit. A chunk of 16 bits is the
-- function of its bits, as the processor numbers them. The blocks of the device are one store, which the
-- buffer cache stands for (Fs/Cache). A panic is `none`.
pub mod Search
pub mod Rounds
pub mod Bits
pub mod Allotted
use minix4rt.Base.{
  ℕ, zero, suc, ◌+◌, ◌-◌, ◌*◌, ◌/◌, ◌%◌, ◌^◌, Bool, true, false, ◌&&◌, Option, none, some, ltb, leb,
  ◌==◌, if◌then◌else◌, update,
}

abbrev pub bitmap_chunks : ℕ
bitmap_chunks = 512

-- BITCHUNK_BITS
abbrev pub bitchunk_bits : ℕ
bitchunk_bits = 16

-- BITS_PER_BLOCK
abbrev pub bits_per_block : ℕ
bits_per_block = 8192

abbrev pub super_block : ℕ
super_block = 1

abbrev pub no_bit : ℕ
no_bit = 0

abbrev pub Chunk : Type 0
Chunk = ℕ → Bool

-- The fields of the super block that the maps depend on.
pub record SuperBlock : Type 0 where
  pub s_ninodes : ℕ
  pub s_imap_blocks : ℕ
  pub s_zmap_blocks : ℕ
  pub s_firstdatazone : ℕ
  pub s_zones : ℕ
  pub s_rd_only : Bool
  pub s_native : Bool

-- IMAP and ZMAP
pub data MapKind : Type 0 where
  imap zmap : MapKind

-- The chunks of each block, by their place in it, and which blocks are dirty.
pub record Blocks : Type 0 where
  pub b_bitmap : ℕ → ℕ → Chunk
  pub b_dirt : ℕ → Bool

-- The bit of a chunk that is bit `i` of the chunk with its bytes swapped.
abbrev pub swapped : ℕ → ℕ
swapped i = if ltb i 8 then i + 8 else i - 8

unfoldable pub conv2 : Bool → Chunk → Chunk
conv2 norm w i = ltb i 16 && (if norm then w i else w (swapped i))

abbrev pub start_block : SuperBlock → MapKind → ℕ
start_block sp imap = super_block + 1
start_block sp zmap = super_block + 1 + sp.s_imap_blocks

abbrev pub map_bits : SuperBlock → MapKind → ℕ
map_bits sp imap = sp.s_ninodes + 1
map_bits sp zmap = (sp.s_zones + 1 + (2 ^ 32 - sp.s_firstdatazone)) % 2 ^ 32

abbrev pub bit_blocks : SuperBlock → MapKind → ℕ
bit_blocks sp imap = sp.s_imap_blocks
bit_blocks sp zmap = sp.s_zmap_blocks

-- Whether the bits from `i` on, `n` of them, are all set: the test for ~0.
unfoldable pub all_set : ℕ → ℕ → Chunk → Bool
all_set zero i w = true
all_set (suc n) i w = w i && all_set n (suc i) w

-- The first bit from `i` on that is clear; `n` bits are left.
unfoldable pub first_clear : ℕ → ℕ → Chunk → ℕ
first_clear zero i k = i
first_clear (suc n) i k = let next = first_clear n (suc i) k in if k i then next else i

-- A free bit: its number in the map, its word in the block, and its number in the word.
pub record Found : Type 0 where
  pub number : ℕ
  pub word : ℕ
  pub bit : ℕ

abbrev pub found_at : ℕ → ℕ → ℕ → Found
found_at block word i = record {
  number = block * bits_per_block + word * bitchunk_bits + i;
  word = word;
  bit = i;
}

-- One round of the loop over the words: a full word is passed over, a bit beyond the map ends the loop.
unfoldable pub word_or : ℕ → Bool → Found → Option Found → Option Found
word_or limit full f rest = if full then rest else if leb limit f.number then none else some f

-- The loop over the words of a block, from `word` on with `n` words left.
unfoldable pub word_loop : Bool → ℕ → (ℕ → Chunk) → ℕ → ℕ → ℕ → Option Found
word_loop native limit words block zero word = none
word_loop native limit words block (suc n) word =
    word_or limit (all_set bitchunk_bits 0 (words word))
      (found_at block word (first_clear bitchunk_bits 0 (conv2 native (words word))))
      (word_loop native limit words block n (suc word))

abbrev pub set_chunk : Blocks → ℕ → ℕ → Chunk → Blocks
set_chunk m block word k = record {
  b_bitmap = update m.b_bitmap block (update (m.b_bitmap block) word k);
  b_dirt = update m.b_dirt block true;
}

-- One bit of a chunk is written, through the order of the bytes of the device.
unfoldable pub write_bit : SuperBlock → MapKind → Blocks → ℕ → ℕ → ℕ → Bool → Blocks
write_bit sp map m block word i v =
    let n = start_block sp map + block in
    set_chunk m n word (conv2 sp.s_native (update (conv2 sp.s_native (m.b_bitmap n word)) i v))

abbrev pub next_block : ℕ → ℕ → ℕ
next_block blocks block = if leb blocks (suc block) then 0 else suc block

-- What a round of the loop over the blocks gives: the bit that is taken, or the later rounds.
unfoldable pub taken_or : SuperBlock → MapKind → Blocks → ℕ → Option Found → ℕ × Blocks → ℕ × Blocks
taken_or sp map m block none later = later
taken_or sp map m block (some f) later = (f.number, write_bit sp map m block f.word f.bit true)

-- The loop over the blocks; `n` is `bcount`.
unfoldable pub block_loop : SuperBlock → MapKind → Blocks → ℕ → ℕ → ℕ → ℕ × Blocks
block_loop sp map m zero block word = (no_bit, m)
block_loop sp map m (suc n) block word =
    let later = block_loop sp map m n (next_block (bit_blocks sp map) block) 0 in
    taken_or sp map m block
      (word_loop sp.s_native (map_bits sp map) (m.b_bitmap (start_block sp map + block)) block
        (bitmap_chunks - word) word)
      later

unfoldable pub alloc_bit : SuperBlock → MapKind → ℕ → Blocks → Option (ℕ × Blocks)
alloc_bit sp map origin m =
    let start = if leb (map_bits sp map) origin then 0 else origin in
    if sp.s_rd_only
    then none
    else some (
        block_loop sp map m (bit_blocks sp map + 1) (start / bits_per_block)
          (start % bits_per_block / bitchunk_bits))

unfoldable pub free_bit : SuperBlock → MapKind → ℕ → Blocks → Option Blocks
free_bit sp map bit_returned m =
    let block = bit_returned / bits_per_block in
    let word = bit_returned % bits_per_block / bitchunk_bits in
    let bit = bit_returned % bitchunk_bits in
    if sp.s_rd_only
    then none
    else if conv2 sp.s_native (m.b_bitmap (start_block sp map + block) word) bit
    then some (write_bit sp map m block word bit false)
    else none
