-- ===== src/Tests/BitmapTests.antt =====
-- The bit maps of src/fs/super.c with one block of inode bits, of which the first 21 are set, on a device
-- with swapped bytes.
use minix4rt.Base.{ℕ, ◌≡◌, refl, true, false, ◌&&◌, ◌||◌, some, ltb, ◌==◌, arith}
use minix4rt.Fs.Bitmap.{
  SuperBlock, imap, Blocks, all_set, first_clear, conv2, word_or, word_loop, write_bit, taken_or,
  block_loop, alloc_bit, free_bit,
}
use minix4rt.Fs.Bitmap.Bits.{bit_at}
use minix4rt.Fs.Bitmap.Allotted.{Allotted, alloc_bit-Allotted, free_bit-alloc_bit}

abbrev small_disk : SuperBlock
small_disk = record {
  s_ninodes = 40;
  s_imap_blocks = 1;
  s_zmap_blocks = 1;
  s_firstdatazone = 8;
  s_zones = 100;
  s_rd_only = false;
  s_native = false;
}

-- The five bits of the second chunk are in its second byte.
abbrev some_used : Blocks
some_used = record {
  b_bitmap = λ b w i. w == 0 || (w == 1 && ltb 7 i && ltb i 13);
  b_dirt = λ b. false;
}

zeroth : bit_at small_disk imap some_used 0 ≡ true
unfolding bit_at conv2
zeroth = refl

alloc_bit_example :
    (r : ℕ × Blocks) × (alloc_bit small_disk imap 3 some_used ≡ some r)
    × Allotted small_disk imap some_used r
alloc_bit_example =
    alloc_bit-Allotted small_disk imap 3 some_used refl (omega arith) (omega arith) zeroth

alloc_bit_next :
    alloc_bit small_disk imap 3 some_used
    ≡ some (21, write_bit small_disk imap some_used 0 1 5 true)
unfolding alloc_bit block_loop taken_or word_loop word_or all_set first_clear conv2
alloc_bit_next = refl

free_bit_example :
    (m' : Blocks) × (free_bit small_disk imap 21 (write_bit small_disk imap some_used 0 1 5 true)
      ≡ some m')
    × ((c : ℕ) → bit_at small_disk imap m' c ≡ bit_at small_disk imap some_used c)
free_bit_example =
    free_bit-alloc_bit small_disk imap 3 some_used
      (21, write_bit small_disk imap some_used 0 1 5 true) refl (omega arith) (omega arith) zeroth
      alloc_bit_next (λ e. omega arith)
