-- ===== src/Fs/Cache/Get.antt =====
-- `get_block` of src/fs/cache.c; `none` is a panic.
use minix4rt.Base.{
  ℕ, ◌+◌, ◌%◌, Bool, true, false, Option, none, some, List, [], ◌∷◌, ◌==◌, if◌then◌else◌, update,
  remove,
}
use minix4rt.Fs.Cache.{Cache, Io, no_dev, set_buf, hash_of, search_chain, rm_lru, read_block}
use minix4rt.Fs.Cache.Level2.{get_block2, put_block2}
use minix4rt.Fs.Cache.Scatter.{flushall}

-- `only_search`
pub data Search : Type 0 where
  normal no_read prefetch : Search

abbrev pub is_no_read : Search → Bool
is_no_read no_read = true
is_no_read m = false

module _ {D : Type 0} where
  abbrev pub count_use : ℕ → Cache D → Cache D
  count_use i s = set_buf s i (record (s.buf i) { b_count = ((s.buf i).b_count + 1) % 256 })

  -- A block that is in the cache.
  unfoldable pub use_again : ℕ → Cache D → Cache D
  unfolding rm_lru
  use_again i s = count_use i (if (s.buf i).b_count == 0 then rm_lru i s else s)

  unfoldable pub unchain : ℕ → Cache D → Cache D
  unchain i s = record s {
    buf_hash =
        update s.buf_hash (hash_of (s.buf i).b_blocknr)
          (remove i (s.buf_hash (hash_of (s.buf i).b_blocknr)));
  }

  -- The buffer gets its new block, and stands at the front of its hash chain.
  unfoldable pub assign : ℕ → ℕ → ℕ → Cache D → Cache D
  assign i dev block s = record s {
    buf = update s.buf i (record (s.buf i) {
      b_dev = dev;
      b_blocknr = block;
      b_count = ((s.buf i).b_count + 1) % 256;
    });
    buf_hash = update s.buf_hash (hash_of block) (i ∷ s.buf_hash (hash_of block));
  }

  module _ (io : Io D) where
    -- A dirty buffer is written before it is used for another block.
    unfoldable pub save_old : ℕ → Cache D → Cache D
    unfolding flushall put_block2
    save_old i s =
        if (s.buf i).b_dev == no_dev
        then s
        else put_block2 io i (if (s.buf i).b_dirt then flushall io (s.buf i).b_dev s else s)

    unfoldable pub load : ℕ → Search → Bool × Cache D → Cache D
    unfolding read_block
    load i m (true, s) = s
    load i prefetch (false, s) = set_buf s i (record (s.buf i) { b_dev = no_dev })
    load i normal (false, s) = read_block io i s
    load i no_read (false, s) = s

    unfoldable pub fetch : ℕ → ℕ → Search → Cache D → Cache D
    unfolding get_block2 load
    fetch i dev m s = if dev == no_dev then s else load i m (get_block2 io i (is_no_read m) s)

    -- The oldest free buffer is taken.
    unfoldable pub take_oldest : ℕ → ℕ → Search → List ℕ → Cache D → Option (ℕ × Cache D)
    unfolding rm_lru unchain save_old assign fetch
    take_oldest dev block m [] s = none
    take_oldest dev block m (i ∷ rest) s =
        some (i, fetch i dev m (assign i dev block (save_old i (unchain i (rm_lru i s)))))

    unfoldable pub found_or : ℕ → ℕ → Search → Option ℕ → Cache D → Option (ℕ × Cache D)
    unfolding use_again take_oldest
    found_or dev block m (some i) s = some (i, use_again i s)
    found_or dev block m none s = take_oldest dev block m s.lru s

    unfoldable pub get_block : ℕ → ℕ → Search → Cache D → Option (ℕ × Cache D)
    unfolding search_chain found_or
    get_block dev block m s =
        found_or dev block m
          (if dev == no_dev
            then none
            else search_chain dev block s.buf (s.buf_hash (hash_of block)))
          s
