-- ===== src/Fs/Cache/Level2.antt =====
-- src/fs/cache2.c: the second level cache, on the RAM disk.
use minix4rt.Base.{
  ℕ, zero, suc, ◌+◌, ◌-◌, ◌%◌, Bool, true, false, ◌&&◌, ◌||◌, Option, none, some, ◌==◌, ltb,
  if◌then◌else◌, update,
}
use minix4rt.Fs.Cache.{Buf2, Cache, Io, IoResult, full, no_dev, set_buf, invalidate_loop, nr_bufs}

abbrev pub max_buf2 : ℕ
max_buf2 = 1024

abbrev pub dev_ram : ℕ
dev_ram = 0x100

abbrev pub hash2 : ℕ → ℕ
hash2 block = block % max_buf2

-- The count of the blocks with the hash of a block, one more and one less; a word of 16 bits.
unfoldable pub count_more : ℕ → (ℕ → Buf2) → ℕ → Buf2
count_more block f =
    update f (hash2 block)
      (record (f (hash2 block)) { b2_count = ((f (hash2 block)).b2_count + 1) % 65536 })

unfoldable pub count_less : ℕ → (ℕ → Buf2) → ℕ → Buf2
count_less block f =
    update f (hash2 block)
      (record (f (hash2 block)) { b2_count = ((f (hash2 block)).b2_count + 65535) % 65536 })

abbrev pub before : ℕ → ℕ → ℕ
before n b = if b == 0 then n - 1 else b - 1

unfoldable pub invalidate2_loop : ℕ → ℕ → ℕ → (ℕ → Buf2) → ℕ → Buf2
unfolding count_less
invalidate2_loop zero i dev f = f
invalidate2_loop (suc n) i dev f = invalidate2_loop n (suc i) dev (
    if (f i).b2_dev == dev
    then count_less (f i).b2_blocknr (update f i (record (f i) { b2_dev = no_dev }))
    else f)

module _ {D : Type 0} where
  unfoldable pub init_cache2 : ℕ → Cache D → Cache D
  init_cache2 size s = record s { nr_buf2 = if ltb max_buf2 size then max_buf2 else size }

  -- The search backwards from `b`, with as many rounds as there are entries.
  unfoldable pub search2 : ℕ → ℕ → ℕ → ℕ → Cache D → Option ℕ
  search2 zero b dev block s = none
  search2 (suc n) b dev block s =
      let c = before s.nr_buf2 b in
      let rest = search2 n c dev block s in
      if ((s.buf2 c).b2_blocknr == block) && ((s.buf2 c).b2_dev == dev)
      then some c
      else if c == s.buf2_idx
      then none
      else rest

  module _ (io : Io D) where
    unfoldable pub read_done2 : ℕ → IoResult × ℕ → Cache D → Bool × Cache D
    read_done2 i (full, x) s = (true, set_buf s i (record (s.buf i) { b_data = x }))
    read_done2 i (r, x) s = (false, set_buf s i (record (s.buf i) { b_data = x }))

    unfoldable pub read_found2 : ℕ → Option ℕ → Cache D → Bool × Cache D
    unfolding read_done2
    read_found2 i none s = (false, s)
    read_found2 i (some b) s = read_done2 i (io.dev_read dev_ram b (s.buf i).b_data s.disk) s

    unfoldable pub search_enabled : ℕ → Bool → Cache D → Bool × Cache D
    unfolding search2 read_found2
    search_enabled i no_read s =
        let b = s.buf i in
        if (s.nr_buf2 == 0) || (no_read || ((s.buf2 (hash2 b.b_blocknr)).b2_count == 0))
        then (false, s)
        else read_found2 i (search2 s.nr_buf2 s.buf2_idx b.b_dev b.b_blocknr s) s

    -- `no_read` is the test for NO_READ.
    unfoldable pub get_block2 : ℕ → Bool → Cache D → Bool × Cache D
    unfolding search_enabled
    get_block2 i no_read s =
        search_enabled i no_read
          (if (s.buf i).b_dev == dev_ram then record s { nr_buf2 = 0 } else s)

    -- The entry `b` takes the block of the buffer `i`.
    abbrev pub moved2 : ℕ → ℕ → Cache D → Cache D
    moved2 i b s = record s {
      buf2 = count_more (s.buf i).b_blocknr (
          update
            (if (s.buf2 b).b2_dev == no_dev
              then s.buf2
              else count_less (s.buf2 b).b2_blocknr s.buf2)
            b
            (record ((if (s.buf2 b).b2_dev == no_dev
                then s.buf2
                else count_less (s.buf2 b).b2_blocknr s.buf2)
              b) { b2_dev = (s.buf i).b_dev; b2_blocknr = (s.buf i).b_blocknr }));
    }

    unfoldable pub write_done2 : ℕ → ℕ → IoResult × D → Cache D → Cache D
    unfolding count_more count_less
    write_done2 i b (full, d) s = record (moved2 i b s) { disk = d }
    write_done2 i b (r, d) s = record s { disk = d }

    abbrev pub next2 : Cache D → ℕ
    next2 s = if s.buf2_idx + 1 == s.nr_buf2 then 0 else s.buf2_idx + 1

    unfoldable pub put_block2 : ℕ → Cache D → Cache D
    unfolding write_done2
    put_block2 i s =
        if s.nr_buf2 == 0
        then s
        else write_done2 i s.buf2_idx (io.dev_write dev_ram s.buf2_idx (s.buf i).b_data s.disk)
            (record s { buf2_idx = next2 s })

  unfoldable pub invalidate2 : ℕ → Cache D → Cache D
  unfolding invalidate2_loop
  invalidate2 dev s = record s { buf2 = invalidate2_loop s.nr_buf2 0 dev s.buf2 }

  -- `invalidate` of src/fs/cache.c
  unfoldable pub invalidate : ℕ → Cache D → Cache D
  unfolding invalidate_loop invalidate2
  invalidate dev s = invalidate2 dev (invalidate_loop nr_bufs 0 dev s)
