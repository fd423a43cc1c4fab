-- ===== src/Fs/Cache.antt =====
-- src/fs/cache.c: the buffer cache, and `buf_pool` of src/fs/main.c. A buffer is a number below NR_BUFS;
-- a hash chain and the chain of free buffers are the sequences of their members, from the front on. The
-- contents of a block are one number. `dev_io`, which sends a message to a driver, is a parameter, as are
-- the devices. Messages on the console are left out.
pub mod Level2
pub mod Scatter
pub mod Get
pub mod Order
pub mod Sorted
pub mod Devices
pub mod Written
pub mod Saved
pub mod Coherent
pub mod Counted
pub mod Again
pub mod OnDisk
pub mod Put
pub mod Chains
pub mod Replaced
pub mod Transparent
pub mod Start
use minix4rt.Base.{
  ℕ, zero, suc, ◌+◌, ◌-◌, ◌/◌, ◌%◌, Bool, true, false, not, ◌&&◌, Option, none, some, List, [], ◌∷◌,
  ◌++◌, ◌==◌, ltb, if◌then◌else◌, update, remove,
}

abbrev pub nr_bufs : ℕ
nr_bufs = 80

abbrev pub nr_buf_hash : ℕ
nr_buf_hash = 128

abbrev pub no_dev : ℕ
no_dev = 0

pub record Buf : Type 0 where
  pub b_data : ℕ
  pub b_blocknr : ℕ
  pub b_dev : ℕ
  pub b_dirt : Bool
  pub b_count : ℕ

-- What `dev_io` returns: BLOCK_SIZE, fewer bytes, or an error.
pub data IoResult : Type 0 where
  full short : IoResult
  failed : ℕ → IoResult

-- What is left in `rdwt_err`.
pub data RwError : Type 0 where
  end_of_file : RwError
  io_error : ℕ → RwError

-- `dev_io` of one block, and of a list of blocks with the buffers' contents. A read gets the contents of
-- the buffer and yields the new ones. Of scattered requests each one succeeds or fails.
pub record Io (D : Type 0) : Type 0 where
  pub dev_read : ℕ → ℕ → ℕ → D → IoResult × ℕ
  pub dev_write : ℕ → ℕ → ℕ → D → IoResult × D
  pub scatter_read : ℕ → List (ℕ × ℕ) → D → List (Bool × ℕ)
  pub scatter_write : ℕ → List (ℕ × ℕ) → D → List Bool × D

-- `struct buf2`, the administration of one block of the second level cache.
pub record Buf2 : Type 0 where
  pub b2_blocknr : ℕ
  pub b2_dev : ℕ
  pub b2_count : ℕ

-- `lru` is the chain from `front` to `rear`.
pub record Cache (D : Type 0) : Type 0 where
  pub buf : ℕ → Buf
  pub buf_hash : ℕ → List ℕ
  pub lru : List ℕ
  pub bufs_in_use : ℕ
  pub rdwt_err : Option RwError
  pub buf2 : ℕ → Buf2
  pub nr_buf2 : ℕ
  pub buf2_idx : ℕ
  pub disk : D

abbrev pub hash_of : ℕ → ℕ
hash_of block = block % nr_buf_hash

-- Where the hash chain is searched.
unfoldable pub search_chain : ℕ → ℕ → (ℕ → Buf) → List ℕ → Option ℕ
search_chain dev block f [] = none
search_chain dev block f (i ∷ rest) =
    let next = search_chain dev block f rest in
    if ((f i).b_blocknr == block) && ((f i).b_dev == dev) then some i else next

-- `put_block`: WRITE_IMMED is bit 6 and ONE_SHOT is bit 7 of the type.
abbrev pub is_one_shot : ℕ → Bool
is_one_shot t = t / 128 % 2 == 1

abbrev pub is_write_immed : ℕ → Bool
is_write_immed t = t / 64 % 2 == 1

module _ {D : Type 0} where
  abbrev pub set_buf : Cache D → ℕ → Buf → Cache D
  set_buf s i b = record s { buf = update s.buf i b }

  unfoldable pub rm_lru : ℕ → Cache D → Cache D
  rm_lru i s = record s { lru = remove i s.lru; bufs_in_use = s.bufs_in_use + 1 }

  unfoldable pub release_buf : ℕ → ℕ → Cache D → Cache D
  release_buf i t s = record s {
    bufs_in_use = s.bufs_in_use - 1;
    lru = if is_one_shot t then i ∷ s.lru else s.lru ++ (i ∷ []);
  }

  module _ (io : Io D) where
    -- After a read: an error takes the buffer from its device.
    unfoldable pub read_done : ℕ → IoResult × ℕ → Cache D → Cache D
    read_done i (full, x) s = set_buf s i (record (s.buf i) { b_data = x; b_dirt = false })
    read_done i (short, x) s =
        record (set_buf s i (record (s.buf i) { b_data = x; b_dev = no_dev; b_dirt = false })) {
          rdwt_err = some end_of_file;
        }
    read_done i (failed e, x) s =
        record (set_buf s i (record (s.buf i) { b_data = x; b_dev = no_dev; b_dirt = false })) {
          rdwt_err = some (io_error e);
        }

    unfoldable pub write_done : ℕ → IoResult × D → Cache D → Cache D
    write_done i (full, d) s = record (set_buf s i (record (s.buf i) { b_dirt = false })) {
      disk = d;
    }
    write_done i (r, d) s =
        record (set_buf s i (record (s.buf i) { b_dev = no_dev; b_dirt = false })) { disk = d }

    -- `rw_block` with READING and with WRITING.
    unfoldable pub read_block : ℕ → Cache D → Cache D
    unfolding read_done
    read_block i s =
        let b = s.buf i in
        if b.b_dev == no_dev
        then set_buf s i (record b { b_dirt = false })
        else read_done i (io.dev_read b.b_dev b.b_blocknr b.b_data s.disk) s

    unfoldable pub write_block : ℕ → Cache D → Cache D
    unfolding write_done
    write_block i s =
        let b = s.buf i in
        if b.b_dev == no_dev
        then set_buf s i (record b { b_dirt = false })
        else write_done i (io.dev_write b.b_dev b.b_blocknr b.b_data s.disk) s

    unfoldable pub write_important : ℕ → ℕ → Cache D → Cache D
    unfolding write_block
    write_important i t s =
        if is_write_immed t && ((s.buf i).b_dirt && not ((s.buf i).b_dev == no_dev))
        then write_block i s
        else s

    unfoldable pub put_counted : ℕ → ℕ → Cache D → Cache D
    unfolding release_buf write_important
    put_counted i t s =
        if (s.buf i).b_count == 0 then write_important i t (release_buf i t s) else s

    unfoldable pub put_block : Option ℕ → ℕ → Cache D → Cache D
    unfolding put_counted
    put_block none t s = s
    put_block (some i) t s =
        put_counted i t
          (set_buf s i (record (s.buf i) { b_count = ((s.buf i).b_count + 255) % 256 }))

  -- `invalidate` without the second level; the numbers from `i` on, of `n`.
  unfoldable pub invalidate_loop : ℕ → ℕ → ℕ → Cache D → Cache D
  invalidate_loop zero i dev s = s
  invalidate_loop (suc n) i dev s =
      invalidate_loop n (suc i) dev
        (if (s.buf i).b_dev == dev then set_buf s i (record (s.buf i) { b_dev = no_dev }) else s)

-- The numbers from `i` on, of `n`.
unfoldable pub numbers : ℕ → ℕ → List ℕ
numbers zero i = []
numbers (suc n) i = i ∷ numbers n (suc i)

-- `buf_pool`: all buffers are free, and in the chain 0.
unfoldable pub buf_pool : {D : Type 0} → Cache D → Cache D
unfolding numbers
buf_pool s = record s {
  bufs_in_use = 0;
  buf = λ i. record (s.buf i) { b_blocknr = 0; b_dev = no_dev };
  lru = numbers nr_bufs 0;
  buf_hash = λ h. if h == 0 then numbers nr_bufs 0 else s.buf_hash h;
}
