-- ===== src/Tests/CacheTests.antt =====
-- The buffer cache of src/fs/cache.c on a device that is a table of contents.
use minix4rt.Base.{
  ℕ, ◌<◌, Bool, true, false, ◌&&◌, some, none, List, [], ◌∷◌, if◌then◌else◌, ◌==◌, ◌≡◌, refl, ap,
  ◌∙◌, arith, has, sym, ◌++◌,
}
use mathlib.Core.Option
use minix4rt.Fs.Cache.{Cache, Io, full, nr_bufs, buf_pool, numbers, put_block}
use minix4rt.Fs.Cache.Counted.{counted, counted-IsCache}
use minix4rt.Fs.Cache.Order.{Rearranged}
use minix4rt.Fs.Cache.Put.{Kept, put_block-Kept}
use minix4rt.Fs.Cache.Scatter.{shell_sort, array_of}
use minix4rt.Fs.Cache.Sorted.{IsSorted, shell_sort-IsSorted}
use minix4rt.Fs.Cache.Coherent.{IsCache}
use minix4rt.Fs.Cache.Devices.{Reliable, write_each, all_ok}
use minix4rt.Fs.Cache.Get.{normal, get_block}
use minix4rt.Fs.Cache.Start.{buf_pool-IsCache, has-numbers, Distinct-numbers}
use minix4rt.Fs.Cache.Transparent.{Gets, get_block-Got}

abbrev Disk : Type 0
Disk = ℕ → ℕ → ℕ

abbrev disk_write : ℕ → ℕ → ℕ → Disk → Disk
disk_write dev b x d dv bl = if (dv == dev) && (bl == b) then x else d dv bl

abbrev disk_write_all : ℕ → List (ℕ × ℕ) → Disk → Disk
disk_write_all dev [] d = d
disk_write_all dev ((b, x) ∷ l) d = disk_write_all dev l (disk_write dev b x d)

abbrev disk_read_all : ℕ → List (ℕ × ℕ) → Disk → List (Bool × ℕ)
disk_read_all dev [] d = []
disk_read_all dev ((b, x) ∷ l) d = (true, d dev b) ∷ disk_read_all dev l d

abbrev disk_io : Io Disk
disk_io = record {
  dev_read = λ dev b old d. (full, d dev b);
  dev_write = λ dev b x d. (full, disk_write dev b x d);
  scatter_read = disk_read_all;
  scatter_write = λ dev l d. (all_ok l, disk_write_all dev l d);
}

disk_write_all-write_each :
    (dev : ℕ) (l : List (ℕ × ℕ)) (d : Disk) → disk_write_all dev l d ≡ write_each disk_io dev l d
disk_write_all-write_each dev [] d = refl
disk_write_all-write_each dev ((b, x) ∷ l) d =
    disk_write_all-write_each dev l (disk_write dev b x d)

disk_io-Reliable : Reliable disk_io
disk_io-Reliable = record {
  contents = λ dev b d. d dev b;
  reads = λ dev b old d. refl;
  writes = λ dev b x d. refl;
  read_back = λ dev b x d dv bl. refl;
  scatters = λ dev l d. ap (λ z. (all_ok l, z)) (disk_write_all-write_each dev l d);
}

-- The block 7 of the device 3 holds 42.
abbrev zeroed : Cache Disk
zeroed = record {
  buf = λ i. record { b_data = 0; b_blocknr = 0; b_dev = 0; b_dirt = false; b_count = 0 };
  buf_hash = λ h. [];
  lru = [];
  bufs_in_use = 0;
  rdwt_err = none;
  buf2 = λ i. record { b2_blocknr = 0; b2_dev = 0; b2_count = 0 };
  nr_buf2 = 0;
  buf2_idx = 0;
  disk = λ dv bl. if (dv == 3) && (bl == 7) then 42 else 0;
}

buf_pool_example : IsCache disk_io disk_io-Reliable (buf_pool zeroed)
buf_pool_example = buf_pool-IsCache disk_io disk_io-Reliable zeroed (λ i. refl) (λ h. refl)

pool_off : (buf_pool zeroed).nr_buf2 ≡ 0
unfolding buf_pool
pool_off = refl

pool_idle : has 0 (buf_pool zeroed).lru ≡ true
unfolding buf_pool
pool_idle = refl

pool_few : (i : ℕ) → i < nr_bufs → ((buf_pool zeroed).buf i).b_count < 255
unfolding buf_pool
pool_few i low = omega arith

get_block_example :
    Gets disk_io disk_io-Reliable
      (buf_pool zeroed)
      3
      7
      (get_block disk_io 3 7 normal (buf_pool zeroed))
get_block_example =
    get_block-Got disk_io disk_io-Reliable (buf_pool zeroed) buf_pool_example 3 7 refl pool_off 0
      pool_idle pool_few

-- The contents of the block, after a miss.
get_block_reads :
    Option.map (λ r. (r.1.buf r.0).b_data) (get_block disk_io 3 7 normal (buf_pool zeroed))
    ≡ some 42
unfolding buf_pool get_block
get_block_reads = refl

-- The buffer 0 is in use, and is given back.
pool_others : (j : ℕ) → (j == 0) ≡ false → has j (numbers 79 1) ≡ has j (buf_pool zeroed).lru
unfolding buf_pool
pool_others j h = has-numbers 79 1 j ∙ ground (arith, h) ∙ sym (has-numbers 80 0 j)

pool_own : has 0 (numbers 79 1) ≡ false
unfolding numbers
pool_own = refl

abbrev one_used : Cache Disk
one_used = counted disk_io disk_io-Reliable (buf_pool zeroed) buf_pool_example 0 1 (numbers 79 1) 1

one_used-IsCache : IsCache disk_io disk_io-Reliable one_used
one_used-IsCache =
    counted-IsCache disk_io disk_io-Reliable (buf_pool zeroed) buf_pool_example 0 1 (numbers 79 1) 1
      (omega arith) pool_others pool_own (Distinct-numbers 79 1)

put_block_example :
    Kept disk_io disk_io-Reliable one_used 0 6 0
      (numbers 79 1 ++ (0 ∷ []))
      (put_block disk_io (some 0) 6 one_used)
put_block_example =
    put_block-Kept disk_io disk_io-Reliable one_used one_used-IsCache 0 (omega arith) refl
      (omega arith) 6

-- The blocks 30, 10 and 20.
shell_sort_example :
    IsSorted (λ i. i) 3 (shell_sort 3 (λ i. i) (array_of (30 ∷ 10 ∷ 20 ∷ [])))
    × Rearranged 3
        (array_of (30 ∷ 10 ∷ 20 ∷ []))
        (shell_sort 3 (λ i. i) (array_of (30 ∷ 10 ∷ 20 ∷ [])))
shell_sort_example = shell_sort-IsSorted (λ i. i) 3 (array_of (30 ∷ 10 ∷ 20 ∷ []))
