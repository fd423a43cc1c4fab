-- ===== src/Fs/Cache/Start.antt =====
-- The cache after `buf_pool` (src/fs/main.c).
use minix4rt.Base.{
  ℕ, zero, suc, ◌+◌, ◌<◌, true, false, ◌&&◌, [], has, Distinct, if◌then◌else◌, ◌==◌, ltb, leb, ◌≡◌,
  sym, ap, ◌∙◌, inl, inr, Bool-cases, ==_iff, arith, ◌⊎◌,
}
use minix4rt.Fs.Cache.{Cache, Io, nr_bufs, hash_of, numbers, buf_pool}
use minix4rt.Fs.Cache.Coherent.{IsCache}
use minix4rt.Fs.Cache.Devices.{Reliable}

pub has-numbers : (n k i : ℕ) → has i (numbers n k) ≡ (leb k i && ltb i (k + n))
unfolding numbers
has-numbers zero k i = ground arith
has-numbers (suc n) k i = ground (arith, has-numbers n (suc k) i)

pub Distinct-numbers : (n k : ℕ) → Distinct (numbers n k)
unfolding numbers
Distinct-numbers zero k = tt
Distinct-numbers (suc n) k = (ground (arith, has-numbers n (suc k) k), Distinct-numbers n (suc k))

module _ {D : Type 0} (io : Io D) (rel : Reliable io) where
  -- Where no buffer is in use and the table of hash chains is empty, as in zeroed memory, buf_pool sets
  -- the invariant of the cache up, and all buffers are free.
  pub buf_pool-IsCache :
      (s : Cache D)
      → ((i : ℕ) → (s.buf i).b_count ≡ 0)
      → ((h : ℕ) → s.buf_hash h ≡ [])
      → IsCache io rel (buf_pool s)
  unfolding buf_pool
  buf_pool-IsCache s idle blank = record {
    chained = λ i low. has-numbers nr_bufs 0 i ∙ ground (arith, low);
    proper = λ h i m. in_chain h i m (Bool-cases (h == 0));
    simple = λ h. distinct h (Bool-cases (h == 0));
    free = λ i m. (below i (sym (has-numbers nr_bufs 0 i) ∙ m), idle i);
    waiting = λ i low z. has-numbers nr_bufs 0 i ∙ ground (arith, low);
    once = Distinct-numbers nr_bufs 0;
    sole = λ i j li lj r v b. absurd (cc (r));
    coherent = λ i low d r. absurd (cc (r));
  }
    where
      below : (i : ℕ) → (leb 0 i && ltb i nr_bufs) ≡ true → i < nr_bufs
      below i m = ground (arith, m)

      in_chain :
          (h i : ℕ)
          → has i (if h == 0 then numbers nr_bufs 0 else s.buf_hash h) ≡ true
          → ((h == 0) ≡ true) ⊎ ((h == 0) ≡ false)
          → (i < nr_bufs) × (hash_of 0 ≡ h)
      in_chain h i m (inl e) = (
        below i (
            sym (has-numbers nr_bufs 0 i)
            ∙ sym (ap (λ b. has i (if b then numbers nr_bufs 0 else s.buf_hash h)) e)
            ∙ m),
        sym ((==_iff h 0).0 e),
      )
      in_chain h i m (inr e) = absurd (
          cc (
            sym (ap (has i) (blank h))
            ∙ sym (ap (λ b. has i (if b then numbers nr_bufs 0 else s.buf_hash h)) e)
            ∙ m))

      distinct :
          (h : ℕ)
          → ((h == 0) ≡ true) ⊎ ((h == 0) ≡ false)
          → Distinct (if h == 0 then numbers nr_bufs 0 else s.buf_hash h)
      distinct h (inl e) = rw e (Distinct-numbers nr_bufs 0)
      distinct h (inr e) = rw e (rw (blank h) tt)
