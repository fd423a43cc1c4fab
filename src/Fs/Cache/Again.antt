-- ===== src/Fs/Cache/Again.antt =====
-- The block that `get_block` (src/fs/cache.c) finds in the cache.
use minix4rt.Base.{
  ℕ, ◌+◌, ◌%◌, ◌<◌, false, none, some, List, has, remove, Distinct, if◌then◌else◌, ◌==◌, ◌≡◌, refl,
  sym, ap, ◌∙◌, inl, inr, Bool-cases, ==_iff, arith, true_ne_false, has-remove_ne, has-remove_self,
  Distinct-remove, update_self,
}
use minix4rt.Fs.Cache.{Buf, Cache, Io, nr_bufs, hash_of, search_chain, rm_lru}
use minix4rt.Fs.Cache.Devices.{Reliable}
use minix4rt.Fs.Cache.Get.{use_again}
use minix4rt.Fs.Cache.Saved.{NotHeld}
use minix4rt.Fs.Cache.Counted.{
  counted, counted-IsCache, counted-Stored, counted_blocknr, counted_dev, counted_data,
}
use minix4rt.Fs.Cache.Coherent.{IsCache, Got, search_chain-some, search_chain-none}

module _ {D : Type 0} (io : Io D) (rel : Reliable io) (s : Cache D) (c : IsCache io rel s) where
  -- A block that the search misses is in no buffer.
  pub missed-NotHeld :
      (dev block : ℕ)
      → search_chain dev block s.buf (s.buf_hash (hash_of block)) ≡ none
      → NotHeld s.buf dev block
  missed-NotHeld dev block e i low = elim (Bool-cases ((s.buf i).b_blocknr == block)) [
    | inl q ↦ search_chain-none dev block s.buf (s.buf_hash (hash_of block)) e i (
        ap (λ z. has i (s.buf_hash (hash_of z))) (sym ((==_iff (s.buf i).b_blocknr block).0 q))
        ∙ c.chained i low)
    | inr q ↦ ground (arith, q)
  ]

  abbrev pub counted_buf : Buf → Buf
  counted_buf b = record b { b_count = (b.b_count + 1) % 256 }

  -- The chain of free buffers without a buffer that is taken into use.
  abbrev pub left_free : ℕ → List ℕ
  left_free i = if (s.buf i).b_count == 0 then remove i s.lru else s.lru

  has-left_free : (i j : ℕ) → (j == i) ≡ false → has j (left_free i) ≡ has j s.lru
  has-left_free i j h = elim (Bool-cases ((s.buf i).b_count == 0)) [
    | inl z ↦ rw z (has-remove_ne j i s.lru h)
    | inr z ↦ rw z refl
  ]

  not_left_free : (i : ℕ) → has i (left_free i) ≡ false
  not_left_free i = elim (Bool-cases ((s.buf i).b_count == 0)) [
    | inl z ↦ rw z (has-remove_self i s.lru c.once)
    | inr z ↦ rw z (elim (Bool-cases (has i s.lru)) [
      | inl m ↦ absurd (true_ne_false (sym (ground (arith, (c.free i m).1)) ∙ z))
      | inr m ↦ m
    ])
  ]

  Distinct-left_free : (i : ℕ) → Distinct (left_free i)
  Distinct-left_free i = elim (Bool-cases ((s.buf i).b_count == 0)) [
    | inl z ↦ rw z (Distinct-remove i s.lru c.once)
    | inr z ↦ rw z c.once
  ]

  abbrev users : ℕ → ℕ
  users i = ((s.buf i).b_count + 1) % 256

  abbrev uses : ℕ → ℕ
  uses i = if (s.buf i).b_count == 0 then s.bufs_in_use + 1 else s.bufs_in_use

  -- The state after a hit.
  abbrev used_again : ℕ → Cache D
  used_again i = counted io rel s c i (users i) (left_free i) (uses i)

  use_again-used_again : (i : ℕ) → use_again i s ≡ used_again i
  unfolding use_again rm_lru
  use_again-used_again i = elim (Bool-cases ((s.buf i).b_count == 0)) [
    | inl z ↦ rw z refl
    | inr z ↦ rw z refl
  ]

  used_again-Got :
      (dev block i : ℕ)
      → i < nr_bufs
      → (s.buf i).b_dev ≡ dev
      → (s.buf i).b_blocknr ≡ block
      → (s.buf i).b_count < 255
      → Got io rel s dev block i (used_again i)
  used_again-Got dev block i low v b h = record {
    valid =
        counted-IsCache io rel s c i (users i) (left_free i) (uses i) low (has-left_free i)
          (not_left_free i ∙ ground (arith, h)) (Distinct-left_free i);
    low = low;
    on_dev = counted_dev io rel s c i (users i) (left_free i) (uses i) i ∙ v;
    on_block = counted_blocknr io rel s c i (users i) (left_free i) (uses i) i ∙ b;
    used =
        ap (λ b. b.b_count == 0) (update_self s.buf i (counted_buf (s.buf i))) ∙ ground (arith, h);
    contents =
        inl (i, low, v, b, sym (counted_data io rel s c i (users i) (left_free i) (uses i) i));
    transparent =
        λ dv bl x r st. counted-Stored io rel s c i (users i) (left_free i) (uses i) dv bl x st;
    in_use = λ j l n. (
      counted_data io rel s c i (users i) (left_free i) (uses i) j,
      counted_blocknr io rel s c i (users i) (left_free i) (uses i) j,
      counted_dev io rel s c i (users i) (left_free i) (uses i) j,
    );
  }

  pub use_again-Got :
      (dev block i : ℕ)
      → search_chain dev block s.buf (s.buf_hash (hash_of block)) ≡ some i
      → (s.buf i).b_count < 255
      → Got io rel s dev block i (use_again i s)
  use_again-Got dev block i e h =
      let (m, v, b) = search_chain-some dev block s.buf (s.buf_hash (hash_of block)) i e in
      rw (use_again-used_again i)
        (used_again-Got dev block i (c.proper (hash_of block) i m).0 v b h)

  pub found_low :
      (dev block i : ℕ)
      → search_chain dev block s.buf (s.buf_hash (hash_of block)) ≡ some i
      → i < nr_bufs
  found_low dev block i e =
      (c.proper (hash_of block) i
        (search_chain-some dev block s.buf (s.buf_hash (hash_of block)) i e).0).0
