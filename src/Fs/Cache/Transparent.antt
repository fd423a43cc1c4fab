-- ===== src/Fs/Cache/Transparent.antt =====
-- `get_block` (src/fs/cache.c) as a whole: the cache is invisible.
use minix4rt.Base.{
  ℕ, ◌+◌, ◌%◌, ◌<◌, true, false, ◌||◌, Option, none, some, List, [], ◌∷◌, has, ◌==◌, update, ◌≡◌,
  refl, sym, ap, ◌∙◌, inl, inr, Bool-cases, arith, if_true, if_false, update_self,
}
use minix4rt.Fs.Cache.{
  Buf, Cache, Io, nr_bufs, no_dev, hash_of, rm_lru, set_buf, read_block, read_done, search_chain,
}
use minix4rt.Fs.Cache.Again.{use_again-Got, found_low, missed-NotHeld}
use minix4rt.Fs.Cache.Coherent.{IsCache, Got}
use minix4rt.Fs.Cache.Devices.{Reliable}
use minix4rt.Fs.Cache.Get.{
  use_again, unchain, assign, save_old, fetch, load, normal, take_oldest, found_or, get_block,
}
use minix4rt.Fs.Cache.Level2.{get_block2, search_enabled, dev_ram, hash2}
use minix4rt.Fs.Cache.Replaced.{replaced, replaced-Got}
use minix4rt.Fs.Cache.Saved.{Saved, NotHeld, save_old-Saved}

update_twice :
    (f : ℕ → Buf) (i : ℕ) (a b : Buf) (j : ℕ) → update (update f i a) i b j ≡ update f i b j
update_twice f i a b j = elim (Bool-cases (j == i)) [ inl h ↦ rw h refl | inr h ↦ rw h refl ]

module _ {D : Type 0} (io : Io D) (rel : Reliable io) where
  search_off : (i : ℕ) (s : Cache D) → s.nr_buf2 ≡ 0 → search_enabled io i false s ≡ (false, s)
  unfolding search_enabled
  search_off i s h =
      if_true {b = (s.nr_buf2 == 0) || ((s.buf2 (hash2 (s.buf i).b_blocknr)).b2_count == 0)} _ _
        (ground (arith, h))

  get_block2_off : (i : ℕ) (s : Cache D) → s.nr_buf2 ≡ 0 → get_block2 io i false s ≡ (false, s)
  unfolding get_block2
  get_block2_off i s h = elim (Bool-cases ((s.buf i).b_dev == dev_ram)) [
    | inl r ↦
        ap (search_enabled io i false) (if_true _ s r)
        ∙ search_off i (record s { nr_buf2 = 0 }) refl
        ∙ ap (λ n. (false, record s { nr_buf2 = n })) (sym h)
    | inr r ↦ ap (search_enabled io i false) (if_false _ s r) ∙ search_off i s h
  ]

  read_block_lem :
      (i : ℕ) (s : Cache D)
      → ((s.buf i).b_dev == no_dev) ≡ false
      → read_block io i s
        ≡ set_buf s i (record (s.buf i) {
          b_data = rel.contents (s.buf i).b_dev (s.buf i).b_blocknr s.disk;
          b_dirt = false;
        })
  unfolding read_block
  read_block_lem i s r =
      if_false _ _ r
      ∙ ap (λ z. read_done io i z s)
          (rel.reads (s.buf i).b_dev (s.buf i).b_blocknr (s.buf i).b_data s.disk)

  module _ (s : Cache D) (c : IsCache io rel s) (e dev block : ℕ) (real : (dev == no_dev) ≡ false)
      (off : s.nr_buf2 ≡ 0) (idle : has e s.lru ≡ true) where
    abbrev saved : Cache D
    saved = save_old io e (unchain e (rm_lru e s))

    saved-Saved : Saved io rel e (unchain e (rm_lru e s)) saved
    unfolding unchain rm_lru
    saved-Saved =
        save_old-Saved io rel e (unchain e (rm_lru e s)) (c.free e idle).0 off c.sole c.coherent

    -- The buffer after `assign`, and after the block is read.
    abbrev assigned : Buf
    assigned = record (saved.buf e) {
      b_dev = dev;
      b_blocknr = block;
      b_count = ((saved.buf e).b_count + 1) % 256;
    }

    assigned_buf : (assign e dev block saved).buf e ≡ assigned
    unfolding assign
    assigned_buf = update_self saved.buf e assigned

    saved_off : saved.nr_buf2 ≡ 0
    unfolding unchain rm_lru
    saved_off = ap (λ z. z.nr_buf2) saved-Saved.rest ∙ off

    read_assigned :
        read_block io e (assign e dev block saved)
        ≡ set_buf
            (assign e dev block saved)
            e
            (record assigned { b_data = rel.contents dev block saved.disk; b_dirt = false })
    unfolding assign
    read_assigned =
        read_block_lem e (assign e dev block saved)
          (ap (λ b. b.b_dev == no_dev) assigned_buf ∙ real)
        ∙ ap
            (λ b.
              set_buf (assign e dev block saved) e
                (record b { b_data = rel.contents b.b_dev b.b_blocknr saved.disk; b_dirt = false }))
            assigned_buf

    fetched :
        fetch io e dev normal (assign e dev block saved)
        ≡ set_buf
            (assign e dev block saved)
            e
            (record assigned { b_data = rel.contents dev block saved.disk; b_dirt = false })
    unfolding fetch load assign
    fetched =
        if_false _ _ real
        ∙ ap (load io e normal) (get_block2_off e (assign e dev block saved) saved_off)
        ∙ read_assigned

    loaded :
        (new : Buf)
        → set_buf (assign e dev block saved) e new ≡ record saved {
          buf = update saved.buf e new;
          buf_hash = update saved.buf_hash (hash_of block) (e ∷ saved.buf_hash (hash_of block));
        }
    unfolding assign
    loaded new = λ t. record saved {
      buf = λ j. update_twice saved.buf e assigned new j t;
      buf_hash = update saved.buf_hash (hash_of block) (e ∷ saved.buf_hash (hash_of block));
    }

    -- A state with the buffer's new block.
    abbrev over : Buf → Cache D → Cache D
    over new z = record z {
      buf = update saved.buf e new;
      buf_hash = update z.buf_hash (hash_of block) (e ∷ z.buf_hash (hash_of block));
    }

    module _ (new : NotHeld s.buf dev block) where
      abbrev after_miss : Cache D
      after_miss = replaced io rel s c e idle saved saved-Saved dev block real new

      missed : fetch io e dev normal (assign e dev block saved) ≡ after_miss
      unfolding unchain rm_lru
      missed =
          fetched
          ∙ loaded (record assigned { b_data = rel.contents dev block saved.disk; b_dirt = false })
          ∙ ap
              (over
                (record assigned { b_data = rel.contents dev block saved.disk; b_dirt = false }))
              saved-Saved.rest

  -- What `get_block` must yield.
  abbrev pub Gets : Cache D → ℕ → ℕ → Option (ℕ × Cache D) → Type 0
  Gets s dev block o = (i : ℕ) × (s' : Cache D) × (o ≡ some (i, s')) × Got io rel s dev block i s'

  module _ (s : Cache D) (c : IsCache io rel s) (dev block : ℕ) (real : (dev == no_dev) ≡ false)
      (off : s.nr_buf2 ≡ 0) where
    take_oldest-Gets :
        (l : List ℕ)
        → s.lru ≡ l
        → (e : ℕ) → has e l ≡ true
        → NotHeld s.buf dev block
        → Gets s dev block (take_oldest io dev block normal l s)
    unfolding take_oldest
    take_oldest-Gets [] q e m new = absurd (cc)
    take_oldest-Gets (x ∷ l) q e m new =
        let idle : has x s.lru ≡ true = ap (has x) q ∙ ground arith in
        (
          x,
          after_miss s c x dev block real off idle new,
          ap (λ z. some (x, z)) (missed s c x dev block real off idle new),
          replaced-Got io rel s c x idle (saved s c x dev block real off idle)
              (saved-Saved s c x dev block real off idle) dev block real new,
        )

    found_or-Gets :
        (o : Option ℕ)
        → search_chain dev block s.buf (s.buf_hash (hash_of block)) ≡ o
        → (e : ℕ) → has e s.lru ≡ true
        → ((i : ℕ) → i < nr_bufs → (s.buf i).b_count < 255)
        → Gets s dev block (found_or io dev block normal o s)
    unfolding found_or
    found_or-Gets none q e m few =
        take_oldest-Gets s.lru refl e m (missed-NotHeld io rel s c dev block q)
    found_or-Gets (some i) q e m few = (
      i,
      use_again i s,
      refl,
      use_again-Got io rel s c dev block i q (few i (found_low io rel s c dev block i q)),
    )

    -- Devices make no errors, the second level cache is not enabled, no buffer is used 255 times, and a
    -- buffer is free. Then get_block of a block of a device, with NORMAL as only_search, does not panic
    -- and yields a buffer that has the block with its contents, whether the block was in the cache or
    -- not, and is in use; every block of every device keeps its contents, buffers in use keep their
    -- blocks, and the invariant of the cache is kept.
    pub get_block-Got :
        (e : ℕ)
        → has e s.lru ≡ true
        → ((i : ℕ) → i < nr_bufs → (s.buf i).b_count < 255)
        → Gets s dev block (get_block io dev block normal s)
    unfolding get_block
    get_block-Got e m few =
        rw (if_false none (search_chain dev block s.buf (s.buf_hash (hash_of block))) real)
          (found_or-Gets (search_chain dev block s.buf (s.buf_hash (hash_of block))) refl e m few)
