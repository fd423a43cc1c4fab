-- ===== src/Fs/Cache/OnDisk.antt =====
-- A buffer that `rw_block` (src/fs/cache.c) writes to a device that makes no errors.
use minix4rt.Base.{
  ℕ, ◌<◌, false, ◌&&◌, has, ◌==◌, update, ◌≡◌, refl, sym, ap, ◌∙◌, inl, inr, Bool-cases, ==_iff,
  arith, if_true, if_false, true_ne_false, update_other, update_keep,
}
use minix4rt.Fs.Cache.{Cache, Io, IoResult, full, nr_bufs, no_dev, hash_of, write_done, write_block}
use minix4rt.Fs.Cache.Coherent.{IsCache, Stored}
use minix4rt.Fs.Cache.Devices.{Reliable}

module _ {D : Type 0} (io : Io D) (rel : Reliable io) where
  -- A buffer that is written to its device.
  module _ (s : Cache D) (c : IsCache io rel s) (i : ℕ) (low : i < nr_bufs)
      (real : ((s.buf i).b_dev == no_dev) ≡ false) where
    abbrev pub on_disk : Cache D
    on_disk = record s {
      buf = update s.buf i (record (s.buf i) { b_dirt = false });
      disk = (io.dev_write (s.buf i).b_dev (s.buf i).b_blocknr (s.buf i).b_data s.disk).1;
    }

    pub write_block-on_disk : write_block io i s ≡ on_disk
    unfolding write_block
    write_block-on_disk =
        if_false _ _ real
        ∙ done (io.dev_write (s.buf i).b_dev (s.buf i).b_blocknr (s.buf i).b_data s.disk)
            (rel.writes (s.buf i).b_dev (s.buf i).b_blocknr (s.buf i).b_data s.disk)
      where
        done :
            (r : IoResult × D)
            → r.0 ≡ full
            → write_done io i r s
              ≡ record s { buf = update s.buf i (record (s.buf i) { b_dirt = false }); disk = r.1 }
        done (r, d) e = ap (λ z. write_done io i (z, d) s) e

    kept_blocknr : (j : ℕ) → (on_disk.buf j).b_blocknr ≡ (s.buf j).b_blocknr
    kept_blocknr j =
        update_keep s.buf i (record (s.buf i) { b_dirt = false }) (λ b. b.b_blocknr) j refl

    kept_dev : (j : ℕ) → (on_disk.buf j).b_dev ≡ (s.buf j).b_dev
    kept_dev j = update_keep s.buf i (record (s.buf i) { b_dirt = false }) (λ b. b.b_dev) j refl

    kept_data : (j : ℕ) → (on_disk.buf j).b_data ≡ (s.buf j).b_data
    kept_data j = update_keep s.buf i (record (s.buf i) { b_dirt = false }) (λ b. b.b_data) j refl

    pub kept_count : (j : ℕ) → (on_disk.buf j).b_count ≡ (s.buf j).b_count
    kept_count j = update_keep s.buf i (record (s.buf i) { b_dirt = false }) (λ b. b.b_count) j refl

    -- The device has the contents of the buffer, and other blocks as before.
    pub own_contents :
        rel.contents (s.buf i).b_dev (s.buf i).b_blocknr on_disk.disk ≡ (s.buf i).b_data
    own_contents =
        rel.read_back (s.buf i).b_dev (s.buf i).b_blocknr (s.buf i).b_data s.disk (s.buf i).b_dev
          (s.buf i).b_blocknr
        ∙ if_true
            {b = ((s.buf i).b_dev == (s.buf i).b_dev)
              && ((s.buf i).b_blocknr == (s.buf i).b_blocknr)}
            _ _ (ground arith)

    other_contents :
        (dv bl : ℕ)
        → ((dv == (s.buf i).b_dev) && (bl == (s.buf i).b_blocknr)) ≡ false
        → rel.contents dv bl on_disk.disk ≡ rel.contents dv bl s.disk
    other_contents dv bl h =
        rel.read_back (s.buf i).b_dev (s.buf i).b_blocknr (s.buf i).b_data s.disk dv bl
        ∙ if_false _ _ h

    on_disk-coherent :
        (j : ℕ)
        → j < nr_bufs
        → (on_disk.buf j).b_dirt ≡ false
        → ((s.buf j).b_dev == no_dev) ≡ false
        → rel.contents (s.buf j).b_dev (s.buf j).b_blocknr on_disk.disk ≡ (s.buf j).b_data
    on_disk-coherent j l d r = elim (Bool-cases (j == i)) [
      | inl e ↦ here ((==_iff j i).0 e)
      | inr e ↦
          other_contents (s.buf j).b_dev (s.buf j).b_blocknr (apart e)
          ∙ c.coherent j l
              (ap (λ b. b.b_dirt)
                  (sym (update_other s.buf i j (record (s.buf i) { b_dirt = false }) e))
                ∙ d)
              r
    ]
      where
        here :
            j ≡ i → rel.contents (s.buf j).b_dev (s.buf j).b_blocknr on_disk.disk ≡ (s.buf j).b_data
        here q =
            ap (λ z. rel.contents (s.buf z).b_dev (s.buf z).b_blocknr on_disk.disk) q
            ∙ own_contents
            ∙ ap (λ z. (s.buf z).b_data) (sym q)

        apart :
            (j == i) ≡ false
            → (((s.buf j).b_dev == (s.buf i).b_dev) && ((s.buf j).b_blocknr == (s.buf i).b_blocknr))
              ≡ false
        apart e =
            elim (Bool-cases (
              ((s.buf j).b_dev == (s.buf i).b_dev)
              && ((s.buf j).b_blocknr == (s.buf i).b_blocknr))) [
                | inr h ↦ h
                | inl h ↦ absurd (
                    true_ne_false (
                      sym (
                        (==_iff j i).1 (c.sole j i l low r (ground (arith, h)) (ground (arith, h))))
                      ∙ e))
              ]

    pub on_disk-IsCache : IsCache io rel on_disk
    on_disk-IsCache = record {
      chained = λ j l. ap (λ z. has j (s.buf_hash (hash_of z))) (kept_blocknr j) ∙ c.chained j l;
      proper = λ k j m. ((c.proper k j m).0, ap hash_of (kept_blocknr j) ∙ (c.proper k j m).1);
      simple = c.simple;
      free = λ j m. ((c.free j m).0, kept_count j ∙ (c.free j m).1);
      waiting = λ j l z. c.waiting j l (sym (kept_count j) ∙ z);
      once = c.once;
      sole = λ j k lj lk r v b.
          c.sole j k lj lk (ap (λ z. z == no_dev) (sym (kept_dev j)) ∙ r)
            (sym (kept_dev j) ∙ v ∙ kept_dev k) (sym (kept_blocknr j) ∙ b ∙ kept_blocknr k);
      coherent = λ j l d r.
          ap (λ z. rel.contents z (on_disk.buf j).b_blocknr on_disk.disk) (kept_dev j)
          ∙ ap (λ z. rel.contents (s.buf j).b_dev z on_disk.disk) (kept_blocknr j)
          ∙ on_disk-coherent j l d (ap (λ z. z == no_dev) (sym (kept_dev j)) ∙ r)
          ∙ sym (kept_data j);
    }

    pub on_disk-Stored : (dv bl x : ℕ) → Stored io rel s dv bl x → Stored io rel on_disk dv bl x
    on_disk-Stored dv bl x (inl (j, l, v, b, d)) =
        inl (j, l, kept_dev j ∙ v, kept_blocknr j ∙ b, kept_data j ∙ d)
    on_disk-Stored dv bl x (inr (n, e)) = inr (
      (λ j l.
          ap (λ z. (z == dv) && ((on_disk.buf j).b_blocknr == bl)) (kept_dev j)
          ∙ ap (λ z. ((s.buf j).b_dev == dv) && (z == bl)) (kept_blocknr j)
          ∙ n j l),
      other_contents dv bl (ground (arith, n i low)) ∙ e,
    )
