-- ===== src/Fs/Cache/Counted.antt =====
-- The number of users of a buffer and the chain of free buffers change together (src/fs/cache.c).
use minix4rt.Base.{
  ℕ, ◌<◌, true, false, ◌&&◌, List, has, Distinct, ◌==◌, update, ◌≡◌, refl, sym, ap, ◌∙◌, inl, inr,
  Bool-cases, ==_iff, update_keep, update_self, update_other,
}
use minix4rt.Fs.Cache.{Cache, Io, nr_bufs, no_dev, hash_of}
use minix4rt.Fs.Cache.Devices.{Reliable}
use minix4rt.Fs.Cache.Coherent.{IsCache, Stored}

module _ {D : Type 0} (io : Io D) (rel : Reliable io) (s : Cache D) (c : IsCache io rel s)
    (i users : ℕ) (chain : List ℕ) (in_use : ℕ) where
  abbrev pub counted : Cache D
  counted = record s {
    buf = update s.buf i (record (s.buf i) { b_count = users });
    lru = chain;
    bufs_in_use = in_use;
  }

  pub counted_blocknr : (j : ℕ) → (counted.buf j).b_blocknr ≡ (s.buf j).b_blocknr
  counted_blocknr j =
      update_keep s.buf i (record (s.buf i) { b_count = users }) (λ b. b.b_blocknr) j refl

  pub counted_dev : (j : ℕ) → (counted.buf j).b_dev ≡ (s.buf j).b_dev
  counted_dev j = update_keep s.buf i (record (s.buf i) { b_count = users }) (λ b. b.b_dev) j refl

  pub counted_data : (j : ℕ) → (counted.buf j).b_data ≡ (s.buf j).b_data
  counted_data j = update_keep s.buf i (record (s.buf i) { b_count = users }) (λ b. b.b_data) j refl

  pub counted_dirt : (j : ℕ) → (counted.buf j).b_dirt ≡ (s.buf j).b_dirt
  counted_dirt j = update_keep s.buf i (record (s.buf i) { b_count = users }) (λ b. b.b_dirt) j refl

  pub counted_users : (counted.buf i).b_count ≡ users
  counted_users = ap (λ b. b.b_count) (update_self s.buf i (record (s.buf i) { b_count = users }))

  counted_other : (j : ℕ) → (j == i) ≡ false → (counted.buf j).b_count ≡ (s.buf j).b_count
  counted_other j h =
      ap (λ b. b.b_count) (update_other s.buf i j (record (s.buf i) { b_count = users }) h)

  -- The chain holds the buffer exactly when it has no users, and the others as before.
  module _ (low : i < nr_bufs) (others : (j : ℕ) → (j == i) ≡ false → has j chain ≡ has j s.lru)
      (own : has i chain ≡ (users == 0)) (distinct : Distinct chain) where
    counted-free : (j : ℕ) → has j chain ≡ true → (j < nr_bufs) × ((counted.buf j).b_count ≡ 0)
    counted-free j m = elim (Bool-cases (j == i)) [
      | inl e ↦ here ((==_iff j i).0 e)
      | inr e ↦ let (l, z) = c.free j (sym (others j e) ∙ m) in (l, counted_other j e ∙ z)
    ]
      where
        here : j ≡ i → (j < nr_bufs) × ((counted.buf j).b_count ≡ 0)
        here q = (
          rw q low,
          ap (λ z. (counted.buf z).b_count) q
              ∙ counted_users
              ∙ (==_iff users 0).0 (sym own ∙ ap (λ z. has z chain) (sym q) ∙ m),
        )

    counted-waiting : (j : ℕ) → j < nr_bufs → (counted.buf j).b_count ≡ 0 → has j chain ≡ true
    counted-waiting j l z = elim (Bool-cases (j == i)) [
      | inl e ↦ here ((==_iff j i).0 e)
      | inr e ↦ others j e ∙ c.waiting j l (sym (counted_other j e) ∙ z)
    ]
      where
        here : j ≡ i → has j chain ≡ true
        here q =
            ap (λ k. has k chain) q
            ∙ own
            ∙ (==_iff users 0).1 (sym counted_users ∙ ap (λ k. (counted.buf k).b_count) (sym q) ∙ z)

    pub counted-IsCache : IsCache io rel counted
    counted-IsCache = record {
      chained = λ j l. ap (λ z. has j (s.buf_hash (hash_of z))) (counted_blocknr j) ∙ c.chained j l;
      proper = λ k j m. ((c.proper k j m).0, ap hash_of (counted_blocknr j) ∙ (c.proper k j m).1);
      simple = c.simple;
      free = counted-free;
      waiting = counted-waiting;
      once = distinct;
      sole = λ j k lj lk r v b.
          c.sole j k lj lk (ap (λ z. z == no_dev) (sym (counted_dev j)) ∙ r)
            (sym (counted_dev j) ∙ v ∙ counted_dev k)
            (sym (counted_blocknr j) ∙ b ∙ counted_blocknr k);
      coherent = λ j l d r.
          ap (λ z. rel.contents z (counted.buf j).b_blocknr s.disk) (counted_dev j)
          ∙ ap (λ z. rel.contents (s.buf j).b_dev z s.disk) (counted_blocknr j)
          ∙ c.coherent j l (sym (counted_dirt j) ∙ d)
              (ap (λ z. z == no_dev) (sym (counted_dev j)) ∙ r)
          ∙ sym (counted_data j);
    }

  pub counted-Stored : (dv bl x : ℕ) → Stored io rel s dv bl x → Stored io rel counted dv bl x
  counted-Stored dv bl x (inl (j, l, v, b, d)) =
      inl (j, l, counted_dev j ∙ v, counted_blocknr j ∙ b, counted_data j ∙ d)
  counted-Stored dv bl x (inr (n, e)) = inr (
    (λ j l.
        ap (λ z. (z == dv) && ((counted.buf j).b_blocknr == bl)) (counted_dev j)
        ∙ ap (λ z. ((s.buf j).b_dev == dv) && (z == bl)) (counted_blocknr j)
        ∙ n j l),
    e,
  )
