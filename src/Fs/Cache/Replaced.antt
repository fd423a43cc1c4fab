-- ===== src/Fs/Cache/Replaced.antt =====
-- The block that is not in the cache: `get_block` (src/fs/cache.c) takes the oldest free buffer for it.
use minix4rt.Base.{
  ℕ, ◌+◌, ◌%◌, ◌<◌, true, false, ◌&&◌, has, remove, Distinct, ◌==◌, update, ◌≡◌, ◌⊎◌, sym, ap, ◌∙◌,
  inl, inr, Bool-cases, ==_iff, ==_refl, arith, true_ne_false, has-remove_ne, has-remove_self,
  Distinct-remove, update_self, update_other,
}
use minix4rt.Fs.Cache.{Buf, Cache, Io, nr_bufs, no_dev, hash_of, rm_lru}
use minix4rt.Fs.Cache.Chains.{moved, has-moved_ne, has-moved_self, Distinct-moved}
use minix4rt.Fs.Cache.Coherent.{IsCache, Stored, Got}
use minix4rt.Fs.Cache.Devices.{Reliable}
use minix4rt.Fs.Cache.Get.{unchain}
use minix4rt.Fs.Cache.Saved.{SoleOwner, NotHeld, IsCoherent, Saved, Copy}

module _ {D : Type 0} (io : Io D) (rel : Reliable io) (s : Cache D) (c : IsCache io rel s) (e : ℕ)
    (idle : has e s.lru ≡ true) (s3 : Cache D) (sv : Saved io rel e (unchain e (rm_lru e s)) s3)
    (dev block : ℕ) (real : (dev == no_dev) ≡ false) (new : NotHeld s.buf dev block) where
  -- The buffer with its new block.
  abbrev new_buf : Buf
  new_buf = record {
    b_data = rel.contents dev block s3.disk;
    b_blocknr = block;
    b_dev = dev;
    b_dirt = false;
    b_count = ((s3.buf e).b_count + 1) % 256;
  }

  abbrev pub replaced : Cache D
  replaced = record s {
    buf = update s3.buf e new_buf;
    buf_hash = moved s.buf_hash e (hash_of (s.buf e).b_blocknr) (hash_of block);
    lru = remove e s.lru;
    bufs_in_use = s.bufs_in_use + 1;
    disk = s3.disk;
  }

  low_e : e < nr_bufs
  low_e = (c.free e idle).0

  other_has : (j h : ℕ) → (j == e) ≡ false → has j (replaced.buf_hash h) ≡ has j (s.buf_hash h)
  other_has = has-moved_ne s.buf_hash e (hash_of (s.buf e).b_blocknr) (hash_of block)

  own_has : (h : ℕ) → has e (replaced.buf_hash h) ≡ (h == hash_of block)
  own_has =
      has-moved_self s.buf_hash e (hash_of (s.buf e).b_blocknr) (hash_of block) c.simple
        (λ h m. sym (c.proper h e m).1)

  Distinct-replaced : (h : ℕ) → Distinct (replaced.buf_hash h)
  Distinct-replaced =
      Distinct-moved s.buf_hash e (hash_of (s.buf e).b_blocknr) (hash_of block) c.simple
        (λ h m. sym (c.proper h e m).1)

  own_buf : replaced.buf e ≡ new_buf
  own_buf = update_self s3.buf e new_buf

  other_buf : (j : ℕ) → (j == e) ≡ false → replaced.buf j ≡ s3.buf j
  other_buf j n = update_other s3.buf e j new_buf n

  -- A buffer is the one that is taken, or it has the block that it had.
  abbrev Role : ℕ → Type 0
  Role j =
      (j ≡ e) ⊎ (((j == e) ≡ false) × (replaced.buf j ≡ s3.buf j) × Copy (replaced.buf j) (s.buf j))

  role : (j : ℕ) → Role j
  unfolding unchain rm_lru
  role j = elim (Bool-cases (j == e)) [
    | inl p ↦ inl ((==_iff j e).0 p)
    | inr p ↦ inr (
      p,
      other_buf j p,
      (
        ap (λ b. b.b_data) (other_buf j p) ∙ (sv.copies j).0,
        ap (λ b. b.b_blocknr) (other_buf j p) ∙ (sv.copies j).1,
        ap (λ b. b.b_dev) (other_buf j p) ∙ (sv.copies j).2,
        ap (λ b. b.b_count) (other_buf j p) ∙ (sv.copies j).3,
      ),
    )
  ]

  replaced-chained :
      (j : ℕ) → j < nr_bufs → has j (replaced.buf_hash (hash_of (replaced.buf j).b_blocknr)) ≡ true
  replaced-chained j low = by (role j)
    where
      by : Role j → has j (replaced.buf_hash (hash_of (replaced.buf j).b_blocknr)) ≡ true
      by (inl q) =
          ap (λ z. has z (replaced.buf_hash (hash_of (replaced.buf z).b_blocknr))) q
          ∙ own_has (hash_of (replaced.buf e).b_blocknr)
          ∙ ap (λ b. hash_of b.b_blocknr == hash_of block) own_buf
          ∙ ==_refl (hash_of block)
      by (inr (n, _, (_, b, _, _))) =
          ap (λ z. has j (replaced.buf_hash (hash_of z))) b
          ∙ other_has j (hash_of (s.buf j).b_blocknr) n
          ∙ c.chained j low

  replaced-proper :
      (h j : ℕ)
      → has j (replaced.buf_hash h) ≡ true
      → (j < nr_bufs) × (hash_of (replaced.buf j).b_blocknr ≡ h)
  replaced-proper h j m = by (role j)
    where
      by : Role j → (j < nr_bufs) × (hash_of (replaced.buf j).b_blocknr ≡ h)
      by (inl q) = (
        rw q low_e,
        ap (λ z. hash_of (replaced.buf z).b_blocknr) q
            ∙ ap (λ b. hash_of b.b_blocknr) own_buf
            ∙ sym (
                (==_iff h (hash_of block)).0
                  (sym (own_has h) ∙ ap (λ z. has z (replaced.buf_hash h)) (sym q) ∙ m)),
      )
      by (inr (n, _, (_, b, _, _))) =
          let (l, k) = c.proper h j (sym (other_has j h n) ∙ m) in (l, ap hash_of b ∙ k)

  replaced-free :
      (j : ℕ) → has j (remove e s.lru) ≡ true → (j < nr_bufs) × ((replaced.buf j).b_count ≡ 0)
  replaced-free j m = by (role j)
    where
      by : Role j → (j < nr_bufs) × ((replaced.buf j).b_count ≡ 0)
      by (inl q) = absurd (
          true_ne_false
            (sym m ∙ ap (λ z. has z (remove e s.lru)) q ∙ has-remove_self e s.lru c.once))
      by (inr (n, _, (_, _, _, k))) =
          let (l, z) = c.free j (sym (has-remove_ne j e s.lru n) ∙ m) in (l, k ∙ z)

  own_count : (replaced.buf e).b_count ≡ 1
  unfolding unchain rm_lru
  own_count =
      ap (λ b. b.b_count) own_buf ∙ ap (λ z. (z + 1) % 256) ((sv.copies e).3 ∙ (c.free e idle).1)

  replaced-waiting :
      (j : ℕ) → j < nr_bufs → (replaced.buf j).b_count ≡ 0 → has j (remove e s.lru) ≡ true
  replaced-waiting j low z = by (role j)
    where
      by : Role j → has j (remove e s.lru) ≡ true
      by (inl q) =
          absurd (omega (arith, sym own_count ∙ ap (λ k. (replaced.buf k).b_count) (sym q) ∙ z))
      by (inr (n, _, (_, _, _, k))) = has-remove_ne j e s.lru n ∙ c.waiting j low (sym k ∙ z)

  -- No other buffer has the new block.
  not_new :
      (j : ℕ) → j < nr_bufs → (s.buf j).b_dev ≡ dev → (s.buf j).b_blocknr ≡ block → true ≡ false
  not_new j low v b = ground (arith, new j low, v, b)

  replaced-SoleOwner : SoleOwner replaced.buf
  replaced-SoleOwner i j li lj r v b = by (role i) (role j)
    where
      own_dev : {k : ℕ} → k ≡ e → (replaced.buf k).b_dev ≡ dev
      own_dev q = ap (λ z. (replaced.buf z).b_dev) q ∙ ap (λ b. b.b_dev) own_buf

      own_block : {k : ℕ} → k ≡ e → (replaced.buf k).b_blocknr ≡ block
      own_block q = ap (λ z. (replaced.buf z).b_blocknr) q ∙ ap (λ b. b.b_blocknr) own_buf

      by : Role i → Role j → i ≡ j
      by (inl p) (inl q) = p ∙ sym q
      by (inl p) (inr (_, _, (_, cb, cv, _))) =
          absurd (
            true_ne_false
              (not_new j lj (sym cv ∙ sym v ∙ own_dev p) (sym cb ∙ sym b ∙ own_block p)))
      by (inr (_, _, (_, cb, cv, _))) (inl q) =
          absurd (true_ne_false (not_new i li (sym cv ∙ v ∙ own_dev q) (sym cb ∙ b ∙ own_block q)))
      by (inr (_, _, (_, cb, cv, _))) (inr (_, _, (_, db, dv, _))) =
          c.sole i j li lj (ap (λ z. z == no_dev) (sym cv) ∙ r) (sym cv ∙ v ∙ dv) (sym cb ∙ b ∙ db)

  replaced-IsCoherent : IsCoherent io rel replaced.buf s3.disk
  replaced-IsCoherent j low d r = by (role j)
    where
      by :
          Role j
          → rel.contents (replaced.buf j).b_dev (replaced.buf j).b_blocknr s3.disk
            ≡ (replaced.buf j).b_data
      by (inl q) =
          ap (λ z. rel.contents (replaced.buf z).b_dev (replaced.buf z).b_blocknr s3.disk) q
          ∙ ap (λ b. rel.contents b.b_dev b.b_blocknr s3.disk) own_buf
          ∙ sym (ap (λ b. b.b_data) own_buf)
          ∙ ap (λ z. (replaced.buf z).b_data) (sym q)
      by (inr (_, k, _)) =
          ap (λ b. rel.contents b.b_dev b.b_blocknr s3.disk) k
          ∙ sv.coherent j low (ap (λ b. b.b_dirt) (sym k) ∙ d)
              (ap (λ b. b.b_dev == no_dev) (sym k) ∙ r)
          ∙ sym (ap (λ b. b.b_data) k)

  replaced-IsCache : IsCache io rel replaced
  replaced-IsCache = record {
    chained = replaced-chained;
    proper = replaced-proper;
    simple = Distinct-replaced;
    free = replaced-free;
    waiting = replaced-waiting;
    once = Distinct-remove e s.lru c.once;
    sole = replaced-SoleOwner;
    coherent = replaced-IsCoherent;
  }

  Role-NotHeld :
      (dv bl : ℕ)
      → ((dev == dv) && (block == bl)) ≡ false
      → ((k : ℕ)
          → k < nr_bufs
          → (k == e) ≡ false
          → (((s.buf k).b_dev == dv) && ((s.buf k).b_blocknr == bl)) ≡ false)
      → NotHeld replaced.buf dv bl
  Role-NotHeld dv bl h o k low = by (role k)
    where
      by : Role k → (((replaced.buf k).b_dev == dv) && ((replaced.buf k).b_blocknr == bl)) ≡ false
      by (inl q) =
          ap (λ z. ((replaced.buf z).b_dev == dv) && ((replaced.buf z).b_blocknr == bl)) q
          ∙ ap (λ b. (b.b_dev == dv) && (b.b_blocknr == bl)) own_buf
          ∙ h
      by (inr (n, _, (_, b, v, _))) =
          ap (λ z. (z == dv) && ((replaced.buf k).b_blocknr == bl)) v
          ∙ ap (λ z. ((s.buf k).b_dev == dv) && (z == bl)) b
          ∙ o k low n

  -- The block that the buffer had is on its device.
  old_contents :
      ((s.buf e).b_dev == no_dev) ≡ false
      → rel.contents (s.buf e).b_dev (s.buf e).b_blocknr s3.disk ≡ (s.buf e).b_data
  unfolding unchain rm_lru
  old_contents r =
      let (d, b, v, n) = sv.copies e in
      ap (λ z. rel.contents z (s.buf e).b_blocknr s3.disk) (sym v)
      ∙ ap (λ z. rel.contents (s3.buf e).b_dev z s3.disk) (sym b)
      ∙ sv.coherent e low_e (sv.settled r) (ap (λ z. z == no_dev) v ∙ r)
      ∙ d

  other_contents :
      (dv bl : ℕ) → NotHeld s.buf dv bl → rel.contents dv bl s3.disk ≡ rel.contents dv bl s.disk
  unfolding unchain rm_lru
  other_contents dv bl h = sv.others dv bl h

  replaced-Stored :
      (dv bl x : ℕ)
      → (dv == no_dev) ≡ false
      → Stored io rel s dv bl x
      → Stored io rel replaced dv bl x
  replaced-Stored dv bl x r (inl (i, low, v, b, d)) = by (role i)
    where
      apart :
          (k : ℕ)
          → k < nr_bufs
          → (k == e) ≡ false
          → i ≡ e
          → (((s.buf k).b_dev == dv) && ((s.buf k).b_blocknr == bl)) ≡ false
      apart k lk n q = elim (Bool-cases (((s.buf k).b_dev == dv) && ((s.buf k).b_blocknr == bl))) [
        | inr h ↦ h
        | inl h ↦ absurd (
            true_ne_false (
              sym (
                (==_iff k e).1 (
                  sym (
                    c.sole i k low lk (ap (λ z. z == no_dev) v ∙ r) (v ∙ ground (arith, h))
                      (b ∙ ground (arith, h)))
                  ∙ q))
              ∙ n))
      ]

      by : Role i → Stored io rel replaced dv bl x
      by (inr (n, _, (cd, cb, cv, _))) = inl (i, low, cv ∙ v, cb ∙ b, cd ∙ d)
      by (inl q) = inr (
        Role-NotHeld dv bl (ground (arith, new i low, v, b)) (λ k lk n. apart k lk n q),
        ap (λ z. rel.contents z bl s3.disk) (sym v ∙ ap (λ z. (s.buf z).b_dev) q)
            ∙ ap (λ z. rel.contents (s.buf e).b_dev z s3.disk)
                (sym b ∙ ap (λ z. (s.buf z).b_blocknr) q)
            ∙ old_contents
                (ap (λ z. (s.buf z).b_dev == no_dev) (sym q) ∙ ap (λ z. z == no_dev) v ∙ r)
            ∙ ap (λ z. (s.buf z).b_data) (sym q)
            ∙ d,
      )
  replaced-Stored dv bl x r (inr (nh, ec)) = elim (Bool-cases ((dev == dv) && (block == bl))) [
    | inl h ↦ inl (
      e,
      low_e,
      ap (λ b. b.b_dev) own_buf ∙ ground (arith, h),
      ap (λ b. b.b_blocknr) own_buf ∙ ground (arith, h),
      ap (λ b. b.b_data) own_buf
          ∙ other_contents dev block new
          ∙ ap (λ z. rel.contents z block s.disk) (ground (arith, h))
          ∙ ap (λ z. rel.contents dv z s.disk) (ground (arith, h))
          ∙ ec,
    )
    | inr h ↦ inr (Role-NotHeld dv bl h (λ k lk n. nh k lk), other_contents dv bl nh ∙ ec)
  ]

  pub replaced-Got : Got io rel s dev block e replaced
  replaced-Got = record {
    valid = replaced-IsCache;
    low = low_e;
    on_dev = ap (λ b. b.b_dev) own_buf;
    on_block = ap (λ b. b.b_blocknr) own_buf;
    used = ap (λ z. z == 0) own_count;
    contents = inr (new, sym (other_contents dev block new) ∙ sym (ap (λ b. b.b_data) own_buf));
    transparent = replaced-Stored;
    in_use = λ j l n. kept j n (role j);
  }
    where
      kept :
          (j : ℕ)
          → ((s.buf j).b_count == 0) ≡ false
          → Role j
          → ((replaced.buf j).b_data ≡ (s.buf j).b_data)
            × ((replaced.buf j).b_blocknr ≡ (s.buf j).b_blocknr)
            × ((replaced.buf j).b_dev ≡ (s.buf j).b_dev)
      kept j n (inr (_, _, (d, b, v, _))) = (d, b, v)
      kept j n (inl q) = absurd (
          true_ne_false
            (sym (ap (λ z. z == 0) (ap (λ z. (s.buf z).b_count) q ∙ (c.free e idle).1)) ∙ n))
