-- ===== src/Fs/Cache/Saved.antt =====
-- Before a buffer gets another block, `get_block` (src/fs/cache.c) writes it, with all other dirty buffers
-- of the device: what the devices hold afterwards, if they make no errors and there is no second level.
use minix4rt.Base.{
  ℕ, ◌<◌, Bool, true, false, ◌&&◌, List, has, if◌then◌else◌, ◌==◌, ◌≡◌, refl, sym, ap, ◌∙◌, inl,
  inr, Bool-cases, arith, if_true, if_false, true_ne_false,
}
use minix4rt.Fs.Cache.{Buf, Cache, Io, nr_bufs, no_dev}
use minix4rt.Fs.Cache.Devices.{Reliable, Sole, write_each_same, write_each_other}
use minix4rt.Fs.Cache.Get.{save_old}
use minix4rt.Fs.Cache.Level2.{put_block2}
use minix4rt.Fs.Cache.Written.{
  cleaned, clean, cleaned_lem, flushed, to_flush, flushall-flushed, has-to_flush,
}

-- Two states of a buffer with the same block and contents.
abbrev pub Copy : Buf → Buf → Type 0
Copy a b =
    (a.b_data ≡ b.b_data)
    × (a.b_blocknr ≡ b.b_blocknr)
    × (a.b_dev ≡ b.b_dev)
    × (a.b_count ≡ b.b_count)

-- No block of a device is in two buffers.
abbrev pub SoleOwner : (ℕ → Buf) → Type 0
SoleOwner f =
    (i j : ℕ)
    → i < nr_bufs
    → j < nr_bufs
    → ((f i).b_dev == no_dev) ≡ false
    → (f i).b_dev ≡ (f j).b_dev
    → (f i).b_blocknr ≡ (f j).b_blocknr
    → i ≡ j

abbrev pub NotHeld : (ℕ → Buf) → ℕ → ℕ → Type 0
NotHeld f dev block =
    (i : ℕ) → i < nr_bufs → (((f i).b_dev == dev) && ((f i).b_blocknr == block)) ≡ false

module _ {D : Type 0} (io : Io D) (rel : Reliable io) where
  -- A clean buffer has the contents of its block.
  abbrev pub IsCoherent : (ℕ → Buf) → D → Type 0
  IsCoherent f d =
      (i : ℕ)
      → i < nr_bufs
      → (f i).b_dirt ≡ false
      → ((f i).b_dev == no_dev) ≡ false
      → rel.contents (f i).b_dev (f i).b_blocknr d ≡ (f i).b_data

  pub record Saved (e : ℕ) (s s' : Cache D) : Type 0 where
    pub rest : s' ≡ record s { buf = s'.buf; disk = s'.disk }
    pub copies : (j : ℕ) → Copy (s'.buf j) (s.buf j)
    pub coherent : IsCoherent s'.buf s'.disk
    pub settled : ((s.buf e).b_dev == no_dev) ≡ false → (s'.buf e).b_dirt ≡ false
    pub others :
        (dev block : ℕ)
        → NotHeld s.buf dev block
        → rel.contents dev block s'.disk ≡ rel.contents dev block s.disk

  module _ (s : Cache D) (sole : SoleOwner s.buf) (dev : ℕ) (real : (dev == no_dev) ≡ false) where
    list : List ℕ
    list = to_flush io rel dev s

    member :
        (i : ℕ)
        → has i list ≡ true
        → (i < nr_bufs) × ((s.buf i).b_dirt ≡ true) × ((s.buf i).b_dev ≡ dev)
    unfolding list
    member i h = ground (arith, has-to_flush dev s i, h)

    Sole-list : (c : ℕ) → c < nr_bufs → (s.buf c).b_dev ≡ dev → Sole s.buf list c
    Sole-list c low ec i m eb =
        let (li, _, ei) = member i m in
        ap (λ z. (s.buf z).b_data) (sole i c li low (rw ei real) (ei ∙ sym ec) eb)

    Copy-flushed : (j : ℕ) → Copy ((flushed io rel dev list s).buf j) (s.buf j)
    Copy-flushed j = either (has j list) (cleaned_lem list s.buf j)
      where
        either :
            (b : Bool)
            → cleaned list s.buf j ≡ (if b then clean (s.buf j) else s.buf j)
            → Copy (cleaned list s.buf j) (s.buf j)
        either true e = (
          ap (λ z. z.b_data) e,
          ap (λ z. z.b_blocknr) e,
          ap (λ z. z.b_dev) e,
          ap (λ z. z.b_count) e,
        )
        either false e = (
          ap (λ z. z.b_data) e,
          ap (λ z. z.b_blocknr) e,
          ap (λ z. z.b_dev) e,
          ap (λ z. z.b_count) e,
        )

    flushed_others :
        (dv block : ℕ)
        → ((i : ℕ) → has i list ≡ true → ((dv == dev) && (block == (s.buf i).b_blocknr)) ≡ false)
        → rel.contents dv block (flushed io rel dev list s).disk ≡ rel.contents dv block s.disk
    flushed_others dv block h = write_each_other io rel s.buf dev list s.disk dv block h

    flushed_contents :
        (j : ℕ)
        → j < nr_bufs
        → (cleaned list s.buf j).b_dirt ≡ false
        → ((s.buf j).b_dev == no_dev) ≡ false
        → IsCoherent s.buf s.disk
        → rel.contents (s.buf j).b_dev (s.buf j).b_blocknr (flushed io rel dev list s).disk
          ≡ (s.buf j).b_data
    flushed_contents j low c r old = elim (Bool-cases (has j list)) [
      | inl m ↦
          ap (λ z. rel.contents z (s.buf j).b_blocknr (flushed io rel dev list s).disk)
            (member j m).2
          ∙ write_each_same io rel s.buf dev list s.disk j (Sole-list j low (member j m).2) m
      | inr m ↦
          flushed_others (s.buf j).b_dev (s.buf j).b_blocknr (λ i k. apart i m k)
          ∙ old j low
              (sym (
                  ap (λ z. z.b_dirt)
                    (cleaned_lem list s.buf j ∙ if_false (clean (s.buf j)) (s.buf j) m))
                ∙ c)
              r
    ]
      where
        apart :
            (i : ℕ)
            → has j list ≡ false
            → has i list ≡ true
            → (((s.buf j).b_dev == dev) && ((s.buf j).b_blocknr == (s.buf i).b_blocknr)) ≡ false
        apart i m k =
            elim (Bool-cases
              (((s.buf j).b_dev == dev) && ((s.buf j).b_blocknr == (s.buf i).b_blocknr))) [
                | inr q ↦ q
                | inl q ↦ absurd (true_ne_false (sym k ∙ ap (λ z. has z list) (meet i k q) ∙ m))
              ]
          where
            meet :
                (i : ℕ)
                → has i list ≡ true
                → (((s.buf j).b_dev == dev) && ((s.buf j).b_blocknr == (s.buf i).b_blocknr)) ≡ true
                → i ≡ j
            meet i k q =
                let (li, _, ei) = member i k in
                sole i j li low (rw ei real) (ei ∙ ground (arith, q)) (ground (arith, q))

    flushed_clean :
        (e : ℕ) → (s.buf e).b_dev ≡ dev → e < nr_bufs → (cleaned list s.buf e).b_dirt ≡ false
    unfolding list
    flushed_clean e q low = elim (Bool-cases (has e list)) [
      | inl m ↦
          ap (λ z. z.b_dirt) (cleaned_lem list s.buf e ∙ if_true (clean (s.buf e)) (s.buf e) m)
      | inr m ↦
          ap (λ z. z.b_dirt) (cleaned_lem list s.buf e ∙ if_false (clean (s.buf e)) (s.buf e) m)
          ∙ ground (arith, has-to_flush dev s e, m, q, low)
    ]

    flushed-Saved :
        (e : ℕ)
        → (s.buf e).b_dev ≡ dev
        → e < nr_bufs
        → IsCoherent s.buf s.disk
        → Saved e s (flushed io rel dev list s)
    flushed-Saved e q low old = record {
      rest = refl;
      copies = Copy-flushed;
      coherent = λ i h c r.
          let (d, b, v, n) = Copy-flushed i in
          moved i (sym v) (sym b) (sym d)
            (flushed_contents i h c (ap (λ z. z == no_dev) (sym v) ∙ r) old);
      settled = λ r. flushed_clean e q low;
      others = λ dv block h.
          flushed_others dv block
            (λ i m. let (li, _, ei) = member i m in ground (arith, h i li, ei));
    }
      where
        moved :
            (i : ℕ)
            → (s.buf i).b_dev ≡ (cleaned list s.buf i).b_dev
            → (s.buf i).b_blocknr ≡ (cleaned list s.buf i).b_blocknr
            → (s.buf i).b_data ≡ (cleaned list s.buf i).b_data
            → rel.contents (s.buf i).b_dev (s.buf i).b_blocknr (flushed io rel dev list s).disk
              ≡ (s.buf i).b_data
            → rel.contents
                (cleaned list s.buf i).b_dev
                (cleaned list s.buf i).b_blocknr
                (flushed io rel dev list s).disk
              ≡ (cleaned list s.buf i).b_data
        moved i v b d e =
            ap
              (λ z.
                rel.contents z (cleaned list s.buf i).b_blocknr (flushed io rel dev list s).disk)
              (sym v)
            ∙ ap (λ z. rel.contents (s.buf i).b_dev z (flushed io rel dev list s).disk) (sym b)
            ∙ e
            ∙ d

  same-Saved :
      (e : ℕ) (s : Cache D)
      → IsCoherent s.buf s.disk
      → (((s.buf e).b_dev == no_dev) ≡ false → (s.buf e).b_dirt ≡ false)
      → Saved e s s
  same-Saved e s old h = record {
    rest = refl;
    copies = λ j. (refl, refl, refl, refl);
    coherent = old;
    settled = h;
    others = λ dv block n. refl;
  }

  put_block2_off : (i : ℕ) (s : Cache D) → s.nr_buf2 ≡ 0 → put_block2 io i s ≡ s
  unfolding put_block2
  put_block2_off i s h = if_true {b = s.nr_buf2 == 0} _ _ (ground (arith, h))

  save_old_none : (e : ℕ) (s : Cache D) → ((s.buf e).b_dev == no_dev) ≡ true → save_old io e s ≡ s
  unfolding save_old
  save_old_none e s h = if_true _ _ h

  save_old_clean :
      (e : ℕ) (s : Cache D)
      → s.nr_buf2 ≡ 0
      → ((s.buf e).b_dev == no_dev) ≡ false
      → (s.buf e).b_dirt ≡ false
      → save_old io e s ≡ s
  unfolding save_old
  save_old_clean e s n h d =
      if_false _ _ h ∙ ap (put_block2 io e) (if_false _ _ d) ∙ put_block2_off e s n

  save_old_dirty :
      (e : ℕ) (s : Cache D)
      → s.nr_buf2 ≡ 0
      → ((s.buf e).b_dev == no_dev) ≡ false
      → (s.buf e).b_dirt ≡ true
      → save_old io e s ≡ flushed io rel (s.buf e).b_dev (to_flush io rel (s.buf e).b_dev s) s
  unfolding save_old
  save_old_dirty e s n h d =
      if_false _ _ h
      ∙ ap (put_block2 io e) (if_true _ _ d ∙ flushall-flushed io rel (s.buf e).b_dev s)
      ∙ put_block2_off e (flushed io rel (s.buf e).b_dev (to_flush io rel (s.buf e).b_dev s) s) n

  pub save_old-Saved :
      (e : ℕ) (s : Cache D)
      → e < nr_bufs
      → s.nr_buf2 ≡ 0
      → SoleOwner s.buf
      → IsCoherent s.buf s.disk
      → Saved e s (save_old io e s)
  unfolding list
  save_old-Saved e s low n sole old = elim (Bool-cases ((s.buf e).b_dev == no_dev)) [
    | inl h ↦
        rw (save_old_none e s h) (same-Saved e s old (λ r. absurd (true_ne_false (sym h ∙ r))))
    | inr h ↦ elim (Bool-cases (s.buf e).b_dirt) [
      | inl d ↦
          rw (save_old_dirty e s n h d) (flushed-Saved s sole (s.buf e).b_dev h e refl low old)
      | inr d ↦ rw (save_old_clean e s n h d) (same-Saved e s old (λ r. d))
    ]
  ]
