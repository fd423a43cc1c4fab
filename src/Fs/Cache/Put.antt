-- ===== src/Fs/Cache/Put.antt =====
-- `put_block` of src/fs/cache.c on devices without errors.
use minix4rt.Base.{
  ℕ, ◌+◌, ◌-◌, ◌%◌, ◌<◌, true, false, not, ◌&&◌, some, List, [], ◌∷◌, ◌++◌, has, Distinct,
  if◌then◌else◌, ◌==◌, ◌≡◌, refl, sym, ap, ◌∙◌, inl, inr, Bool-cases, arith, if_true, if_false,
  true_ne_false, subst, has-append, Distinct-append_cons, update_self,
}
use minix4rt.Fs.Cache.{
  Cache, Io, nr_bufs, no_dev, set_buf, write_block, is_one_shot, is_write_immed, release_buf,
  write_important, put_counted, put_block,
}
use minix4rt.Fs.Cache.Coherent.{IsCache, Stored}
use minix4rt.Fs.Cache.Counted.{counted, counted_dev, counted-IsCache, counted-Stored, counted_users}
use minix4rt.Fs.Cache.Devices.{Reliable}
use minix4rt.Fs.Cache.OnDisk.{write_block-on_disk, on_disk-IsCache, on_disk-Stored, kept_count}

module _ {D : Type 0} (io : Io D) (rel : Reliable io) where
  -- The cache is valid, every block of every device keeps its contents, the buffer has its users and the
  -- chain of free buffers its members, and a buffer without users of an important type is not dirty.
  pub record Kept (s : Cache D) (i t users : ℕ) (chain : List ℕ) (s' : Cache D) : Type 0 where
    pub valid : IsCache io rel s'
    pub transparent : (dv bl x : ℕ) → Stored io rel s dv bl x → Stored io rel s' dv bl x
    pub users_left : (s'.buf i).b_count ≡ users
    pub free_chain : s'.lru ≡ chain
    pub important :
        users ≡ 0
        → is_write_immed t ≡ true
        → ((s.buf i).b_dev == no_dev) ≡ false
        → (s'.buf i).b_dirt ≡ false

  module _ (s : Cache D) (c : IsCache io rel s) (i : ℕ) (low : i < nr_bufs)
      (used : ((s.buf i).b_count == 0) ≡ false) (small : (s.buf i).b_count < 256) (t : ℕ) where
    -- The chain of free buffers with a buffer at its front or its rear.
    abbrev longer : List ℕ
    longer = if is_one_shot t then i ∷ s.lru else s.lru ++ (i ∷ [])

    not_free : has i s.lru ≡ false
    not_free = elim (Bool-cases (has i s.lru)) [
      | inl m ↦ absurd (true_ne_false (sym (ap (λ z. z == 0) (c.free i m).1) ∙ used))
      | inr m ↦ m
    ]

    has-longer_ne : (j : ℕ) → (j == i) ≡ false → has j longer ≡ has j s.lru
    has-longer_ne j h = elim (Bool-cases (is_one_shot t)) [
      | inl o ↦ rw o (ground (arith, h))
      | inr o ↦ rw o (ground (arith, has-append j s.lru (i ∷ []), h))
    ]

    has-longer_self : has i longer ≡ true
    has-longer_self = elim (Bool-cases (is_one_shot t)) [
      | inl o ↦ rw o (ground arith)
      | inr o ↦ rw o (ground (arith, has-append i s.lru (i ∷ [])))
    ]

    Distinct-longer : Distinct longer
    Distinct-longer = elim (Bool-cases (is_one_shot t)) [
      | inl o ↦ rw o (not_free, c.once)
      | inr o ↦ rw o (Distinct-append_cons s.lru i c.once not_free)
    ]

    -- One user less, and the chain that goes with it.
    abbrev one_less : ℕ
    one_less = ((s.buf i).b_count + 255) % 256

    abbrev freed : Cache D
    freed = counted io rel s c i one_less longer (s.bufs_in_use - 1)

    freed-IsCache : one_less ≡ 0 → IsCache io rel freed
    freed-IsCache z =
        counted-IsCache io rel s c i one_less longer (s.bufs_in_use - 1) low has-longer_ne
          (has-longer_self ∙ sym (ap (λ n. n == 0) z)) Distinct-longer

    freed-Kept : one_less ≡ 0 → Kept s i t one_less longer (write_important io i t freed)
    unfolding write_important
    freed-Kept z =
        elim (Bool-cases
          (is_write_immed t && ((freed.buf i).b_dirt && not ((freed.buf i).b_dev == no_dev)))) [
            | inr h ↦ rw h (record {
              valid = freed-IsCache z;
              transparent = counted-Stored io rel s c i one_less longer (s.bufs_in_use - 1);
              users_left = counted_users io rel s c i one_less longer (s.bufs_in_use - 1);
              free_chain = refl;
              important = λ e m r. unwritten h m r;
            })
            | inl h ↦ rw h (written (ground (arith, h)))
          ]
      where
        unwritten :
            (is_write_immed t && ((freed.buf i).b_dirt && not ((freed.buf i).b_dev == no_dev)))
              ≡ false
            → is_write_immed t ≡ true
            → ((s.buf i).b_dev == no_dev) ≡ false
            → (freed.buf i).b_dirt ≡ false
        unwritten h m r =
            ground (arith, h, m, counted_dev io rel s c i one_less longer (s.bufs_in_use - 1) i, r)

        written :
            ((freed.buf i).b_dev == no_dev) ≡ false
            → Kept s i t one_less longer (write_block io i freed)
        written r = rw (write_block-on_disk io rel freed (freed-IsCache z) i low r) (record {
          valid = on_disk-IsCache io rel freed (freed-IsCache z) i low r;
          transparent = λ dv bl x st.
              on_disk-Stored io rel freed (freed-IsCache z) i low r dv bl x
                (counted-Stored io rel s c i one_less longer (s.bufs_in_use - 1) dv bl x st);
          users_left =
              kept_count io rel freed (freed-IsCache z) i low r i
              ∙ counted_users io rel s c i one_less longer (s.bufs_in_use - 1);
          free_chain = refl;
          important = λ e m q.
              ap (λ b. b.b_dirt)
                (update_self freed.buf i (record (freed.buf i) { b_dirt = false }));
        })

    Kept-counted :
        ((s.buf i).b_count == 1) ≡ false
        → Kept s i t one_less s.lru (counted io rel s c i one_less s.lru s.bufs_in_use)
    Kept-counted h = record {
      valid =
          counted-IsCache io rel s c i one_less s.lru s.bufs_in_use low (λ j n. refl)
            (not_free ∙ ground (arith, h, used, small)) c.once;
      transparent = counted-Stored io rel s c i one_less s.lru s.bufs_in_use;
      users_left = counted_users io rel s c i one_less s.lru s.bufs_in_use;
      free_chain = refl;
      important = λ e m r. absurd (ground (arith, e, h, used, small));
    }

    counted_test :
        ((set_buf s i (record (s.buf i) { b_count = one_less })).buf i).b_count ≡ one_less
    counted_test = counted_users io rel s c i one_less s.lru s.bufs_in_use

    less : one_less ≡ (s.buf i).b_count - 1
    less = ground (arith, used, small)

    last_user : ((s.buf i).b_count == 1) ≡ true → one_less ≡ 0
    last_user h = ground (arith, h)

    more_users : ((s.buf i).b_count == 1) ≡ false → (one_less == 0) ≡ false
    more_users h = ground (arith, h, used, small)

    put_last :
        ((s.buf i).b_count == 1) ≡ true → put_block io (some i) t s ≡ write_important io i t freed
    unfolding put_block put_counted release_buf
    put_last h = if_true _ _ (ap (λ z. z == 0) (counted_test ∙ last_user h))

    put_more :
        ((s.buf i).b_count == 1) ≡ false
        → put_block io (some i) t s ≡ counted io rel s c i one_less s.lru s.bufs_in_use
    unfolding put_block put_counted
    put_more h = if_false _ _ (ap (λ z. z == 0) counted_test ∙ more_users h)

    -- Devices make no errors. put_block of a buffer in use takes one user from it; the last one puts it
    -- at the front of the chain of free buffers, if the type has ONE_SHOT, and at its rear if not, and with
    -- WRITE_IMMED it is not dirty then. The invariant is kept, and every block of every device keeps its
    -- contents.
    pub put_block-Kept :
        Kept s i t
          ((s.buf i).b_count - 1)
          (if (s.buf i).b_count == 1 then longer else s.lru)
          (put_block io (some i) t s)
    put_block-Kept = elim (Bool-cases ((s.buf i).b_count == 1)) [
      | inl h ↦ rw (if_true longer s.lru h) (
          subst (λ n. Kept s i t n longer (put_block io (some i) t s)) less
            (rw (put_last h) (freed-Kept (last_user h))))
      | inr h ↦ rw (if_false longer s.lru h) (
          subst (λ n. Kept s i t n s.lru (put_block io (some i) t s)) less
            (rw (put_more h) (Kept-counted h)))
    ]
