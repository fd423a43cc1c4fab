-- ===== src/Fs/Cache/Coherent.antt =====
-- The invariant of the buffer cache (src/fs/cache.c), what it stores, and the block that is found in it.
use minix4rt.Base.{
  ℕ, ◌<◌, true, false, ◌&&◌, none, some, List, [], ◌∷◌, has, Distinct, ◌==◌, ◌≡◌, ◌⊎◌, sym, ap, ◌∙◌,
  inl, inr, Bool-cases, ==_iff, arith, if_true, if_false,
}
use minix4rt.Fs.Cache.{Buf, Cache, Io, nr_bufs, no_dev, hash_of, search_chain}
use minix4rt.Fs.Cache.Devices.{Reliable}
use minix4rt.Fs.Cache.Saved.{SoleOwner, NotHeld, IsCoherent}

module _ {D : Type 0} (io : Io D) (rel : Reliable io) where
  -- Every buffer is in the hash chain of its block and in no other, the free buffers are those without
  -- users, no block is in two buffers, and a clean buffer agrees with its device.
  pub record IsCache (s : Cache D) : Type 0 where
    pub chained : (i : ℕ) → i < nr_bufs → has i (s.buf_hash (hash_of (s.buf i).b_blocknr)) ≡ true
    pub proper :
        (h i : ℕ) → has i (s.buf_hash h) ≡ true → (i < nr_bufs) × (hash_of (s.buf i).b_blocknr ≡ h)
    pub simple : (h : ℕ) → Distinct (s.buf_hash h)
    pub free : (i : ℕ) → has i s.lru ≡ true → (i < nr_bufs) × ((s.buf i).b_count ≡ 0)
    pub waiting : (i : ℕ) → i < nr_bufs → (s.buf i).b_count ≡ 0 → has i s.lru ≡ true
    pub once : Distinct s.lru
    pub sole : SoleOwner s.buf
    pub coherent : IsCoherent io rel s.buf s.disk

  -- The contents of a block: those of its buffer, or those on the device if it has none.
  abbrev pub Stored : Cache D → ℕ → ℕ → ℕ → Type 0
  Stored s dev block x =
      ((i : ℕ) × (i < nr_bufs)
        × ((s.buf i).b_dev ≡ dev)
        × ((s.buf i).b_blocknr ≡ block)
        × ((s.buf i).b_data ≡ x))
      ⊎ (NotHeld s.buf dev block × (rel.contents dev block s.disk ≡ x))

  -- What `get_block` owes: the buffer `i` has the block with its contents and is in use, all blocks keep
  -- their contents, and buffers in use keep their blocks.
  pub record Got (s : Cache D) (dev block i : ℕ) (s' : Cache D) : Type 0 where
    pub valid : IsCache s'
    pub low : i < nr_bufs
    pub on_dev : (s'.buf i).b_dev ≡ dev
    pub on_block : (s'.buf i).b_blocknr ≡ block
    pub used : ((s'.buf i).b_count == 0) ≡ false
    pub contents : Stored s dev block (s'.buf i).b_data
    pub transparent : (dv bl x : ℕ) → (dv == no_dev) ≡ false → Stored s dv bl x → Stored s' dv bl x
    pub in_use :
        (j : ℕ)
        → j < nr_bufs
        → ((s.buf j).b_count == 0) ≡ false
        → ((s'.buf j).b_data ≡ (s.buf j).b_data)
          × ((s'.buf j).b_blocknr ≡ (s.buf j).b_blocknr)
          × ((s'.buf j).b_dev ≡ (s.buf j).b_dev)

-- The search of a chain.
pub search_chain-some :
    (dev block : ℕ) (f : ℕ → Buf) (l : List ℕ) (i : ℕ)
    → search_chain dev block f l ≡ some i
    → (has i l ≡ true) × ((f i).b_dev ≡ dev) × ((f i).b_blocknr ≡ block)
unfolding search_chain
search_chain-some dev block f [] i e = absurd (cc)
search_chain-some dev block f (x ∷ l) i e =
    elim (Bool-cases (((f x).b_blocknr == block) && ((f x).b_dev == dev))) [
      | inl h ↦ here (sym (if_true (some x) (search_chain dev block f l) h) ∙ e) h
      | inr h ↦
          let (m, a, b) =
            search_chain-some dev block f l i
              (sym (if_false (some x) (search_chain dev block f l) h) ∙ e) in
          (ground (arith, m), a, b)
    ]
  where
    here :
        some x ≡ some i
        → (((f x).b_blocknr == block) && ((f x).b_dev == dev)) ≡ true
        → (has i (x ∷ l) ≡ true) × ((f i).b_dev ≡ dev) × ((f i).b_blocknr ≡ block)
    here q h = (ground (arith, q), ground (arith, q, h), ground (arith, q, h))

pub search_chain-none :
    (dev block : ℕ) (f : ℕ → Buf) (l : List ℕ)
    → search_chain dev block f l ≡ none
    → (i : ℕ) → has i l ≡ true
    → (((f i).b_dev == dev) && ((f i).b_blocknr == block)) ≡ false
unfolding search_chain
search_chain-none dev block f [] e i m = absurd (cc)
search_chain-none dev block f (x ∷ l) e i m =
    elim (Bool-cases (((f x).b_blocknr == block) && ((f x).b_dev == dev))) [
      | inl h ↦ absurd (cc (sym (if_true (some x) (search_chain dev block f l) h) ∙ e))
      | inr h ↦ elim (Bool-cases (i == x)) [
        | inl q ↦
            ap (λ z. ((f z).b_dev == dev) && ((f z).b_blocknr == block)) ((==_iff i x).0 q)
            ∙ ground (arith, h)
        | inr q ↦
            search_chain-none dev block f l
              (sym (if_false (some x) (search_chain dev block f l) h) ∙ e) i (ground (arith, m, q))
      ]
    ]
