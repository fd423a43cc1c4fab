-- ===== src/Fs/Cache/Written.antt =====
-- What `flushall` and `rw_scattered` with WRITING (src/fs/cache.c) do on devices without errors.
use minix4rt.Base.{
  ℕ, zero, suc, ◌+◌, ◌≤◌, Bool, true, false, ◌&&◌, ◌||◌, List, [], ◌∷◌, ◌++◌, length, has,
  if◌then◌else◌, ◌==◌, ltb, leb, update, ◌≡◌, ◌⊎◌, refl, sym, ap, ◌∙◌, inl, inr, Bool-cases, ==_iff,
  arith,
}
use minix4rt.Fs.Cache.{Buf, Cache, Io, nr_bufs, set_buf}
use minix4rt.Fs.Cache.Devices.{Reliable, write_each, all_ok}
use minix4rt.Fs.Cache.Order.{has-sorted}
use minix4rt.Fs.Cache.Scatter.{
  dirty_of, requests, harvest_written, harvest_results, write_chunk, write_some, write_chunks,
  chunk, nr_ioreqs, elements, shell_sort, array_of, sorted_list, write_scattered, flushall,
}

abbrev pub clean : Buf → Buf
clean b = record b { b_dirt = false }

abbrev pub cleaned : List ℕ → (ℕ → Buf) → ℕ → Buf
cleaned [] f = f
cleaned (i ∷ l) f = cleaned l (update f i (clean (f i)))

pub cleaned_lem :
    (l : List ℕ) (f : ℕ → Buf) (i : ℕ) → cleaned l f i ≡ (if has i l then clean (f i) else f i)
cleaned_lem [] f i = refl
cleaned_lem (j ∷ l) f i = cleaned_lem l (update f j (clean (f j))) i ∙ step (Bool-cases (i == j))
  where
    step :
        ((i == j) ≡ true) ⊎ ((i == j) ≡ false)
        → (if has i l then clean (update f j (clean (f j)) i) else update f j (clean (f j)) i)
          ≡ (if (i == j) || has i l then clean (f i) else f i)
    step (inl e) = elim (Bool-cases (has i l)) [
      | inl h ↦ rw e (rw h (ap (λ z. clean (f z)) (sym ((==_iff i j).0 e))))
      | inr h ↦ rw e (rw h (ap (λ z. clean (f z)) (sym ((==_iff i j).0 e))))
    ]
    step (inr e) = rw e refl

requests-cleaned : (a : List ℕ) (f : ℕ → Buf) (b : List ℕ) → requests (cleaned a f) b ≡ requests f b
requests-cleaned a f [] = refl
requests-cleaned a f (i ∷ b) = λ t.
    ((same (has i a) (cleaned_lem a f i) t).0, (same (has i a) (cleaned_lem a f i) t).1)
    ∷ requests-cleaned a f b t
  where
    same :
        (h : Bool)
        → cleaned a f i ≡ (if h then clean (f i) else f i)
        → ◌≡◌ {A = ℕ × ℕ}
            ((cleaned a f i).b_blocknr, (cleaned a f i).b_data)
            ((f i).b_blocknr, (f i).b_data)
    same true e = ap (λ z. (z.b_blocknr, z.b_data)) e
    same false e = ap (λ z. (z.b_blocknr, z.b_data)) e

cleaned-append : (a b : List ℕ) (f : ℕ → Buf) → cleaned (a ++ b) f ≡ cleaned b (cleaned a f)
cleaned-append [] b f = refl
cleaned-append (i ∷ a) b f = cleaned-append a b (update f i (clean (f i)))

chunk_parts : (n : ℕ) (l : List ℕ) → (chunk n l).0 ++ (chunk n l).1 ≡ l
unfolding chunk
chunk_parts zero l = refl
chunk_parts (suc n) [] = refl
chunk_parts (suc n) (x ∷ l) = ap (◌∷◌ x) (chunk_parts n l)

length-chunk : (n : ℕ) (l : List ℕ) → length (chunk n l).1 ≤ length l
unfolding chunk
length-chunk zero l = omega arith
length-chunk (suc n) [] = omega arith
length-chunk (suc n) (x ∷ l) = omega (arith, length-chunk n l)

length-elements : (n i : ℕ) (a : ℕ → ℕ) → length (elements n i a) ≡ n
unfolding elements
length-elements zero i a = refl
length-elements (suc n) i a = omega (arith, length-elements n (suc i) a)

append_nil : (l : List ℕ) → l ++ [] ≡ l
append_nil [] = refl
append_nil (x ∷ l) = ap (◌∷◌ x) (append_nil l)

module _ {D : Type 0} (io : Io D) (rel : Reliable io) where
  write_each-append :
      (dev : ℕ) (f : ℕ → Buf) (a b : List ℕ) (d : D)
      → write_each io dev (requests f (a ++ b)) d
        ≡ write_each io dev (requests f b) (write_each io dev (requests f a) d)
  write_each-append dev f [] b d = refl
  write_each-append dev f (i ∷ a) b d =
      write_each-append dev f a b (io.dev_write dev (f i).b_blocknr (f i).b_data d).1

  -- The buffers of a list are written in its order, and are clean.
  abbrev pub flushed : ℕ → List ℕ → Cache D → Cache D
  flushed dev l s = record s {
    buf = cleaned l s.buf;
    disk = write_each io dev (requests s.buf l) s.disk;
  }

  harvest_written_lem :
      (f : ℕ → Buf) (l : List ℕ) (s : Cache D)
      → harvest_written l (all_ok (requests f l)) s ≡ record s { buf = cleaned l s.buf }
  unfolding harvest_written
  harvest_written_lem f [] s = refl
  harvest_written_lem f (i ∷ l) s = harvest_written_lem f l (set_buf s i (clean (s.buf i)))

  write_some-flushed :
      (dev : ℕ) (l : List ℕ) (s : Cache D) → write_some io dev l s ≡ flushed dev l s
  unfolding write_some write_chunk
  write_some-flushed dev [] s = refl
  write_some-flushed dev (i ∷ l) s =
      ap (λ z. harvest_results io (i ∷ l) z s) (rel.scatters dev (requests s.buf (i ∷ l)) s.disk)
      ∙ harvest_written_lem s.buf (i ∷ l)
          (record s { disk = write_each io dev (requests s.buf (i ∷ l)) s.disk })

  flushed-append :
      (dev : ℕ) (a b : List ℕ) (s : Cache D)
      → flushed dev b (flushed dev a s) ≡ flushed dev (a ++ b) s
  flushed-append dev a b s = λ t. record s {
    buf = sym (cleaned-append a b s.buf) t;
    disk =
        (ap (λ r. write_each io dev r (write_each io dev (requests s.buf a) s.disk))
              (requests-cleaned a s.buf b)
            ∙ sym (write_each-append dev s.buf a b s.disk))
          t;
  }

  write_chunks-flushed :
      (n dev : ℕ) (a b : List ℕ) (s : Cache D)
      → length b ≤ n
      → write_chunks io n dev (a, b) s ≡ flushed dev (a ++ b) s
  unfolding write_chunks
  write_chunks-flushed zero dev a [] s h =
      write_some-flushed dev a s ∙ ap (λ l. flushed dev l s) (sym (append_nil a))
  write_chunks-flushed zero dev a (x ∷ b) s h = absurd (omega (arith, h))
  write_chunks-flushed (suc n) dev a b s h =
      ap (λ z. write_chunks io n dev (chunk nr_ioreqs b) z) (write_some-flushed dev a s)
      ∙ write_chunks-flushed n dev (chunk nr_ioreqs b).0 (chunk nr_ioreqs b).1 (flushed dev a s)
          (fewer b h)
      ∙ ap (λ l. flushed dev l (flushed dev a s)) (chunk_parts nr_ioreqs b)
      ∙ flushed-append dev a b s
    where
      fewer : (b : List ℕ) → length b ≤ suc n → length (chunk nr_ioreqs b).1 ≤ n
      fewer [] h = omega arith
      fewer (x ∷ b) h = omega (arith, h, length-chunk 63 b)

  abbrev pub to_flush : ℕ → Cache D → List ℕ
  to_flush dev s = sorted_list (dirty_of nr_bufs 0 dev s.buf) s

  pub flushall-flushed :
      (dev : ℕ) (s : Cache D) → flushall io dev s ≡ flushed dev (to_flush dev s) s
  unfolding flushall write_scattered
  flushall-flushed dev s =
      write_chunks-flushed (length (dirty_of nr_bufs 0 dev s.buf)) dev
        (chunk nr_ioreqs (to_flush dev s)).0 (chunk nr_ioreqs (to_flush dev s)).1 s
        (within (dirty_of nr_bufs 0 dev s.buf))
      ∙ ap (λ l. flushed dev l s) (chunk_parts nr_ioreqs (to_flush dev s))
    where
      within : (l : List ℕ) → length (chunk nr_ioreqs (sorted_list l s)).1 ≤ length l
      within l = omega (
        arith,
        length-chunk nr_ioreqs (sorted_list l s),
        length-elements (length l) 0
            (shell_sort (length l) (λ i. (s.buf i).b_blocknr) (array_of l)),
      )

has_if :
    (x i : ℕ) (c : Bool) (r : List ℕ)
    → has x (if c then i ∷ r else r) ≡ ((c && (x == i)) || has x r)
has_if x i true r = refl
has_if x i false r = refl

one_more :
    (n i x : ℕ) (c d : Bool)
    → ((x == i) ≡ true → c ≡ d)
    → ((c && (x == i)) || ((leb (suc i) x && ltb x (suc i + n)) && d))
      ≡ ((leb i x && ltb x (i + suc n)) && d)
one_more n i x c d h = elim (Bool-cases (x == i)) [
  | inl e ↦ ground (arith, e, h e)
  | inr e ↦ ground (arith, e)
]

has-dirty_of :
    (n i dev : ℕ) (f : ℕ → Buf) (x : ℕ)
    → has x (dirty_of n i dev f)
      ≡ ((leb i x && ltb x (i + n)) && ((f x).b_dirt && ((f x).b_dev == dev)))
unfolding dirty_of
has-dirty_of zero i dev f x = ground arith
has-dirty_of (suc n) i dev f x =
    has_if x i ((f i).b_dirt && ((f i).b_dev == dev)) (dirty_of n (suc i) dev f)
    ∙ ap (λ r. (((f i).b_dirt && ((f i).b_dev == dev)) && (x == i)) || r)
        (has-dirty_of n (suc i) dev f x)
    ∙ one_more n i x ((f i).b_dirt && ((f i).b_dev == dev)) ((f x).b_dirt && ((f x).b_dev == dev))
        (λ e. ap (λ z. (f z).b_dirt && ((f z).b_dev == dev)) (sym ((==_iff x i).0 e)))

-- Exactly the dirty buffers of the device are written.
pub has-to_flush :
    {D : Type 0} (dev : ℕ) (s : Cache D) (x : ℕ)
    → has x (sorted_list (dirty_of nr_bufs 0 dev s.buf) s)
      ≡ (ltb x nr_bufs && ((s.buf x).b_dirt && ((s.buf x).b_dev == dev)))
has-to_flush dev s x =
    has-sorted (dirty_of nr_bufs 0 dev s.buf) (λ i. (s.buf i).b_blocknr) x
    ∙ has-dirty_of nr_bufs 0 dev s.buf x
    ∙ ground arith
