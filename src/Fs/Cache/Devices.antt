-- ===== src/Fs/Cache/Devices.antt =====
-- Devices without errors, for the theorems about src/fs/cache.c: what was written is read back, and
-- scattered requests are done one after another.
use minix4rt.Base.{
  ℕ, Bool, true, false, ◌&&◌, List, [], ◌∷◌, ◌==◌, if◌then◌else◌, ◌≡◌, refl, ◌∙◌, ap, inl, inr,
  Bool-cases, ==_iff, has, arith, sym, if_true, if_false,
}
use minix4rt.Fs.Cache.{Buf, Io, full}
use minix4rt.Fs.Cache.Scatter.{requests}

abbrev pub all_ok : List (ℕ × ℕ) → List Bool
all_ok [] = []
all_ok (r ∷ l) = true ∷ all_ok l

-- No other buffer stands for the block of the buffer `c` with other contents.
abbrev pub Sole : (ℕ → Buf) → List ℕ → ℕ → Type 0
Sole f l c =
    (i : ℕ) → has i l ≡ true → (f i).b_blocknr ≡ (f c).b_blocknr → (f i).b_data ≡ (f c).b_data

module _ {D : Type 0} (io : Io D) where
  abbrev pub write_each : ℕ → List (ℕ × ℕ) → D → D
  write_each dev [] d = d
  write_each dev ((b, x) ∷ l) d = write_each dev l (io.dev_write dev b x d).1

  -- `at dev b d` are the contents of a block.
  pub record Reliable : Type 0 where
    pub contents : ℕ → ℕ → D → ℕ
    pub reads : (dev b old : ℕ) (d : D) → io.dev_read dev b old d ≡ (full, contents dev b d)
    pub writes : (dev b x : ℕ) (d : D) → (io.dev_write dev b x d).0 ≡ full
    pub read_back :
        (dev b x : ℕ) (d : D) (dev' b' : ℕ)
        → contents dev' b' (io.dev_write dev b x d).1
          ≡ (if (dev' == dev) && (b' == b) then x else contents dev' b' d)
    pub scatters :
        (dev : ℕ) (l : List (ℕ × ℕ)) (d : D)
        → io.scatter_write dev l d ≡ (all_ok l, write_each dev l d)

  module _ (ok : Reliable) where
    -- A block that no buffer of the list stands for is left alone.
    pub write_each_other :
        (f : ℕ → Buf) (dev : ℕ) (l : List ℕ) (d : D) (dev' b : ℕ)
        → ((i : ℕ) → has i l ≡ true → ((dev' == dev) && (b == (f i).b_blocknr)) ≡ false)
        → ok.contents dev' b (write_each dev (requests f l) d) ≡ ok.contents dev' b d
    write_each_other f dev [] d dev' b h = refl
    write_each_other f dev (i ∷ l) d dev' b h =
        write_each_other f dev l (io.dev_write dev (f i).b_blocknr (f i).b_data d).1 dev' b
          (λ j m. h j (ground (arith, m)))
        ∙ ok.read_back dev (f i).b_blocknr (f i).b_data d dev' b
        ∙ ap (λ c. if c then (f i).b_data else ok.contents dev' b d) (h i (ground arith))

    one_write :
        (f : ℕ → Buf) (dev i : ℕ) (d : D) (c : ℕ)
        → ((f i).b_blocknr ≡ (f c).b_blocknr → (f i).b_data ≡ (f c).b_data)
        → ok.contents dev (f c).b_blocknr d ≡ (f c).b_data
        → ok.contents dev (f c).b_blocknr (io.dev_write dev (f i).b_blocknr (f i).b_data d).1
          ≡ (f c).b_data
    one_write f dev i d c h e =
        ok.read_back dev (f i).b_blocknr (f i).b_data d dev (f c).b_blocknr
        ∙ (elim (Bool-cases ((f c).b_blocknr == (f i).b_blocknr)) [
          | inl q ↦
              if_true (f i).b_data (ok.contents dev (f c).b_blocknr d) (ground (arith, q))
              ∙ h (sym ((==_iff (f c).b_blocknr (f i).b_blocknr).0 q))
          | inr q ↦
              if_false (f i).b_data (ok.contents dev (f c).b_blocknr d) (ground (arith, q)) ∙ e
        ])

    write_each_kept :
        (f : ℕ → Buf) (dev : ℕ) (l : List ℕ) (d : D) (c : ℕ)
        → Sole f l c
        → ok.contents dev (f c).b_blocknr d ≡ (f c).b_data
        → ok.contents dev (f c).b_blocknr (write_each dev (requests f l) d) ≡ (f c).b_data
    write_each_kept f dev [] d c h e = e
    write_each_kept f dev (i ∷ l) d c h e =
        write_each_kept f dev l (io.dev_write dev (f i).b_blocknr (f i).b_data d).1 c
          (λ j m. h j (ground (arith, m))) (one_write f dev i d c (h i (ground arith)) e)

    -- A buffer that is written is on the device afterwards.
    pub write_each_same :
        (f : ℕ → Buf) (dev : ℕ) (l : List ℕ) (d : D) (c : ℕ)
        → Sole f l c
        → has c l ≡ true
        → ok.contents dev (f c).b_blocknr (write_each dev (requests f l) d) ≡ (f c).b_data
    write_each_same f dev [] d c h m = absurd (cc)
    write_each_same f dev (i ∷ l) d c h m = elim (Bool-cases (c == i)) [
      | inl e ↦
          write_each_kept f dev l (io.dev_write dev (f i).b_blocknr (f i).b_data d).1 c
            (λ j k. h j (ground (arith, k))) (first ((==_iff c i).0 e))
      | inr e ↦
          write_each_same f dev l (io.dev_write dev (f i).b_blocknr (f i).b_data d).1 c
            (λ j k. h j (ground (arith, k))) (ground (arith, m, e))
    ]
      where
        first :
            c ≡ i
            → ok.contents dev (f c).b_blocknr (io.dev_write dev (f i).b_blocknr (f i).b_data d).1
              ≡ (f c).b_data
        first q =
            ok.read_back dev (f i).b_blocknr (f i).b_data d dev (f c).b_blocknr
            ∙ if_true (f i).b_data (ok.contents dev (f c).b_blocknr d) (ground (arith, q))
            ∙ ap (λ z. (f z).b_data) (sym q)
