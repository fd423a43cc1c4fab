-- ===== src/Fs/Cache/Sorted.antt =====
-- The sort of `rw_scattered` (src/fs/cache.c) sorts: the last round of the Shell sort has the gap 1.
use minix4rt.Base.{
  ℕ, zero, suc, ◌+◌, ◌-◌, ◌*◌, ◌/◌, ◌≤◌, ◌<◌, true, false, ◌&&◌, if◌then◌else◌, ◌==◌, ltb, leb, ◌≡◌,
  refl, sym, ap, ◌∙◌, subst, inl, inr, Bool-cases, ==_iff, arith, if_true, if_false,
}
use minix4rt.Fs.Cache.Order.{Rearranged, shell_sort-Rearranged}
use minix4rt.Fs.Cache.Scatter.{swap, sift, sift_all, gap_up, gap_down, shell_sort}

module _ (key : ℕ → ℕ) where
  -- The first `n` elements are in order.
  abbrev pub IsSorted : ℕ → (ℕ → ℕ) → Type 0
  IsSorted n a = (q : ℕ) → suc q < n → key (a q) ≤ key (a (suc q))

  -- All elements up to `j` are in order but the one at `p`, which may be too far behind.
  record Sinking (p j : ℕ) (a : ℕ → ℕ) : Type 0 where
    before : (q : ℕ) → suc q < p → key (a q) ≤ key (a (suc q))
    behind : (q : ℕ) → p ≤ q → q < j → key (a q) ≤ key (a (suc q))
    around : (q : ℕ) → suc q ≡ p → p < j → key (a q) ≤ key (a (suc p))

  sunk :
      (p j : ℕ) (a : ℕ → ℕ)
      → Sinking p j a
      → ((q : ℕ) → suc q ≡ p → key (a q) ≤ key (a p))
      → IsSorted (suc j) a
  sunk p j a s h q l = elim (Bool-cases (ltb (suc q) p)) [
    | inl e ↦ s.before q (ground (arith, e))
    | inr e ↦ elim (Bool-cases (suc q == p)) [
      | inl f ↦ ap_le ((==_iff (suc q) p).0 f) (h q ((==_iff (suc q) p).0 f))
      | inr f ↦ s.behind q (ground (arith, e, f)) (omega (arith, l))
    ]
  ]
    where
      ap_le : suc q ≡ p → key (a q) ≤ key (a p) → key (a q) ≤ key (a (suc q))
      ap_le e k = rw e k

  swap_low : (a : ℕ → ℕ) (i j : ℕ) → swap a i j i ≡ a j
  swap_low a i j = ground arith

  swap_high : (a : ℕ → ℕ) (i j : ℕ) → swap a i j j ≡ a i
  swap_high a i j = ground arith

  swap_else : (a : ℕ → ℕ) (i j q : ℕ) → (q == i) ≡ false → (q == j) ≡ false → swap a i j q ≡ a q
  swap_else a i j q h k = ground arith

  swapped-Sinking :
      (p j : ℕ) (a : ℕ → ℕ)
      → suc p ≤ j
      → Sinking (suc p) j a
      → key (a (suc p)) < key (a p)
      → Sinking p j (swap a p (suc p))
  swapped-Sinking p j a l s h = record {
    before = λ q k. omega (
      arith,
      ap key (swap_else a p (suc p) q (ground (arith, k)) (ground (arith, k))),
      ap key (swap_else a p (suc p) (suc q) (ground (arith, k)) (ground (arith, k))),
      s.before q (omega (arith, k)),
    );
    behind = λ q k m. behind_swapped q k m;
    around = λ q e m. omega (
      arith,
      ap key (swap_else a p (suc p) q (ground (arith, e)) (ground (arith, e))),
      ap key (swap_high a p (suc p)),
      subst (λ z. key (a q) ≤ key (a z)) e (s.before q (omega (arith, e))),
    );
  }
    where
      behind_swapped :
          (q : ℕ) → p ≤ q → q < j → key (swap a p (suc p) q) ≤ key (swap a p (suc p) (suc q))
      behind_swapped q k m = elim (Bool-cases (q == p)) [
        | inl e ↦ first ((==_iff q p).0 e)
        | inr e ↦ elim (Bool-cases (q == suc p)) [
          | inl f ↦ second ((==_iff q (suc p)).0 f)
          | inr f ↦ omega (
            arith,
            ap key (swap_else a p (suc p) q e f),
            ap key (swap_else a p (suc p) (suc q) (ground (arith, k)) (ground (arith, e))),
            s.behind q (ground (arith, k, e, f)) m,
          )
        ]
      ]
        where
          first : q ≡ p → key (swap a p (suc p) q) ≤ key (swap a p (suc p) (suc q))
          first e =
              subst (λ z. key (swap a p (suc p) z) ≤ key (swap a p (suc p) (suc z))) (sym e)
                (omega (arith, ap key (swap_low a p (suc p)), ap key (swap_high a p (suc p)), h))

          second : q ≡ suc p → key (swap a p (suc p) q) ≤ key (swap a p (suc p) (suc q))
          second e =
              subst (λ z. key (swap a p (suc p) z) ≤ key (swap a p (suc p) (suc z))) (sym e)
                (omega (
                  arith,
                  ap key (swap_high a p (suc p)),
                  ap key (swap_else a p (suc p) (suc (suc p)) (ground arith) (ground arith)),
                  s.around p refl (omega (arith, m, e)),
                ))

  sift_moves :
      (n p : ℕ) (a : ℕ → ℕ)
      → ltb (key (a (suc p))) (key (a p)) ≡ true
      → sift (suc n) 1 (suc p) key a ≡ sift n 1 p key (swap a p (suc p))
  unfolding sift
  sift_moves n p a e =
      let back : suc p - 1 ≡ p = omega arith in
      ap
        (λ (z : ℕ).
          if leb 1 (suc p) && ltb (key (a (suc p))) (key (a z))
          then sift n 1 z key (swap a z (suc p))
          else a)
        back
      ∙ if_true _ a (ground (arith, e))

  sift_stops :
      (n p : ℕ) (a : ℕ → ℕ)
      → ltb (key (a (suc p))) (key (a p)) ≡ false
      → sift (suc n) 1 (suc p) key a ≡ a
  unfolding sift
  sift_stops n p a e =
      let back : suc p - 1 ≡ p = omega arith in
      ap
        (λ (z : ℕ).
          if leb 1 (suc p) && ltb (key (a (suc p))) (key (a z))
          then sift n 1 z key (swap a z (suc p))
          else a)
        back
      ∙ if_false {b = leb 1 (suc p) && ltb (key (a (suc p))) (key (a p))} _ a (ground (arith, e))

  sift-IsSorted :
      (n p j : ℕ) (a : ℕ → ℕ) → p < n → p ≤ j → Sinking p j a → IsSorted (suc j) (sift n 1 p key a)
  unfolding sift
  sift-IsSorted zero p j a h l s = absurd (omega (arith, h))
  sift-IsSorted (suc n) zero j a h l s = sunk zero j a s (λ q e. absurd (omega (arith, e)))
  sift-IsSorted (suc n) (suc p) j a h l s = elim (Bool-cases (ltb (key (a (suc p))) (key (a p)))) [
    | inl e ↦ subst (IsSorted (suc j)) (sym (sift_moves n p a e)) (
        sift-IsSorted n p j (swap a p (suc p)) (omega (arith, h)) (omega (arith, l))
          (swapped-Sinking p j a l s (ground (arith, e))))
    | inr e ↦
        subst (IsSorted (suc j)) (sym (sift_stops n p a e))
          (sunk (suc p) j a s (λ q f. in_place q f (ground (arith, e))))
  ]
    where
      in_place : (q : ℕ) → suc q ≡ suc p → key (a p) ≤ key (a (suc p)) → key (a q) ≤ key (a (suc p))
      in_place q f k = subst (λ z. key (a z) ≤ key (a (suc p))) (omega (arith, f)) k

  -- A round with the gap 1 is an insertion sort.
  sift_all-IsSorted : (m j : ℕ) (a : ℕ → ℕ) → IsSorted j a → IsSorted (j + m) (sift_all m 1 j key a)
  unfolding sift_all
  sift_all-IsSorted zero j a s q l = s q (omega (arith, l))
  sift_all-IsSorted (suc m) j a s q l =
      sift_all-IsSorted m (suc j) (sift (suc j) 1 j key a)
        (sift-IsSorted (suc j) j j a (omega arith) (omega arith) (record {
          before = λ q k. s q k;
          behind = λ q k u. absurd (omega (arith, k, u));
          around = λ q e u. absurd (omega (arith, u));
        }))
        q (omega (arith, l))

  insertion-IsSorted : (n : ℕ) (a : ℕ → ℕ) → IsSorted n (sift_all (n - 1) 1 1 key a)
  insertion-IsSorted n a q l =
      sift_all-IsSorted (n - 1) 1 a (λ q k. absurd (omega (arith, k))) q (omega (arith, l))

  -- The gaps 1, 4, 13 and so on.
  abbrev gap : ℕ → ℕ
  gap zero = 1
  gap (suc k) = 3 * gap k + 1

  gap_pos : (k : ℕ) → 1 ≤ gap k
  gap_pos zero = omega arith
  gap_pos (suc k) = omega (arith, gap_pos k)

  gap_down_step :
      (m k n : ℕ) (a : ℕ → ℕ)
      → gap_down (suc m) (gap (suc k)) n key a
        ≡ gap_down m (gap k) n key (sift_all (n - gap k) (gap k) (gap k) key a)
  unfolding gap_down
  gap_down_step m k n a =
      let third : (3 * gap k + 1) / 3 ≡ gap k = omega arith in
      if_false {b = 3 * gap k + 1 == 1} a _ (ground (arith, gap_pos k))
      ∙ ap (λ (g : ℕ). gap_down m g n key (sift_all (n - g) g g key a)) third

  gap_down_done : (m n : ℕ) (a : ℕ → ℕ) → gap_down m 1 n key a ≡ a
  unfolding gap_down
  gap_down_done zero n a = refl
  gap_down_done (suc m) n a = refl

  gap_down-IsSorted :
      (m k n : ℕ) (a : ℕ → ℕ) → k < m → IsSorted n (gap_down m (gap (suc k)) n key a)
  gap_down-IsSorted zero k n a h = absurd (omega (arith, h))
  gap_down-IsSorted (suc m) zero n a h =
      subst (IsSorted n)
        (sym (gap_down_step m zero n a ∙ gap_down_done m n (sift_all (n - 1) 1 1 key a)))
        (insertion-IsSorted n a)
  gap_down-IsSorted (suc m) (suc k) n a h = subst (IsSorted n) (sym (gap_down_step m (suc k) n a)) (
      gap_down-IsSorted m k n (sift_all (n - gap (suc k)) (gap (suc k)) (gap (suc k)) key a)
        (omega (arith, h)))

  -- The first gap is one of these, and there are enough rounds for the way down.
  gap_up-gap : (m k n : ℕ) → (i : ℕ) × (i < k + suc m) × (gap_up (suc m) (gap k) n ≡ gap (suc i))
  unfolding gap_up
  gap_up-gap zero k n = elim (Bool-cases (leb (3 * gap k + 1) n)) [
    | inl e ↦ (k, omega arith, if_true _ _ e)
    | inr e ↦ (k, omega arith, if_false _ _ e)
  ]
  gap_up-gap (suc m) k n = elim (Bool-cases (leb (3 * gap k + 1) n)) [
    | inl e ↦ let (i, h, q) = gap_up-gap m (suc k) n in (i, omega (arith, h), if_true _ _ e ∙ q)
    | inr e ↦ (k, omega arith, if_false _ _ e)
  ]

  -- The Shell sort of rw_scattered puts the elements into the order of their keys, whatever the size,
  -- and they are the same elements as before.
  pub shell_sort-IsSorted :
      (n : ℕ) (a : ℕ → ℕ) → IsSorted n (shell_sort n key a) × Rearranged n a (shell_sort n key a)
  unfolding shell_sort
  shell_sort-IsSorted n a =
      let (i, h, e) = gap_up-gap n 0 n in
      let one_more : n + 1 ≡ suc n = omega arith in
      (
        subst (λ g. IsSorted n (gap_down (n + 2) g n key a))
            (sym (ap (λ z. gap_up z 1 n) one_more ∙ e))
            (gap_down-IsSorted (n + 2) i n a (omega (arith, h))),
        shell_sort-Rearranged n key a,
      )
