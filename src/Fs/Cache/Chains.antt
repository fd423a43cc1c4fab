-- ===== src/Fs/Cache/Chains.antt =====
-- A buffer goes from its hash chain to the front of another (`get_block`, src/fs/cache.c).
use minix4rt.Base.{
  ℕ, true, false, List, ◌∷◌, has, remove, Distinct, ◌==◌, update, ◌≡◌, refl, sym, ap, ◌∙◌, inl, inr,
  Bool-cases, ==_iff, arith, true_ne_false, has-remove_ne, has-remove_self, Distinct-remove,
}

module _ (chains : ℕ → List ℕ) (e old new : ℕ) where
  abbrev without : ℕ → List ℕ
  without = update chains old (remove e (chains old))

  abbrev pub moved : ℕ → List ℕ
  moved = update without new (e ∷ without new)

  has-without_ne : (j h : ℕ) → (j == e) ≡ false → has j (without h) ≡ has j (chains h)
  has-without_ne j h n = elim (Bool-cases (h == old)) [
    | inl p ↦
        rw p
          (has-remove_ne j e (chains old) n ∙ ap (λ z. has j (chains z)) (sym ((==_iff h old).0 p)))
    | inr p ↦ rw p refl
  ]

  pub has-moved_ne : (j h : ℕ) → (j == e) ≡ false → has j (moved h) ≡ has j (chains h)
  has-moved_ne j h n = elim (Bool-cases (h == new)) [
    | inl p ↦ rw p (
        ground (arith, n, has-without_ne j new n)
        ∙ ap (λ z. has j (chains z)) (sym ((==_iff h new).0 p)))
    | inr p ↦ rw p (has-without_ne j h n)
  ]

  module _ (simple : (h : ℕ) → Distinct (chains h))
      (only : (h : ℕ) → has e (chains h) ≡ true → h ≡ old) where
    not_without : (h : ℕ) → has e (without h) ≡ false
    not_without h = elim (Bool-cases (h == old)) [
      | inl p ↦ rw p (has-remove_self e (chains old) (simple old))
      | inr p ↦ rw p (elim (Bool-cases (has e (chains h))) [
        | inl m ↦ absurd (true_ne_false (sym ((==_iff h old).1 (only h m)) ∙ p))
        | inr m ↦ m
      ])
    ]

    pub has-moved_self : (h : ℕ) → has e (moved h) ≡ (h == new)
    has-moved_self h = elim (Bool-cases (h == new)) [
      | inl p ↦ rw p (ground arith)
      | inr p ↦ rw p (not_without h)
    ]

    Distinct-without : (h : ℕ) → Distinct (without h)
    Distinct-without h = elim (Bool-cases (h == old)) [
      | inl p ↦ rw p (Distinct-remove e (chains old) (simple old))
      | inr p ↦ rw p (simple h)
    ]

    pub Distinct-moved : (h : ℕ) → Distinct (moved h)
    Distinct-moved h = elim (Bool-cases (h == new)) [
      | inl p ↦ rw p (not_without new, Distinct-without new)
      | inr p ↦ rw p (Distinct-without h)
    ]
