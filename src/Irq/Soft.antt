-- ===== src/Irq/Soft.antt =====
-- The numbers of software interrupts are given out and taken back.
use minix4rt.Base.{
  ℕ, zero, suc, ◌+◌, ◌-◌, ◌<◌, ◌≤◌, Bool, true, false, Option, none, some, ◌||◌, ◌==◌, ltb, ◌≡◌,
  refl, ap, ◌∙◌, inl, inr, update, Bool-cases, arith, if_false,
}
use minix4rt.Irq.{
  Irqs, nr_irq_vectors, nr_irq_soft, soft_loop, softirq_found, softirq_alloc, softirq_free,
}

-- The first bit from `i` on, of `n`, that is not set.
abbrev pub Free : ℕ → ℕ → (ℕ → Bool) → Option ℕ → Type 0
Free n i used none = (j : ℕ) → i ≤ j → j < i + n → used j ≡ true
Free n i used (some x) =
    (i ≤ x) × (x < i + n) × (used x ≡ false) × ((j : ℕ) → i ≤ j → j < x → used j ≡ true)

soft_loop-Free : (n i : ℕ) (used : ℕ → Bool) → Free n i used (soft_loop n i used)
unfolding soft_loop
soft_loop-Free zero i used = λ (j : ℕ) h1 h2. absurd (omega (arith, h1, h2))
soft_loop-Free (suc n) i used = elim (Bool-cases (used i)) [
  | inl e ↦ rw e (later (soft_loop n (suc i) used) e (soft_loop-Free n (suc i) used))
  | inr e ↦ rw e (omega arith, omega arith, e, λ j h1 h2. absurd (omega (arith, h1, h2)))
]
  where
    here : (j : ℕ) → used i ≡ true → i ≤ j → (suc i ≤ j → used j ≡ true) → used j ≡ true
    here j e h g = elim (Bool-cases (i == j)) [
      | inl s ↦ ground (arith, e, s)
      | inr s ↦ g (ground (arith, s, h))
    ]

    later : (o : Option ℕ) → used i ≡ true → Free n (suc i) used o → Free (suc n) i used o
    later none e f = λ (j : ℕ) h1 h2. here j e h1 (λ h. f j h (omega (arith, h2)))
    later (some x) e (l, u, v, w) =
        (omega (arith, l), omega (arith, u), v, λ j h1 h2. here j e h1 (λ h. w j h h2))

-- What MRT_softirq_alloc must yield: the lowest free number, or none where there is none.
abbrev pub Allotted : Irqs → Option ℕ × Irqs → Type 0
Allotted s (none, s') = (s' ≡ s) × ((j : ℕ) → j < nr_irq_soft → s.soft_use j ≡ true)
Allotted s (some irq, s') =
    (nr_irq_vectors ≤ irq)
    × (irq < nr_irq_vectors + nr_irq_soft)
    × (s.soft_use (irq - nr_irq_vectors) ≡ false)
    × ((j : ℕ) → j + nr_irq_vectors < irq → s.soft_use j ≡ true)
    × ((s'' : Irqs) × (softirq_free irq s' ≡ some s'') × ((j : ℕ) → s''.soft_use j ≡ s.soft_use j))

given_back :
    (s : Irqs) (i : ℕ)
    → i < nr_irq_soft
    → s.soft_use i ≡ false
    → (s'' : Irqs) × (softirq_free
          (i + nr_irq_vectors)
          (record s { soft_use = update s.soft_use i true })
        ≡ some s'')
      × ((j : ℕ) → s''.soft_use j ≡ s.soft_use j)
unfolding softirq_free
given_back s i low e = (
  record s {
    soft_use = update (update s.soft_use i true) (i + nr_irq_vectors - nr_irq_vectors) false;
  },
  if_false
      {b = ltb (i + nr_irq_vectors) nr_irq_vectors
        || ltb nr_irq_soft (i + nr_irq_vectors - nr_irq_vectors)}
      none _ (ground (arith, low)),
  back,
)
  where
    same : i + nr_irq_vectors - nr_irq_vectors ≡ i
    same = omega arith

    back :
        (j : ℕ)
        → update (update s.soft_use i true) (i + nr_irq_vectors - nr_irq_vectors) false j
          ≡ s.soft_use j
    back j = elim (Bool-cases (j == i)) [ inl h ↦ ground (arith, e, h) | inr h ↦ ground (arith, h) ]

softirq_found-Allotted :
    (s : Irqs) (o : Option ℕ) → Free nr_irq_soft 0 s.soft_use o → Allotted s (softirq_found s o)
unfolding softirq_found
softirq_found-Allotted s none f = (refl, λ j h. f j (omega arith) (omega (arith, h)))
softirq_found-Allotted s (some i) (l, u, v, w) = (
  omega arith,
  omega (arith, u),
  ap s.soft_use same ∙ v,
  (λ j h. w j (omega arith) (omega (arith, h))),
  given_back s i (omega (arith, u)) v,
)
  where
    same : i + nr_irq_vectors - nr_irq_vectors ≡ i
    same = omega arith

-- MRT_softirq_alloc gives out the lowest of the numbers from 16 to 31 that is not in use, and
-- MRT_softirq_free of that number afterwards does not panic and leaves the same numbers in use as before;
-- where it answers E_MRT_NOSOFTIRQ, all numbers are in use and nothing changes.
pub softirq_alloc-Allotted : (s : Irqs) → Allotted s (softirq_alloc s)
unfolding softirq_alloc
softirq_alloc-Allotted s =
    softirq_found-Allotted s (soft_loop nr_irq_soft 0 s.soft_use)
      (soft_loop-Free nr_irq_soft 0 s.soft_use)
