-- ===== src/Base/Maps.antt =====
-- Tables indexed by numbers, as functions, with the write at one index.
use Prim.Native.Nat.{ℕ}
use mathlib.Core.Path.{◌≡◌, sym, ap, ◌∙◌}
use mathlib.Core.Logic.{inl, inr}
use mathlib.Core.Bool.{false}
use native.Mathlib.Omega.{arith}
use minix4rt.Base.Tests.{◌==◌, if◌then◌else◌, Bool-cases, ==_iff}

module _ {ℓ} {A : Type ℓ} where
  abbrev pub update : (ℕ → A) → ℕ → A → ℕ → A
  update f i a j = if j == i then a else f j

  pub update_self : (f : ℕ → A) (i : ℕ) (a : A) → update f i a i ≡ a
  update_self f i a = ground arith

  pub update_other : (f : ℕ → A) (i j : ℕ) (a : A) → (j == i) ≡ false → update f i a j ≡ f j
  update_other f i j a h = ground arith

  -- A write that keeps a field keeps it everywhere.
  pub update_keep {κ} :
      {B : Type κ} (f : ℕ → A) (i : ℕ) (a : A) (field : A → B) (j : ℕ)
      → field a ≡ field (f i)
      → field (update f i a j) ≡ field (f j)
  update_keep f i a field j e = elim (Bool-cases (j == i)) [
    | inl k ↦ rw k (e ∙ ap (λ n. field (f n)) (sym ((==_iff j i).0 k)))
    | inr k ↦ rw k
  ]
