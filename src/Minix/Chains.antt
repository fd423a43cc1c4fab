-- ===== src/Minix/Chains.antt =====
-- The chains of MINIX processes that send to each other (`p_sendto` of the blocked senders).
use minix4rt.Base.{
  ℕ, zero, suc, ◌<◌, Bool, true, false, Option, none, some, ◌==◌, if◌then◌else◌, ◌≡◌, sym, ap, ◌∙◌,
  inl, inr, Bool-cases, true_ne_false, arith,
}
use minix4rt.Kernel.{Kernel, Proc}
use minix4rt.Minix.Send.{chain_meets}

-- Whom a process waits to send to.
abbrev pub edge : Proc → Option ℕ
edge p = if p.sending then some p.sendto else none

abbrev pub wish : Kernel → ℕ → Option ℕ
wish k p = edge (k.proc p)

-- The chain from a process comes to one that does not wait to send, within `n` steps.
abbrev pub ends_at : (ℕ → Bool) → Option ℕ → Bool
ends_at go none = true
ends_at go (some q) = go q

abbrev pub never : ℕ → Bool
never p = false

abbrev pub chain_ends : ℕ → (ℕ → Option ℕ) → ℕ → Bool
chain_ends zero f p = ends_at never (f p)
chain_ends (suc n) f p = ends_at (chain_ends n f) (f p)

-- Every chain ends within `n` steps: there is no deadlock of senders.
abbrev pub AllEnd : ℕ → Kernel → Type 0
AllEnd n k = (p : ℕ) → chain_ends n (wish k) p ≡ true

pub edge_idle : (p : Proc) → p.sending ≡ false → edge p ≡ none
edge_idle p e = ap (λ (b : Bool). if b then some p.sendto else none) e

pub edge_busy : (p : Proc) → p.sending ≡ true → edge p ≡ some p.sendto
edge_busy p e = ap (λ (b : Bool). if b then some p.sendto else none) e

-- The search for the process `r` in a chain that ends is decided with enough fuel.
pub meets_step :
    (fuel : ℕ) (k : Kernel) (r p : ℕ)
    → (p == r) ≡ false
    → (k.proc p).sending ≡ true
    → chain_meets (suc fuel) k r p ≡ chain_meets fuel k r (k.proc p).sendto
unfolding chain_meets
meets_step fuel k r p e h =
    ap
      (λ (b : Bool).
        if b
        then some true
        else (if (k.proc p).sending then chain_meets fuel k r (k.proc p).sendto else some false))
      e
    ∙ ap (λ (b : Bool). if b then chain_meets fuel k r (k.proc p).sendto else some false) h

pub meets_here :
    (fuel : ℕ) (k : Kernel) (r p : ℕ) → (p == r) ≡ true → chain_meets (suc fuel) k r p ≡ some true
unfolding chain_meets
meets_here fuel k r p e =
    ap
      (λ (b : Bool).
        if b
        then some true
        else (if (k.proc p).sending then chain_meets fuel k r (k.proc p).sendto else some false))
      e

meets_end :
    (fuel : ℕ) (k : Kernel) (r p : ℕ)
    → (p == r) ≡ false
    → (k.proc p).sending ≡ false
    → chain_meets (suc fuel) k r p ≡ some false
unfolding chain_meets
meets_end fuel k r p e h =
    ap
      (λ (b : Bool).
        if b
        then some true
        else (if (k.proc p).sending then chain_meets fuel k r (k.proc p).sendto else some false))
      e
    ∙ ap (λ (b : Bool). if b then chain_meets fuel k r (k.proc p).sendto else some false) h

abbrev pub Decided : Option Bool → Type 0
Decided o = (b : Bool) × (o ≡ some b)

pub chain_meets-Decided :
    (n fuel : ℕ) (k : Kernel) (r p : ℕ)
    → n < fuel
    → chain_ends n (wish k) p ≡ true
    → Decided (chain_meets fuel k r p)
chain_meets-Decided n zero k r p lt e = absurd (omega (arith, lt))
chain_meets-Decided zero (suc fuel) k r p lt e = elim (Bool-cases (p == r)) [
  | inl h ↦ (true, meets_here fuel k r p h)
  | inr h ↦ elim (Bool-cases (k.proc p).sending) [
    | inl s ↦ absurd (true_ne_false (sym e ∙ ap (ends_at never) (edge_busy (k.proc p) s)))
    | inr s ↦ (false, meets_end fuel k r p h s)
  ]
]
chain_meets-Decided (suc n) (suc fuel) k r p lt e = elim (Bool-cases (p == r)) [
  | inl h ↦ (true, meets_here fuel k r p h)
  | inr h ↦ elim (Bool-cases (k.proc p).sending) [
    | inl s ↦
        let (b, d) =
          chain_meets-Decided n fuel k r (k.proc p).sendto (omega (arith, lt))
            (sym (ap (ends_at (chain_ends n (wish k))) (edge_busy (k.proc p) s)) ∙ e) in
        (b, meets_step fuel k r p h s ∙ d)
    | inr s ↦ (false, meets_end fuel k r p h s)
  ]
]
