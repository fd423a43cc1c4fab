-- ===== src/Irq/Locked.antt =====
-- A descriptor that a task has locked stays in the queue of pending interrupts.
use minix4rt.Base.{
  ℕ, zero, suc, Bool, true, false, some, head?, ◌≡◌, refl, sym, ap, ◌∙◌, update, update_self,
  Bool-cases, inl, inr, if_true, if_false, if◌then◌else◌,
}
use minix4rt.Irq.{Irqs, enable_irq, disable_irq, set_irq, irqd_deq, follows}
use minix4rt.Irq.Handler.{irqd, put_irqd, do_handler}
use minix4rt.Irq.Service.{serve, serve_first, irqd_flush, set_irqs}
use minix4rt.Kernel.{Kernel}
use minix4rt.Kernel.Outcome.{next, no_rounds, ◌>>=◌}

-- The first pending descriptor of a priority is locked by a task.
abbrev pub HeadLocked : ℕ → ℕ → Kernel → Type 0
HeadLocked pty x k = (head? (k.irqs.irq_q.list pty) ≡ some x) × ((irqd k x).tasklocked ≡ true)

module _ (handlers : ℕ → ℕ → Kernel → Bool × Kernel) (fuel after pty x : ℕ) where
  abbrev left : Kernel → Kernel
  left k = record (put_irqd k x (record (irqd k x) { handwait = true })) { need_sched = true }

  serve-locked :
      (k : Kernel) → (irqd k x).tasklocked ≡ true → serve handlers fuel after x k ≡ next (left k)
  unfolding serve
  serve-locked k e =
      ap
        (λ (b : Bool).
          if b
          then next (left k)
          else (do_handler handlers fuel after x k >>= λ k1. set_irqs k1 (irqd_deq x k1.irqs)))
        e

  -- Where the first pending descriptor of a priority is locked by a task, `MRT_irqd_flush` of that
  -- priority does not end: any number of rounds is used up, without a panic or a
  -- dereferenced NULL.
  pub irqd_flush-locked :
      (rounds : ℕ) (k : Kernel)
      → HeadLocked pty x k
      → irqd_flush rounds handlers fuel after pty k ≡ no_rounds
  unfolding irqd_flush serve_first
  irqd_flush-locked zero k h = refl
  irqd_flush-locked (suc rounds) k (first, locked) =
      ap (λ o. serve_first (irqd_flush rounds handlers fuel after pty) handlers fuel after o k)
        first
      ∙ ap (λ o. o >>= irqd_flush rounds handlers fuel after pty) (serve-locked k locked)
      ∙ irqd_flush-locked rounds (left k) (
        first,
        ap (λ d. d.tasklocked) (update_self k.irqs.irqtab x (record (irqd k x) { handwait = true }))
            ∙ locked,
      )

-- `disable_irq` programs the real interrupt controller as `enable_irq` does, for every interrupt and in
-- every mode; the two differ in the virtual one.
pub disable_irq-enable_irq :
    (irq : ℕ) (s : Irqs)
    → ((disable_irq irq s).real_pic ≡ (enable_irq irq s).real_pic)
      × ((disable_irq irq s).virtual_pic irq ≡ true)
      × ((enable_irq irq s).virtual_pic irq ≡ false)
unfolding disable_irq enable_irq set_irq
disable_irq-enable_irq irq s = elim (Bool-cases (follows irq s)) [
  | inl e ↦ (
    ap (λ z. z.real_pic) (if_true (set_irq irq (off true)) (off true) e)
        ∙ sym (ap (λ z. z.real_pic) (if_true (set_irq irq (off false)) (off false) e)),
    ap (λ z. z.virtual_pic irq) (if_true (set_irq irq (off true)) (off true) e)
        ∙ update_self s.virtual_pic irq true,
    ap (λ z. z.virtual_pic irq) (if_true (set_irq irq (off false)) (off false) e)
        ∙ update_self s.virtual_pic irq false,
  )
  | inr e ↦ (
    ap (λ z. z.real_pic) (if_false (set_irq irq (off true)) (off true) e)
        ∙ sym (ap (λ z. z.real_pic) (if_false (set_irq irq (off false)) (off false) e)),
    ap (λ z. z.virtual_pic irq) (if_false (set_irq irq (off true)) (off true) e)
        ∙ update_self s.virtual_pic irq true,
    ap (λ z. z.virtual_pic irq) (if_false (set_irq irq (off false)) (off false) e)
        ∙ update_self s.virtual_pic irq false,
  )
]
  where
    off : Bool → Irqs
    off b = record s { virtual_pic = update s.virtual_pic irq b }
