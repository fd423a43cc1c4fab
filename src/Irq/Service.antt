-- ===== src/Irq/Service.antt =====
-- src/kernel/mrtirq.c: the pending interrupts are served (`MRT_irqd_flush`), the interrupts that MINIX
-- held back (`lock`, `unlock`), and the lock between a task and a handler.
use minix4rt.Base.{
  ℕ, zero, suc, ◌+◌, Bool, true, false, ◌&&◌, Option, none, some, List, [], ◌∷◌, ltb, leb,
  if◌then◌else◌, head?,
}
use minix4rt.Irq.{Irqs, irqd_deq, nr_irq_vectors, nr_irq_soft}
use minix4rt.Irq.Handler.{irqd, put_irqd, do_handler}
use minix4rt.Kernel.{Kernel, set_proc, rdy_q_rmv}
use minix4rt.Kernel.Outcome.{Outcome, next, fault, no_rounds, ◌>>=◌}

unfoldable pub set_irqs : Kernel → Option Irqs → Outcome
set_irqs k none = fault
set_irqs k (some s) = next (record k { irqs = s })

-- A descriptor that a task has locked stays in the queue.
unfoldable pub serve : (ℕ → ℕ → Kernel → Bool × Kernel) → ℕ → ℕ → ℕ → Kernel → Outcome
unfolding do_handler irqd_deq set_irqs
serve handlers fuel after x k =
    if (irqd k x).tasklocked
    then next (record (put_irqd k x (record (irqd k x) { handwait = true })) { need_sched = true })
    else do_handler handlers fuel after x k >>= λ k1. set_irqs k1 (irqd_deq x k1.irqs)

unfoldable pub serve_first :
    (Kernel → Outcome) → (ℕ → ℕ → Kernel → Bool × Kernel) → ℕ → ℕ → Option ℕ → Kernel → Outcome
unfolding serve
serve_first go_on handlers fuel after none k = next k
serve_first go_on handlers fuel after (some x) k = serve handlers fuel after x k >>= go_on

-- `MRT_irqd_flush`, with fuel `rounds` for its loop.
unfoldable pub irqd_flush : ℕ → (ℕ → ℕ → Kernel → Bool × Kernel) → ℕ → ℕ → ℕ → Kernel → Outcome
unfolding serve_first
irqd_flush zero handlers fuel after pty k = no_rounds
irqd_flush (suc rounds) handlers fuel after pty k =
    serve_first (irqd_flush rounds handlers fuel after pty) handlers fuel after
      (head? (k.irqs.irq_q.list pty)) k

-- `lock` and `unlock`, which in real-time mode only hold the interrupts of MINIX back.
unfoldable pub lock : Kernel → Kernel
lock k = record k { irqs = record k.irqs { minixcli = true } }

unfoldable pub unlock_list :
    (Kernel → Outcome) → (ℕ → ℕ → Kernel → Bool × Kernel) → ℕ → ℕ → List ℕ → Kernel → Outcome
unfolding do_handler
unlock_list go_on handlers fuel after [] k = next k
unlock_list go_on handlers fuel after (x ∷ rest) k =
    do_handler handlers fuel after x (record k { irqs = record k.irqs { mnx_q = rest } }) >>= go_on

unfoldable pub unlock_loop : ℕ → (ℕ → ℕ → Kernel → Bool × Kernel) → ℕ → ℕ → Kernel → Outcome
unfolding unlock_list
unlock_loop zero handlers fuel after k = no_rounds
unlock_loop (suc rounds) handlers fuel after k =
    unlock_list (unlock_loop rounds handlers fuel after) handlers fuel after k.irqs.mnx_q k

unfoldable pub unlock : ℕ → (ℕ → ℕ → Kernel → Bool × Kernel) → ℕ → ℕ → Kernel → Outcome
unfolding unlock_loop
unlock rounds handlers fuel after k =
    let k1 = record k { irqs = record k.irqs { minixcli = false } } in
    if k.irqs.rtmode then unlock_loop rounds handlers fuel after k1 else next k1

abbrev pub is_soft : ℕ → Bool
is_soft irq = leb nr_irq_vectors irq && ltb irq (nr_irq_vectors + nr_irq_soft)

-- `MRT_irqd_lock`: a task waits for the handler that runs. The lock is not set where it is free.
unfoldable pub wait_lock : ℕ → Kernel → Kernel
unfolding rdy_q_rmv
wait_lock irq k =
    let k1 = put_irqd k irq (record (irqd k irq) { taskwait = true }) in
    rdy_q_rmv (set_proc k1 k1.running (record (k1.proc k1.running) { lock_wait = true })) k1.running

unfoldable pub irqd_lock : ℕ → Kernel → Outcome
unfolding wait_lock
irqd_lock irq k =
    if is_soft irq
    then (if (irqd k irq).handlocked then next (wait_lock irq k) else next k)
    else fault

-- `MRT_irqd_unlock`: a handler that waited runs.
unfoldable pub irqd_unlock : (ℕ → ℕ → Kernel → Bool × Kernel) → ℕ → ℕ → ℕ → Kernel → Outcome
unfolding do_handler
irqd_unlock handlers fuel after irq k =
    let k1 = put_irqd k irq (record (irqd k irq) { tasklocked = false }) in
    if is_soft irq
    then (if (irqd k irq).handwait
        then do_handler handlers fuel after irq
            (put_irqd k1 irq (record (irqd k1 irq) { handwait = false; handlocked = true }))
        else next k1)
    else fault
