-- ===== src/Irq/Dispatch.antt =====
-- src/kernel/mrtirq.c: `MRT_IRQ_dispatch`, which takes an interrupt, and `MRT_flush_int`, which runs the
-- expired timers and the pending interrupts. The loops have the fuel `rounds`; `fuel` is that of
-- `MRT_inherit`, and `counter` and `after` are readings of the second timer chip. `reentry` is
-- `k_reenter`, which the assembler code counts.
use minix4rt.Base.{
  ℕ, zero, suc, max, Bool, true, false, not, ◌&&◌, ◌||◌, Option, none, some, ltb, leb, ◌==◌,
  if◌then◌else◌, head?,
}
use minix4rt.Vtimer.{Timers}
use minix4rt.Vtimer.Handlers.{timer_irq}
use minix4rt.Vtimer.Actions.{vtimer_run}
use minix4rt.Irq.{Irqd, set_irqd, set_irq, reset_irq}
use minix4rt.Irq.Handler.{irqd, put_irqd, irqd_enq, missed, do_handler}
use minix4rt.Irq.Service.{irqd_flush}
use minix4rt.Kernel.{Kernel, inc}
use minix4rt.Kernel.Outcome.{Outcome, next, fault, no_rounds, ◌>>=◌}
use minix4rt.Minix.{lock_pick_proc}

-- `MRT_vtimer_flush`
unfoldable pub run_first : (Kernel → Outcome) → ℕ → ℕ → Option ℕ → Kernel → Outcome
unfolding vtimer_run
run_first go_on fuel counter none k = next k
run_first go_on fuel counter (some x) k = vtimer_run fuel counter x k >>= go_on

unfoldable pub vtimer_flush : ℕ → ℕ → ℕ → ℕ → Kernel → Outcome
unfolding run_first
vtimer_flush zero fuel counter pty k = no_rounds
vtimer_flush (suc rounds) fuel counter pty k =
    run_first (vtimer_flush rounds fuel counter pty) fuel counter (head? (k.timers.exp_q.list pty))
      k

-- A bitmap of 16 bits is 0.
unfoldable pub is_clear : ℕ → ℕ → (ℕ → Bool) → Bool
is_clear zero p bitmap = true
is_clear (suc n) p bitmap = let rest = is_clear n (suc p) bitmap in not (bitmap p) && rest

abbrev pub is_pending : Kernel → Bool
is_pending k = not (is_clear 16 0 k.timers.exp_q.bitmap) || not (is_clear 16 0 k.irqs.irq_q.bitmap)

-- The round of `MRT_flush_int` at priority `p`.
unfoldable pub flush_timers : ℕ → ℕ → ℕ → ℕ → Kernel → Outcome
unfolding vtimer_flush
flush_timers rounds fuel counter p k =
    if k.timers.exp_q.bitmap p then vtimer_flush rounds fuel counter p k else next k

unfoldable pub flush_irqs : (ℕ → ℕ → Kernel → Bool × Kernel) → ℕ → ℕ → ℕ → ℕ → Kernel → Outcome
unfolding irqd_flush
flush_irqs handlers rounds fuel after p k =
    if k.irqs.irq_q.bitmap p then irqd_flush rounds handlers fuel after p k else next k

unfoldable pub reschedule : Kernel → Outcome
unfolding lock_pick_proc
reschedule k = if k.need_sched then next (lock_pick_proc k) else next k

-- The next priority: interrupts that came meanwhile begin the loop again.
unfoldable pub next_level : (ℕ → Kernel → Outcome) → ℕ → Kernel → Outcome
next_level go_on p k =
    if k.irqs.newint
    then go_on 1 (record k { irqs = record k.irqs { newint = false } })
    else go_on (suc p) k

unfoldable pub flush_level :
    (ℕ → Kernel → Outcome) → (ℕ → ℕ → Kernel → Bool × Kernel) → ℕ → ℕ → ℕ → ℕ → ℕ → Kernel → Outcome
unfolding flush_timers flush_irqs reschedule next_level
flush_level go_on handlers rounds fuel counter after p k =
    flush_timers rounds fuel counter p k
    >>= flush_irqs handlers rounds fuel after p
    >>= reschedule
    >>= next_level go_on p

unfoldable pub flush_loop :
    ℕ → (ℕ → ℕ → Kernel → Bool × Kernel) → ℕ → ℕ → ℕ → ℕ → ℕ → Kernel → Outcome
unfolding is_clear flush_level
flush_loop zero handlers rounds fuel counter after p k = no_rounds
flush_loop (suc n) handlers rounds fuel counter after p k =
    if leb p k.prtylvl && is_pending k
    then flush_level (flush_loop n handlers rounds fuel counter after) handlers rounds fuel counter
        after p k
    else next k

-- `MRT_flush_int`
abbrev pub set_flushlck : Bool → Kernel → Kernel
set_flushlck b k = record k { irqs = record k.irqs { flushlck = b } }

unfoldable pub flush_int : ℕ → (ℕ → ℕ → Kernel → Bool × Kernel) → ℕ → ℕ → ℕ → ℕ → Kernel → Outcome
unfolding flush_loop
flush_int n handlers rounds fuel counter after k =
    let k1 = set_flushlck true k in
    flush_loop n handlers rounds fuel counter after 1
      (record k1 { irqs = record k1.irqs { newint = false } })
    >>= λ k2. next (set_flushlck false k2)

-- The counts of an interrupt, which is off in the controller from now on.
unfoldable pub count_irq : ℕ → ℕ → Kernel → Kernel
unfolding reset_irq
count_irq reentry x k =
    let s = reset_irq x k.irqs in
    let d = s.irqtab x in
    record k {
      irqs =
          set_irqd (record s { interrupts = inc s.interrupts }) x
            (record d { count = inc d.count; reenter = max d.reenter reentry });
    }

unfoldable pub read_counter : ℕ → ℕ → Kernel → Kernel
read_counter counter x k =
    if k.irqs.latency && (irqd k x).latcalc
    then put_irqd k x (record (irqd k x) { before = counter })
    else k

unfoldable pub stamp_irq : ℕ → Kernel → Kernel
stamp_irq x k = put_irqd k x (record (irqd k x) { timestamp = k.ticks })

-- The timer interrupt: `CLOCK_IRQ` is 0. The period of one-shot mode goes to the chip.
unfoldable pub ticked : Kernel → Option (Timers × Option ℕ) → Outcome
unfolding stamp_irq
ticked k none = fault
ticked k (some (t, shot)) = next (stamp_irq 0 (record k { timers = t }))

unfoldable pub clock_irq : Kernel → Outcome
unfolding timer_irq ticked
clock_irq k =
    let k1 = if k.irqs.oneshot then k else record k { ticks = inc k.ticks } in
    ticked k1 (timer_irq k1.irqs.oneshot k1.timers)

-- What an interrupt leads to; the Boolean says whether it stays enabled.
unfoldable pub enable_if : Bool → ℕ → Kernel → Outcome
unfolding set_irq
enable_if enabled x k = if enabled then next (record k { irqs = set_irq x k.irqs }) else next k

unfoldable pub run_unlocked : (ℕ → ℕ → Kernel → Bool × Kernel) → ℕ → ℕ → ℕ → Kernel → Outcome
unfolding reschedule enable_if do_handler
run_unlocked handlers fuel after x k =
    if (irqd k x).tasklocked
    then reschedule
        (record (put_irqd k x (record (irqd k x) { handwait = true })) { need_sched = true })
    else do_handler handlers fuel after x k >>= reschedule >>= enable_if true x

unfoldable pub run_event : (ℕ → ℕ → Kernel → Bool × Kernel) → ℕ → ℕ → ℕ → Kernel → Outcome
unfolding missed run_unlocked
run_event handlers fuel after x k =
    (if (irqd k x).enqueued then missed fuel x k else next k) >>= run_unlocked handlers fuel after x

abbrev pub is_deferred : Kernel → Irqd → Bool
is_deferred k d = ltb k.prtylvl d.priority || (not d.rtirq && k.irqs.minixcli)

unfoldable pub event_irq : (ℕ → ℕ → Kernel → Bool × Kernel) → ℕ → ℕ → ℕ → ℕ → Kernel → Outcome
unfolding irqd_enq run_event
event_irq handlers fuel counter after x k =
    if is_deferred k (irqd k x)
    then irqd_enq fuel counter x k
    else run_event handlers fuel after x k

unfoldable pub device_irq : (ℕ → ℕ → Kernel → Bool × Kernel) → ℕ → ℕ → ℕ → ℕ → Kernel → Outcome
unfolding event_irq enable_if
device_irq handlers fuel counter after x k =
    if (irqd k x).tdirq
    then enable_if true x
        (put_irqd k x (record (irqd k x) { tdtrigger = true; shower = inc (irqd k x).shower }))
    else event_irq handlers fuel counter after x k

-- `MRT_IRQ_dispatch`
unfoldable pub irq_dispatch :
    (ℕ → ℕ → Kernel → Bool × Kernel) → ℕ → ℕ → ℕ → ℕ → ℕ → Kernel → Outcome
unfolding count_irq read_counter clock_irq enable_if stamp_irq device_irq
irq_dispatch handlers fuel counter after reentry x k =
    let k1 = count_irq reentry x k in
    if (irqd k1 x).disabled
    then next k1
    else (let k2 = read_counter counter x k1 in
        if x == 0
        then clock_irq k2 >>= enable_if true x
        else device_irq handlers fuel counter after x (stamp_irq x k2))
