-- ===== src/Irq/Handler.antt =====
-- src/kernel/mrtirq.c: `MRT_irqd_enQ` and `MRT_do_handler`. The handlers of the drivers are the
-- parameter `handlers`: what a handler does with the kernel, with the interrupts that come while it
-- runs, and whether it wants its interrupt enabled. `counters` are the readings of the second timer
-- chip for the latency. `fuel` is that of `MRT_inherit`.
use minix4rt.Base.{
  ℕ, ◌+◌, ◌-◌, max, Bool, true, false, not, ◌&&◌, ◌||◌, Option, none, some, [], ◌∷◌, ◌++◌, ltb,
  if◌then◌else◌, update,
}
use minix4rt.Plist.{plist_app}
use minix4rt.Irq.{Irqd, Irqs, set_irqd, set_irq}
use minix4rt.Kernel.{Kernel, set_proc, inc, rdy_q_app}
use minix4rt.Kernel.Outcome.{Outcome, next, ret, fault, no_rounds, ◌>>=◌}
use minix4rt.Process.{prtylvl_set}
use minix4rt.Ipc.{slot_of}
use minix4rt.Ipc.Send.{ksend}

-- MT_KRNIRQ and MT_KRNDLINE
abbrev pub mt_krnirq : ℕ
mt_krnirq = 16

abbrev pub mt_krndline : ℕ
mt_krndline = 18

abbrev pub irqd : Kernel → ℕ → Irqd
irqd k x = k.irqs.irqtab x

abbrev pub put_irqd : Kernel → ℕ → Irqd → Kernel
put_irqd k x d = record k { irqs = set_irqd k.irqs x d }

-- A call whose return code is not looked at.
unfoldable pub ignore : Outcome → Outcome
ignore (next k) = next k
ignore (ret c k) = next k
ignore fault = fault
ignore no_rounds = no_rounds

-- A message of the kernel to a process, if there is one.
unfoldable pub notify : ℕ → ℕ → Option ℕ → ℕ → ℕ → Kernel → Outcome
unfolding ksend ignore
notify fuel src none prty mtype k = next k
notify fuel src (some d) prty mtype k = ignore (ksend fuel src d prty mtype k)

-- An interrupt that comes before the last one is served.
unfoldable pub missed : ℕ → ℕ → Kernel → Outcome
unfolding notify
missed fuel x k =
    let k1 = put_irqd k x (record (irqd k x) { mdl = inc (irqd k x).mdl }) in
    notify fuel k1.hardware (irqd k1 x).watchdog (irqd k1 x).priority mt_krndline k1

abbrev pub is_held : Irqs → Irqd → Bool
is_held s d = not d.rtirq && (s.virtual_pic d.irq || s.minixcli)

unfoldable pub read_before : Irqs → ℕ → Irqd → Irqd
read_before s counter d =
    if d.softirq && (s.latency && d.latcalc) then record d { before = counter } else d

unfoldable pub enqueue_irqd : ℕ → ℕ → Irqs → Irqs
unfolding plist_app read_before
enqueue_irqd counter x s =
    let d = read_before s counter (s.irqtab x) in
    record s {
      irq_q = plist_app s.irq_q x d.priority;
      irqtab = update s.irqtab x (record d { enqueued = true });
    }

-- The interrupts that MINIX has switched off wait in a list of their own.
unfoldable pub hold_or_enqueue : ℕ → ℕ → Irqs → Irqs
unfolding enqueue_irqd
hold_or_enqueue counter x s =
    if is_held s (s.irqtab x)
    then record s { mnx_q = s.mnx_q ++ (x ∷ []) }
    else enqueue_irqd counter x s

-- `MRT_irqd_enQ`
unfoldable pub irqd_enq : ℕ → ℕ → ℕ → Kernel → Outcome
unfolding missed hold_or_enqueue
irqd_enq fuel counter x k =
    if (irqd k x).enqueued
    then missed fuel x k
    else if (irqd k x).disabled
    then next k
    else next (record k { irqs = hold_or_enqueue counter x (record k.irqs { newint = true }) })

-- The handler of the descriptor runs; a real-time one may want a message sent to its task.
unfoldable pub run_irqd : (ℕ → ℕ → Kernel → Bool × Kernel) → ℕ → Kernel → Bool × Kernel
run_irqd handlers x k =
    let d = irqd k x in handlers (if d.rtirq then d.rthandler else d.nrthandler) d.irq k

unfoldable pub call_task : ℕ → Bool → ℕ → Kernel → Outcome
unfolding ksend ignore
call_task fuel was_rtirq x k =
    if was_rtirq && (irqd k x).istmsg
    then ignore (ksend fuel k.hardware (slot_of k (irqd k x).task) (irqd k x).priority mt_krnirq k)
    else next k

-- The priority level and the mask of the time before.
unfoldable pub restore : Bool → ℕ → (ℕ → Bool) → ℕ → Kernel → Kernel
unfolding prtylvl_set set_irq
restore enabled level pic x k =
    let s1 = record (set_irqd k.irqs x (record (irqd k x) { handlocked = false })) {
      real_pic = pic;
    } in
    prtylvl_set (record k { irqs = if enabled then set_irq (s1.irqtab x).irq s1 else s1 }) level

unfoldable pub measure : Irqs → ℕ → Irqd → Irqd
measure s counter d =
    if s.latency && d.latcalc
    then (let l = if ltb counter d.before then d.before - counter else 65535 - counter + d.before in
        record d { latency = l; maxlat = max l d.maxlat })
    else d

-- The task that waits for the lock of the descriptor gets it.
unfoldable pub pass_lock : ℕ → ℕ → Kernel → Kernel
unfolding rdy_q_app
pass_lock x r k =
    let k1 = put_irqd k x (record (irqd k x) { taskwait = false; tasklocked = true }) in
    record (rdy_q_app (set_proc k1 r (record (k1.proc r) { lock_wait = false })) r) {
      need_sched = true;
    }

unfoldable pub lock_passed : ℕ → Kernel → Kernel
unfolding pass_lock
lock_passed x k = if (irqd k x).taskwait then pass_lock x (slot_of k (irqd k x).task) k else k

-- The statistics of the kinds of descriptors.
unfoldable pub count_served : ℕ → Irqd → Irqd
count_served ticks d =
    if d.softirq
    then record d { count = inc d.count; timestamp = ticks }
    else if d.tdirq
    then record d { tdtrigger = false; maxshower = max d.maxshower d.shower; shower = 0 }
    else d

-- What follows the handler: `after` is the reading of the counter.
unfoldable pub served : ℕ → ℕ → Kernel → Kernel
unfolding measure lock_passed count_served
served after x k =
    let k1 = lock_passed x (put_irqd k x (measure k.irqs after (irqd k x))) in
    put_irqd k1 x (count_served k1.ticks (irqd k1 x))

unfoldable pub handler_done : ℕ → ℕ → ℕ → (ℕ → Bool) → Bool → ℕ → Bool × Kernel → Outcome
unfolding call_task restore served
handler_done fuel after level pic was_rtirq x (enabled, k) =
    call_task fuel was_rtirq x k >>= λ k1. next (served after x (restore enabled level pic x k1))

-- `MRT_do_handler`
unfoldable pub do_handler : (ℕ → ℕ → Kernel → Bool × Kernel) → ℕ → ℕ → ℕ → Kernel → Outcome
unfolding prtylvl_set run_irqd handler_done
do_handler handlers fuel after x k =
    let k1 = prtylvl_set k (irqd k x).priority in
    handler_done fuel after k.prtylvl k.irqs.real_pic (irqd k x).rtirq x
      (run_irqd handlers x (put_irqd k1 x (record (irqd k1 x) { handlocked = true })))
