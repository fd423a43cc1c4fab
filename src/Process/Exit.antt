-- ===== src/Process/Exit.antt =====
-- src/kernel/mrtproc.c: `MRT_set2nrt`, which ends a process as a real-time process. `fuel` is that of the
-- loops of the callees, `rounds` that of the loop over the messages of the process.
use minix4rt.Base.{ℕ, zero, suc, ◌+◌, false, ◌&&◌, Option, none, some, is_empty, if◌then◌else◌}
use minix4rt.Vtimer.{Timers}
use minix4rt.Vtimer.Handlers.{vtimer_stop, vtimer_free}
use minix4rt.Messages.{any_proc, mqe_pick, mqe_rmv, mqe_free, msgq_free, nr_messages}
use minix4rt.Rcode.{ok, e_mrt_badptype, e_mrt_exiting}
use minix4rt.Kernel.{Kernel, set_proc, is_rtready, rdy_q_app, rdy_q_rmv}
use minix4rt.Kernel.Outcome.{Outcome, next, ret, fault, ◌>>=◌, lift}
use minix4rt.Ipc.{set_msgq, set_timers, slot_of, points_to, with_queue}
use minix4rt.Irq.{Irqs, set_irqd, nr_irq_vectors, nr_irq_soft}
use minix4rt.Irq.Handler.{notify}
use minix4rt.Minix.{is_runnable, lock_ready}
use minix4rt.Process.{sem_unlock, sem_empty}

-- MT_KRNWDOG and MT_KRNPROC
abbrev pub mt_krnwdog : ℕ
mt_krnwdog = 19

abbrev pub mt_krnproc : ℕ
mt_krnproc = 20

unfoldable pub leave_rdy_q : ℕ → Kernel → Outcome
unfolding is_rtready rdy_q_rmv
leave_rdy_q r k = if is_rtready (k.proc r) then next (rdy_q_rmv k r) else next k

-- A timer is stopped and freed.
unfoldable pub free_stopped : ℕ → Option Timers → Option Timers
unfolding vtimer_free
free_stopped v none = none
free_stopped v (some t) = vtimer_free t v

unfoldable pub drop_timer : Option ℕ → Kernel → Outcome
unfolding vtimer_stop free_stopped set_timers
drop_timer none k = next k
drop_timer (some v) k = set_timers k (free_stopped v (vtimer_stop k.timers v))

unfoldable pub drop_timers : ℕ → Kernel → Outcome
unfolding drop_timer
drop_timers r k = drop_timer (k.proc r).pvt k >>= λ k1.
    let k2 = set_proc k1 r (record (k1.proc r) { pvt = none }) in
    drop_timer (k2.proc r).ipcvt k2 >>= λ k3.
    next (set_proc k3 r (record (k3.proc r) { ipcvt = none }))

-- The watchdog of the process hears of its end.
unfoldable pub tell_watchdog : ℕ → ℕ → Kernel → Outcome
unfolding notify
tell_watchdog fuel r k =
    if (k.proc (slot_of k (k.proc r).watchdog)).realtime
    then notify fuel r (k.proc r).watchdog (k.proc r).priority mt_krnproc k
    else next k

-- The processes that the process is the watchdog of, from slot `i`, with the rounds that are left.
unfoldable pub unwatch : ℕ → ℕ → ℕ → Kernel → Outcome
unfolding notify
unwatch fuel r i k =
    if points_to (k.proc i).watchdog r && (k.proc i).realtime
    then notify fuel r (some i) (k.proc i).priority mt_krnwdog
        (set_proc k i (record (k.proc i) { watchdog = none }))
    else next k

unfoldable pub unwatch_loop : ℕ → ℕ → ℕ → ℕ → Kernel → Outcome
unfolding unwatch
unwatch_loop fuel r zero i k = next k
unwatch_loop fuel r (suc n) i k = unwatch fuel r i k >>= unwatch_loop fuel r n (suc i)

-- The interrupt descriptors that the process is the watchdog of.
unfoldable pub irq_loop : ℕ → ℕ → ℕ → Irqs → Irqs
irq_loop r zero x s = s
irq_loop r (suc n) x s = irq_loop r n (suc x) (
    if points_to (s.irqtab x).watchdog r
    then set_irqd s x (record (s.irqtab x) { watchdog = none })
    else s)

unfoldable pub unwatch_irqs : ℕ → Kernel → Kernel
unfolding irq_loop
unwatch_irqs r k = record k { irqs = irq_loop r (nr_irq_vectors + nr_irq_soft) 0 k.irqs }

-- A sender `s` that waits for the process does not wait any more.
unfoldable pub stop_sender : Option ℕ → Kernel → Outcome
unfolding vtimer_stop set_timers
stop_sender none k = next k
stop_sender (some v) k = set_timers k (vtimer_stop k.timers v)

unfoldable pub turn_back : ℕ → Kernel → Kernel
unfolding is_rtready rdy_q_app
turn_back s k =
    let k1 = set_proc k s (record (k.proc s) { mbx_snd = false; pto = none }) in
    let k2 = if is_rtready (k1.proc s) then rdy_q_app k1 s else k1 in
    set_proc k2 s (record (k2.proc s) { retreg = some e_mrt_exiting })

unfoldable pub unblock_sender : ℕ → Kernel → Outcome
unfolding stop_sender turn_back
unblock_sender s k = stop_sender (k.proc s).ipcvt k >>= λ k1. next (turn_back s k1)

-- The loop over the messages of the queue `q`: the message that is picked stays in the queue.
unfoldable pub picked_or_end : (Kernel → Outcome) → Option ℕ → Kernel → Outcome
unfolding unblock_sender
picked_or_end go_on none k = next k
picked_or_end go_on (some x) k = unblock_sender (slot_of k (k.messages.mqe x).src_nr) k >>= go_on

unfoldable pub turn_loop : ℕ → ℕ → Kernel → Outcome
unfolding mqe_pick picked_or_end
turn_loop zero q k = fault
turn_loop (suc rounds) q k =
    picked_or_end (turn_loop rounds q)
      (mqe_pick k.hardware k.messages.mqe (k.messages.msgq q) any_proc) k

unfoldable pub drop_queue : ℕ → ℕ → Option ℕ → Kernel → Outcome
unfolding turn_loop msgq_free
drop_queue rounds r none k = next k
drop_queue rounds r (some q) k = turn_loop rounds q k >>= λ k1. next (
    set_proc (record k1 { messages = msgq_free k1.messages q }) r
      (record (k1.proc r) { pmq = none }))

-- The message in the entry `x` is taken back from the queue `q`.
unfoldable pub take_back : ℕ → ℕ → Kernel → Outcome
unfolding mqe_rmv mqe_free
take_back x q k =
    let k1 = set_msgq k q (mqe_rmv (k.messages.msgq q) x (k.messages.mqe x).priority) in
    next (record k1 { messages = mqe_free k1.messages x })

unfoldable pub take_back_own : ℕ → ℕ → Kernel → Outcome
unfolding with_queue take_back
take_back_own r x k =
    if points_to (k.messages.mqe x).src_nr r
    then with_queue (k.proc (slot_of k (k.messages.mqe x).dst_nr)).pmq (take_back x) k
    else next k

-- The loop over the entries from `x`, with the rounds that are left.
unfoldable pub take_back_loop : ℕ → ℕ → ℕ → Kernel → Outcome
unfolding take_back_own
take_back_loop r zero x k = next k
take_back_loop r (suc n) x k = take_back_own r x k >>= take_back_loop r n (suc x)

unfoldable pub drop_semaphores : ℕ → ℕ → Kernel → Outcome
unfolding sem_unlock sem_empty
drop_semaphores fuel r k =
    (if is_empty (k.proc r).slock_l then next k else lift (sem_unlock fuel k r)) >>= λ k1.
    if is_empty (k1.proc r).salloc_l then next k1 else lift (sem_empty k1 r)

-- The process is one of MINIX.
unfoldable pub become_nrt : ℕ → Kernel → Outcome
unfolding lock_ready
become_nrt r k =
    let p = record (k.proc r) {
      mbx_snd = false;
      mbx_rcv = false;
      sleep = false;
      sem_down = false;
      lock_wait = false;
      realtime = false;
    } in
    let k1 = set_proc k r p in ret ok (if is_runnable p then lock_ready k1 r else k1)

-- `MRT_set2nrt`; the loop over the processes makes NR_PROCS rounds.
unfoldable pub end_rt : ℕ → ℕ → ℕ → ℕ → Kernel → Outcome
unfolding leave_rdy_q drop_timers tell_watchdog unwatch_loop unwatch_irqs drop_queue take_back_loop
    drop_semaphores become_nrt
end_rt fuel rounds nr_procs r k =
    leave_rdy_q r k
    >>= drop_timers r
    >>= tell_watchdog fuel r
    >>= unwatch_loop fuel r nr_procs 0
    >>= λ k1.
        let k2 = unwatch_irqs r k1 in
        drop_queue rounds r (k2.proc r).pmq k2
        >>= take_back_loop r nr_messages 0
        >>= drop_semaphores fuel r
        >>= become_nrt r

unfoldable pub set2nrt : ℕ → ℕ → ℕ → ℕ → Kernel → Outcome
unfolding end_rt
set2nrt fuel rounds nr_procs r k =
    if (k.proc r).realtime then end_rt fuel rounds nr_procs r k else ret e_mrt_badptype k
