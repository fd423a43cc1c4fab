-- ===== src/Vtimer/Actions.antt =====
-- src/kernel/mrtvt.c: the actions of the timers and `MRT_vtimer_run`. An action says whether the timer
-- goes on (CONTINUE). The links of a timer that is inserted while it still stands in the queue of
-- expired timers would be in two lists, which is a fault here. What `MRT_act_debug` prints is left
-- out. `fuel` is that of `MRT_inherit`, `counter` a reading for the latency of an interrupt.
use minix4rt.Base.{
  ℕ, true, false, not, ◌||◌, Option, none, some, ltb, ◌==◌, if◌then◌else◌, update, has,
}
use minix4rt.Plist.{plist_rmv}
use minix4rt.Vtimer.{vtimer_ins}
use minix4rt.Messages.{mqe_rmv, mqe_free}
use minix4rt.Rcode.{ok, e_mrt_timeout}
use minix4rt.Kernel.{Kernel, Semaphore, set_proc, set_sem, inc, is_rtready, rdy_q_app}
use minix4rt.Kernel.Inherit.{disinherit}
use minix4rt.Kernel.Outcome.{Outcome, next, ret, fault, no_rounds, ◌>>=◌, lift}
use minix4rt.Sem.{sproc_rmv}
use minix4rt.Ipc.{set_msgq, set_timers, slot_of, with_queue}
use minix4rt.Ipc.Send.{ksend}
use minix4rt.Irq.Handler.{irqd, irqd_enq}
use minix4rt.Process.Wakeup.{wakeup}

-- MT_KRNTOUT
abbrev pub mt_krntout : ℕ
mt_krntout = 17

-- What an action does, and whether it returns CONTINUE.
pub data Acted : Type 0 where
  go_on stay : Kernel → Acted
  broken : Acted

unfoldable pub continued : Outcome → Acted
continued (next k) = go_on k
continued (ret c k) = go_on k
continued fault = broken
continued no_rounds = broken

abbrev pub owner_of : Kernel → ℕ → ℕ
owner_of k x = slot_of k (k.timers.vtimer x).owner

abbrev pub param_of : Kernel → ℕ → ℕ
param_of k x = (k.timers.vtimer x).param

-- A process that was woken up in time wants to run; the timer is not taken out of its queue.
unfoldable pub woken : Outcome → Acted
woken (ret ok k) = stay (record k { need_sched = true })
woken (ret c k) = stay k
woken (next k) = stay k
woken fault = broken
woken no_rounds = broken

unfoldable pub act_wakeup : ℕ → ℕ → Kernel → Acted
unfolding wakeup woken
act_wakeup fuel x k = woken (wakeup fuel (owner_of k x) k)

unfoldable pub act_sched : ℕ → ℕ → Kernel → Acted
unfolding wakeup woken
act_sched fuel x k =
    if param_of k x == k.hardware then go_on k else woken (wakeup fuel (param_of k x) k)

unfoldable pub act_msgown : ℕ → ℕ → Kernel → Acted
unfolding ksend continued
act_msgown fuel x k =
    let r = owner_of k x in continued (ksend fuel k.hardware r (k.proc r).priority mt_krntout k)

unfoldable pub act_msgwdog : ℕ → ℕ → Kernel → Acted
unfolding ksend continued
act_msgwdog fuel x k =
    let r = owner_of k x in
    continued (ksend fuel r (slot_of k (k.proc r).watchdog) (k.proc r).priority mt_krntout k)

unfoldable pub act_irqtrig : ℕ → ℕ → ℕ → Kernel → Acted
unfolding irqd_enq continued
act_irqtrig fuel counter x k =
    let d = irqd k (param_of k x) in
    continued (
      if not d.tdirq || (d.tdtrigger || d.softirq)
      then irqd_enq fuel counter (param_of k x) k
      else next k)

-- The process does not wait any more; its call returns E_MRT_TIMEOUT.
unfoldable pub time_out : ℕ → Kernel → Kernel
unfolding is_rtready rdy_q_app
time_out r k =
    let k1 = if is_rtready (k.proc r) then record (rdy_q_app k r) { need_sched = true } else k in
    set_proc k1 r (record (k1.proc r) { retreg = some e_mrt_timeout })

-- The message that was not received in time leaves the queue of the destination.
unfoldable pub withdraw : ℕ → ℕ → Kernel → Outcome
unfolding mqe_rmv mqe_free
withdraw x q k =
    let k1 = set_msgq k q (mqe_rmv (k.messages.msgq q) x (k.messages.mqe x).priority) in
    next (record k1 { messages = mqe_free k1.messages x })

unfoldable pub withdraw_from : ℕ → Option ℕ → Kernel → Outcome
unfolding with_queue withdraw
withdraw_from x none k = fault
withdraw_from x (some d) k = with_queue (k.proc d).pmq (withdraw x) k

unfoldable pub disinherit_of : Option ℕ → Kernel → Outcome
unfolding disinherit
disinherit_of none k = fault
disinherit_of (some d) k = lift (disinherit k d)

unfoldable pub send_timed_out : ℕ → ℕ → Kernel → Outcome
unfolding withdraw_from disinherit_of time_out
send_timed_out r e k =
    let d = (k.proc r).pto in
    withdraw_from e d k >>= disinherit_of d >>= λ k1.
    next (time_out r (set_proc k1 r (record (k1.proc r) { mbx_snd = false; pto = none })))

unfoldable pub act_sndto : ℕ → Kernel → Acted
unfolding send_timed_out continued
act_sndto x k = continued (send_timed_out (owner_of k x) (param_of k x) k)

unfoldable pub receive_timed_out : ℕ → Kernel → Kernel
unfolding time_out
receive_timed_out r k =
    time_out r (set_proc k r (record (k.proc r) { mbx_rcv = false; pfrom = none }))

unfoldable pub act_rcvfr : ℕ → Kernel → Acted
unfolding receive_timed_out
act_rcvfr x k = go_on (receive_timed_out (owner_of k x) k)

-- A request that is still queued is withdrawn.
unfoldable pub withdraw_own : ℕ → ℕ → Kernel → Outcome
unfolding withdraw_from
withdraw_own r e k = withdraw_from e (k.proc r).pto k >>= λ k1.
    next (set_proc k1 r (record (k1.proc r) { pto = none; mbx_snd = false }))

unfoldable pub withdraw_request : ℕ → ℕ → Kernel → Outcome
unfolding withdraw_own
withdraw_request r e k = if (k.proc r).mbx_snd then withdraw_own r e k else next k

unfoldable pub call_timed_out : ℕ → ℕ → Kernel → Outcome
unfolding withdraw_request disinherit_of receive_timed_out
call_timed_out r e k = withdraw_request r e k >>= λ k1.
    disinherit_of (k1.proc r).pfrom k1 >>= λ k2. next (receive_timed_out r k2)

unfoldable pub act_sndrcv : ℕ → Kernel → Acted
unfolding call_timed_out continued
act_sndrcv x k = continued (call_timed_out (owner_of k x) (param_of k x) k)

unfoldable pub act_stop : ℕ → Kernel → Acted
act_stop x k =
    let r = param_of k x in
    if (k.proc r).realtime
    then go_on (record (set_proc k r (record (k.proc r) { stop = true })) { need_sched = true })
    else go_on k

-- A process that waited for a semaphore leaves its queue.
unfoldable pub down_removed : ℕ → ℕ → Kernel → Option Semaphore → Acted
unfolding time_out
down_removed s r k none = broken
down_removed s r k (some v) =
    let k1 = set_sem k s v in
    go_on (time_out r (set_proc k1 r (record (k1.proc r) { sem_down = false })))

unfoldable pub act_down : ℕ → Kernel → Acted
unfolding sproc_rmv down_removed
act_down x k =
    let r = owner_of k x in
    down_removed (param_of k x) r k (sproc_rmv (k.sem (param_of k x)) r (k.proc r))

-- The table `MRT_vtaction`; an action that is not in it is a panic.
unfoldable pub act_late : ℕ → ℕ → ℕ → Kernel → Acted
unfolding act_wakeup act_sndrcv act_stop act_down
act_late fuel a x k =
    if a == 7 || a == 9
    then act_wakeup fuel x k
    else if a == 8
    then go_on k
    else if a == 10
    then act_sndrcv x k
    else if a == 11
    then act_stop x k
    else if a == 12
    then act_down x k
    else broken

unfoldable pub act : ℕ → ℕ → ℕ → ℕ → Kernel → Acted
unfolding act_sched act_msgown act_msgwdog act_irqtrig act_sndto act_rcvfr act_late
act fuel counter a x k =
    if a == 0
    then go_on k
    else if a == 1
    then act_sched fuel x k
    else if a == 2
    then act_msgown fuel x k
    else if a == 3
    then act_msgwdog fuel x k
    else if a == 4
    then act_irqtrig fuel counter x k
    else if a == 5
    then act_sndto x k
    else if a == 6
    then act_rcvfr x k
    else act_late fuel a x k

-- A timer that has not reached its limit becomes active again.
unfoldable pub insert_again : ℕ → Kernel → Outcome
unfolding set_timers
insert_again x k =
    let v = k.timers.vtimer x in
    if ltb v.expired v.limit || v.limit == 0
    then (if has x (k.timers.exp_q.list v.priority)
        then fault
        else set_timers k (vtimer_ins k.timers x))
    else next k

unfoldable pub leave_expired : ℕ → Kernel → Kernel
unfolding plist_rmv
leave_expired x k =
    let v = k.timers.vtimer x in
    record k {
      timers = record k.timers {
        exp_q = plist_rmv k.timers.exp_q x v.priority;
        vtimer = update k.timers.vtimer x (record v { expired = inc v.expired });
      };
    }

unfoldable pub after_action : ℕ → Acted → Outcome
unfolding leave_expired insert_again
after_action x (go_on k) = insert_again x (leave_expired x k)
after_action x (stay k) = insert_again x k
after_action x broken = fault

-- `MRT_vtimer_run`
unfoldable pub vtimer_run : ℕ → ℕ → ℕ → Kernel → Outcome
unfolding act after_action
vtimer_run fuel counter x k =
    let v = record (k.timers.vtimer x) { timestamp = k.ticks } in
    after_action x (
      act fuel counter v.action x
        (record k { timers = record k.timers { vtimer = update k.timers.vtimer x v } }))
