-- ===== src/Process/Wakeup.antt =====
-- src/kernel/mrtproc.c: a process is woken up, and a process becomes a real-time process. The return
-- code of a message to the watchdog is not looked at. `fuel` is that of `MRT_inherit`.
use minix4rt.Base.{
  ℕ, ◌/◌, ◌%◌, true, false, ◌&&◌, Option, none, some, is_empty, length, ◌==◌, if◌then◌else◌,
}
use minix4rt.Vtimer.{Vtimer, Timers, alloc}
use minix4rt.Vtimer.Handlers.{vtimer_alloc}
use minix4rt.Messages.{Messages, MsgQueue, msgq_alloc}
use minix4rt.Rcode.{
  ok, e_bad_proc, e_mrt_badptype, e_mrt_unsleep, e_mrt_unready, e_mrt_novtimer, e_mrt_nomsgq,
}
use minix4rt.Kernel.{Kernel, set_proc, is_rtready, rdy_q_app}
use minix4rt.Kernel.Outcome.{Outcome, next, ret, fault, ◌>>=◌}
use minix4rt.Ipc.{vt_stop}
use minix4rt.Irq.Handler.{notify, mt_krndline}
use minix4rt.Minix.{lock_unready}

-- A process that does not sleep has missed its deadline, of which its watchdog hears.
unfoldable pub miss_deadline : ℕ → ℕ → Kernel → Outcome
unfolding notify
miss_deadline fuel r k =
    notify fuel k.running (k.proc r).watchdog (k.proc r).priority mt_krndline k
    >>= ret e_mrt_unsleep

unfoldable pub end_sleep : ℕ → Kernel → Outcome
unfolding is_rtready rdy_q_app
end_sleep r k =
    let k1 = set_proc k r (record (k.proc r) { sleep = false }) in
    if is_rtready (k1.proc r) then ret ok (rdy_q_app k1 r) else ret e_mrt_unready k1

unfoldable pub wake_or_miss : ℕ → ℕ → Kernel → Outcome
unfolding miss_deadline end_sleep
wake_or_miss fuel r k = if (k.proc r).sleep then end_sleep r k else miss_deadline fuel r k

-- `MRT_wakeup`
unfoldable pub wakeup : ℕ → ℕ → Kernel → Outcome
unfolding vt_stop wake_or_miss
wakeup fuel r k = vt_stop (k.proc r).ipcvt k >>= wake_or_miss fuel r

-- `rtk_wakeup`, after the number and the pid of the process are copied.
unfoldable pub rtk_wakeup : ℕ → ℕ → ℕ → Kernel → Outcome
unfolding wakeup
rtk_wakeup fuel r pid k =
    if (k.proc r).is_process
    then (if (k.proc r).pid == pid
        then (if (k.proc r).realtime then wakeup fuel r k else ret e_mrt_badptype k)
        else ret e_bad_proc k)
    else ret e_bad_proc k

-- MRT_ACT_NONE and MRT_ACT_PERIODIC
abbrev pub act_none : ℕ
act_none = 0

abbrev pub act_periodic : ℕ
act_periodic = 9

-- VTALLOC for the process `r`, whose other fields the call does not read.
unfoldable pub new_timer : ℕ → ℕ → ℕ → ℕ → ℕ → Vtimer
new_timer r period limit action priority = record {
  period = period;
  limit = limit;
  action = action;
  param = 0;
  priority = priority;
  owner = some r;
  flags = alloc;
  nextexp = 0;
  timestamp = 0;
  expired = 0;
}

-- The timer of the process for its kernel calls; none is a panic.
unfoldable pub ipcvt_given : ℕ → Kernel → Option ℕ × Timers → Outcome
ipcvt_given r k (none, t) = fault
ipcvt_given r k (some v, t) =
    next (set_proc (record k { timers = t }) r (record (k.proc r) { ipcvt = some v }))

unfoldable pub give_ipcvt : ℕ → Kernel → Outcome
unfolding new_timer ipcvt_given vtimer_alloc
give_ipcvt r k =
    ipcvt_given r k (vtimer_alloc k.timers (new_timer r 1 0 act_none (k.proc r).priority))

-- The timer of a periodic process: the test of the code sets the pointer to NULL, which
-- `MRT_vtimer_ins` then dereferences.
unfoldable pub give_pvt : ℕ → Kernel → Outcome
give_pvt r k = if (k.proc r).periodic then fault else next k

-- The process leaves the queues of MINIX for those of the RT-kernel.
unfoldable pub enter_rt : ℕ → Kernel → Outcome
unfolding lock_unready rdy_q_app
enter_rt r k =
    let k1 = lock_unready k r in
    ret ok (rdy_q_app (set_proc k1 r (record (k1.proc r) { realtime = true })) r)

unfoldable pub queue_of : ℕ → Kernel → MsgQueue
queue_of r k = record (k.messages.msgq 0) {
  owner = some r;
  size = (k.proc r).mq_size;
  prty_order = ((k.proc r).mq_flags % 2) == 1;
  prty_inherit = (((k.proc r).mq_flags / 2) % 2) == 1;
}

unfoldable pub pmq_given : ℕ → Kernel → Option ℕ × Messages → Outcome
pmq_given r k (none, s) = fault
pmq_given r k (some q, s) =
    next (set_proc (record k { messages = s }) r (record (k.proc r) { pmq = some q }))

unfoldable pub give_pmq : ℕ → Kernel → Outcome
unfolding queue_of pmq_given msgq_alloc
give_pmq r k = pmq_given r k (msgq_alloc k.messages (queue_of r k))

-- `rtk_set2rt` of the running process `r`
unfoldable pub become_rt : ℕ → Kernel → Outcome
unfolding give_pmq give_ipcvt give_pvt enter_rt
become_rt r k = give_pmq r k >>= give_ipcvt r >>= give_pvt r >>= enter_rt r

unfoldable pub set2rt : ℕ → Kernel → Outcome
unfolding become_rt
set2rt r k =
    if (k.proc r).realtime
    then ret e_mrt_badptype k
    else if is_empty k.timers.free_q
    then ret e_mrt_novtimer k
    else if (length k.timers.free_q == 1) && (k.proc r).periodic
    then ret e_mrt_novtimer k
    else if is_empty k.messages.mqe_l
    then ret e_mrt_nomsgq k
    else become_rt r k
