-- ===== src/Process.antt =====
-- src/kernel/mrtproc.c: the scheduler, the reset of a process, sleep and the idle counter; and what
-- src/kernel/mrtsem.c does with the semaphores of a process that ends. The state is that of the module
-- Sem. The mask of the interrupt controller, which `MRT_prtylvl_set` may program, is I/O and left
-- out. A dereferenced NULL, a panic and fuel that runs out are `none`.
pub mod Schedule
pub mod Sleep
pub mod Wakeup
pub mod Exit
pub mod Call
pub mod Awake
pub mod Endless
use minix4rt.Base.{
  ℕ, zero, suc, max, Bool, true, false, Option, none, some, List, [], ◌∷◌, ◌==◌, if◌then◌else◌,
  update,
}
use minix4rt.Plist.{plist_rst, plist_get, pri_lowest}
use minix4rt.Vtimer.{Timers, alloc, vtimer_ins}
use minix4rt.Vtimer.Handlers.{vtimer_stop}
use minix4rt.Rcode.{Rcode, ok, e_mrt_badptype, e_mrt_exiting}
use minix4rt.Kernel.{
  Kernel, Proc, Semaphore, set_proc, set_sem, rdy_q_rmv, sproc_pick, inc, nowait, forever,
}
use minix4rt.Sem.{awake, sproc_rmv, semup}

-- MRT_ACT_WAKEUP
abbrev pub act_wakeup : ℕ
act_wakeup = 7

unfoldable pub rdy_q_init : Kernel → Kernel
rdy_q_init k = record k { rdy_q = plist_rst }

unfoldable pub prtylvl_set : Kernel → ℕ → Kernel
prtylvl_set k prty = record k { prtylvl = prty }

-- The process `r` is the one to run.
unfoldable pub dispatch : Kernel → ℕ → Kernel
unfolding prtylvl_set
dispatch k r =
    prtylvl_set
      (set_proc
        (record k {
          running = r;
          sys_scheds = inc k.sys_scheds;
          bill = if (k.proc r).is_user then r else k.bill;
        })
        r (record (k.proc r) { timestamp = k.ticks; scheds = inc (k.proc r).scheds }))
      (k.proc r).priority

-- The result is whether the return value is OK.
unfoldable pub pick_found : Kernel → Option ℕ → Bool × Kernel
unfolding dispatch prtylvl_set
pick_found k none = (false, prtylvl_set k pri_lowest)
pick_found k (some r) = (true, dispatch k r)

-- `MRT_pick_proc`
unfoldable pub pick_proc : Kernel → Bool × Kernel
unfolding pick_found
pick_proc k = pick_found (record k { need_sched = false }) (plist_get k.rdy_q)

unfoldable pub pstat_rst : Proc → Proc
pstat_rst p = record p {
  scheds = 0;
  mdl = 0;
  timestamp = 0;
  maxlat = 0;
  minlax = 0;
  msgsent = 0;
  msgrcvd = 0;
}

unfoldable pub pattr_rst : Proc → Proc
pattr_rst p = record p {
  mbx_snd = false;
  mbx_rcv = false;
  sleep = false;
  sem_down = false;
  lock_wait = false;
  priority = pri_lowest;
  baseprty = pri_lowest;
  period = 0;
  limit = 0;
  deadline = 0;
  watchdog = none;
  mq_size = 0;
  mq_flags = 0;
  pmq = none;
  pvt = none;
  ipcvt = none;
  salloc_l = [];
  slock_l = [];
  pto = none;
  pfrom = none;
  psem = none;
}

unfoldable pub proc_rst : Proc → Proc
unfolding pstat_rst pattr_rst
proc_rst p = pstat_rst (pattr_rst p)

-- The loop of `MRT_proc_init` from process `i`, with the rounds that are left: NR_PROCS in all.
unfoldable pub proc_loop : ℕ → ℕ → Kernel → Kernel
unfolding proc_rst
proc_loop zero i k = k
proc_loop (suc n) i k = proc_loop n (suc i) (set_proc k i (proc_rst (k.proc i)))

unfoldable pub proc_init : ℕ → Kernel → Kernel
unfolding proc_loop
proc_init nr_procs k = proc_loop nr_procs 0 (record k { need_sched = true })

-- The timer of a process that sleeps for a time is set from scratch. Its link gets the address of the
-- pointer to the timer as its object.
unfoldable pub sleep_timer : Kernel → ℕ → ℕ → Option ℕ → Option Kernel
sleep_timer k r timeout none = none
sleep_timer k r timeout (some v) =
    let vt = record (k.timers.vtimer v) {
      nextexp = 0;
      flags = alloc;
      period = timeout;
      limit = 1;
      action = act_wakeup;
      param = 0;
      priority = (k.proc r).priority;
    } in
    elim (vtimer_ins (record k.timers { vtimer = update k.timers.vtimer v vt }) v) [
      | none ↦ none
      | some t ↦ some (record k { timers = t; stray_timer = true })
    ]

unfoldable pub fall_asleep : ℕ → Option Kernel → Option (Rcode × Kernel)
unfolding rdy_q_rmv
fall_asleep r none = none
fall_asleep r (some k) = some (ok, rdy_q_rmv (set_proc k r (record (k.proc r) { sleep = true })) r)

-- `MRT_sleep`
unfoldable pub sleep_proc : Kernel → ℕ → ℕ → Option (Rcode × Kernel)
unfolding sleep_timer fall_asleep
sleep_proc k r timeout =
    if (k.proc r).realtime
    then (if timeout == nowait
        then some (ok, k)
        else fall_asleep r
            (if timeout == forever then some k else sleep_timer k r timeout (k.proc r).ipcvt))
    else some (e_mrt_badptype, k)

-- `MRT_idle_init`, a round of `MRT_idle`, and `MRT_idle_handler`.
unfoldable pub idle_init : Kernel → Kernel
idle_init k = record k { idlecount = 0; idlelast = 0; idlemax = 1 }

unfoldable pub idle_round : Kernel → Kernel
idle_round k = record k { idlecount = inc k.idlecount }

unfoldable pub idle_handler : Kernel → Kernel
idle_handler k = record k {
  idlelast = k.idlecount;
  idlecount = 0;
  idlemax = max k.idlecount k.idlemax;
}

-- `MRT_sem_unlock`, with fuel for its loop.
unfoldable pub sem_unlock : ℕ → Kernel → ℕ → Option Kernel
sem_unlock zero k r = none
sem_unlock (suc fuel) k r = elim (k.proc r).slock_l [
  | [] ↦ some k
  | s ∷ _ ↦ elim (semup k s) [ none ↦ none | some (_, k') ↦ sem_unlock fuel k' r ]
]

-- The timer of a waiting process is stopped if it has one.
unfoldable pub stop_any : Timers → Option ℕ → Option Timers
stop_any t none = some t
stop_any t (some v) = vtimer_stop t v

-- A process that waited for a semaphore of a process that ends gets E_MRT_EXITING.
unfoldable pub turn_away : ℕ → Kernel → Option Timers → Option Kernel
unfolding awake
turn_away r k none = none
turn_away r k (some t) =
    let k1 = awake (set_proc (record k { timers = t }) r (record (k.proc r) { psem = none })) r in
    some (set_proc k1 r (record (k1.proc r) { retreg = some e_mrt_exiting }))

unfoldable pub turn_removed : ℕ → ℕ → Kernel → Option Semaphore → Option Kernel
unfolding stop_any turn_away
turn_removed s r k none = none
turn_removed s r k (some v) =
    let k1 = set_sem k s v in turn_away r k1 (stop_any k1.timers (k1.proc r).ipcvt)

-- The inner loop of `MRT_sem_empty`, with fuel.
unfoldable pub drain : ℕ → ℕ → Kernel → Option Kernel
unfolding sproc_pick sproc_rmv turn_removed
drain zero s k = none
drain (suc fuel) s k = elim (sproc_pick (k.sem s)) [
  | none ↦ some k
  | some r ↦ elim (turn_removed s r k (sproc_rmv (k.sem s) r (k.proc r))) [
    | none ↦ none
    | some k' ↦ drain fuel s k'
  ]
]

unfoldable pub empty_loop : List ℕ → Kernel → Option Kernel
unfolding drain
empty_loop [] k = some k
empty_loop (s ∷ rest) k = elim (drain (suc (k.sem s).plist.in_q) s k) [
  | none ↦ none
  | some k' ↦ empty_loop rest k'
]

-- `MRT_sem_empty`
unfoldable pub sem_empty : Kernel → ℕ → Option Kernel
unfolding empty_loop
sem_empty k r = empty_loop (k.proc r).salloc_l k
