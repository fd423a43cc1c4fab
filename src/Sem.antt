-- ===== src/Sem.antt =====
-- src/kernel/mrtsem.c: the semaphores of the RT-kernel, on the state of the module Kernel. A panic, a
-- dereferenced NULL and fuel that runs out are `none`.
pub mod Value
pub mod Up
pub mod Free
use minix4rt.Base.{
  ℕ, zero, suc, ◌+◌, ◌-◌, ◌%◌, ◌^◌, min, Bool, true, false, not, ◌&&◌, ◌||◌, Option, none, some,
  List, [], ◌∷◌, ◌++◌, ltb, leb, ◌==◌, if◌then◌else◌, remove, has, update,
}
use minix4rt.Plist.{
  Plist, plist_rst, plist_app, plist_ins, plist_rmv, plist_get, pri_highest, pri_lowest,
}
use minix4rt.Vtimer.{Vtimer, Timers, vtimer_ins}
use minix4rt.Vtimer.Handlers.{vtimer_stop}
use minix4rt.Rcode.{Rcode, ok, e_mrt_badsem, e_try_again}
use minix4rt.Kernel.{
  Buffer, Kernel, Proc, Semaphore, dec, forever, hdr_buf, inc, is_rtready, msg_buf, nowait,
  rdy_q_app, rdy_q_ins, rdy_q_rmv, requeue, set_proc, set_sem, sproc_pick,
}
use minix4rt.Kernel.Inherit.{
  disinherit, inherit, inherit_blocked, inherit_step, mq_prty, next_heir, pass_on, sem_prty_loop,
  set_prty,
}

abbrev pub nr_sem : ℕ
nr_sem = 16

abbrev pub act_down : ℕ
act_down = 12

-- The flags are reset, the list links are in no list, and the counts are 0.
unfoldable pub sem_rst : Semaphore
sem_rst = record {
  value = 0;
  prty_order = false;
  prty_inherit = false;
  mutex = false;
  owner = none;
  ups = 0;
  downs = 0;
  carrier = none;
  plist = plist_rst;
}

-- The loop of `MRT_spool_init` from semaphore `i`, with the rounds that are left.
unfoldable pub spool_loop : ℕ → ℕ → Kernel → Kernel
unfolding sem_rst
spool_loop zero i k = k
spool_loop (suc n) i k =
    spool_loop n (suc i) (record (set_sem k i sem_rst) { sfree_l = k.sfree_l ++ (i ∷ []) })

unfoldable pub spool_init : Kernel → Kernel
unfolding spool_loop
spool_init k = spool_loop nr_sem 0 (record k { sfree_l = [] })

-- The owner is the process `r`.
unfoldable pub sem_alloc : Kernel → ℕ → Option ℕ × Kernel
sem_alloc k r = elim k.sfree_l [
  | [] ↦ (none, k)
  | s ∷ rest ↦ (
    some s,
    set_proc (set_sem (record k { sfree_l = rest }) s (record (k.sem s) { owner = some r })) r
        (record (k.proc r) { salloc_l = (k.proc r).salloc_l ++ (s ∷ []) }),
  )
]

unfoldable pub sem_free : Kernel → ℕ → ℕ → Kernel
unfolding sem_rst
sem_free k r s =
    record (set_sem (set_proc k r (record (k.proc r) { salloc_l = remove s (k.proc r).salloc_l })) s
      sem_rst) { sfree_l = k.sfree_l ++ (s ∷ []) }

-- The list of the semaphore that a process of a priority waits in.
unfoldable pub sproc_pty : Semaphore → Proc → ℕ
sproc_pty s p = if s.prty_order then p.priority else pri_highest

unfoldable pub sproc_app : Semaphore → ℕ → Proc → Semaphore
unfolding sproc_pty
sproc_app s r p = record s { plist = plist_app s.plist r (sproc_pty s p) }

unfoldable pub sproc_rmv : Semaphore → ℕ → Proc → Option Semaphore
unfolding sproc_pty
sproc_rmv s r p =
    if s.plist.in_q == 0
    then none
    else some (record s { plist = plist_rmv s.plist r (sproc_pty s p) })

abbrev pub is_negative : ℕ → Bool
is_negative v = leb (2 ^ 31) v

-- The end of `MRT_semup`.
unfoldable pub count_up : Kernel → ℕ → Kernel
count_up k s =
    set_sem k s (record (k.sem s) { ups = inc (k.sem s).ups; value = inc (k.sem s).value })

-- The semaphore leaves the list of the running process, in which it should be.
abbrev pub drop_lock : Kernel → ℕ → Kernel
drop_lock k s =
    record (set_proc k k.running
      (record (k.proc k.running) { slock_l = remove s (k.proc k.running).slock_l })) {
        stray_lock = k.stray_lock || not (has s (k.proc k.running).slock_l);
      }

-- A mutex goes from the running process to the process `r`.
unfoldable pub hand_over : Kernel → ℕ → ℕ → Option Kernel
unfolding disinherit
hand_over k s r =
    let k1 = drop_lock k s in
    let k2 = set_sem k1 s (record (k1.sem s) { carrier = some r }) in
    let k3 = set_proc k2 r (record (k2.proc r) { slock_l = (k2.proc r).slock_l ++ (s ∷ []) }) in
    if (k3.sem s).prty_inherit then disinherit k3 k3.running else some k3

-- The end of the wake-up of the process `r`.
unfoldable pub awake : Kernel → ℕ → Kernel
unfolding is_rtready rdy_q_app
awake k r =
    let k1 = set_proc k r (record (k.proc r) { sem_down = false }) in
    if is_rtready (k1.proc r) then rdy_q_app k1 r else k1

unfoldable pub map_kernel : (Kernel → Kernel) → Option Kernel → Option Kernel
map_kernel f none = none
map_kernel f (some k) = some (f k)

unfoldable pub no_wait : Kernel → ℕ → Option Timers → Option Kernel
no_wait k r none = none
no_wait k r (some t) =
    some (set_proc (record k { timers = t }) r (record (k.proc r) { psem = none }))

-- The timer of the process `r` is stopped; the process does not wait any more.
unfoldable pub stop_timer : Kernel → ℕ → Option ℕ → Option Kernel
unfolding no_wait
stop_timer k r none = none
stop_timer k r (some v) = no_wait k r (vtimer_stop k.timers v)

unfoldable pub release : ℕ → ℕ → Option Kernel → Option Kernel
unfolding hand_over awake map_kernel
release s r none = none
release s r (some k) =
    map_kernel (λ k1. awake k1 r) (if (k.sem s).mutex then hand_over k s r else some k)

unfoldable pub wake_removed : Kernel → ℕ → ℕ → Option Semaphore → Option Kernel
unfolding stop_timer release
wake_removed k s r none = none
wake_removed k s r (some v) = release s r (stop_timer (set_sem k s v) r (k.proc r).ipcvt)

-- The wake-up of the first process that waits.
unfoldable pub wake : Kernel → ℕ → Option ℕ → Option Kernel
unfolding sproc_rmv wake_removed
wake k s none = none
wake k s (some r) = wake_removed k s r (sproc_rmv (k.sem s) r (k.proc r))

-- A mutex that nobody waits for is left by the running process.
unfoldable pub leave : Kernel → ℕ → Kernel
leave k s =
    if (k.sem s).value == 0 && (k.sem s).mutex
    then set_sem (drop_lock k s) s (record (k.sem s) { carrier = none })
    else k

unfoldable pub with_code : Rcode → Option Kernel → Option (Rcode × Kernel)
with_code c none = none
with_code c (some k) = some (c, k)

unfoldable pub up_owned : Kernel → ℕ → Option ℕ → Option (Rcode × Kernel)
unfolding sproc_pick wake leave count_up map_kernel with_code
up_owned k s none = some (e_mrt_badsem, k)
up_owned k s (some _) = with_code ok (
    map_kernel (λ k1. count_up k1 s)
      (if is_negative (k.sem s).value then wake k s (sproc_pick (k.sem s)) else some (leave k s)))

-- `MRT_semup`
unfoldable pub semup : Kernel → ℕ → Option (Rcode × Kernel)
unfolding up_owned
semup k s = up_owned k s (k.sem s).owner

-- The end of `MRT_semdown`.
unfoldable pub count_down : Kernel → ℕ → Kernel
count_down k s =
    set_sem k s (record (k.sem s) { downs = inc (k.sem s).downs; value = dec (k.sem s).value })

-- VTSET with MRT_ACT_DOWN on the timer of the running process.
unfoldable pub set_timer : Kernel → ℕ → ℕ → Option ℕ → Option Kernel
set_timer k s timeout none = none
set_timer k s timeout (some v) =
    let vt = record (k.timers.vtimer v) {
      period = timeout;
      limit = 1;
      action = act_down;
      param = s;
      priority = (k.proc k.running).priority;
    } in
    elim (vtimer_ins (record k.timers { vtimer = update k.timers.vtimer v vt }) v) [
      | none ↦ none
      | some t ↦ some (record k { timers = t })
    ]

-- The running process leaves the ready queue and waits for the semaphore.
unfoldable pub enqueue : ℕ → Kernel → Kernel
unfolding rdy_q_rmv sproc_app
enqueue s k =
    let k1 = set_proc k k.running (record (k.proc k.running) { sem_down = true; psem = some s }) in
    let k2 = rdy_q_rmv k1 k1.running in
    set_sem k2 s (sproc_app (k2.sem s) k2.running (k2.proc k2.running))

unfoldable pub lend : ℕ → ℕ → Option Kernel → Option Kernel
unfolding inherit enqueue
lend fuel s none = none
lend fuel s (some k) =
    let k1 = enqueue s k in
    if (k1.sem s).prty_inherit
    then inherit fuel (k1.proc k1.running).priority (k1.sem s).carrier k1
    else some k1

-- The running process becomes the carrier of a free mutex.
unfoldable pub carry : Kernel → ℕ → Kernel
carry k s =
    if (k.sem s).value == 1 && (k.sem s).mutex
    then set_proc (set_sem k s (record (k.sem s) { carrier = some k.running })) k.running
        (record (k.proc k.running) { slock_l = (k.proc k.running).slock_l ++ (s ∷ []) })
    else k

-- The value of a taken semaphore is at most 0.
abbrev pub is_taken : ℕ → Bool
is_taken v = is_negative v || v == 0

unfoldable pub down_taken : ℕ → Kernel → ℕ → ℕ → Option (Rcode × Kernel)
unfolding count_down set_timer lend map_kernel with_code
down_taken fuel k s timeout =
    if timeout == nowait
    then some (e_try_again, k)
    else with_code ok (
        map_kernel (λ k1. count_down k1 s)
          (lend fuel s (
            if timeout == forever then some k else set_timer k s timeout (k.proc k.running).ipcvt)))

unfoldable pub down_owned : ℕ → Kernel → ℕ → ℕ → Option ℕ → Option (Rcode × Kernel)
unfolding down_taken count_down carry
down_owned fuel k s timeout none = some (e_mrt_badsem, k)
down_owned fuel k s timeout (some _) =
    if is_taken (k.sem s).value
    then down_taken fuel k s timeout
    else some (ok, count_down (carry k s) s)

-- `MRT_semdown`, with fuel for the recursion of `MRT_inherit`.
unfoldable pub semdown : ℕ → Kernel → ℕ → ℕ → Option (Rcode × Kernel)
unfolding down_owned
semdown fuel k s timeout = down_owned fuel k s timeout (k.sem s).owner
