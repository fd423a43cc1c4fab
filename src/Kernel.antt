-- ===== src/Kernel.antt =====
-- The state of the RT-kernel (src/kernel/proc.h, src/kernel/type.h and src/kernel/glo.h): processes, semaphores, the
-- ready queue of src/kernel/mrtproc.c, timers, messages and interrupts. Processes, semaphores, timers and message
-- queues are named by numbers, and NULL and HARDWARE are `none`. A link is its place in the lists. The
-- name and the ceiling priority of a semaphore, which no modelled function reads, are left out. The
-- value of a semaphore is an int of 32 bits in two's complement; the counters of 32 bits wrap.
pub mod Inherit
pub mod Outcome
use minix4rt.Base.{
  ℕ, zero, suc, ◌+◌, ◌-◌, ◌%◌, ◌^◌, min, Bool, true, false, not, ◌&&◌, ◌||◌, Option, none, some,
  List, [], ◌∷◌, ◌++◌, ltb, leb, ◌==◌, if◌then◌else◌, remove, update,
}
use minix4rt.Plist.{
  Plist, plist_rst, plist_app, plist_ins, plist_rmv, plist_get, pri_highest, pri_lowest,
}
use minix4rt.Vtimer.{Timers}
use minix4rt.Messages.{Header, Payload, Messages, Source}
use minix4rt.Irq.{Irqs}
use minix4rt.Rcode.{Rcode}

-- MRT_NOWAIT, and MRT_FOREVER (-1) as an unsigned long.
abbrev pub nowait : ℕ
nowait = 0

abbrev pub forever : ℕ
forever = 4294967295

-- What a buffer in the memory of a process is for.
pub data Buffer : Type 0 where
  msg_buf hdr_buf : Buffer

-- `message` of MINIX: the source is a slot, and the body is the union of the forms, as its words.
pub record Message : Type 0 where
  pub m_source : ℕ
  pub m_type : ℕ
  pub body : List ℕ

-- The status bits of `rt.flags` are the fields `mbx_snd` to `lock_wait`; `stop` is P_STOP,
-- `realtime` MRT_P_REALTIME, `periodic` MRT_P_PERIODIC, `is_user` the test `isuserp` and `is_process`
-- the test `MRT_is_process`; the other
-- bits of `p_flags` are `no_map` to `sig_pending`. `is_task` is the test `istaskp`. `callerq` is the list
-- of the processes that wish to send, and `sig_map` is `p_pending`. `d_vir`, `s_vir` and `s_len` are the
-- bounds of the data and stack segments in clicks. `retreg` is `none` for a value of the return register that the modelled
-- functions do not write. `pmsg` and `pmhdr` are addresses of the process, 0 for NULL.
pub record Proc : Type 0 where
  pub priority : ℕ
  pub baseprty : ℕ
  pub limit : ℕ
  pub scheds : ℕ
  pub mbx_snd : Bool
  pub mbx_rcv : Bool
  pub sleep : Bool
  pub sem_down : Bool
  pub lock_wait : Bool
  pub stop : Bool
  pub ipcvt : Option ℕ
  pub pmq : Option ℕ
  pub pto : Option ℕ
  pub pfrom : Option ℕ
  pub psem : Option ℕ
  pub slock_l : List ℕ
  pub salloc_l : List ℕ
  pub realtime : Bool
  pub is_user : Bool
  pub retreg : Option Rcode
  pub period : ℕ
  pub deadline : ℕ
  pub watchdog : Option ℕ
  pub mdl : ℕ
  pub timestamp : ℕ
  pub maxlat : ℕ
  pub minlax : ℕ
  pub msgsent : ℕ
  pub msgrcvd : ℕ
  pub mq_size : ℕ
  pub mq_flags : ℕ
  pub pvt : Option ℕ
  pub pid : ℕ
  pub is_process : Bool
  pub periodic : Bool
  pub pmsg : ℕ
  pub pmhdr : ℕ
  pub is_task : Bool
  pub no_map : Bool
  pub sending : Bool
  pub receiving : Bool
  pub pending : Bool
  pub sig_pending : Bool
  pub getfrom : Source
  pub sendto : ℕ
  pub callerq : List ℕ
  pub messbuf : ℕ
  pub int_blocked : Bool
  pub int_held : Bool
  pub sig_map : ℕ
  pub d_vir : ℕ
  pub s_vir : ℕ
  pub s_len : ℕ

-- `prty_order`, `prty_inherit` and `mutex` are the flags.
pub record Semaphore : Type 0 where
  pub value : ℕ
  pub prty_order : Bool
  pub prty_inherit : Bool
  pub mutex : Bool
  pub owner : Option ℕ
  pub ups : ℕ
  pub downs : ℕ
  pub carrier : Option ℕ
  pub plist : Plist

-- `running` is `proc_ptr`, `bill` is `bill_ptr`, and `bpip` and `need_sched` are the flags MRT_BPIP
-- and MRT_NEEDSCHED. `wild` is the process that the variable
-- `rp` of `MRT_disinherit`, which is never assigned, happens to point to. `hardware` is the slot of the
-- process table that HARDWARE has. `numap` gives the physical address of an address of a process for
-- a buffer of the size of a message or of a header, 0 where the process has no such memory;
-- `user_msg` and `user_hdr` are the messages and the headers in physical memory. `task_q`, `server_q` and
-- `user_q` are the ready queues of MINIX and `held_q` the queue of held interrupts; `reentered` is the
-- test `k_reenter != 0`; `idle` to `mrttask` are slots. `data_map` is the physical place of an address of
-- the data segment of a process, `message` the MINIX messages there, and `sig_buf` the place of the
-- message that the system task sends to MM. `stray_lock` says that a semaphore was taken out of a list
-- of locked semaphores that it was not in: the pointers and counters of the lists are damaged then, and
-- `slock_l` says nothing of them any more. `stray_timer` says that the link of a timer was reset with
-- another object than the timer, so what the timer does when it expires is not known.
pub record Kernel : Type 0 where
  pub proc : ℕ → Proc
  pub sem : ℕ → Semaphore
  pub sfree_l : List ℕ
  pub rdy_q : Plist
  pub timers : Timers
  pub messages : Messages
  pub irqs : Irqs
  pub running : ℕ
  pub bpip : Bool
  pub wild : ℕ
  pub need_sched : Bool
  pub sys_scheds : ℕ
  pub ticks : ℕ
  pub bill : ℕ
  pub prtylvl : ℕ
  pub idlecount : ℕ
  pub idlelast : ℕ
  pub idlemax : ℕ
  pub mess_count : ℕ
  pub hardware : ℕ
  pub numap : ℕ → ℕ → Buffer → ℕ
  pub user_msg : ℕ → Payload
  pub user_hdr : ℕ → Header
  pub task_q : List ℕ
  pub server_q : List ℕ
  pub user_q : List ℕ
  pub held_q : List ℕ
  pub rtsched : Bool
  pub switching : Bool
  pub reentered : Bool
  pub idle : ℕ
  pub mm : ℕ
  pub fs : ℕ
  pub mrttask : ℕ
  pub sig_procs : ℕ
  pub sig_buf : ℕ
  pub data_map : ℕ → ℕ → ℕ
  pub message : ℕ → Message
  pub stray_lock : Bool
  pub stray_timer : Bool

abbrev pub set_proc : Kernel → ℕ → Proc → Kernel
set_proc k r p = record k { proc = update k.proc r p }

abbrev pub set_sem : Kernel → ℕ → Semaphore → Kernel
set_sem k s v = record k { sem = update k.sem s v }

-- `MRT_is_rtready`
unfoldable pub is_rtready : Proc → Bool
is_rtready p = not (p.mbx_snd || (p.mbx_rcv || (p.sleep || (p.sem_down || p.lock_wait))))

-- A process that has used up its schedules is not appended; the running process is stopped.
unfoldable pub rdy_q_app : Kernel → ℕ → Kernel
rdy_q_app k r =
    if ltb (k.proc r).limit (k.proc r).scheds && ltb 0 (k.proc r).limit
    then set_proc k k.running (record (k.proc k.running) { stop = true })
    else record k { rdy_q = plist_app k.rdy_q r (k.proc r).priority }

unfoldable pub rdy_q_ins : Kernel → ℕ → Kernel
rdy_q_ins k r = record k { rdy_q = plist_ins k.rdy_q r (k.proc r).priority }

unfoldable pub rdy_q_rmv : Kernel → ℕ → Kernel
rdy_q_rmv k r = record k { rdy_q = plist_rmv k.rdy_q r (k.proc r).priority }

-- A ready process goes to the front of the list of another priority.
unfoldable pub requeue : Kernel → ℕ → ℕ → Kernel
unfolding rdy_q_rmv rdy_q_ins
requeue k r prty = rdy_q_ins (set_proc (rdy_q_rmv k r) r (record (k.proc r) { priority = prty })) r

abbrev pub inc : ℕ → ℕ
inc v = (v + 1) % 2 ^ 32

abbrev pub dec : ℕ → ℕ
dec v = (v + 2 ^ 32 - 1) % 2 ^ 32

unfoldable pub sproc_pick : Semaphore → Option ℕ
sproc_pick s = plist_get s.plist
