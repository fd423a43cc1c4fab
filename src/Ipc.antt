-- ===== src/Ipc.antt =====
-- src/kernel/mrtmsg.c, the second part: the parts of which the kernel calls for messages consist. The
-- calls themselves are in the children. A message goes straight into the memory of a process that
-- waits for it, or into an entry of the message queue of the destination. The memory of processes is
-- that of the module Kernel: messages and headers do not overlap there.
pub mod Send
pub mod Receive
pub mod Quiet
pub mod Direct
use minix4rt.Base.{
  ℕ, zero, suc, ◌+◌, ◌%◌, ◌^◌, max, Bool, true, false, ◌&&◌, ◌||◌, Option, none, some, List, [],
  ◌∷◌, ◌==◌, if◌then◌else◌, update,
}
use minix4rt.Plist.{Plist}
use minix4rt.Vtimer.{Vtimer, Timers, vtimer_ins}
use minix4rt.Vtimer.Handlers.{vtimer_stop}
use minix4rt.Messages.{Header, Payload, Messages, MsgQueue, mqe_alloc, mqe_app}
use minix4rt.Rcode.{
  Rcode, ok, e_mrt_mqfull, e_bad_proc, e_bad_dest, e_mrt_badptype, e_mrt_nomqent, einval,
}
use minix4rt.Kernel.{Kernel, Proc, Buffer, msg_buf, hdr_buf, set_proc, inc, is_rtready, rdy_q_app}
use minix4rt.Kernel.Inherit.{inherit}
use minix4rt.Kernel.Outcome.{Outcome, next, ret, fault, ◌>>=◌, lift}

-- MT_UPRQST to MT_RQRCV
abbrev pub mt_uprqst : ℕ
mt_uprqst = 1

abbrev pub mt_request : ℕ
mt_request = 2

abbrev pub mt_arequest : ℕ
mt_arequest = 3

abbrev pub mt_reply : ℕ
mt_reply = 4

abbrev pub mt_signal : ℕ
mt_signal = 5

abbrev pub mt_rqrcv : ℕ
mt_rqrcv = 6

-- `mrt_ipc_t`, without the number of the other process, which is an argument of the calls. `msg`, `msg2`
-- and `hdr` are addresses of the caller.
pub record IpcArgs : Type 0 where
  pub pid : ℕ
  pub msg : ℕ
  pub msg2 : ℕ
  pub hdr : ℕ
  pub timeout : ℕ
  pub priority : ℕ

abbrev pub set_msgq : Kernel → ℕ → MsgQueue → Kernel
set_msgq k q mq = record k { messages = record k.messages { msgq = update k.messages.msgq q mq } }

-- The number of the process in a slot, `none` for HARDWARE; and the slot of a number.
abbrev pub nr_of : Kernel → ℕ → Option ℕ
nr_of k r = if r == k.hardware then none else some r

abbrev pub slot_of : Kernel → Option ℕ → ℕ
slot_of k none = k.hardware
slot_of k (some r) = r

abbrev pub points_to : Option ℕ → ℕ → Bool
points_to none r = false
points_to (some p) r = p == r

-- The timers after a change that may be a fault.
unfoldable pub set_timers : Kernel → Option Timers → Outcome
set_timers k none = fault
set_timers k (some t) = next (record k { timers = t })

-- VTSET on the timer that a pointer names.
unfoldable pub vt_set : Option ℕ → ℕ → ℕ → ℕ → ℕ → ℕ → Kernel → Outcome
unfolding set_timers
vt_set none period limit action param priority k = fault
vt_set (some v) period limit action param priority k =
    let vt = record (k.timers.vtimer v) {
      period = period;
      limit = limit;
      action = action;
      param = param;
      priority = priority;
    } in
    set_timers k (vtimer_ins (record k.timers { vtimer = update k.timers.vtimer v vt }) v)

-- `MRT_vtimer_stop` on the timer that a pointer names.
unfoldable pub vt_stop : Option ℕ → Kernel → Outcome
unfolding set_timers
vt_stop none k = fault
vt_stop (some v) k = set_timers k (vtimer_stop k.timers v)

-- The field `param` of the timer that a pointer names.
unfoldable pub vt_param : Option ℕ → ℕ → Kernel → Outcome
vt_param none param k = fault
vt_param (some v) param k =
    let vt = record (k.timers.vtimer v) { param = param } in
    next (record k { timers = record k.timers { vtimer = update k.timers.vtimer v vt } })

-- The queue that a pointer names.
unfoldable pub with_queue : Option ℕ → (ℕ → Kernel → Outcome) → Kernel → Outcome
with_queue none go k = fault
with_queue (some q) go k = go q k

-- The tests of the destination `d`; `go` is what follows, with the queue of the destination.
unfoldable pub check_full : (ℕ → Kernel → Outcome) → ℕ → Kernel → Outcome
check_full go q k =
    if (k.messages.msgq q).plist.in_q == (k.messages.msgq q).size
    then ret e_mrt_mqfull k
    else go q k

unfoldable pub check_queue : ℕ → (ℕ → Kernel → Outcome) → Kernel → Outcome
unfolding with_queue check_full
check_queue d go k = with_queue (k.proc d).pmq (check_full go) k

unfoldable pub check_dest : ℕ → ℕ → (ℕ → Kernel → Outcome) → Kernel → Outcome
unfolding check_queue
check_dest d pid go k =
    if (k.proc d).is_process
    then (if (k.proc d).pid == pid
        then (if (k.proc d).realtime then check_queue d go k else ret e_mrt_badptype k)
        else ret e_bad_dest k)
    else ret e_bad_proc k

-- Whether the destination waits for a message of the running process, or of any process.
unfoldable pub is_waiting : Kernel → ℕ → Bool
is_waiting k d =
    (k.proc d).mbx_rcv && (points_to (k.proc d).pfrom k.running || points_to (k.proc d).pfrom d)

-- The counters of messages and of the messages of the process `src`.
unfoldable pub stamp : ℕ → Kernel → Kernel
stamp src k =
    set_proc (record k { mess_count = inc k.mess_count }) src
      (record (k.proc src) { msgsent = inc (k.proc src).msgsent })

-- The header of a message, after the counters are increased.
unfoldable pub header_of : Kernel → ℕ → ℕ → ℕ → ℕ → ℕ → Header
header_of k src d mtype prty deadline = record {
  src_nr = nr_of k src;
  src_pid = some (k.proc src).pid;
  dst_nr = nr_of k d;
  dst_pid = some (k.proc d).pid;
  mtype = mtype;
  mid = k.mess_count;
  seqno = (k.proc src).msgsent;
  tstamp = k.ticks;
  priority = prty % 256;
  deadline = deadline;
}

-- USR2USR of a message of the running process; only the source of the copy is tested.
unfoldable pub copy_msg : ℕ → ℕ → Kernel → Outcome
copy_msg d msg k =
    if k.numap k.running msg msg_buf == 0
    then ret einval k
    else next (record k {
      user_msg =
          update k.user_msg (k.numap d (k.proc d).pmsg msg_buf)
            (k.user_msg (k.numap k.running msg msg_buf));
    })

-- KRN2USR of a header to the address `hdr` of the process `d`.
unfoldable pub copy_hdr : ℕ → ℕ → Header → Kernel → Outcome
copy_hdr d hdr h k =
    if k.numap d hdr hdr_buf == 0
    then ret einval k
    else next (record k { user_hdr = update k.user_hdr (k.numap d hdr hdr_buf) h })

-- KRN2USR of a payload to the address `msg` of the process `d`.
unfoldable pub copy_out : ℕ → ℕ → Payload → Kernel → Outcome
copy_out d msg text k =
    if k.numap d msg msg_buf == 0
    then ret einval k
    else next (record k { user_msg = update k.user_msg (k.numap d msg msg_buf) text })

-- USR2KRN of a message of the running process into the entry `x`.
unfoldable pub copy_in : ℕ → ℕ → Kernel → Outcome
copy_in x msg k =
    if k.numap k.running msg msg_buf == 0
    then ret einval k
    else next (record k {
      messages = record k.messages {
        m_u = update k.messages.m_u x (k.user_msg (k.numap k.running msg msg_buf));
      };
    })

-- The statistics of a queue that a message passes by.
unfoldable pub count_direct : ℕ → Kernel → Kernel
count_direct q k = set_msgq k q (record (k.messages.msgq q) {
  delivered = inc (k.messages.msgq q).delivered;
  enqueued = inc (k.messages.msgq q).enqueued;
})

unfoldable pub raise_max : ℕ → Kernel → Kernel
raise_max q k =
    let mq = k.messages.msgq q in
    set_msgq k q (record mq {
      plist = record mq.plist { max_in_q = max mq.plist.max_in_q (mq.plist.in_q + 1) };
    })

-- The process does not wait for a message any more.
unfoldable pub unblock : ℕ → Kernel → Kernel
unfolding is_rtready rdy_q_app
unblock d k =
    let k1 =
      set_proc k d
        (record (k.proc d) { msgrcvd = inc (k.proc d).msgrcvd; pfrom = none; mbx_rcv = false }) in
    if is_rtready (k1.proc d) then rdy_q_app k1 d else k1

-- A message goes straight to the waiting process `d`, whose queue is `q`.
unfoldable pub deliver : ℕ → ℕ → ℕ → Header → Kernel → Outcome
unfolding copy_msg copy_hdr count_direct raise_max unblock vt_stop
deliver d q msg h k = copy_msg d msg k >>= (λ k1. copy_hdr d (k1.proc d).pmhdr h k1) >>= λ k2.
    let k3 = unblock d (raise_max q (count_direct q k2)) in vt_stop (k3.proc d).ipcvt k3

-- A free entry, without which the answer is E_MRT_NOMQENT.
unfoldable pub entry_taken : (ℕ → Kernel → Outcome) → Kernel → Option ℕ × Messages → Outcome
entry_taken go k (none, s) = ret e_mrt_nomqent k
entry_taken go k (some x, s) = go x (record k { messages = s })

unfoldable pub with_entry : (ℕ → Kernel → Outcome) → Kernel → Outcome
unfolding mqe_alloc entry_taken
with_entry go k = entry_taken go k (mqe_alloc k.messages)

unfoldable pub set_header : ℕ → Header → Kernel → Kernel
set_header x h k = record k { messages = record k.messages { mqe = update k.messages.mqe x h } }

-- The entry `x` is appended to the queue `q`, `full` if there is no room.
unfoldable pub entry_put : ℕ → (Kernel → Outcome) → Kernel → Rcode × MsgQueue → Outcome
entry_put q full k (ok, mq) = next (set_msgq k q mq)
entry_put q full k (c, mq) = full k

unfoldable pub append_entry : ℕ → ℕ → (Kernel → Outcome) → Kernel → Outcome
unfolding mqe_app entry_put
append_entry q x full k =
    entry_put q full k (mqe_app (k.messages.msgq q) x (k.messages.mqe x).priority)

abbrev pub panic : Kernel → Outcome
panic k = fault

-- The message of the running process goes into the entry `x` and the queue `q`; a full queue is a
-- panic.
unfoldable pub post : ℕ → ℕ → ℕ → Kernel → Outcome
unfolding copy_in append_entry
post q x msg k = copy_in x msg k >>= append_entry q x panic

-- The end of a call: the destination inherits a priority if its queue says so.
unfoldable pub inherit_to : ℕ → ℕ → ℕ → ℕ → Kernel → Outcome
unfolding inherit
inherit_to fuel prty d q k =
    if (k.messages.msgq q).prty_inherit then lift (inherit fuel prty (some d) k) else next k

abbrev pub return_ok : Kernel → Outcome
return_ok k = ret ok k
