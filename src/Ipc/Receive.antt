-- ===== src/Ipc/Receive.antt =====
-- src/kernel/mrtmsg.c: `rtk_receive`, the kernel call that receives a message.
use minix4rt.Base.{ℕ, true, false, ◌&&◌, Option, none, some, ◌==◌, if◌then◌else◌}
use minix4rt.Rcode.{ok, e_try_again, e_bad_proc, e_mrt_badptype}
use minix4rt.Messages.{Source, any_proc, only, mqe_rmv, mqe_free, mqe_pick}
use minix4rt.Kernel.{Kernel, set_proc, inc, is_rtready, rdy_q_app, rdy_q_rmv, nowait}
use minix4rt.Kernel.Outcome.{Outcome, next, ret, ◌>>=◌}
use minix4rt.Ipc.{
  IpcArgs, mt_request, mt_rqrcv, set_msgq, slot_of, points_to, vt_stop, with_queue, copy_hdr,
  copy_out,
}
use minix4rt.Ipc.Send.{timeout_after}

-- MRT_ACT_RCVFR
abbrev pub act_rcvfr : ℕ
act_rcvfr = 6

-- The tests of the process from which a message is wanted.
unfoldable pub check_source : Source → ℕ → Kernel → Outcome
check_source any_proc pid k = next k
check_source (only p) pid k =
    if (k.proc p).is_process
    then (if (k.proc p).pid == pid then next k else ret e_mrt_badptype k)
    else ret e_bad_proc k

-- A process that waits for a message from any process points to itself.
abbrev pub awaited : Kernel → Source → ℕ
awaited k any_proc = k.running
awaited k (only p) = p

unfoldable pub wait_message : IpcArgs → Source → Kernel → Outcome
unfolding rdy_q_rmv
wait_message ipc source k = ret ok (
    rdy_q_rmv
      (set_proc k k.running (record (k.proc k.running) {
        mbx_rcv = true;
        pfrom = some (awaited k source);
        pmsg = ipc.msg;
        pmhdr = ipc.hdr;
      }))
      k.running)

-- There is no message. The parameter of the timer is the index of the queue.
unfoldable pub receive_none : IpcArgs → Source → ℕ → Kernel → Outcome
unfolding timeout_after wait_message
receive_none ipc source q k =
    if ipc.timeout == nowait
    then ret e_try_again k
    else timeout_after ipc.timeout act_rcvfr q k >>= wait_message ipc source

-- A sender `s` that waits until the running process receives goes on; the sender of a request that
-- waits for an answer only waits for that.
unfoldable pub sent : ℕ → Kernel → Kernel
sent s k = set_proc k s (record (k.proc s) { mbx_snd = false; pto = none })

unfoldable pub make_ready : ℕ → Kernel → Outcome
unfolding is_rtready rdy_q_app
make_ready s k = if is_rtready (k.proc s) then next (rdy_q_app k s) else next k

unfoldable pub resume : ℕ → Kernel → Outcome
unfolding vt_stop sent make_ready
resume s k = vt_stop (k.proc s).ipcvt k >>= λ k1. make_ready s (sent s k1)

unfoldable pub release_sender : ℕ → ℕ → Kernel → Outcome
unfolding resume sent
release_sender mtype s k =
    if (mtype == mt_request) && points_to (k.proc s).pto k.running
    then resume s k
    else if (mtype == mt_rqrcv) && points_to (k.proc s).pto k.running
    then next (sent s k)
    else next k

-- The entry `x` leaves the queue and is free.
unfoldable pub drop_entry : ℕ → ℕ → Kernel → Kernel
unfolding mqe_rmv mqe_free
drop_entry q x k =
    let k1 = set_msgq k q (mqe_rmv (k.messages.msgq q) x (k.messages.mqe x).priority) in
    record k1 { messages = mqe_free k1.messages x }

unfoldable pub received : ℕ → ℕ → Kernel → Outcome
unfolding drop_entry
received q x k =
    let k1 = drop_entry q x k in
    ret ok (
      set_proc k1 k1.running
        (record (k1.proc k1.running) { msgrcvd = inc (k1.proc k1.running).msgrcvd }))

unfoldable pub release_source : ℕ → Kernel → Outcome
unfolding release_sender
release_source x k = release_sender (k.messages.mqe x).mtype (slot_of k (k.messages.mqe x).src_nr) k

unfoldable pub receive_entry : IpcArgs → ℕ → ℕ → Kernel → Outcome
unfolding copy_out copy_hdr release_source received
receive_entry ipc q x k =
    copy_out k.running ipc.msg (k.messages.m_u x) k
    >>= copy_hdr k.running ipc.hdr (k.messages.mqe x)
    >>= release_source x
    >>= received q x

unfoldable pub receive_picked : IpcArgs → Source → ℕ → Option ℕ → Kernel → Outcome
unfolding receive_none receive_entry
receive_picked ipc source q none k = receive_none ipc source q k
receive_picked ipc source q (some x) k = receive_entry ipc q x k

unfoldable pub receive_from : IpcArgs → Source → ℕ → Kernel → Outcome
unfolding mqe_pick receive_picked
receive_from ipc source q k =
    receive_picked ipc source q (mqe_pick k.hardware k.messages.mqe (k.messages.msgq q) source) k

unfoldable pub rtk_receive : IpcArgs → Source → Kernel → Outcome
unfolding check_source with_queue receive_from
rtk_receive ipc source k = check_source source ipc.pid k >>= λ k1.
    with_queue (k1.proc k1.running).pmq (receive_from ipc source) k1
