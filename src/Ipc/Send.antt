-- ===== src/Ipc/Send.antt =====
-- src/kernel/mrtmsg.c: the kernel calls that send a message. `d` is the slot of the destination and
-- `fuel` that of `MRT_inherit`. A call answers with a return code and the new state, or faults.
use minix4rt.Base.{ℕ, Bool, true, false, ◌&&◌, some, ◌==◌, if◌then◌else◌}
use minix4rt.Messages.{Header}
use minix4rt.Rcode.{e_try_again, e_bad_proc, e_mrt_badptype, e_mrt_mqfull, einval}
use minix4rt.Kernel.{Kernel, set_proc, rdy_q_rmv, nowait, forever}
use minix4rt.Kernel.Inherit.{disinherit}
use minix4rt.Kernel.Outcome.{Outcome, next, ret, fault, no_rounds, ◌>>=◌, lift}
use minix4rt.Ipc.{
  IpcArgs, mt_request, mt_arequest, mt_reply, mt_uprqst, mt_signal, mt_rqrcv, points_to, vt_set,
  vt_stop, vt_param, with_queue, check_queue, check_dest, is_waiting, stamp, header_of, copy_hdr,
  count_direct, unblock, deliver, with_entry, set_header, append_entry, post, inherit_to, return_ok,
}

-- MRT_ACT_SNDTO and MRT_ACT_SNDRCV
abbrev pub act_sndto : ℕ
act_sndto = 5

abbrev pub act_sndrcv : ℕ
act_sndrcv = 10

-- -1 as an int
abbrev pub no_entry : ℕ
no_entry = 4294967295

-- What a call that does not wait has in common with the others: the message goes straight to a
-- process that waits for it.
unfoldable pub send_direct : ℕ → ℕ → ℕ → ℕ → ℕ → ℕ → Kernel → Outcome
unfolding stamp header_of deliver
send_direct mtype prty deadline msg d q k =
    let k1 = stamp k.running k in deliver d q msg (header_of k1 k1.running d mtype prty deadline) k1

-- The entry `x` gets the header and the message, and stands in the queue afterwards.
unfoldable pub fill_entry : ℕ → ℕ → ℕ → ℕ → ℕ → ℕ → ℕ → Kernel → Outcome
unfolding stamp header_of set_header post
fill_entry mtype prty deadline msg d q x k =
    let k1 = stamp k.running k in
    post q x msg (set_header x (header_of k1 k1.running d mtype prty deadline) k1)

unfoldable pub send_queued : ℕ → ℕ → ℕ → ℕ → ℕ → ℕ → Kernel → Outcome
unfolding with_entry fill_entry
send_queued mtype prty deadline msg d q k = with_entry (fill_entry mtype prty deadline msg d q) k

unfoldable pub send : Bool → ℕ → ℕ → ℕ → ℕ → ℕ → ℕ → Kernel → Outcome
unfolding send_direct send_queued
send true mtype prty deadline msg d q k = send_direct mtype prty deadline msg d q k
send false mtype prty deadline msg d q k = send_queued mtype prty deadline msg d q k

-- The destination inherits the priority of the running process.
unfoldable pub inherit_own : ℕ → ℕ → ℕ → Kernel → Outcome
unfolding inherit_to
inherit_own fuel d q k = inherit_to fuel (k.proc k.running).priority d q k

-- `rtk_arqst`
unfoldable pub arqst_checked : ℕ → IpcArgs → ℕ → ℕ → Kernel → Outcome
unfolding is_waiting send inherit_own
arqst_checked fuel ipc d q k =
    let p = k.proc k.running in
    send (is_waiting k d) mt_arequest p.priority p.deadline ipc.msg d q k
    >>= inherit_own fuel d q
    >>= return_ok

unfoldable pub rtk_arqst : ℕ → IpcArgs → ℕ → Kernel → Outcome
unfolding check_dest arqst_checked
rtk_arqst fuel ipc d k = check_dest d ipc.pid (arqst_checked fuel ipc d) k

-- `rtk_uprqst`, with the priority of the user
unfoldable pub uprqst_checked : ℕ → IpcArgs → ℕ → ℕ → Kernel → Outcome
unfolding is_waiting send inherit_to
uprqst_checked fuel ipc d q k =
    send (is_waiting k d) mt_uprqst ipc.priority 0 ipc.msg d q k
    >>= inherit_to fuel ipc.priority d q
    >>= return_ok

unfoldable pub rtk_uprqst : ℕ → IpcArgs → ℕ → Kernel → Outcome
unfolding check_dest uprqst_checked
rtk_uprqst fuel ipc d k = check_dest d ipc.pid (uprqst_checked fuel ipc d) k

-- `rtk_sign`, with the priority of the destination
unfoldable pub sign_checked : IpcArgs → ℕ → ℕ → Kernel → Outcome
unfolding is_waiting send
sign_checked ipc d q k =
    let p = k.proc d in
    send (is_waiting k d) mt_signal p.priority p.deadline ipc.msg d q k >>= return_ok

unfoldable pub rtk_sign : IpcArgs → ℕ → Kernel → Outcome
unfolding check_dest sign_checked
rtk_sign ipc d k = check_dest d ipc.pid (sign_checked ipc d) k

-- `rtk_reply`: the running process gives an inherited priority back, also where it is refused.
unfoldable pub give_back : Kernel → Outcome
unfolding with_queue disinherit
give_back k =
    with_queue (k.proc k.running).pmq
      (λ q k1.
        if (k1.messages.msgq q).prty_inherit then lift (disinherit k1 k1.running) else next k1)
      k

unfoldable pub refuse : Outcome → Outcome
unfolding give_back
refuse (next k) = next k
refuse (ret c k) = give_back k >>= ret c
refuse fault = fault
refuse no_rounds = no_rounds

unfoldable pub is_awaited : Kernel → ℕ → Bool
is_awaited k d = (k.proc d).mbx_rcv && points_to (k.proc d).pfrom k.running

unfoldable pub reply_checked : IpcArgs → ℕ → ℕ → Kernel → Outcome
unfolding is_awaited send give_back
reply_checked ipc d q k =
    let p = k.proc k.running in
    send (is_awaited k d) mt_reply p.priority p.deadline ipc.msg d q k >>= give_back >>= return_ok

unfoldable pub rtk_reply : IpcArgs → ℕ → Kernel → Outcome
unfolding refuse check_dest with_queue reply_checked
rtk_reply ipc d k = refuse (check_dest d ipc.pid (λ q. next) k) >>= λ k1.
    with_queue (k1.proc d).pmq (reply_checked ipc d) k1

-- `rtk_rqst`: the sender of a request that has to be queued waits until it is received.
unfoldable pub timeout_after : ℕ → ℕ → ℕ → Kernel → Outcome
unfolding vt_set
timeout_after timeout action param k =
    if timeout == forever
    then next k
    else vt_set (k.proc k.running).ipcvt timeout 1 action param (k.proc k.running).priority k

unfoldable pub wait_sent : ℕ → Kernel → Outcome
unfolding rdy_q_rmv
wait_sent d k = next (
    rdy_q_rmv (set_proc k k.running (record (k.proc k.running) { mbx_snd = true; pto = some d }))
      k.running)

unfoldable pub request_entry : IpcArgs → ℕ → ℕ → ℕ → Kernel → Outcome
unfolding fill_entry timeout_after wait_sent
request_entry ipc d q x k =
    let p = k.proc k.running in
    fill_entry mt_request p.priority p.deadline ipc.msg d q x k
    >>= timeout_after ipc.timeout act_sndto x
    >>= wait_sent d

unfoldable pub request : Bool → IpcArgs → ℕ → ℕ → Kernel → Outcome
unfolding send_direct with_entry request_entry
request true ipc d q k =
    let p = k.proc k.running in send_direct mt_request p.priority p.deadline ipc.msg d q k
request false ipc d q k =
    if ipc.timeout == nowait then ret e_try_again k else with_entry (request_entry ipc d q) k

unfoldable pub rqst_checked : ℕ → IpcArgs → ℕ → ℕ → Kernel → Outcome
unfolding is_waiting request inherit_own
rqst_checked fuel ipc d q k =
    request (is_waiting k d) ipc d q k >>= inherit_own fuel d q >>= return_ok

unfoldable pub rtk_rqst : ℕ → IpcArgs → ℕ → Kernel → Outcome
unfolding check_dest rqst_checked
rtk_rqst fuel ipc d k = check_dest d ipc.pid (rqst_checked fuel ipc d) k

-- `rtk_rqrcv`: the sender of a request waits for the answer.
unfoldable pub call_entry : IpcArgs → ℕ → ℕ → ℕ → Kernel → Outcome
unfolding fill_entry vt_param
call_entry ipc d q x k =
    let p = k.proc k.running in
    fill_entry mt_rqrcv p.priority p.deadline ipc.msg d q x k >>= λ k1.
    vt_param (k1.proc k1.running).ipcvt x
      (set_proc k1 k1.running (record (k1.proc k1.running) { mbx_snd = true; pto = some d }))

unfoldable pub call : Bool → IpcArgs → ℕ → ℕ → Kernel → Outcome
unfolding send_direct with_entry call_entry vt_param
call true ipc d q k =
    let p = k.proc k.running in
    send_direct mt_rqrcv p.priority p.deadline ipc.msg d q k >>= λ k1.
    vt_param (k1.proc k1.running).ipcvt no_entry k1
call false ipc d q k = with_entry (call_entry ipc d q) k

unfoldable pub wait_answer : IpcArgs → ℕ → Kernel → Outcome
unfolding rdy_q_rmv
wait_answer ipc d k = next (
    rdy_q_rmv
      (set_proc k k.running (record (k.proc k.running) {
        mbx_rcv = true;
        pfrom = some d;
        pmsg = ipc.msg2;
        pmhdr = ipc.hdr;
      }))
      k.running)

unfoldable pub rqrcv_checked : ℕ → IpcArgs → ℕ → ℕ → Kernel → Outcome
unfolding is_waiting call timeout_after wait_answer inherit_own
rqrcv_checked fuel ipc d q k =
    call (is_waiting k d) ipc d q k
    >>= timeout_after ipc.timeout act_sndrcv 0
    >>= wait_answer ipc d
    >>= inherit_own fuel d q
    >>= return_ok

unfoldable pub rtk_rqrcv : ℕ → IpcArgs → ℕ → Kernel → Outcome
unfolding check_dest rqrcv_checked
rtk_rqrcv fuel ipc d k =
    if ipc.timeout == nowait
    then ret einval k
    else check_dest d ipc.pid (rqrcv_checked fuel ipc d) k

-- `MRT_ksend`: only the header of the message is sent, to the address where the destination last
-- waited.
unfoldable pub kernel_header : ℕ → ℕ → ℕ → ℕ → Kernel → Header
unfolding header_of
kernel_header src prty mtype d k = header_of k src d mtype prty 0

unfoldable pub kernel_direct : ℕ → ℕ → ℕ → ℕ → ℕ → Kernel → Outcome
unfolding stamp kernel_header copy_hdr count_direct unblock vt_stop
kernel_direct src prty mtype d q k =
    let k1 = stamp src k in
    copy_hdr d (k1.proc d).pmhdr (kernel_header src prty mtype d k1) k1 >>= λ k2.
    let k3 = unblock d (count_direct q k2) in vt_stop (k3.proc d).ipcvt k3

unfoldable pub kernel_entry : ℕ → ℕ → ℕ → ℕ → ℕ → ℕ → Kernel → Outcome
unfolding stamp kernel_header copy_hdr set_header append_entry
kernel_entry src prty mtype d q x k =
    let k1 = stamp src k in
    copy_hdr d (k1.proc d).pmhdr (kernel_header src prty mtype d k1)
      (set_header x (kernel_header src prty mtype d k1) k1)
    >>= append_entry q x (ret e_mrt_mqfull)

unfoldable pub kernel_send : Bool → ℕ → ℕ → ℕ → ℕ → ℕ → Kernel → Outcome
unfolding kernel_direct with_entry kernel_entry
kernel_send true src prty mtype d q k = kernel_direct src prty mtype d q k
kernel_send false src prty mtype d q k = with_entry (kernel_entry src prty mtype d q) k

unfoldable pub ksend_checked : ℕ → ℕ → ℕ → ℕ → ℕ → ℕ → Kernel → Outcome
unfolding is_waiting kernel_send inherit_to
ksend_checked fuel src d prty mtype q k =
    kernel_send (is_waiting k d) src prty mtype d q k >>= inherit_to fuel prty d q >>= return_ok

unfoldable pub ksend : ℕ → ℕ → ℕ → ℕ → ℕ → Kernel → Outcome
unfolding check_queue ksend_checked
ksend fuel src d prty mtype k =
    if (k.proc d).is_process
    then (if (k.proc d).realtime
        then check_queue d (ksend_checked fuel src d prty mtype) k
        else ret e_mrt_badptype k)
    else ret e_bad_proc k
