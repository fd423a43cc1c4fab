-- ===== src/Ipc/Quiet.antt =====
-- What the kernel calls that send a message leave alone when they refuse.
use minix4rt.Base.{ℕ, Bool, true, false, Option, none, some, ◌==◌, if◌then◌else◌, ◌≡◌, refl}
use minix4rt.Messages.{Header, Messages, MsgQueue, mqe_alloc, mqe_app}
use minix4rt.Vtimer.{Timers}
use minix4rt.Vtimer.Handlers.{vtimer_stop}
use minix4rt.Rcode.{
  Rcode, ok, einval, e_try_again, e_bad_proc, e_bad_dest, e_mrt_badptype, e_mrt_mqfull,
}
use minix4rt.Kernel.{Kernel, nowait, forever, msg_buf, hdr_buf}
use minix4rt.Kernel.Outcome.{Outcome, next, ret, fault, no_rounds, ◌>>=◌, lift}
use minix4rt.Ipc.{
  IpcArgs, set_timers, vt_set, vt_stop, vt_param, with_queue, check_full, check_queue, check_dest,
  is_waiting, stamp, header_of, copy_msg, copy_hdr, copy_in, deliver, entry_taken, with_entry,
  set_header, entry_put, append_entry, panic, post, inherit_to, return_ok,
}
use minix4rt.Ipc.Send.{
  send_direct, fill_entry, send_queued, send, inherit_own, arqst_checked, rtk_arqst, uprqst_checked,
  rtk_uprqst, sign_checked, rtk_sign, timeout_after, wait_sent, request_entry, request,
  rqst_checked, rtk_rqst, call_entry, call, wait_answer, rqrcv_checked, rtk_rqrcv,
}

-- A code other than OK and EINVAL goes with the state of before.
abbrev pub Harmless : Rcode → Kernel → Kernel → Type 0
Harmless ok k k' = Unit {0}
Harmless einval k k' = Unit {0}
Harmless c k k' = k' ≡ k

abbrev pub Quiet : Kernel → Outcome → Type 0
Quiet k (next k') = Unit {0}
Quiet k (ret c k') = Harmless c k k'
Quiet k fault = Unit {0}
Quiet k no_rounds = Unit {0}

Quiet-bind :
    (k : Kernel) (o : Outcome) (f : Kernel → Outcome)
    → Quiet k o
    → ((k1 : Kernel) → Quiet k (f k1))
    → Quiet k (o >>= f)
Quiet-bind k (next k1) f h g = g k1
Quiet-bind k (ret c k1) f h g = h
Quiet-bind k fault f h g = tt
Quiet-bind k no_rounds f h g = tt

Quiet-if :
    (k : Kernel) (b : Bool) (x y : Outcome) → Quiet k x → Quiet k y → Quiet k (if b then x else y)
Quiet-if k true x y hx hy = hx
Quiet-if k false x y hx hy = hy

module _ (k : Kernel) where
  set_timers-Quiet : (k1 : Kernel) (o : Option Timers) → Quiet k (set_timers k1 o)
  unfolding set_timers
  set_timers-Quiet k1 none = tt
  set_timers-Quiet k1 (some t) = tt

  vt_stop-Quiet : (o : Option ℕ) (k1 : Kernel) → Quiet k (vt_stop o k1)
  unfolding vt_stop
  vt_stop-Quiet none k1 = tt
  vt_stop-Quiet (some v) k1 = set_timers-Quiet k1 (vtimer_stop k1.timers v)

  vt_set-Quiet : (o : Option ℕ) (a b c e f : ℕ) (k1 : Kernel) → Quiet k (vt_set o a b c e f k1)
  unfolding vt_set
  vt_set-Quiet none a b c e f k1 = tt
  vt_set-Quiet (some v) a b c e f k1 = set_timers-Quiet k1 _

  vt_param-Quiet : (o : Option ℕ) (e : ℕ) (k1 : Kernel) → Quiet k (vt_param o e k1)
  unfolding vt_param
  vt_param-Quiet none e k1 = tt
  vt_param-Quiet (some v) e k1 = tt

  lift-Quiet : (o : Option Kernel) → Quiet k (lift o)
  lift-Quiet none = tt
  lift-Quiet (some k1) = tt

  inherit_to-Quiet : (fuel prty d q : ℕ) (k1 : Kernel) → Quiet k (inherit_to fuel prty d q k1)
  unfolding inherit_to
  inherit_to-Quiet fuel prty d q k1 =
      Quiet-if k (k1.messages.msgq q).prty_inherit _ (next k1) (lift-Quiet _) tt

  deliver-Quiet : (d q msg : ℕ) (h : Header) (k1 : Kernel) → Quiet k (deliver d q msg h k1)
  unfolding deliver copy_msg copy_hdr
  deliver-Quiet d q msg h k1 =
      Quiet-bind k _ _
        (Quiet-bind k _ _
          (Quiet-if k (k1.numap k1.running msg msg_buf == 0) (ret einval k1) _ tt tt)
          (λ k2. Quiet-if k (k2.numap d (k2.proc d).pmhdr hdr_buf == 0) (ret einval k2) _ tt tt))
        (λ k3. vt_stop-Quiet _ _)

  entry_put-Quiet : (q : ℕ) (k1 : Kernel) (o : Rcode × MsgQueue) → Quiet k (entry_put q panic k1 o)
  unfolding entry_put
  entry_put-Quiet q k1 (ok, mq) = tt
  entry_put-Quiet q k1 (c, mq) = tt

  copy_in-Quiet : (x msg : ℕ) (k1 : Kernel) → Quiet k (copy_in x msg k1)
  unfolding copy_in
  copy_in-Quiet x msg k1 = Quiet-if k (k1.numap k1.running msg msg_buf == 0) (ret einval k1) _ tt tt

  append_entry-Quiet : (q x : ℕ) (k1 : Kernel) → Quiet k (append_entry q x panic k1)
  unfolding append_entry
  append_entry-Quiet q x k1 =
      entry_put-Quiet q k1 (mqe_app (k1.messages.msgq q) x (k1.messages.mqe x).priority)

  post-Quiet : (q x msg : ℕ) (k1 : Kernel) → Quiet k (post q x msg k1)
  unfolding post
  post-Quiet q x msg k1 =
      Quiet-bind k (copy_in x msg k1) (append_entry q x panic) (copy_in-Quiet x msg k1)
        (append_entry-Quiet q x)

  fill_entry-Quiet : (t p e msg d q x : ℕ) (k1 : Kernel) → Quiet k (fill_entry t p e msg d q x k1)
  unfolding fill_entry stamp
  fill_entry-Quiet t p e msg d q x k1 =
      post-Quiet q x msg
        (set_header x (header_of (stamp k1.running k1) k1.running d t p e) (stamp k1.running k1))

  with_entry-Quiet :
      (go : ℕ → Kernel → Outcome)
      → ((x : ℕ) (k1 : Kernel) → Quiet k (go x k1))
      → Quiet k (with_entry go k)
  unfolding with_entry entry_taken
  with_entry-Quiet go h = taken (mqe_alloc k.messages)
    where
      taken : (o : Option ℕ × Messages) → Quiet k (entry_taken go k o)
      taken (none, s) = refl
      taken (some x, s) = h x (record k { messages = s })

  send_direct-Quiet : (t p e msg d q : ℕ) (k1 : Kernel) → Quiet k (send_direct t p e msg d q k1)
  unfolding send_direct stamp
  send_direct-Quiet t p e msg d q k1 =
      deliver-Quiet d q msg (header_of (stamp k1.running k1) k1.running d t p e)
        (stamp k1.running k1)

  send-Quiet : (b : Bool) (t p e msg d q : ℕ) → Quiet k (send b t p e msg d q k)
  unfolding send send_queued
  send-Quiet true t p e msg d q = send_direct-Quiet t p e msg d q k
  send-Quiet false t p e msg d q =
      with_entry-Quiet (fill_entry t p e msg d q) (fill_entry-Quiet t p e msg d q)

  timeout_after-Quiet :
      (timeout action param : ℕ) (k1 : Kernel) → Quiet k (timeout_after timeout action param k1)
  unfolding timeout_after
  timeout_after-Quiet timeout action param k1 =
      Quiet-if k (timeout == forever) (next k1) _ tt (vt_set-Quiet _ _ _ _ _ _ k1)

  inherit_own-Quiet : (fuel d q : ℕ) (k1 : Kernel) → Quiet k (inherit_own fuel d q k1)
  unfolding inherit_own
  inherit_own-Quiet fuel d q k1 = inherit_to-Quiet fuel (k1.proc k1.running).priority d q k1

  request_entry-Quiet :
      (ipc : IpcArgs) (d q x : ℕ) (k1 : Kernel) → Quiet k (request_entry ipc d q x k1)
  unfolding request_entry wait_sent
  request_entry-Quiet ipc d q x k1 =
      Quiet-bind k _ (wait_sent d)
        (Quiet-bind k _ (timeout_after ipc.timeout _ x) (fill_entry-Quiet _ _ _ ipc.msg d q x k1)
          (timeout_after-Quiet ipc.timeout _ x))
        (λ k2. tt)

  request-Quiet : (b : Bool) (ipc : IpcArgs) (d q : ℕ) → Quiet k (request b ipc d q k)
  unfolding request
  request-Quiet true ipc d q = send_direct-Quiet _ _ _ ipc.msg d q k
  request-Quiet false ipc d q =
      Quiet-if k (ipc.timeout == nowait) (ret e_try_again k) (with_entry (request_entry ipc d q) k)
        refl (with_entry-Quiet (request_entry ipc d q) (request_entry-Quiet ipc d q))

  call_entry-Quiet : (ipc : IpcArgs) (d q x : ℕ) (k1 : Kernel) → Quiet k (call_entry ipc d q x k1)
  unfolding call_entry
  call_entry-Quiet ipc d q x k1 =
      Quiet-bind k _ _ (fill_entry-Quiet _ _ _ ipc.msg d q x k1) (λ k2. vt_param-Quiet _ x _)

  call-Quiet : (b : Bool) (ipc : IpcArgs) (d q : ℕ) → Quiet k (call b ipc d q k)
  unfolding call
  call-Quiet true ipc d q =
      Quiet-bind k _ _ (send_direct-Quiet _ _ _ ipc.msg d q k) (λ k1. vt_param-Quiet _ _ k1)
  call-Quiet false ipc d q = with_entry-Quiet (call_entry ipc d q) (call_entry-Quiet ipc d q)

  check_dest-Quiet :
      (d pid : ℕ) (go : ℕ → Kernel → Outcome)
      → ((q : ℕ) → Quiet k (go q k))
      → Quiet k (check_dest d pid go k)
  unfolding check_dest check_queue check_full
  check_dest-Quiet d pid go h =
      Quiet-if k (k.proc d).is_process _ (ret e_bad_proc k)
        (Quiet-if k ((k.proc d).pid == pid) _ (ret e_bad_dest k)
          (Quiet-if k (k.proc d).realtime (check_queue d go k) (ret e_mrt_badptype k)
            (queue (k.proc d).pmq) refl)
          refl)
        refl
    where
      queue : (o : Option ℕ) → Quiet k (with_queue o (check_full go) k)
      queue none = tt
      queue (some q) =
          Quiet-if k ((k.messages.msgq q).plist.in_q == (k.messages.msgq q).size)
            (ret e_mrt_mqfull k) (go q k) refl (h q)

-- `rtk_rqst`, `rtk_arqst`, `rtk_uprqst`, `rtk_sign` and `rtk_rqrcv` leave the whole state alone when they
-- answer with another code than OK and EINVAL.
pub send_calls-Quiet :
    (fuel : ℕ) (ipc : IpcArgs) (d : ℕ) (k : Kernel)
    → Quiet k (rtk_rqst fuel ipc d k)
      × Quiet k (rtk_arqst fuel ipc d k)
      × Quiet k (rtk_uprqst fuel ipc d k)
      × Quiet k (rtk_sign ipc d k)
      × Quiet k (rtk_rqrcv fuel ipc d k)
unfolding rtk_rqst rqst_checked rtk_arqst arqst_checked rtk_uprqst uprqst_checked rtk_sign
    sign_checked rtk_rqrcv rqrcv_checked wait_answer
send_calls-Quiet fuel ipc d k = (
  check_dest-Quiet k d ipc.pid (rqst_checked fuel ipc d) (λ q.
      ends (request (is_waiting k d) ipc d q k >>= inherit_own fuel d q) (
        Quiet-bind k (request (is_waiting k d) ipc d q k) (inherit_own fuel d q)
          (request-Quiet k (is_waiting k d) ipc d q) (inherit_own-Quiet k fuel d q))),
  check_dest-Quiet k d ipc.pid (arqst_checked fuel ipc d) (λ q. ends _ (
      Quiet-bind k (send (is_waiting k d) _ _ _ ipc.msg d q k) (inherit_own fuel d q)
        (send-Quiet k (is_waiting k d) _ _ _ ipc.msg d q) (inherit_own-Quiet k fuel d q))),
  check_dest-Quiet k d ipc.pid (uprqst_checked fuel ipc d) (λ q. ends _ (
      Quiet-bind k (send (is_waiting k d) _ _ _ ipc.msg d q k) (inherit_to fuel ipc.priority d q)
        (send-Quiet k (is_waiting k d) _ _ _ ipc.msg d q)
        (inherit_to-Quiet k fuel ipc.priority d q))),
  check_dest-Quiet k d ipc.pid (sign_checked ipc d) (λ q.
      ends (send (is_waiting k d) _ _ _ ipc.msg d q k)
        (send-Quiet k (is_waiting k d) _ _ _ ipc.msg d q)),
  Quiet-if k (ipc.timeout == nowait) (ret einval k) _ tt (
      check_dest-Quiet k d ipc.pid (rqrcv_checked fuel ipc d) (λ q. ends _ (
        Quiet-bind k _ (inherit_own fuel d q)
          (Quiet-bind k _ (wait_answer ipc d)
            (Quiet-bind k (call (is_waiting k d) ipc d q k) (timeout_after ipc.timeout _ 0)
              (call-Quiet k (is_waiting k d) ipc d q) (timeout_after-Quiet k ipc.timeout _ 0))
            (λ k1. tt))
          (inherit_own-Quiet k fuel d q)))),
)
  where
    ends : (o : Outcome) → Quiet k o → Quiet k (o >>= return_ok)
    ends o h = Quiet-bind k o return_ok h (λ k1. tt)
