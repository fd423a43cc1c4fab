-- ===== src/Minix/Receive.antt =====
-- src/kernel/proc.c: `mini_rec` and `sys_call`, and `inform` of src/kernel/system.c. The slots of the
-- processes that MM knows are the parameter `users`; the fuel is that of the search for a deadlock.
use minix4rt.Base.{
  ℕ, ◌-◌, Bool, true, false, not, ◌&&◌, Option, none, some, List, [], ◌∷◌, ltb, ◌==◌, if◌then◌else◌,
  update, remove,
}
use minix4rt.Messages.{Source, any_proc, only}
use minix4rt.Rcode.{ok, e_bad_src, e_no_perm}
use minix4rt.Kernel.{Kernel, set_proc}
use minix4rt.Kernel.Outcome.{Outcome, next, ret, fault, no_rounds, ◌>>=◌}
use minix4rt.Minix.{ready, unready, lock_pick_proc}
use minix4rt.Minix.Send.{accepts, copy_mess, ready_if, unready_if, mini_send}

-- KSIG and HARD_INT
abbrev pub ksig : ℕ
ksig = 64

abbrev pub hard_int : ℕ
hard_int = 2

-- The first process of a queue from which a message is accepted.
unfoldable pub acceptable_sender : Source → List ℕ → Option ℕ
acceptable_sender src [] = none
acceptable_sender src (s ∷ rest) =
    let later = acceptable_sender src rest in if accepts src s then some s else later

-- The message of the sender `s` is taken, and the sender is not blocked any more.
unfoldable pub take_message : ℕ → ℕ → ℕ → Kernel → Kernel
unfolding copy_mess ready
take_message r s m k =
    let k1 = copy_mess k s (k.proc s).messbuf r m in
    let k2 = set_proc k1 r (record (k1.proc r) { callerq = remove s (k1.proc r).callerq }) in
    ready_if (set_proc k2 s (record (k2.proc s) { sending = false })) s

-- The message of a hardware interrupt, whose body is left as it is.
unfoldable pub hard_message : Kernel → ℕ → ℕ → Kernel
hard_message k r m =
    let a = k.data_map r m in
    record k {
      message =
          update k.message a (record (k.message a) { m_source = k.hardware; m_type = hard_int });
    }

abbrev pub is_rx_hardware : Kernel → Source → Bool
is_rx_hardware k any_proc = true
is_rx_hardware k (only p) = p == k.hardware

unfoldable pub take_interrupt : ℕ → ℕ → Kernel → Kernel
unfolding hard_message
take_interrupt r m k =
    let k1 = hard_message k r m in set_proc k1 r (record (k1.proc r) { int_blocked = false })

-- `inform`: MM gets the signals of the first process that has some; a message that MM does not take is
-- a panic.
unfoldable pub first_pending : Kernel → List ℕ → Option ℕ
first_pending k [] = none
first_pending k (r ∷ rest) =
    let later = first_pending k rest in if (k.proc r).pending then some r else later

unfoldable pub signal_sent : ℕ → Outcome → Outcome
unfolding lock_pick_proc
signal_sent r (ret ok k) = next (
    lock_pick_proc (
      set_proc (record k { switching = false }) r
        (record (k.proc r) { sig_map = 0; pending = false })))
signal_sent r (ret c k) = fault
signal_sent r (next k) = fault
signal_sent r fault = fault
signal_sent r no_rounds = no_rounds

unfoldable pub inform_of : ℕ → Option ℕ → Kernel → Outcome
unfolding mini_send signal_sent
inform_of fuel none k = next k
inform_of fuel (some r) k =
    let a = k.data_map k.hardware k.sig_buf in
    let m = record (k.message a) { m_type = ksig; body = r ∷ (k.proc r).sig_map ∷ [] } in
    signal_sent r (
      mini_send fuel k.hardware k.mm k.sig_buf (record k {
        message = update k.message a m;
        sig_procs = k.sig_procs - 1;
        switching = true;
      }))

unfoldable pub inform : ℕ → List ℕ → Kernel → Outcome
unfolding first_pending inform_of
inform fuel users k = inform_of fuel (first_pending k users) k

abbrev pub is_any : Source → Bool
is_any any_proc = true
is_any (only p) = false

-- There is no message, and the receiver is blocked.
unfoldable pub await_message : ℕ → List ℕ → ℕ → Source → ℕ → Kernel → Outcome
unfolding unready inform
await_message fuel users r src m k =
    let k1 = unready_if (set_proc k r (record (k.proc r) { getfrom = src; messbuf = m })) r in
    let k2 = set_proc k1 r (record (k1.proc r) { receiving = true }) in
    (if ltb 0 k2.sig_procs && (r == k2.mm && is_any src) then inform fuel users k2 else next k2)
    >>= ret ok

unfoldable pub receive_or_wait : ℕ → List ℕ → ℕ → Source → ℕ → Option ℕ → Kernel → Outcome
unfolding take_message take_interrupt await_message
receive_or_wait fuel users r src m (some s) k = ret ok (take_message r s m k)
receive_or_wait fuel users r src m none k =
    if (k.proc r).int_blocked && is_rx_hardware k src
    then ret ok (take_interrupt r m k)
    else await_message fuel users r src m k

-- `mini_rec`
unfoldable pub mini_rec : ℕ → List ℕ → ℕ → Source → ℕ → Kernel → Outcome
unfolding acceptable_sender receive_or_wait await_message
mini_rec fuel users r src m k =
    if (k.proc r).sending
    then await_message fuel users r src m k
    else receive_or_wait fuel users r src m (acceptable_sender src (k.proc r).callerq) k

-- SEND, RECEIVE and BOTH
pub data Function : Type 0 where
  only_send only_receive both : Function

abbrev pub sends : Function → Bool
sends only_send = true
sends only_receive = false
sends both = true

abbrev pub is_both : Function → Bool
is_both both = true
is_both f = false

abbrev pub receives : Function → Bool
receives only_send = false
receives f = true

-- A message is sent to one process; `mini_send` to ANY, which only a trusted caller could ask for, is
-- a fault.
unfoldable pub send_part : ℕ → ℕ → Source → ℕ → Kernel → Outcome
unfolding mini_send
send_part fuel r any_proc m k = fault
send_part fuel r (only d) m k = mini_send fuel r d m k

-- The second half of BOTH follows a send that succeeds.
unfoldable pub then_receive : ℕ → List ℕ → Function → ℕ → Source → ℕ → Outcome → Outcome
unfolding mini_rec
then_receive fuel users f r src m (ret ok k) =
    if receives f then mini_rec fuel users r src m k else ret ok k
then_receive fuel users f r src m o = o

unfoldable pub do_call : ℕ → List ℕ → Function → ℕ → Source → ℕ → Kernel → Outcome
unfolding send_part then_receive mini_rec
do_call fuel users f r src m k =
    if sends f
    then then_receive fuel users f r src m (send_part fuel r src m k)
    else mini_rec fuel users r src m k

-- `sys_call`; whether the number of the other process is valid is the argument `is_ok`.
unfoldable pub sys_call : ℕ → List ℕ → Bool → Function → Source → ℕ → Kernel → Outcome
unfolding do_call
sys_call fuel users is_ok f src m k =
    if not is_ok
    then ret e_bad_src k
    else if (k.proc k.running).is_user && not (is_both f)
    then ret e_no_perm k
    else do_call fuel users f k.running src m k
