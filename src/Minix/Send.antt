-- ===== src/Minix/Send.antt =====
-- src/kernel/proc.c: `mini_send`. A sender waits in the queue of a destination that does not wait for
-- it. The warning about a real-time process that calls MINIX is output and left out.
use minix4rt.Base.{
  ℕ, zero, suc, ◌+◌, ◌-◌, ◌/◌, ◌%◌, ◌^◌, Bool, true, false, not, ◌&&◌, ◌||◌, Option, none, some, [],
  ◌∷◌, ◌++◌, ltb, leb, ◌==◌, if◌then◌else◌, update,
}
use minix4rt.Messages.{Source, any_proc, only}
use minix4rt.Rcode.{ok, e_bad_dest, efault, elocked}
use minix4rt.Kernel.{Kernel, Proc, set_proc}
use minix4rt.Kernel.Outcome.{Outcome, ret, fault}
use minix4rt.Minix.{is_runnable, ready, unready}

-- CLICK_SIZE and MESS_SIZE
abbrev pub click_size : ℕ
click_size = 256

abbrev pub mess_size : ℕ
mess_size = 36

-- `issysmrt`
abbrev pub is_sys_mrt : Kernel → ℕ → Bool
is_sys_mrt k d = d == k.fs || (d == k.mm || d == k.mrttask)

-- The message lies in the data segment, the gap or the stack of the process. The end of the message is
-- an address of 32 bits, which wraps.
unfoldable pub is_in_gap : Proc → ℕ → Bool
is_in_gap p m =
    let vlo = m / click_size in
    let vhi = ((m + mess_size - 1) % 2 ^ 32) / click_size in
    not (ltb vlo p.d_vir || (ltb vhi vlo || leb (p.s_vir + p.s_len) vhi))

-- The chain of processes that send to each other, from the process `p`: whether it comes to the process
-- `r`. `none` means that the fuel ran out.
unfoldable pub chain_meets : ℕ → Kernel → ℕ → ℕ → Option Bool
chain_meets zero k r p = none
chain_meets (suc fuel) k r p =
    let rest = chain_meets fuel k r (k.proc p).sendto in
    if p == r then some true else if (k.proc p).sending then rest else some false

-- Where the destination sends itself, the chain begins with the process that it sends to.
unfoldable pub is_deadlock : ℕ → Kernel → ℕ → ℕ → Option Bool
unfolding chain_meets
is_deadlock fuel k r d =
    if (k.proc d).sending then chain_meets fuel k r (k.proc d).sendto else some false

-- `CopyMess`: the source is written into the copy.
unfoldable pub copy_mess : Kernel → ℕ → ℕ → ℕ → ℕ → Kernel
copy_mess k s sm d dm = record k {
  message =
      update k.message (k.data_map d dm) (record (k.message (k.data_map s sm)) { m_source = s });
}

abbrev pub accepts : Source → ℕ → Bool
accepts any_proc r = true
accepts (only p) r = p == r

unfoldable pub is_waiting_for : Kernel → ℕ → ℕ → Bool
is_waiting_for k d r =
    (k.proc d).receiving && (not (k.proc d).sending && accepts (k.proc d).getfrom r)

abbrev pub ready_if : Kernel → ℕ → Kernel
ready_if k r = if is_runnable (k.proc r) then ready k r else k

abbrev pub unready_if : Kernel → ℕ → Kernel
unready_if k r = if is_runnable (k.proc r) then unready k r else k

-- The message goes straight to the destination, which is not blocked any more.
unfoldable pub hand_message : ℕ → ℕ → ℕ → Kernel → Kernel
unfolding copy_mess ready
hand_message r d m k =
    let k1 = copy_mess k r m d (k.proc d).messbuf in
    ready_if (set_proc k1 d (record (k1.proc d) { receiving = false })) d

-- The sender is blocked and comes to the end of the queue of the destination.
unfoldable pub queue_caller : ℕ → ℕ → ℕ → Kernel → Kernel
unfolding unready
queue_caller r d m k =
    let k1 = unready_if (set_proc k r (record (k.proc r) { messbuf = m })) r in
    let k2 = set_proc k1 r (record (k1.proc r) { sending = true; sendto = d }) in
    set_proc k2 d (record (k2.proc d) { callerq = (k2.proc d).callerq ++ (r ∷ []) })

unfoldable pub send_checked : ℕ → ℕ → ℕ → Option Bool → Kernel → Outcome
unfolding is_waiting_for hand_message queue_caller
send_checked r d m none k = fault
send_checked r d m (some true) k = ret elocked k
send_checked r d m (some false) k =
    ret ok (if is_waiting_for k d r then hand_message r d m k else queue_caller r d m k)

-- `mini_send`, with fuel for the search for a deadlock.
unfoldable pub mini_send : ℕ → ℕ → ℕ → ℕ → Kernel → Outcome
unfolding is_in_gap is_deadlock send_checked
mini_send fuel r d m k =
    if (k.proc r).is_user && not (is_sys_mrt k d)
    then ret e_bad_dest k
    else if not (k.proc d).is_process
    then ret e_bad_dest k
    else if not (is_in_gap (k.proc r) m)
    then ret efault k
    else send_checked r d m (is_deadlock fuel k r d) k
