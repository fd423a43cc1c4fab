-- ===== src/Process/Call.antt =====
-- src/kernel/mrtproc.c: `rtk_call`, through which a process calls the RT-kernel, and the calls that copy
-- their parameters themselves. A call carries its parameters as they are after the copy; `is_mapped`
-- is whether the process has the memory that they are copied from. What `rtk_print` prints is left out.
use minix4rt.Base.{ℕ, Bool, true, false, not, ◌&&◌, Option, none, some, if◌then◌else◌}
use minix4rt.Messages.{Source}
use minix4rt.Rcode.{Rcode, ok, e_mrt_nortmode, e_mrt_badptype, e_bad_fcn, einval}
use minix4rt.Kernel.{Kernel}
use minix4rt.Kernel.Outcome.{Outcome, next, ret, fault, no_rounds}
use minix4rt.Sem.{semup, semdown}
use minix4rt.Ipc.{IpcArgs}
use minix4rt.Ipc.Send.{rtk_rqst, rtk_reply, rtk_arqst, rtk_uprqst, rtk_sign, rtk_rqrcv}
use minix4rt.Ipc.Receive.{rtk_receive}
use minix4rt.Minix.{lock_pick_proc}
use minix4rt.Process.{sleep_proc}
use minix4rt.Process.Wakeup.{set2rt, rtk_wakeup}
use minix4rt.Process.Exit.{set2nrt}

-- The calls that exchange messages, in the table from MRTRQST to MRTRQRCV.
pub data IpcCall : Type 0 where
  rqst reply arqst uprqst sign rqrcv : ℕ → IpcCall
  rcv : Source → IpcCall

-- The calls of the table `MRT_kernel`; `bad_fcn` is a number outside it.
pub data RtkCall : Type 0 where
  to_rt to_nrt print bad_fcn : RtkCall
  sleep_for : ℕ → RtkCall
  wake_up : ℕ → ℕ → RtkCall
  ipc : IpcCall → IpcArgs → RtkCall
  sem_up : ℕ → RtkCall
  sem_down : ℕ → ℕ → RtkCall

abbrev pub is_to_rt : RtkCall → Bool
is_to_rt to_rt = true
is_to_rt c = false

unfoldable pub ipc_call : ℕ → IpcCall → IpcArgs → Kernel → Outcome
unfolding rtk_rqst rtk_reply rtk_arqst rtk_uprqst rtk_sign rtk_rqrcv rtk_receive
ipc_call fuel (rqst d) args k = rtk_rqst fuel args d k
ipc_call fuel (reply d) args k = rtk_reply args d k
ipc_call fuel (arqst d) args k = rtk_arqst fuel args d k
ipc_call fuel (uprqst d) args k = rtk_uprqst fuel args d k
ipc_call fuel (sign d) args k = rtk_sign args d k
ipc_call fuel (rqrcv d) args k = rtk_rqrcv fuel args d k
ipc_call fuel (rcv source) args k = rtk_receive args source k

unfoldable pub of_result : Option (Rcode × Kernel) → Outcome
of_result none = fault
of_result (some (c, k)) = ret c k

unfoldable pub if_mapped : Bool → (Kernel → Outcome) → Kernel → Outcome
if_mapped true go k = go k
if_mapped false go k = ret einval k

-- `rounds` is the fuel for the messages of a process that ends, `nr_procs` is NR_PROCS.
unfoldable pub run_call : ℕ → ℕ → ℕ → Bool → RtkCall → Kernel → Outcome
unfolding set2rt set2nrt if_mapped rtk_wakeup ipc_call of_result sleep_proc semup semdown
run_call fuel rounds nr_procs is_mapped to_rt k = set2rt k.running k
run_call fuel rounds nr_procs is_mapped to_nrt k = set2nrt fuel rounds nr_procs k.running k
run_call fuel rounds nr_procs is_mapped print k = if_mapped is_mapped (ret ok) k
run_call fuel rounds nr_procs is_mapped bad_fcn k = ret e_bad_fcn k
run_call fuel rounds nr_procs is_mapped (sleep_for t) k =
    if_mapped is_mapped (λ k1. of_result (sleep_proc k1 k1.running t)) k
run_call fuel rounds nr_procs is_mapped (wake_up r pid) k =
    if_mapped is_mapped (rtk_wakeup fuel r pid) k
run_call fuel rounds nr_procs is_mapped (ipc c args) k = ipc_call fuel c args k
run_call fuel rounds nr_procs is_mapped (sem_up s) k =
    if_mapped is_mapped (λ k1. of_result (semup k1 s)) k
run_call fuel rounds nr_procs is_mapped (sem_down s t) k =
    if_mapped is_mapped (λ k1. of_result (semdown fuel k1 s t)) k

-- The scheduler runs at the end of a call.
unfoldable pub schedule : Outcome → Outcome
unfolding lock_pick_proc
schedule (ret c k) = ret c (lock_pick_proc k)
schedule (next k) = next k
schedule fault = fault
schedule no_rounds = no_rounds

-- A call that is not in the table, and a message call whose parameters are not mapped, return at once.
unfoldable pub accepted : ℕ → ℕ → ℕ → Bool → RtkCall → Kernel → Outcome
unfolding run_call schedule if_mapped
accepted fuel rounds nr_procs is_mapped bad_fcn k = ret e_bad_fcn k
accepted fuel rounds nr_procs is_mapped (ipc c args) k =
    if_mapped is_mapped (λ k1. schedule (run_call fuel rounds nr_procs is_mapped (ipc c args) k1)) k
accepted fuel rounds nr_procs is_mapped c k = schedule (run_call fuel rounds nr_procs is_mapped c k)

unfoldable pub rtk_call : ℕ → ℕ → ℕ → Bool → RtkCall → Kernel → Outcome
unfolding accepted
rtk_call fuel rounds nr_procs is_mapped c k =
    if not k.irqs.rtmode
    then ret e_mrt_nortmode k
    else if not (is_to_rt c) && not (k.proc k.running).realtime
    then ret e_mrt_badptype k
    else accepted fuel rounds nr_procs is_mapped c k
