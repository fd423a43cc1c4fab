-- ===== src/Minix/Interrupt.antt =====
-- src/kernel/proc.c: `interrupt` starts the task of a hardware interrupt, and `unhold` does it later for
-- the interrupts that came while processes were switched.
use minix4rt.Base.{ℕ, true, false, not, ◌&&◌, ◌||◌, List, [], ◌∷◌, ◌++◌, if◌then◌else◌}
use minix4rt.Kernel.{Kernel, set_proc}
use minix4rt.Minix.{ready_task}
use minix4rt.Minix.Receive.{hard_message, is_rx_hardware}

unfoldable pub hold : ℕ → Kernel → Kernel
hold r k =
    if (k.proc r).int_held
    then k
    else record (set_proc k r (record (k.proc r) { int_held = true })) {
      held_q = k.held_q ++ (r ∷ []);
    }

-- The task waits for the interrupt.
unfoldable pub deliver_int : ℕ → Kernel → Kernel
unfolding hard_message ready_task
deliver_int r k =
    let k1 = hard_message k r (k.proc r).messbuf in
    let k2 = set_proc k1 r (record (k1.proc r) { receiving = false; int_blocked = false }) in
    ready_task r k2.task_q k2

unfoldable pub interrupt : ℕ → Kernel → Kernel
unfolding hold deliver_int
interrupt r k =
    if k.reentered || k.switching
    then hold r k
    else if not ((k.proc r).receiving && not (k.proc r).sending)
        || not (is_rx_hardware k (k.proc r).getfrom)
    then set_proc k r (record (k.proc r) { int_blocked = true })
    else deliver_int r k

-- A round of the loop of `unhold`; no other interrupt comes while one is delivered. The function is
-- called with a queue that is not empty and not reentered, so `interrupt` holds nothing again.
unfoldable pub unhold_loop : List ℕ → Kernel → Kernel
unfolding interrupt
unhold_loop [] k = k
unhold_loop (r ∷ rest) k =
    unhold_loop rest (
      interrupt r
        (set_proc (record k { held_q = rest }) r (record (k.proc r) { int_held = false })))

unfoldable pub unhold : Kernel → Kernel
unfolding unhold_loop
unhold k = if k.switching then k else unhold_loop k.held_q k
