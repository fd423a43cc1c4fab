-- ===== src/Minix.antt =====
-- src/kernel/proc.c: the ready queues of the MINIX kernel, where the next process to run is chosen. A
-- queue is the sequence of its members; the guard word of a task's stack is not checked.
pub mod Send
pub mod Chains
pub mod Keep
pub mod Deadlock
pub mod Exchange
pub mod Rendezvous
pub mod Fair
pub mod Receive
pub mod Interrupt
use minix4rt.Base.{
  ℕ, Bool, true, false, not, ◌||◌, Option, none, some, List, [], ◌∷◌, ◌++◌, ◌==◌, if◌then◌else◌,
  remove,
}
use minix4rt.Kernel.{Kernel, Proc}
use minix4rt.Process.{pick_proc}

-- `p_flags == 0`
abbrev pub is_runnable : Proc → Bool
is_runnable p = not (
    not p.is_process
    || (p.no_map
        || (p.sending
            || (p.receiving
                || (p.pending || (p.sig_pending || (p.stop || (p.realtime || p.periodic))))))))

-- The first process of the highest queue, or the idle task.
unfoldable pub pick_idle : Kernel → Kernel
pick_idle k = record k { running = k.idle; bill = k.idle }

unfoldable pub pick_user : List ℕ → Kernel → Kernel
unfolding pick_idle
pick_user [] k = pick_idle k
pick_user (r ∷ _) k = record k { running = r; bill = r }

unfoldable pub pick_server : List ℕ → Kernel → Kernel
unfolding pick_user
pick_server [] k = pick_user k.user_q k
pick_server (r ∷ _) k = record k { running = r }

unfoldable pub pick_task : List ℕ → Kernel → Kernel
unfolding pick_server
pick_task [] k = pick_server k.server_q k
pick_task (r ∷ _) k = record k { running = r }

unfoldable pub pick_minix : Kernel → Kernel
unfolding pick_task
pick_minix k = let k1 = record k { rtsched = false } in pick_task k1.task_q k1

unfoldable pub pick_next : Bool × Kernel → Kernel
unfolding pick_minix
pick_next (true, k) = record k { rtsched = true }
pick_next (false, k) = pick_minix k

-- `pick_proc` of src/kernel/proc.c: a ready process of the RT-kernel goes first.
unfoldable pub minix_pick_proc : Kernel → Kernel
unfolding pick_proc pick_next pick_minix
minix_pick_proc k = if k.irqs.rtmode then pick_next (pick_proc k) else pick_minix k

-- A task that comes into the empty queue runs next; a user process comes to the front of its queue.
unfoldable pub ready_task : ℕ → List ℕ → Kernel → Kernel
ready_task r [] k = record k { running = r; task_q = r ∷ [] }
ready_task r (x ∷ xs) k = record k { task_q = (x ∷ xs) ++ (r ∷ []) }

unfoldable pub ready : Kernel → ℕ → Kernel
unfolding ready_task
ready k r =
    if (k.proc r).is_task
    then ready_task r k.task_q k
    else if (k.proc r).is_user
    then record k { user_q = r ∷ k.user_q }
    else record k { server_q = k.server_q ++ (r ∷ []) }

-- The head of a queue that stops running makes place for another process.
abbrev pub is_head : List ℕ → ℕ → Bool
is_head [] r = false
is_head (x ∷ xs) r = x == r

unfoldable pub unready : Kernel → ℕ → Kernel
unfolding minix_pick_proc
unready k r =
    if (k.proc r).is_task
    then (let k1 = record k { task_q = remove r k.task_q } in
        if is_head k.task_q r then (if r == k.running then minix_pick_proc k1 else k1) else k1)
    else if (k.proc r).is_user
    then (let k1 = record k { user_q = remove r k.user_q } in
        if is_head k.user_q r then minix_pick_proc k1 else k1)
    else (let k1 = record k { server_q = remove r k.server_q } in
        if is_head k.server_q r then minix_pick_proc k1 else k1)

-- The first user process goes to the end of its queue.
unfoldable pub rotate : List ℕ → Kernel → Kernel
unfolding minix_pick_proc
rotate [] k = k
rotate (r ∷ rest) k = minix_pick_proc (record k { user_q = rest ++ (r ∷ []) })

unfoldable pub sched : Kernel → Kernel
unfolding rotate
sched k = rotate k.user_q k

-- `lock_pick_proc`, `lock_ready`, `lock_unready` and `lock_sched`: no interrupt is let in meanwhile.
abbrev pub switched : (Kernel → Kernel) → Kernel → Kernel
switched f k = record (f (record k { switching = true })) { switching = false }

unfoldable pub lock_pick_proc : Kernel → Kernel
unfolding minix_pick_proc
lock_pick_proc k = switched minix_pick_proc k

unfoldable pub lock_ready : Kernel → ℕ → Kernel
unfolding ready
lock_ready k r = switched (λ k1. ready k1 r) k

unfoldable pub lock_unready : Kernel → ℕ → Kernel
unfolding unready
lock_unready k r = switched (λ k1. unready k1 r) k

unfoldable pub lock_sched : Kernel → Kernel
unfolding sched
lock_sched k = switched sched k
