-- ===== src/Lib.antt =====
-- MINIX4RT is MINIX 2 with a real-time kernel. This library models the RT-kernel, the message passing
-- of the MINIX kernel, the memory allocator and the break of the memory manager, and the buffer cache,
-- the bit maps and the record locks of the file system.
--
-- The parts and their files:
--   Links: the doubly linked lists (`link_t`, `list_t`) of src/kernel/mrtlib.c, at the level of the
--   pointers. A link is a number, NULL is `none`, and the `next` and `prev` pointers of all links are
--   one store. Links/Segment has chains of pointers, Links/Represents says which sequence a list stands
--   for, and its children treat the operations.
--   Plist: the priority lists (`plist_t`) of src/kernel/mrtlib.c: 16 lists, a bitmap and counters. A
--   list is the sequence of its members, as Links justifies. Plist/Invariant has the invariant,
--   Plist/Highest the search for the highest priority.
--   Vtimer: the virtual timers of src/kernel/mrtvt.c, and the timer part of `MRT_IRQ_dispatch` of
--   src/kernel/mrtirq.c. The queue of active timers is a delta list; Vtimer/Times says which schedule
--   (timers with the time to their expirations) it stands for. Vtimer has the insertion and the
--   removal, Vtimer/Handlers the interrupt, the pool and the initialisation. Expired timers go to a
--   priority list of Plist.
--   Alloc: the hole list of src/mm/alloc.c, with `alloc_mem`, `free_mem`, `max_hole` and `mem_init`.
--   Alloc/Sorted has the invariant and the set of free addresses.
--   Break: `do_brk`, `adjust` and `size_ok` of src/mm/break.c, with the sums of 32-bit words in
--   Break/Room and the answers in Break/Answers.
--   Messages: the pool of message queue entries and the message queues of src/kernel/mrtmsg.c.
--   Messages/Pick has the search for a message, Messages/Queue the bound of a queue.
--   Kernel: the state of the kernel: processes, semaphores, the ready queue, timers, messages,
--   interrupts, the queues of MINIX and the memory that messages are copied to and from. Kernel/Inherit
--   has `MRT_inherit` and `MRT_disinherit` of src/kernel/mrtlib.c, Kernel/Outcome the early returns.
--   Rcode has the return codes.
--   Sem: the semaphores of src/kernel/mrtsem.c. Sem/Value says what the value counts, Sem/Up treats the
--   wake-up and Sem/Free the operations without waiting.
--   Ipc: the kernel calls of src/kernel/mrtmsg.c that exchange messages (`rtk_rqst` and the others): what
--   they have in common, Ipc/Send and Ipc/Receive. Ipc/Quiet treats the refusals, Ipc/Direct a message
--   for a process that waits.
--   Process: the scheduler, the reset of a process, sleep and the idle counter of
--   src/kernel/mrtproc.c, and the semaphores of a process that ends (src/kernel/mrtsem.c).
--   Process/Wakeup wakes a process up and makes one a real-time process, Process/Exit ends one, and
--   Process/Call is `rtk_call`, over all calls. Process/Schedule, Process/Sleep, Process/Awake and
--   Process/Endless have the theorems.
--   Vtimer/Actions: what an expired timer does (`MRT_act_*`, `MRT_vtimer_run`), over the whole state.
--   Irq: the interrupt descriptors of src/kernel/mrtirq.c. Irq/Handler has `MRT_irqd_enQ` and
--   `MRT_do_handler`, Irq/Service the pending interrupts and the locks, Irq/Dispatch `MRT_IRQ_dispatch`
--   and `MRT_flush_int`. Irq/Soft and Irq/Locked have the theorems.
--   Minix: the ready queues of src/kernel/proc.c; Minix/Send has `mini_send`, Minix/Receive `mini_rec`,
--   `sys_call` and `inform` (src/kernel/system.c), Minix/Interrupt `interrupt` and `unhold`. Minix/Chains
--   and Minix/Deadlock treat senders that wait for each other, Minix/Exchange and Minix/Rendezvous the
--   way of a message, Minix/Fair the turns of user processes, Minix/Keep what the queues leave alone.
--   Fs/Lock: the record locks of src/fs/lock.c; Fs/Lock/Request has `lock_op`, Fs/Lock/Exclusive the
--   invariant of the table, Fs/Lock/Unlock and Fs/Lock/Answers what keeps it. Fs/Suspend has the
--   processes that wait (`suspend`, `release` and `revive` of src/fs/pipe.c) and `lock_revive`, which
--   Fs/Suspend/Revived is about.
--   Fs/Cache: the buffer cache of src/fs/cache.c, with Fs/Cache/Level2 (src/fs/cache2.c), Fs/Cache/Scatter
--   (`rw_scattered`) and Fs/Cache/Get (`get_block`). Fs/Cache/Coherent has the invariant and says what a
--   block holds, Fs/Cache/Devices which devices make no errors. Order and Sorted treat the sort, Written,
--   Saved, Chains and Replaced the block that is not in the cache, Counted and Again the one that is,
--   OnDisk and Put `put_block`, Start the initialisation.
--   Fs/Bitmap: `alloc_bit` and `free_bit` of src/fs/super.c. Fs/Bitmap/Search and Fs/Bitmap/Rounds treat
--   the two loops, Fs/Bitmap/Bits the bits of a map, Fs/Bitmap/Allotted the operations.
--   Base: shared names, Boolean tests and lists. Tests: concrete inputs.
--
-- A panic, a dereferenced NULL and fuel that runs out are `none` or `fault`; theorems that say what a
-- result is also say that there is one. Counters and addresses of 32 bits keep their wrap-around.
-- Where the rounds given to a loop over pending interrupts are used up, the outcome is `no_rounds`.
-- Fuel is used for the loop of the clock handler, where each round takes one timer from the queue and
-- one more round than there are timers is enough, and for the recursion of `MRT_inherit`, where the
-- theorems have the protocol switched off and any fuel above 0 is enough, for the search for a
-- deadlock, where one more than the longest chain is enough, for the Shell sort, whose rounds are
-- proved to be enough, for the chunks of a scattered write, of which there are no more than buffers,
-- and for the loops over the semaphores and messages of a process that ends and over pending
-- interrupts; theorems about those say where they do not end. The answers of the kernel to SYS_MEM are
-- an argument of `mem_init`. A semaphore that is taken out of the list of another process damages both
-- lists in the code, and a timer whose link `MRT_sleep` resets has the wrong object; the fields
-- `stray_lock` and `stray_timer` of the state say that this has happened, and the damage itself is not
-- modelled.
--
-- Handlers of drivers are parameters of the interrupt functions, and `numap` and the place of a message
-- in physical memory are functions of the state. Words have 32 bits, the chunks of a bit map 16.
--
-- Not modelled: the assembler code of the interrupt entry, device drivers and the programming of the
-- timer and interrupt chips, which are I/O; `MRT_irqd_set` and its callers, which do not compile as they
-- stand; the task that configures the RT-kernel (src/kernel/mrttask.c) and the system task but for
-- `inform`; the rest of the memory manager and of the file system, the network server, the run-time libraries,
-- boot code and tools.
pub mod Alloc
pub mod Base
pub mod Break
pub mod Fs
pub mod Ipc
pub mod Irq
pub mod Kernel
pub mod Links
pub mod Messages
pub mod Minix
pub mod Plist
pub mod Process
pub mod Rcode
pub mod Sem
pub mod Tests
pub mod Vtimer
