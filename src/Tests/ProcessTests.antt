-- ===== src/Tests/ProcessTests.antt =====
-- The scheduler and sleep of src/kernel/mrtproc.c on the system of the semaphore tests.
use minix4rt.Base.{refl, arith}
use minix4rt.Plist.Invariant.{IsPlist, total}
use minix4rt.Kernel.{forever}
use minix4rt.Process.{pick_proc, sleep_proc}
use minix4rt.Process.Schedule.{Scheduled, pick_proc-Scheduled}
use minix4rt.Process.Sleep.{Asleep, sleep_proc-Asleep}
use minix4rt.Tests.SemTests.{system}

system-IsPlist : IsPlist system.rdy_q
unfolding total
system-IsPlist = record { bits = λ p. ground arith; count = refl }

pick_proc_example : Scheduled system (pick_proc system)
pick_proc_example = pick_proc-Scheduled system system-IsPlist

sleep_proc_example : Asleep system 2 (sleep_proc system 2 forever)
sleep_proc_example = sleep_proc-Asleep system 2 refl system-IsPlist (omega arith) refl
