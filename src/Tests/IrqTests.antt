-- ===== src/Tests/IrqTests.antt =====
-- The interrupts of src/kernel/mrtirq.c, and processes that wake up or end (src/kernel/mrtproc.c).
use minix4rt.Base.{ℕ, ◌≡◌, refl, ◌==◌, if◌then◌else◌, Bool, true, some, [], ◌∷◌, arith}
use minix4rt.Plist.Invariant.{IsPlist, total}
use minix4rt.Messages.{any_proc, mqe_pick, pick_loop, scan}
use minix4rt.Irq.{Irqs, softirq_alloc}
use minix4rt.Irq.Soft.{Allotted, softirq_alloc-Allotted}
use minix4rt.Irq.Locked.{irqd_flush-locked}
use minix4rt.Irq.Service.{irqd_flush}
use minix4rt.Kernel.{Kernel}
use minix4rt.Kernel.Outcome.{fault, no_rounds}
use minix4rt.Process.Wakeup.{wakeup}
use minix4rt.Process.Awake.{Awake, wakeup-Awake}
use minix4rt.Process.Exit.{turn_loop}
use minix4rt.Process.Endless.{turn_loop-endless}
use minix4rt.Tests.SemTests.{system, idle_irqs, nothing, no_queue}

-- The number 16 is in use.
abbrev irqs : Irqs
irqs = record idle_irqs { soft_use = λ i. i == 0 }

softirq_alloc_example : Allotted irqs (softirq_alloc irqs)
softirq_alloc_example = softirq_alloc-Allotted irqs

-- The descriptor 17 of priority 4 is pending and locked.
abbrev locked : Kernel
locked = record system {
  irqs = record idle_irqs {
    irq_q = record nothing {
      bitmap = λ p. p == 4;
      in_q = 1;
      list = λ p. if p == 4 then 17 ∷ [] else [];
    };
    irqtab = λ i.
        if i == 17
        then record (idle_irqs.irqtab 17) { enqueued = true; tasklocked = true; priority = 4 }
        else idle_irqs.irqtab i;
  };
}

abbrev handlers : ℕ → ℕ → Kernel → Bool × Kernel
handlers h irq k = (true, k)

irqd_flush_example : irqd_flush 5 handlers 1 0 4 locked ≡ no_rounds
irqd_flush_example = irqd_flush-locked handlers 1 0 4 17 5 locked (refl, refl)

-- The process 7 sleeps.
abbrev asleep : Kernel
asleep = record system {
  proc = λ i. if i == 7 then record (system.proc 9) { sleep = true } else system.proc i;
}

asleep-IsPlist : IsPlist asleep.rdy_q
unfolding total
asleep-IsPlist = record { bits = λ p. ground arith; count = refl }

wakeup_example : Awake asleep 7 (wakeup 1 7 asleep)
wakeup_example =
    wakeup-Awake 1 asleep 7 1 (refl, refl, refl, refl, refl, refl, refl, refl) asleep-IsPlist
      (omega arith)

-- The queue 1 holds the message in the entry 6.
abbrev ending : Kernel
ending = record system {
  messages = record system.messages {
    msgq = λ _. record no_queue {
      size = 4;
      plist = record nothing {
        bitmap = λ p. p == 0;
        in_q = 1;
        list = λ p. if p == 0 then 6 ∷ [] else [];
      };
    };
  };
}

ending-picked :
    mqe_pick ending.hardware ending.messages.mqe (ending.messages.msgq 1) any_proc ≡ some 6
unfolding mqe_pick pick_loop scan
ending-picked = refl

turn_loop_example : turn_loop 3 1 ending ≡ fault
turn_loop_example = turn_loop-endless 3 1 6 ending ending-picked
