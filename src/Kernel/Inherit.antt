-- ===== src/Kernel/Inherit.antt =====
-- `MRT_inherit` and `MRT_disinherit` of src/kernel/mrtlib.c. A dereferenced NULL and fuel that runs
-- out are `none`.
use minix4rt.Base.{
  ℕ, zero, suc, min, false, not, ◌&&◌, Option, none, some, List, [], ◌∷◌, ltb, ◌==◌, if◌then◌else◌,
}
use minix4rt.Plist.{pri_lowest}
use minix4rt.Messages.{any_proc, mqe_pick}
use minix4rt.Kernel.{Kernel, Proc, set_proc, is_rtready, requeue, sproc_pick}

-- The process that `MRT_inherit` goes on with, where there is one. `none` is the `return`, and
-- `some none` a NULL that the next call dereferences.
unfoldable pub next_heir : Kernel → ℕ → Proc → Option (Option ℕ)
next_heir k r p =
    if p.mbx_snd
    then some p.pto
    else if p.mbx_rcv && not (elim p.pfrom [ none ↦ false | some f ↦ f == r ])
    then some p.pfrom
    else if p.sem_down
    then elim p.psem [
      | none ↦ some none
      | some s ↦ elim (k.sem s).carrier [ none ↦ none | some c ↦ some (some c) ]
    ]
    else none

unfoldable pub pass_on :
    (Option ℕ → Kernel → Option Kernel) → Kernel → Option (Option ℕ) → Option Kernel
pass_on go_on k none = some k
pass_on go_on k (some p) = go_on p k

unfoldable pub inherit_blocked : (Option ℕ → Kernel → Option Kernel) → ℕ → Kernel → Option Kernel
unfolding next_heir pass_on
inherit_blocked go_on r k = pass_on go_on k (next_heir k r (k.proc r))

-- The body of `MRT_inherit` for the process `r`; `go_on` is the recursive call.
unfoldable pub inherit_step : (Option ℕ → Kernel → Option Kernel) → ℕ → ℕ → Kernel → Option Kernel
unfolding is_rtready requeue inherit_blocked
inherit_step go_on prty r k =
    if ltb prty (k.proc r).priority
    then if is_rtready (k.proc r)
      then some (requeue k r prty)
      else inherit_blocked go_on r (set_proc k r (record (k.proc r) { priority = prty }))
    else some k

-- `MRT_inherit`, with fuel for the recursion.
unfoldable pub inherit : ℕ → ℕ → Option ℕ → Kernel → Option Kernel
unfolding inherit_step
inherit zero prty o k = none
inherit (suc fuel) prty none k = if k.bpip then none else some k
inherit (suc fuel) prty (some r) k =
    if k.bpip then inherit_step (inherit fuel prty) prty r k else some k

-- The highest priority of the processes that wait for a list of semaphores, or `best`.
unfoldable pub sem_prty_loop : Kernel → ℕ → List ℕ → ℕ
unfolding sproc_pick
sem_prty_loop k best [] = best
sem_prty_loop k best (s ∷ rest) =
    sem_prty_loop k
      (elim (sproc_pick (k.sem s)) [ none ↦ best | some r ↦ min best (k.proc r).priority ]) rest

unfoldable pub mq_prty : Kernel → Option ℕ → ℕ
mq_prty k none = pri_lowest
mq_prty k (some x) = (k.messages.mqe x).priority

-- The end of `MRT_disinherit`, with the new priority.
unfoldable pub set_prty : Kernel → ℕ → ℕ → Kernel
unfolding is_rtready requeue
set_prty k r prty =
    if prty == (k.proc r).baseprty
    then k
    else if is_rtready (k.proc r)
    then requeue k r prty
    else set_proc k r (record (k.proc r) { priority = prty })

-- The message queue of the process must not be NULL.
unfoldable pub disinherit : Kernel → ℕ → Option Kernel
unfolding sem_prty_loop mq_prty set_prty
disinherit k r =
    if k.bpip
    then elim (k.proc r).pmq [
      | none ↦ none
      | some q ↦ some (
          set_prty k r (
            min
              (min (sem_prty_loop k pri_lowest (k.proc k.wild).slock_l)
                (mq_prty k (mqe_pick k.hardware k.messages.mqe (k.messages.msgq q) any_proc)))
              (k.proc r).baseprty))
    ]
    else some k
