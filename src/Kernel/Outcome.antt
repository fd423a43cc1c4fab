-- ===== src/Kernel/Outcome.antt =====
-- Kernel code with early returns: a step goes on with a new state, returns a code, faults (a panic,
-- a dereferenced NULL, or fuel that runs out), or has used up the rounds given to a loop over pending
-- interrupts.
use minix4rt.Base.{Option, none, some}
use minix4rt.Rcode.{Rcode}
use minix4rt.Kernel.{Kernel}

pub data Outcome : Type 0 where
  next : Kernel → Outcome
  ret : Rcode → Kernel → Outcome
  fault : Outcome
  no_rounds : Outcome

infixl 5 ◌>>=◌
abbrev pub ◌>>=◌ : Outcome → (Kernel → Outcome) → Outcome
next k >>= f = f k
ret c k >>= f = ret c k
fault >>= f = fault
no_rounds >>= f = no_rounds

-- A step that cannot return.
abbrev pub lift : Option Kernel → Outcome
lift none = fault
lift (some k) = next k
