-- ===== src/Tests/MinixTests.antt =====
-- The messages of MINIX (src/kernel/proc.c): process 7 sends to MM, which is process 3.
use minix4rt.Base.{◌≡◌, refl, ◌==◌, if◌then◌else◌, true, none, inr, [], ◌∷◌, arith}
use minix4rt.Messages.{only}
use minix4rt.Rcode.{ok, elocked}
use minix4rt.Kernel.{Kernel}
use minix4rt.Kernel.Outcome.{ret}
use minix4rt.Minix.Send.{
  chain_meets, is_deadlock, is_in_gap, send_checked, mini_send, is_waiting_for,
}
use minix4rt.Minix.Receive.{mini_rec}
use minix4rt.Minix.Chains.{AllEnd}
use minix4rt.Minix.Deadlock.{Unlocked, mini_send-Unlocked}
use minix4rt.Minix.Exchange.{MaySend, Exchanged, mini_rec-mini_send}
use minix4rt.Minix.Rendezvous.{mini_send-mini_rec}
use minix4rt.Plist.{plist_rst, plist_get}
use minix4rt.Minix.Fair.{Turn, scheds, scheds-Turn}
use minix4rt.Tests.SemTests.{system, idle_irqs}

-- Process 3 waits to send to process 9.
abbrev busy : Kernel
busy = record system {
  proc =
      λ i. if i == 3 then record (system.proc 3) { sending = true; sendto = 9 } else system.proc i;
}

busy-AllEnd : AllEnd 1 busy
busy-AllEnd p = ground arith

mini_send_example : Unlocked (mini_send 2 7 3 50 busy)
mini_send_example = mini_send-Unlocked 1 2 busy 7 3 50 busy-AllEnd refl (omega arith)

-- A chain that comes back to the sender is found.
locked_example : mini_send 2 9 3 50 busy ≡ ret elocked busy
unfolding mini_send is_in_gap is_deadlock chain_meets send_checked
locked_example = refl

system-MaySend : MaySend system 7 3 50
unfolding is_in_gap is_waiting_for
system-MaySend = (refl, refl, refl, refl, refl)

mini_rec_example :
    (k1 k2 : Kernel) × (mini_send 0 7 3 50 system ≡ ret ok k1)
    × (mini_rec 0 [] 3 (only 7) 60 k1 ≡ ret ok k2)
    × Exchanged system 7 3 50 60 k2
mini_rec_example = mini_rec-mini_send 0 0 [] system 7 3 50 60 refl system-MaySend refl

rendezvous_example :
    (k1 k2 k3 k4 : Kernel) × (mini_send 0 7 3 50 system ≡ ret ok k1)
    × (mini_rec 0 [] 3 (only 7) 60 k1 ≡ ret ok k2)
    × (mini_rec 0 [] 3 (only 7) 60 system ≡ ret ok k3)
    × (mini_send 0 7 3 50 k3 ≡ ret ok k4)
    × (k2.message (k2.data_map 3 60) ≡ k4.message (k4.data_map 3 60))
    × (k4.message (k4.data_map 3 60)
        ≡ record (system.message (system.data_map 7 50)) { m_source = 7 })
rendezvous_example = mini_send-mini_rec 0 [] system 7 3 50 60 refl (system-MaySend, refl, refl)

-- The RT-kernel is in charge and has no ready process.
abbrev three_users : Kernel
three_users = record system {
  irqs = record idle_irqs { rtmode = true };
  rdy_q = plist_rst;
  user_q = 7 ∷ 8 ∷ 9 ∷ [];
}

nobody_ready : plist_get three_users.rdy_q ≡ none
unfolding plist_get plist_rst
nobody_ready = refl

scheds_example : Turn 9 (7 ∷ 8 ∷ []) (scheds 2 three_users)
scheds_example = scheds-Turn (8 ∷ []) [] 7 9 three_users (inr nobody_ready, refl, refl) refl
