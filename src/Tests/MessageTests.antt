-- ===== src/Tests/MessageTests.antt =====
-- The message queues of src/kernel/mrtmsg.c with two messages of priority 3.
use minix4rt.Base.{
  ℕ, ◌+◌, ◌%◌, ◌^◌, ◌==◌, if◌then◌else◌, ◌≡◌, refl, true, false, none, some, [], ◌∷◌, arith,
}
use minix4rt.Plist.Invariant.{total}
use minix4rt.Messages.{Header, MsgQueue, only, mqe_pty, mqe_app, mqe_rmv, mqe_pick}
use minix4rt.Messages.Pick.{Picked, mqe_pick-Picked}
use minix4rt.Messages.Queue.{IsQueue, Appended, mqe_app-IsQueue, mqe_rmv-mqe_app}

abbrev header_of : ℕ → Header
header_of i = record {
  src_pid = some i;
  src_nr = some i;
  dst_pid = none;
  dst_nr = none;
  mtype = 1;
  mid = i;
  seqno = 1;
  tstamp = 0;
  priority = 3;
  deadline = 0;
}

abbrev two_messages : MsgQueue
two_messages = record {
  size = 4;
  prty_order = true;
  prty_inherit = false;
  owner = some 2;
  delivered = 0;
  enqueued = 2;
  plist = record {
    bitmap = λ p. p == 3;
    in_q = 2;
    max_in_q = 2;
    list = λ p. if p == 3 then 5 ∷ 6 ∷ [] else [];
  };
}

two_messages-IsQueue : IsQueue two_messages
unfolding total
two_messages-IsQueue = record {
  lists = record { bits = λ p. ground arith; count = refl };
  bounded = omega arith;
}

mqe_pick_example :
    Picked 9 header_of two_messages (only 6) (mqe_pick 9 header_of two_messages (only 6))
mqe_pick_example = mqe_pick-Picked 9 header_of two_messages (only 6) two_messages-IsQueue.lists

mqe_app_example :
    IsQueue (mqe_app two_messages 7 3).1
    × Appended two_messages 7 (mqe_pty two_messages 3) (mqe_app two_messages 7 3)
mqe_app_example = mqe_app-IsQueue two_messages 7 3 two_messages-IsQueue (omega arith)

mqe_rmv-mqe_app_example :
    ((p : ℕ) → (mqe_rmv (mqe_app two_messages 7 3).1 7 3).plist.list p ≡ two_messages.plist.list p)
    × ((mqe_rmv (mqe_app two_messages 7 3).1 7 3).plist.in_q ≡ 2)
    × ((mqe_rmv (mqe_app two_messages 7 3).1 7 3).enqueued ≡ (2 + 1) % 2 ^ 32)
    × ((mqe_rmv (mqe_app two_messages 7 3).1 7 3).delivered ≡ (0 + 1) % 2 ^ 32)
unfolding mqe_pty
mqe_rmv-mqe_app_example = mqe_rmv-mqe_app two_messages 7 3 two_messages-IsQueue (omega arith) refl
