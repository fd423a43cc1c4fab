-- ===== src/Process/Endless.antt =====
-- The loop of `MRT_set2nrt` over the messages of a process does not take them out of the queue.
use minix4rt.Base.{
  ℕ, zero, suc, Bool, false, Option, none, some, ◌≡◌, refl, ap, ◌∙◌, ◌⊎◌, inl, inr, if◌then◌else◌,
  Bool-cases,
}
use minix4rt.Vtimer.{Timers}
use minix4rt.Vtimer.Handlers.{vtimer_stop}
use minix4rt.Messages.{Messages, any_proc, mqe_pick}
use minix4rt.Kernel.{Kernel, set_proc, is_rtready, rdy_q_app}
use minix4rt.Kernel.Outcome.{Outcome, next, fault, ◌>>=◌}
use minix4rt.Ipc.{set_timers, slot_of}
use minix4rt.Ipc.Direct.{rdy_q_app-Readied}
use minix4rt.Process.Exit.{stop_sender, turn_back, unblock_sender, picked_or_end, turn_loop}

-- What the search for a message depends on.
abbrev seen : Kernel → ℕ × Messages
seen k = (k.hardware, k.messages)

-- A step that faults or leaves the messages alone.
abbrev pub Spares : Kernel → Outcome → Type 0
Spares k o = (o ≡ fault) ⊎ ((k' : Kernel) × (o ≡ next k') × (seen k' ≡ seen k))

turn_back-seen : (s : ℕ) (k : Kernel) → seen (turn_back s k) ≡ seen k
unfolding turn_back
turn_back-seen s k = elim (Bool-cases (is_rtready (k1.proc s))) [
  | inl e ↦
      ap (λ (b : Bool). seen (if b then rdy_q_app k1 s else k1)) e
      ∙ ap (λ z. seen z) (rdy_q_app-Readied k1 s)
  | inr e ↦ ap (λ (b : Bool). seen (if b then rdy_q_app k1 s else k1)) e
]
  where
    k1 : Kernel
    k1 = set_proc k s (record (k.proc s) { mbx_snd = false; pto = none })

unblock_sender-Spares : (s : ℕ) (k : Kernel) → Spares k (unblock_sender s k)
unfolding unblock_sender stop_sender set_timers
unblock_sender-Spares s k = stops (k.proc s).ipcvt
  where
    timers : (o : Option Timers) → Spares k (set_timers k o >>= λ k1. next (turn_back s k1))
    timers none = inl refl
    timers (some t) =
        inr
          (turn_back s (record k { timers = t }), refl, turn_back-seen s (record k { timers = t }))

    stops : (o : Option ℕ) → Spares k (stop_sender o k >>= λ k1. next (turn_back s k1))
    stops none = inr (turn_back s k, refl, turn_back-seen s k)
    stops (some v) = timers (vtimer_stop k.timers v)

-- Where the queue of a process that ends holds a message, the loop of `MRT_set2nrt` over its messages
-- does not end: with any number of rounds it faults or the fuel runs out.
pub turn_loop-endless :
    (rounds q x : ℕ) (k : Kernel)
    → mqe_pick k.hardware k.messages.mqe (k.messages.msgq q) any_proc ≡ some x
    → turn_loop rounds q k ≡ fault
unfolding turn_loop picked_or_end
turn_loop-endless zero q x k e = refl
turn_loop-endless (suc rounds) q x k e =
    ap (λ o. picked_or_end (turn_loop rounds q) o k) e
    ∙ elim (unblock_sender-Spares (slot_of k (k.messages.mqe x).src_nr) k) [
      | inl f ↦ ap (λ o. o >>= turn_loop rounds q) f
      | inr (k1, f, same) ↦
          ap (λ o. o >>= turn_loop rounds q) f
          ∙ turn_loop-endless rounds q x k1
              (ap (λ (z : ℕ × Messages). mqe_pick z.0 z.1.mqe (z.1.msgq q) any_proc) same ∙ e)
    ]
