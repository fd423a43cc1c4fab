-- ===== src/Minix/Rendezvous.antt =====
-- The order of `mini_send` and `mini_rec` does not matter for the message.
use minix4rt.Base.{
  ℕ, Bool, true, false, not, ◌&&◌, none, List, [], ◌∷◌, ◌==◌, if◌then◌else◌, ltb, ◌≡◌, refl, sym,
  ap, ◌∙◌, update_self, has, if_false, arith, ==_refl,
}
use minix4rt.Messages.{only}
use minix4rt.Rcode.{ok}
use minix4rt.Kernel.{Kernel, Proc, set_proc}
use minix4rt.Kernel.Outcome.{Outcome, next, ret, ◌>>=◌}
use minix4rt.Minix.Send.{
  accepts, is_deadlock, is_sys_mrt, is_in_gap, copy_mess, is_waiting_for, unready_if, hand_message,
  queue_caller, send_checked, mini_send,
}
use minix4rt.Minix.Receive.{
  acceptable_sender, take_interrupt, inform, await_message, receive_or_wait, mini_rec,
}
use minix4rt.Minix.Keep.{Keeps-set_proc, ready_if-Moved, unready_if-Keeps, unready_if-Moved}
use minix4rt.Minix.Exchange.{MaySend, mini_rec-mini_send}

acceptable_sender-none :
    (r : ℕ) (q : List ℕ) → has r q ≡ false → acceptable_sender (only r) q ≡ none
unfolding acceptable_sender
acceptable_sender-none r [] h = refl
acceptable_sender-none r (x ∷ q) h = ground (arith, acceptable_sender-none r q)

no_interrupt : (b : Bool) (x y : Outcome) → (if b && false then x else y) ≡ y
no_interrupt true x y = refl
no_interrupt false x y = refl

no_signal :
    (b c : Bool) (x : Outcome) (z : Kernel)
    → ((if b && (c && false) then x else next z) >>= ret ok) ≡ ret ok z
no_signal true true x z = refl
no_signal true false x z = refl
no_signal false c x z = refl

-- The process `d` waits for a message of the process `r` at the address `m2`.
module _ (k : Kernel) (r d m2 : ℕ) where
  abbrev pub asking : Kernel
  asking = set_proc k d (record (k.proc d) { getfrom = only r; messbuf = m2 })

  abbrev pub paused : Kernel
  paused = unready_if asking d

  abbrev pub awaiting : Kernel
  awaiting = set_proc paused d (record (paused.proc d) { receiving = true })

  awaiting-Keeps {ℓ} :
      {A : Type ℓ} (f : Proc → A)
      → ((p : Proc) (t n : ℕ) → f (record p { timestamp = t; scheds = n }) ≡ f p)
      → ((p : Proc) → f (record p { receiving = true }) ≡ f p)
      → ((p : Proc) → f (record p { getfrom = only r; messbuf = m2 }) ≡ f p)
      → (p : ℕ) → f (awaiting.proc p) ≡ f (k.proc p)
  awaiting-Keeps f b1 b2 b3 p =
      Keeps-set_proc f paused d (record (paused.proc d) { receiving = true }) (b2 (paused.proc d)) p
      ∙ unready_if-Keeps f b1 asking d p
      ∙ Keeps-set_proc f k d (record (k.proc d) { getfrom = only r; messbuf = m2 }) (b3 (k.proc d))
          p

  -- What the wait wrote.
  awaiting_self {ℓ} :
      {A : Type ℓ} (f : Proc → A)
      → ((p : Proc) (t n : ℕ) → f (record p { timestamp = t; scheds = n }) ≡ f p)
      → ((p : Proc) → f (record p { receiving = true }) ≡ f p)
      → f (awaiting.proc d) ≡ f (record (k.proc d) { getfrom = only r; messbuf = m2 })
  awaiting_self f b1 b2 =
      Keeps-set_proc f paused d (record (paused.proc d) { receiving = true }) (b2 (paused.proc d)) d
      ∙ unready_if-Keeps f b1 asking d d
      ∙ ap f (update_self k.proc d (record (k.proc d) { getfrom = only r; messbuf = m2 }))

  mini_rec-awaiting :
      (fuel : ℕ) (users : List ℕ)
      → (k.proc d).sending ≡ false
      → has r (k.proc d).callerq ≡ false
      → (r == k.hardware) ≡ false
      → mini_rec fuel users d (only r) m2 k ≡ ret ok awaiting
  unfolding mini_rec receive_or_wait await_message
  mini_rec-awaiting fuel users idle new soft =
      ap
        (λ (b : Bool).
          if b
          then await_message fuel users d (only r) m2 k
          else receive_or_wait fuel users d (only r) m2
              (acceptable_sender (only r) (k.proc d).callerq) k)
        idle
      ∙ ap (λ o. receive_or_wait fuel users d (only r) m2 o k)
          (acceptable_sender-none r (k.proc d).callerq new)
      ∙ ap
          (λ (b : Bool).
            if (k.proc d).int_blocked && b
            then ret ok (take_interrupt d m2 k)
            else await_message fuel users d (only r) m2 k)
          soft
      ∙ no_interrupt (k.proc d).int_blocked (ret ok (take_interrupt d m2 k))
          (await_message fuel users d (only r) m2 k)
      ∙ no_signal (ltb 0 awaiting.sig_procs) (d == awaiting.mm) (inform fuel users awaiting)
          awaiting

  -- The wait leaves everything alone that `mini_send` looks at, but that `d` waits.
  awaiting-sys : is_sys_mrt awaiting d ≡ is_sys_mrt k d
  awaiting-sys = ap (λ z. is_sys_mrt z d) (unready_if-Moved asking d)

  awaiting-waits : (k.proc d).sending ≡ false → is_waiting_for awaiting d r ≡ true
  unfolding is_waiting_for
  awaiting-waits idle =
      ap (λ (b : Bool). b && (not (awaiting.proc d).sending && accepts (awaiting.proc d).getfrom r))
        (ap (λ p. p.receiving)
          (update_self paused.proc d (record (paused.proc d) { receiving = true })))
      ∙ ap (λ (b : Bool). not b && accepts (awaiting.proc d).getfrom r)
          (awaiting_self (λ p. p.sending) (λ p t n. refl) (λ p. refl) ∙ idle)
      ∙ ap (λ g. accepts g r) (awaiting_self (λ p. p.getfrom) (λ p t n. refl) (λ p. refl))
      ∙ ==_refl r

-- The process `r` may send to `d`, is not in its queue and is not HARDWARE.
abbrev pub MayMeet : Kernel → ℕ → ℕ → ℕ → Type 0
MayMeet k r d m = MaySend k r d m × (has r (k.proc d).callerq ≡ false) × ((r == k.hardware) ≡ false)

mini_send-direct :
    (fuel : ℕ) (k : Kernel) (r d m : ℕ)
    → ((k.proc r).is_user && not (is_sys_mrt k d)) ≡ false
    → (k.proc d).is_process ≡ true
    → is_in_gap (k.proc r) m ≡ true
    → (k.proc d).sending ≡ false
    → is_waiting_for k d r ≡ true
    → mini_send fuel r d m k ≡ ret ok (hand_message r d m k)
unfolding mini_send is_deadlock send_checked
mini_send-direct fuel k r d m user alive gap idle waits =
    if_false _ _ user
    ∙ if_false _ _ (ap not alive)
    ∙ if_false _ _ (ap not gap)
    ∙ ap (λ o. send_checked r d m o k) (if_false _ _ idle)
    ∙ ap (λ (b : Bool). ret ok (if b then hand_message r d m k else queue_caller r d m k)) waits

hand_message-message :
    (k : Kernel) (r d m : ℕ)
    → (hand_message r d m k).message ((hand_message r d m k).data_map d (k.proc d).messbuf)
      ≡ record (k.message (k.data_map r m)) { m_source = r }
unfolding hand_message copy_mess
hand_message-message k r d m =
    ap (λ z. z.message (z.data_map d (k.proc d).messbuf)) (ready_if-Moved k2 d)
    ∙ update_self k.message (k.data_map d (k.proc d).messbuf)
        (record (k.message (k.data_map r m)) { m_source = r })
  where
    k2 : Kernel
    k2 = set_proc (copy_mess k r m d (k.proc d).messbuf) d (record (k.proc d) { receiving = false })

module _ (fuel : ℕ) (k : Kernel) (r d m m2 : ℕ) (may : MaySend k r d m) where
  abbrev pub k1 : Kernel
  k1 = awaiting k r d m2

  mini_send-awaiting : mini_send fuel r d m k1 ≡ ret ok (hand_message r d m k1)
  unfolding is_in_gap
  mini_send-awaiting =
      mini_send-direct fuel k1 r d m
        (ap (λ (b : Bool). b && not (is_sys_mrt k1 d))
            (awaiting-Keeps k r d m2 (λ p. p.is_user) (λ p t n. refl) (λ p. refl) (λ p. refl) r)
          ∙ ap (λ (b : Bool). (k.proc r).is_user && not b) (awaiting-sys k r d m2)
          ∙ may.0)
        (awaiting-Keeps k r d m2 (λ p. p.is_process) (λ p t n. refl) (λ p. refl) (λ p. refl) d
          ∙ may.1)
        (in_gap ∙ may.2)
        (awaiting-Keeps k r d m2 (λ p. p.sending) (λ p t n. refl) (λ p. refl) (λ p. refl) d ∙ may.3)
        (awaiting-waits k r d m2 may.3)
    where
      in_gap : is_in_gap (k1.proc r) m ≡ is_in_gap (k.proc r) m
      in_gap =
          awaiting-Keeps k r d m2 (λ p. is_in_gap p m) (λ p t n. refl) (λ p. refl) (λ p. refl) r

  awaiting-message :
      (hand_message r d m k1).message ((hand_message r d m k1).data_map d m2)
      ≡ record (k.message (k.data_map r m)) { m_source = r }
  awaiting-message =
      ap (λ a. (hand_message r d m k1).message ((hand_message r d m k1).data_map d a))
        (sym (awaiting_self k r d m2 (λ p. p.messbuf) (λ p t n. refl) (λ p. refl)))
      ∙ hand_message-message k1 r d m
      ∙ ap (λ z. record (z.message (z.data_map r m)) { m_source = r })
          (unready_if-Moved (asking k r d m2) d)

-- A process `r` may send to another process `d` that does not send and does not wait for it, is not in
-- its queue and is not HARDWARE. Whether `mini_send` of `r` comes first and then `mini_rec` of `d` from
-- `r`, or the other way round, all four calls return OK, and the same message, that of `r` with its
-- source, is at the address where `d` wants it.
pub mini_send-mini_rec :
    (fuel : ℕ) (users : List ℕ) (k : Kernel) (r d m m2 : ℕ)
    → (d == r) ≡ false
    → MayMeet k r d m
    → (k1 k2 k3 k4 : Kernel) × (mini_send fuel r d m k ≡ ret ok k1)
      × (mini_rec fuel users d (only r) m2 k1 ≡ ret ok k2)
      × (mini_rec fuel users d (only r) m2 k ≡ ret ok k3)
      × (mini_send fuel r d m k3 ≡ ret ok k4)
      × (k2.message (k2.data_map d m2) ≡ k4.message (k4.data_map d m2))
      × (k4.message (k4.data_map d m2) ≡ record (k.message (k.data_map r m)) { m_source = r })
mini_send-mini_rec fuel users k r d m m2 distinct (may, new, soft) =
    let (x1, x2, e1, e2, ex) = mini_rec-mini_send fuel fuel users k r d m m2 distinct may new in
    (
      x1,
      x2,
      awaiting k r d m2,
      hand_message r d m (awaiting k r d m2),
      e1,
      e2,
      mini_rec-awaiting k r d m2 fuel users may.3 new soft,
      mini_send-awaiting fuel k r d m m2 may,
      ex.0 ∙ sym (awaiting-message fuel k r d m m2 may),
      awaiting-message fuel k r d m m2 may,
    )
