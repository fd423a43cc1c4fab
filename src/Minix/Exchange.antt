-- ===== src/Minix/Exchange.antt =====
-- A message that `mini_send` queues comes to the destination with `mini_rec`.
use minix4rt.Base.{
  ℕ, Bool, true, false, not, ◌&&◌, some, List, [], ◌∷◌, ◌++◌, ◌==◌, if◌then◌else◌, ◌≡◌, refl, ap,
  ◌∙◌, update_self, update_other, has, remove, arith, ==_refl,
}
use minix4rt.Messages.{only}
use minix4rt.Rcode.{ok}
use minix4rt.Kernel.{Kernel, Proc, set_proc}
use minix4rt.Kernel.Outcome.{ret}
use minix4rt.Minix.Send.{
  is_deadlock, is_sys_mrt, is_in_gap, copy_mess, is_waiting_for, unready_if, queue_caller,
  send_checked, mini_send,
}
use minix4rt.Minix.Receive.{
  acceptable_sender, take_message, receive_or_wait, await_message, mini_rec,
}
use minix4rt.Minix.Keep.{
  Keeps-set_proc, ready_if-proc, ready_if-Moved, unready_if-Keeps, unready_if-Moved,
}

acceptable_sender-append :
    (r : ℕ) (q : List ℕ) → has r q ≡ false → acceptable_sender (only r) (q ++ (r ∷ [])) ≡ some r
unfolding acceptable_sender
acceptable_sender-append r [] h = ground (arith, ==_refl r)
acceptable_sender-append r (x ∷ q) h = ground (arith, acceptable_sender-append r q)

remove-append : (r : ℕ) (q : List ℕ) → has r q ≡ false → remove r (q ++ (r ∷ [])) ≡ q
remove-append r [] h = ground arith
remove-append r (x ∷ q) h = ground (arith, remove-append r q)

module _ (k : Kernel) (r d m : ℕ) where
  abbrev pub begun : Kernel
  begun = set_proc k r (record (k.proc r) { messbuf = m })

  abbrev pub blocked : Kernel
  blocked = unready_if begun r

  abbrev pub waiting : Kernel
  waiting = set_proc blocked r (record (blocked.proc r) { sending = true; sendto = d })

  abbrev pub with_caller : Proc
  with_caller = record (waiting.proc d) { callerq = (waiting.proc d).callerq ++ (r ∷ []) }

  -- The sender that waits keeps its buffer, and the queue of the destination ends with it.
  queue_caller-messbuf : (d == r) ≡ false → ((queue_caller r d m k).proc r).messbuf ≡ m
  unfolding queue_caller
  queue_caller-messbuf e =
      Keeps-set_proc (λ p. p.messbuf) waiting d with_caller refl r
      ∙ Keeps-set_proc (λ p. p.messbuf) blocked r
          (record (blocked.proc r) { sending = true; sendto = d }) refl r
      ∙ unready_if-Keeps (λ p. p.messbuf) (λ p t n. refl) begun r r
      ∙ ap (λ p. p.messbuf) (update_self k.proc r (record (k.proc r) { messbuf = m }))

  module _ (distinct : (d == r) ≡ false) where
    -- A field of the destination that the wait does not write.
    queue_caller-sending : ((queue_caller r d m k).proc d).sending ≡ (k.proc d).sending
    unfolding queue_caller
    queue_caller-sending =
        Keeps-set_proc (λ p. p.sending) waiting d with_caller refl d
        ∙ ap (λ p. p.sending)
            (update_other blocked.proc r d (record (blocked.proc r) { sending = true; sendto = d })
              distinct)
        ∙ unready_if-Keeps (λ p. p.sending) (λ p t n. refl) begun r d
        ∙ Keeps-set_proc (λ p. p.sending) k r (record (k.proc r) { messbuf = m }) refl d

    queue_caller-callerq : ((queue_caller r d m k).proc d).callerq ≡ (k.proc d).callerq ++ (r ∷ [])
    unfolding queue_caller
    queue_caller-callerq =
        ap (λ p. p.callerq) (update_self waiting.proc d with_caller)
        ∙ ap (λ (q : List ℕ). q ++ (r ∷ []))
            (Keeps-set_proc (λ p. p.callerq) blocked r
                (record (blocked.proc r) { sending = true; sendto = d }) refl d
              ∙ unready_if-Keeps (λ p. p.callerq) (λ p t n. refl) begun r d
              ∙ Keeps-set_proc (λ p. p.callerq) k r (record (k.proc r) { messbuf = m }) refl d)

  queue_caller-message : (queue_caller r d m k).message ≡ k.message
  unfolding queue_caller
  queue_caller-message = ap (λ z. z.message) (unready_if-Moved begun r)

  queue_caller-data_map : (queue_caller r d m k).data_map ≡ k.data_map
  unfolding queue_caller
  queue_caller-data_map = ap (λ z. z.data_map) (unready_if-Moved begun r)

-- What `take_message` of the sender `s` gives the process `r` at the address `m`.
module _ (k : Kernel) (r s m : ℕ) where
  take_message-message :
      (take_message r s m k).message ((take_message r s m k).data_map r m)
      ≡ record (k.message (k.data_map s (k.proc s).messbuf)) { m_source = s }
  unfolding take_message copy_mess
  take_message-message =
      ap (λ z. z.message (z.data_map r m)) (ready_if-Moved k3 s)
      ∙ update_self k.message (k.data_map r m)
          (record (k.message (k.data_map s (k.proc s).messbuf)) { m_source = s })
    where
      k2 : Kernel
      k2 =
          set_proc (copy_mess k s (k.proc s).messbuf r m) r
            (record (k.proc r) { callerq = remove s (k.proc r).callerq })

      k3 : Kernel
      k3 = set_proc k2 s (record (k2.proc s) { sending = false })

  take_message-callerq : ((take_message r s m k).proc r).callerq ≡ remove s (k.proc r).callerq
  unfolding take_message copy_mess
  take_message-callerq =
      ap (λ (g : ℕ → Proc). (g r).callerq) (ready_if-proc k3 s)
      ∙ Keeps-set_proc (λ p. p.callerq) k2 s (record (k2.proc s) { sending = false }) refl r
      ∙ ap (λ p. p.callerq)
          (update_self k.proc r (record (k.proc r) { callerq = remove s (k.proc r).callerq }))
    where
      k2 : Kernel
      k2 =
          set_proc (copy_mess k s (k.proc s).messbuf r m) r
            (record (k.proc r) { callerq = remove s (k.proc r).callerq })

      k3 : Kernel
      k3 = set_proc k2 s (record (k2.proc s) { sending = false })

  take_message-sending : ((take_message r s m k).proc s).sending ≡ false
  unfolding take_message copy_mess
  take_message-sending =
      ap (λ (g : ℕ → Proc). (g s).sending) (ready_if-proc k3 s)
      ∙ ap (λ p. p.sending) (update_self k2.proc s (record (k2.proc s) { sending = false }))
    where
      k2 : Kernel
      k2 =
          set_proc (copy_mess k s (k.proc s).messbuf r m) r
            (record (k.proc r) { callerq = remove s (k.proc r).callerq })

      k3 : Kernel
      k3 = set_proc k2 s (record (k2.proc s) { sending = false })

-- The sender `r` may send the message at `m` to the process `d`, which neither sends nor waits for it.
abbrev pub MaySend : Kernel → ℕ → ℕ → ℕ → Type 0
MaySend k r d m =
    (((k.proc r).is_user && not (is_sys_mrt k d)) ≡ false)
    × ((k.proc d).is_process ≡ true)
    × (is_in_gap (k.proc r) m ≡ true)
    × ((k.proc d).sending ≡ false)
    × (is_waiting_for k d r ≡ false)

-- The message has come to the address `m2` of the process `d`.
abbrev pub Exchanged : Kernel → ℕ → ℕ → ℕ → ℕ → Kernel → Type 0
Exchanged k r d m m2 k' =
    (k'.message (k'.data_map d m2) ≡ record (k.message (k.data_map r m)) { m_source = r })
    × ((k'.proc r).sending ≡ false)
    × ((k'.proc d).callerq ≡ (k.proc d).callerq)

mini_send-queued :
    (fuel : ℕ) (k : Kernel) (r d m : ℕ)
    → MaySend k r d m
    → mini_send fuel r d m k ≡ ret ok (queue_caller r d m k)
unfolding mini_send is_deadlock send_checked
mini_send-queued fuel k r d m (user, alive, gap, idle, waits) =
    rw (user, alive, gap, idle, waits) refl

mini_rec-taken :
    (fuel : ℕ) (users : List ℕ) (k : Kernel) (r s m : ℕ)
    → (k.proc r).sending ≡ false
    → acceptable_sender (only s) (k.proc r).callerq ≡ some s
    → mini_rec fuel users r (only s) m k ≡ ret ok (take_message r s m k)
unfolding mini_rec receive_or_wait
mini_rec-taken fuel users k r s m idle found =
    ap
      (λ (b : Bool).
        if b
        then await_message fuel users r (only s) m k
        else receive_or_wait fuel users r (only s) m (acceptable_sender (only s) (k.proc r).callerq)
            k)
      idle
    ∙ ap (λ o. receive_or_wait fuel users r (only s) m o k) found

taken :
    (k : Kernel) (r d m m2 : ℕ)
    → (d == r) ≡ false
    → has r (k.proc d).callerq ≡ false
    → Exchanged k r d m m2 (take_message d r m2 (queue_caller r d m k))
taken k r d m m2 distinct new = (
  take_message-message k1 d r m2
      ∙ ap (λ a. record (k1.message (k1.data_map r a)) { m_source = r })
          (queue_caller-messbuf k r d m distinct)
      ∙ ap (λ g. record (g (k1.data_map r m)) { m_source = r }) (queue_caller-message k r d m)
      ∙ ap (λ g. record (k.message (g r m)) { m_source = r }) (queue_caller-data_map k r d m),
  take_message-sending k1 d r m2,
  take_message-callerq k1 d r m2
      ∙ ap (remove r) (queue_caller-callerq k r d m distinct)
      ∙ remove-append r (k.proc d).callerq new,
)
  where
    k1 : Kernel
    k1 = queue_caller r d m k

-- A process `r` may send to another process `d` that does not send and does not wait for it, and is
-- not in its queue. Then `mini_send` returns OK, and `mini_rec` of `d` from `r` after it returns OK: the
-- message, with its source, is at the address where `d` wants it, `r` does not send any more, and the
-- queue of `d` is as before.
pub mini_rec-mini_send :
    (fuel fuel2 : ℕ) (users : List ℕ) (k : Kernel) (r d m m2 : ℕ)
    → (d == r) ≡ false
    → MaySend k r d m
    → has r (k.proc d).callerq ≡ false
    → (k1 k2 : Kernel) × (mini_send fuel r d m k ≡ ret ok k1)
      × (mini_rec fuel2 users d (only r) m2 k1 ≡ ret ok k2)
      × Exchanged k r d m m2 k2
mini_rec-mini_send fuel fuel2 users k r d m m2 distinct may new = (
  queue_caller r d m k,
  take_message d r m2 (queue_caller r d m k),
  mini_send-queued fuel k r d m may,
  mini_rec-taken fuel2 users (queue_caller r d m k) d r m2
      (queue_caller-sending k r d m distinct ∙ may.3)
      (ap (acceptable_sender (only r)) (queue_caller-callerq k r d m distinct)
        ∙ acceptable_sender-append r (k.proc d).callerq new),
  taken k r d m m2 distinct new,
)
