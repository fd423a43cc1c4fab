-- ===== src/Messages/Queue.antt =====
-- The bound of a message queue, and that a queue without priority order is first in, first out.
use minix4rt.Base.{
  remove-append_cons, ℕ, ◌+◌, ◌≤◌, ◌<◌, ◌%◌, ◌^◌, ◌≡◌, refl, ap, sym, ◌∙◌, inl, inr, false, [], ◌∷◌,
  ◌++◌, arith, ◌==◌, ==_iff, ==_refl, has, Bool-cases, update_self, update_other, ◌⊎◌,
}
use minix4rt.Plist.{nr_prty, plist_app, plist_rmv}
use minix4rt.Plist.Invariant.{IsPlist, plist_app-IsPlist}
use minix4rt.Messages.{MsgQueue, mqe_pty, mqe_app, mqe_rmv}
use minix4rt.Rcode.{Rcode, ok, e_mrt_mqfull}

-- A queue holds at most as many messages as it was made for.
pub record IsQueue (mq : MsgQueue) : Type 0 where
  pub lists : IsPlist mq.plist
  pub bounded : mq.plist.in_q ≤ mq.size

mqe_pty_lem : (mq : MsgQueue) (prty : ℕ) → prty < nr_prty → mqe_pty mq prty < nr_prty
unfolding mqe_pty
mqe_pty_lem mq prty h = ground arith

-- What appending a message must yield: it is refused where the queue is full, and then nothing
-- changes; else it is the last of its list, all other lists are the same, and the counters count it.
abbrev pub Appended : MsgQueue → ℕ → ℕ → Rcode × MsgQueue → Type 0
Appended mq x pty (code, r) =
    ((mq.plist.in_q ≡ mq.size) × (code ≡ e_mrt_mqfull) × (r ≡ mq))
    ⊎ ((mq.plist.in_q < mq.size)
        × (code ≡ ok)
        × (r.plist.in_q ≡ mq.plist.in_q + 1)
        × (r.plist.list pty ≡ mq.plist.list pty ++ (x ∷ []))
        × ((p : ℕ) → (p == pty) ≡ false → r.plist.list p ≡ mq.plist.list p)
        × (r.enqueued ≡ (mq.enqueued + 1) % 2 ^ 32)
        × (r.delivered ≡ mq.delivered))

-- A message of a priority below 16 is appended to a queue that holds no more messages than its size.
-- If the queue is full, the answer is E_MRT_MQFULL and nothing changes. Else the answer is OK, the
-- message is the last of its list, all other lists are the same and the counters count it. In both
-- cases the lists, the bitmap and the counter agree, and the queue holds no more than its size.
pub mqe_app-IsQueue :
    (mq : MsgQueue) (x prty : ℕ)
    → IsQueue mq
    → prty < nr_prty
    → IsQueue (mqe_app mq x prty).1 × Appended mq x (mqe_pty mq prty) (mqe_app mq x prty)
unfolding mqe_app plist_app
mqe_app-IsQueue mq x prty v h = elim (Bool-cases (mq.plist.in_q == mq.size)) [
  | inl e ↦ rw e (v, inl ((==_iff mq.plist.in_q mq.size).0 e, refl, refl))
  | inr e ↦ rw e (
    record {
      lists = plist_app-IsPlist mq.plist x (mqe_pty mq prty) v.lists (mqe_pty_lem mq prty h);
      bounded = omega (arith, room e);
    },
    inr (
      room e,
      refl,
      refl,
      update_self mq.plist.list (mqe_pty mq prty) (mq.plist.list (mqe_pty mq prty) ++ (x ∷ [])),
      (λ p k.
          update_other mq.plist.list (mqe_pty mq prty) p
            (mq.plist.list (mqe_pty mq prty) ++ (x ∷ [])) k),
      refl,
      refl,
    ),
  )
]
  where
    room : (mq.plist.in_q == mq.size) ≡ false → mq.plist.in_q < mq.size
    room e = ground (arith, v.bounded)

-- A message that is not in its list of a queue with room is appended and then removed: every list is
-- as before, and so is the number of messages; both counters of the traffic count it.
pub mqe_rmv-mqe_app :
    (mq : MsgQueue) (x prty : ℕ)
    → IsQueue mq
    → mq.plist.in_q < mq.size
    → has x (mq.plist.list (mqe_pty mq prty)) ≡ false
    → ((p : ℕ) → (mqe_rmv (mqe_app mq x prty).1 x prty).plist.list p ≡ mq.plist.list p)
      × ((mqe_rmv (mqe_app mq x prty).1 x prty).plist.in_q ≡ mq.plist.in_q)
      × ((mqe_rmv (mqe_app mq x prty).1 x prty).enqueued ≡ (mq.enqueued + 1) % 2 ^ 32)
      × ((mqe_rmv (mqe_app mq x prty).1 x prty).delivered ≡ (mq.delivered + 1) % 2 ^ 32)
unfolding mqe_app mqe_rmv plist_app plist_rmv mqe_pty
mqe_rmv-mqe_app mq x prty v room out = rw (not_full) (
  λ p. elim (Bool-cases (p == mqe_pty mq prty)) [
    | inl e ↦
        rw (e, ==_refl (mqe_pty mq prty))
          (remove-append_cons x (mq.plist.list (mqe_pty mq prty)) out
            ∙ ap mq.plist.list (sym ((==_iff p (mqe_pty mq prty)).0 e)))
    | inr e ↦ rw e
  ],
  omega arith,
  refl,
  refl,
)
  where
    not_full : (mq.plist.in_q == mq.size) ≡ false
    not_full = ground arith
