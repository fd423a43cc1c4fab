-- ===== src/Minix/Deadlock.antt =====
-- `mini_send` never closes a chain of senders that wait for each other.
use minix4rt.Base.{
  ℕ, zero, suc, ◌<◌, Bool, true, false, not, ◌&&◌, Option, none, some, ◌==◌, if◌then◌else◌, ◌≡◌,
  refl, sym, ap, ◌∙◌, inl, inr, update, update_self, update_other, Bool-cases, true_ne_false,
  ==_iff, [], ◌∷◌, ◌++◌,
}
use minix4rt.Kernel.{Kernel, Proc, set_proc}
use minix4rt.Kernel.Outcome.{Outcome, next, ret, fault, no_rounds}
use minix4rt.Minix.Send.{
  chain_meets, is_deadlock, is_sys_mrt, is_in_gap, copy_mess, is_waiting_for, unready_if,
  hand_message, queue_caller, send_checked, mini_send,
}
use minix4rt.Minix.Chains.{
  edge, wish, ends_at, never, chain_ends, AllEnd, edge_idle, edge_busy, meets_step, meets_here,
  Decided, chain_meets-Decided,
}
use minix4rt.Minix.Keep.{ready_if-proc, unready_if-Keeps, Keeps-set_proc}

abbrev steps : ℕ → ℕ → ℕ
steps zero m = suc m
steps (suc n) m = suc (steps n m)

ends_more :
    (f g : ℕ → Bool)
    → ((q : ℕ) → f q ≡ true → g q ≡ true)
    → (o : Option ℕ) → ends_at f o ≡ true
    → ends_at g o ≡ true
ends_more f g h none e = refl
ends_more f g h (some q) e = h q e

-- A chain that ends within some steps ends within more.
ends_later : (f : ℕ → Option ℕ) (n p : ℕ) → chain_ends n f p ≡ true → chain_ends (suc n) f p ≡ true
ends_later f zero p e =
    ends_more never (chain_ends zero f) (λ q b. absurd (true_ne_false (sym b))) (f p) e
ends_later f (suc n) p e =
    ends_more (chain_ends n f) (chain_ends (suc n) f) (ends_later f n) (f p) e

ends_by_steps :
    (f : ℕ → Option ℕ) (p n m : ℕ) → chain_ends m f p ≡ true → chain_ends (steps n m) f p ≡ true
ends_by_steps f p zero m e = ends_later f m p e
ends_by_steps f p (suc n) m e = ends_later f (steps n m) p (ends_by_steps f p n m e)

module _ (k : Kernel) (r d : ℕ) where
  -- The waits after the process `r` begins to wait for `d`.
  abbrev pub after : ℕ → Option ℕ
  after = update (wish k) r (some d)

  -- A chain that does not come to `r` ends as before.
  same_end :
      (n fuel p : ℕ)
      → chain_meets fuel k r p ≡ some false
      → chain_ends n (wish k) p ≡ true
      → chain_ends n after p ≡ true
  unfolding chain_meets
  same_end n zero p m e = absurd (cc)
  same_end zero (suc fuel) p m e = elim (Bool-cases (p == r)) [
    | inl h ↦ absurd (cc (m, meets_here fuel k r p h))
    | inr h ↦ ap (ends_at never) (update_other (wish k) r p (some d) h) ∙ e
  ]
  same_end (suc n) (suc fuel) p m e = elim (Bool-cases (p == r)) [
    | inl h ↦ absurd (cc (m, meets_here fuel k r p h))
    | inr h ↦
        ap (ends_at (chain_ends n after)) (update_other (wish k) r p (some d) h)
        ∙ elim (Bool-cases (k.proc p).sending) [
          | inl s ↦
              ap (ends_at (chain_ends n after)) (edge_busy (k.proc p) s)
              ∙ same_end n fuel (k.proc p).sendto (sym (meets_step fuel k r p h s) ∙ m)
                  (sym (ap (ends_at (chain_ends n (wish k))) (edge_busy (k.proc p) s)) ∙ e)
          | inr s ↦ ap (ends_at (chain_ends n after)) (edge_idle (k.proc p) s)
        ]
  ]

  -- A chain that comes to `r` goes on with that of `d`.
  longer_end :
      (m : ℕ)
      → chain_ends m after d ≡ true
      → (n p : ℕ) → chain_ends n (wish k) p ≡ true
      → chain_ends (steps n m) after p ≡ true
  longer_end m ed zero p e = elim (Bool-cases (p == r)) [
    | inl h ↦
        rw ((==_iff p r).0 h)
          (ap (ends_at (chain_ends m after)) (update_self (wish k) r (some d)) ∙ ed)
    | inr h ↦
        ap (ends_at (chain_ends m after)) (update_other (wish k) r p (some d) h)
        ∙ ends_more never (chain_ends m after) (λ q b. absurd (true_ne_false (sym b))) (wish k p) e
  ]
  longer_end m ed (suc n) p e = elim (Bool-cases (p == r)) [
    | inl h ↦ rw ((==_iff p r).0 h) (
        ap (ends_at (chain_ends (steps n m) after)) (update_self (wish k) r (some d))
        ∙ ends_by_steps after d n m ed)
    | inr h ↦
        ap (ends_at (chain_ends (steps n m) after)) (update_other (wish k) r p (some d) h)
        ∙ ends_more (chain_ends n (wish k)) (chain_ends (steps n m) after) (longer_end m ed n)
            (wish k p) e
  ]

-- `mini_send` answers and leaves chains that end.
abbrev pub Unlocked : Outcome → Type 0
Unlocked (ret c k) = (n : ℕ) × AllEnd n k
Unlocked (next k) = ⊥
Unlocked fault = ⊥
Unlocked no_rounds = ⊥

module _ (n fuel : ℕ) (k : Kernel) (r d m : ℕ) (all : AllEnd n k) where
  -- The sends are the same.
  same_wishes : (k' : Kernel) → ((p : ℕ) → wish k' p ≡ wish k p) → (j : ℕ) × AllEnd j k'
  same_wishes k' e = (n, λ p. ap (λ f. chain_ends n f p) (λ i q. e q i) ∙ all p)

  hand_message-wish : (p : ℕ) → wish (hand_message r d m k) p ≡ wish k p
  unfolding hand_message copy_mess
  hand_message-wish p =
      ap (λ (g : ℕ → Proc). edge (g p)) (ready_if-proc k2 d)
      ∙ Keeps-set_proc edge k d (record (k.proc d) { receiving = false }) refl p
    where
      k2 : Kernel
      k2 =
          set_proc (copy_mess k r m d (k.proc d).messbuf) d
            (record (k.proc d) { receiving = false })

  queue_caller-wish : (p : ℕ) → wish (queue_caller r d m k) p ≡ update (wish k) r (some d) p
  unfolding queue_caller
  queue_caller-wish p =
      Keeps-set_proc edge k2 d (record (k2.proc d) { callerq = (k2.proc d).callerq ++ (r ∷ []) })
        refl p
      ∙ waits
    where
      k0 : Kernel
      k0 = set_proc k r (record (k.proc r) { messbuf = m })

      k1 : Kernel
      k1 = unready_if k0 r

      k2 : Kernel
      k2 = set_proc k1 r (record (k1.proc r) { sending = true; sendto = d })

      kept : edge (k1.proc p) ≡ wish k p
      kept =
          unready_if-Keeps edge (λ a t b. refl) k0 r p
          ∙ Keeps-set_proc edge k r (record (k.proc r) { messbuf = m }) refl p

      waits : wish k2 p ≡ update (wish k) r (some d) p
      waits = elim (Bool-cases (p == r)) [
        | inl h ↦ rw h refl
        | inr h ↦
            ap edge (update_other k1.proc r p (record (k1.proc r) { sending = true; sendto = d }) h)
            ∙ kept
            ∙ sym (update_other (wish k) r p (some d) h)
      ]

  -- Where the search does not come to `r`, the chain of the destination ends.
  module _ (distinct : (d == r) ≡ false) where
    end_busy :
        (j : ℕ)
        → (k.proc d).sending ≡ true
        → chain_meets fuel k r (k.proc d).sendto ≡ some false
        → chain_ends j (wish k) d ≡ true
        → chain_ends j (after k r d) d ≡ true
    end_busy zero s e a =
        absurd (true_ne_false (sym a ∙ ap (ends_at never) (edge_busy (k.proc d) s)))
    end_busy (suc j) s e a =
        ap (ends_at (chain_ends j (after k r d)))
          (update_other (wish k) r d (some d) distinct ∙ edge_busy (k.proc d) s)
        ∙ same_end k r d j fuel (k.proc d).sendto e
            (sym (ap (ends_at (chain_ends j (wish k))) (edge_busy (k.proc d) s)) ∙ a)

    end_idle : (j : ℕ) → (k.proc d).sending ≡ false → chain_ends j (after k r d) d ≡ true
    end_idle zero s =
        ap (ends_at never) (update_other (wish k) r d (some d) distinct ∙ edge_idle (k.proc d) s)
    end_idle (suc j) s =
        ap (ends_at (chain_ends j (after k r d)))
          (update_other (wish k) r d (some d) distinct ∙ edge_idle (k.proc d) s)

    queued : chain_ends n (after k r d) d ≡ true → (j : ℕ) × AllEnd j (queue_caller r d m k)
    queued e = (
      steps n n,
      λ p.
          ap (λ f. chain_ends (steps n n) f p) (λ i q. queue_caller-wish q i)
          ∙ longer_end k r d n e n p (all p),
    )

    sent :
        chain_ends n (after k r d) d ≡ true
        → (b : Bool) → (j : ℕ) × AllEnd j (if b then hand_message r d m k else queue_caller r d m k)
    sent e true = same_wishes (hand_message r d m k) hand_message-wish
    sent e false = queued e

    checked : n < fuel → Unlocked (send_checked r d m (is_deadlock fuel k r d) k)
    unfolding is_deadlock send_checked
    checked lt = elim (Bool-cases (k.proc d).sending) [
      | inl s ↦
          rw (ap (λ (b : Bool). if b then chain_meets fuel k r (k.proc d).sendto else some false) s)
            (searched s (chain_meets fuel k r (k.proc d).sendto) refl
              (chain_meets-Decided n fuel k r (k.proc d).sendto lt (all (k.proc d).sendto)))
      | inr s ↦
          rw (ap (λ (b : Bool). if b then chain_meets fuel k r (k.proc d).sendto else some false) s)
            (found (end_idle n s))
    ]
      where
        found : chain_ends n (after k r d) d ≡ true → Unlocked (send_checked r d m (some false) k)
        found e = sent e (is_waiting_for k d r)

        searched :
            (k.proc d).sending ≡ true
            → (o : Option Bool) → chain_meets fuel k r (k.proc d).sendto ≡ o
            → Decided o
            → Unlocked (send_checked r d m o k)
        searched s none e (b, h) = absurd (cc)
        searched s (some true) e h = (n, all)
        searched s (some false) e h = found (end_busy n s e (all d))

Unlocked-if : (b : Bool) (x y : Outcome) → Unlocked x → Unlocked y → Unlocked (if b then x else y)
Unlocked-if true x y hx hy = hx
Unlocked-if false x y hx hy = hy

-- Where every chain of processes that wait to send to each other ends within `n` steps, `mini_send` by
-- another process than the destination, with more fuel than `n`, does not fault and answers, and every
-- chain still ends, whether the message is handed over, the sender waits or an error is returned.
pub mini_send-Unlocked :
    (n fuel : ℕ) (k : Kernel) (r d m : ℕ)
    → AllEnd n k
    → (d == r) ≡ false
    → n < fuel
    → Unlocked (mini_send fuel r d m k)
unfolding mini_send
mini_send-Unlocked n fuel k r d m all distinct lt =
    Unlocked-if ((k.proc r).is_user && not (is_sys_mrt k d)) _ _ (n, all)
      (Unlocked-if (not (k.proc d).is_process) _ _ (n, all)
        (Unlocked-if (not (is_in_gap (k.proc r) m)) _ _ (n, all)
          (checked n fuel k r d m all distinct lt)))
