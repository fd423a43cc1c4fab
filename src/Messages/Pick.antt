-- ===== src/Messages/Pick.antt =====
-- `MRT_mqe_pick` finds the first message of a source in the list of the highest priority that has one.
use minix4rt.Base.{
  ℕ, zero, suc, ◌+◌, ◌≤◌, ◌<◌, ◌≡◌, refl, inl, inr, Bool, true, false, Option, none, some, List, [],
  ◌∷◌, ◌++◌, arith, ◌==◌, if◌then◌else◌, ap, ◌∙◌, ==_iff, Bool-cases, List-cases,
}
use minix4rt.Plist.{Plist, nr_prty}
use minix4rt.Plist.Invariant.{IsPlist}
use minix4rt.Plist.Highest.{lists-empty}
use minix4rt.Messages.{Header, MsgQueue, Source, matches, scan, or_else, pick_loop, mqe_pick}

-- No message of a list is from the source.
abbrev pub no_match : ℕ → (ℕ → Header) → Source → List ℕ → Bool
no_match hw f source [] = true
no_match hw f source (x ∷ xs) =
    if matches hw source (f x).src_nr then false else no_match hw f source xs

-- The list begins with messages of other sources, and `x`, which is from the source, follows.
abbrev pub FirstMatch : ℕ → (ℕ → Header) → Source → List ℕ → ℕ → Type 0
FirstMatch hw f source xs x =
    (before : List ℕ) × (behind : List ℕ) × (xs ≡ before ++ (x ∷ behind))
    × (no_match hw f source before ≡ true)
    × (matches hw source (f x).src_nr ≡ true)

abbrev Scanned : ℕ → (ℕ → Header) → Source → List ℕ → Option ℕ → Type 0
Scanned hw f source xs none = no_match hw f source xs ≡ true
Scanned hw f source xs (some x) = FirstMatch hw f source xs x

Scanned-cons :
    (hw : ℕ) (f : ℕ → Header) (source : Source) (y : ℕ) (xs : List ℕ) (o : Option ℕ)
    → matches hw source (f y).src_nr ≡ false
    → Scanned hw f source xs o
    → Scanned hw f source (y ∷ xs) o
Scanned-cons hw f source y xs none e s = rw e s
Scanned-cons hw f source y xs (some x) e (before, behind, q, n, k) =
    (y ∷ before, behind, ap (λ l. y ∷ l) q, rw e n, k)

scan-Scanned :
    (hw : ℕ) (f : ℕ → Header) (source : Source) (xs : List ℕ)
    → Scanned hw f source xs (scan hw f source xs)
unfolding scan
scan-Scanned hw f source [] = refl
scan-Scanned hw f source (y ∷ xs) = elim (Bool-cases (matches hw source (f y).src_nr)) [
  | inl e ↦ rw e ([], xs, refl, refl, e)
  | inr e ↦ rw e (Scanned-cons hw f source y xs _ e (scan-Scanned hw f source xs))
]

-- What the outer loop finds among the `n` priorities from `p` on.
abbrev Found : ℕ → (ℕ → Header) → Source → Plist → ℕ → ℕ → Option ℕ → Type 0
Found hw f source pl n p none =
    (q : ℕ) → p ≤ q → q < p + n → no_match hw f source (pl.list q) ≡ true
Found hw f source pl n p (some x) =
    (t : ℕ) × (t < p + n)
    × FirstMatch hw f source (pl.list t) x
    × ((q : ℕ) → p ≤ q → q < t → no_match hw f source (pl.list q) ≡ true)

module _ (hw : ℕ) (f : ℕ → Header) (source : Source) (pl : Plist) where
  here_or_past :
      (p q : ℕ)
      → no_match hw f source (pl.list p) ≡ true
      → p ≤ q
      → (p < q → no_match hw f source (pl.list q) ≡ true)
      → no_match hw f source (pl.list q) ≡ true
  here_or_past p q e h past = elim (Bool-cases (q == p)) [
    | inl i ↦ ap (λ a. no_match hw f source (pl.list a)) ((==_iff q p).0 i) ∙ e
    | inr i ↦ past (ground arith)
  ]

  Found-skip :
      (n p : ℕ) (o : Option ℕ)
      → no_match hw f source (pl.list p) ≡ true
      → Found hw f source pl n (suc p) o
      → Found hw f source pl (suc n) p o
  Found-skip n p none e r = λ q h k. here_or_past p q e h (λ l. r q l (omega arith))
  Found-skip n p (some x) e (t, below, first, before) =
      (t, omega arith, first, λ q h k. here_or_past p q e h (λ l. before q l k))

  Found-or_else :
      (n p : ℕ) (o rest : Option ℕ)
      → Scanned hw f source (pl.list p) o
      → Found hw f source pl n (suc p) rest
      → Found hw f source pl (suc n) p (or_else o rest)
  Found-or_else n p none rest s r = Found-skip n p rest s r
  Found-or_else n p (some x) rest s r = (p, omega arith, s, λ q h k. absurd (omega arith))

  pick_loop-Found : (n p : ℕ) → IsPlist pl → Found hw f source pl n p (pick_loop n p hw f source pl)
  unfolding pick_loop
  pick_loop-Found zero p v = λ q h k. absurd (omega arith)
  pick_loop-Found (suc n) p v = elim (List-cases (pl.list p)) [
    | inl e ↦ rw (v.bits p, e) (Found-skip n p _ (rw e) (pick_loop-Found n (suc p) v))
    | inr (x, xs, e) ↦
        rw (v.bits p, e)
          (Found-or_else n p _ _ (rw e (scan-Scanned hw f source (x ∷ xs)))
            (pick_loop-Found n (suc p) v))
  ]

-- What `MRT_mqe_pick` must yield.
abbrev pub Picked : ℕ → (ℕ → Header) → MsgQueue → Source → Option ℕ → Type 0
Picked hw f mq source none = (q : ℕ) → q < nr_prty → no_match hw f source (mq.plist.list q) ≡ true
Picked hw f mq source (some x) =
    (t : ℕ) × (t < nr_prty)
    × FirstMatch hw f source (mq.plist.list t) x
    × ((q : ℕ) → q < t → no_match hw f source (mq.plist.list q) ≡ true)

Found-Picked :
    (hw : ℕ) (f : ℕ → Header) (mq : MsgQueue) (source : Source) (o : Option ℕ)
    → Found hw f source mq.plist nr_prty 0 o
    → Picked hw f mq source o
Found-Picked hw f mq source none r = λ q h. r q (omega arith) h
Found-Picked hw f mq source (some x) (t, below, first, before) =
    (t, below, first, λ q h. before q (omega arith) h)

-- A message of HARDWARE is from the source where that is the number of HARDWARE. In a message queue with a well-formed priority list the code finds the first message from the source
-- in the list of the least number (the highest priority) that has one, and NULL exactly where no
-- list has a message from the source.
pub mqe_pick-Picked :
    (hw : ℕ) (f : ℕ → Header) (mq : MsgQueue) (source : Source)
    → IsPlist mq.plist
    → Picked hw f mq source (mqe_pick hw f mq source)
unfolding mqe_pick
mqe_pick-Picked hw f mq source v = elim (Bool-cases (mq.plist.in_q == 0)) [
  | inl e ↦
      rw e (λ q h.
        ap (no_match hw f source) (lists-empty mq.plist v ((==_iff mq.plist.in_q 0).0 e) q h))
  | inr e ↦ rw e (Found-Picked hw f mq source _ (pick_loop-Found hw f source mq.plist nr_prty 0 v))
]
