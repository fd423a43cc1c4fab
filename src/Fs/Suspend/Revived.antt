-- ===== src/Fs/Suspend/Revived.antt =====
-- `lock_revive` (src/fs/lock.c) against what it is for.
use minix4rt.Base.{
  ℕ, zero, suc, ◌+◌, ◌<◌, ◌≤◌, true, false, not, ◌&&◌, some, ◌==◌, ltb, leb, if◌then◌else◌, update,
  ◌≡◌, refl, sym, ap, ◌∙◌, inl, inr, Bool-cases, if_true, if_false, arith, ==_iff,
}
use minix4rt.Fs.Suspend.{
  Waits, Fproc, Waiting, xlock, xpipe, xopen, xpopen, on_task, is_xlock, nr_procs, init_proc_nr,
  revive, revived, lock_revive, lock_revive_loop, lock_revive_slot,
}

-- A process that waits for a lock is marked, any other is left alone.
abbrev pub marked : Fproc → Fproc
marked p = if p.fp_suspended && is_xlock p.fp_task then record p { fp_revived = true } else p

-- The processes from `i` on, `n` of them, are marked, the others are as before, and nobody is answered.
abbrev Marked : ℕ → ℕ → Waits → Waits → Type 0
Marked n i s s' =
    ((j : ℕ) → s'.fproc j ≡ (if leb i j && ltb j (i + n) then marked (s.fproc j) else s.fproc j))
    × (s'.replies ≡ s.replies)

abbrev one_marked : ℕ → Waits → Waits
one_marked i s = record s {
  fproc = update s.fproc i (record (s.fproc i) { fp_revived = true });
  reviving = s.reviving + 1;
}

revived-xlock :
    (i : ℕ) (s : Waits) (w : Waiting) → is_xlock w ≡ true → revived i 0 w s ≡ one_marked i s
unfolding revived
revived-xlock i s xlock e = refl
revived-xlock i s xpipe e = absurd (cc)
revived-xlock i s xopen e = absurd (cc)
revived-xlock i s xpopen e = absurd (cc)
revived-xlock i s (on_task t) e = absurd (cc)

-- One round of the loop.
abbrev Round : ℕ → Waits → Waits → Type 0
Round i s s' =
    ((j : ℕ) → s'.fproc j ≡ (if j == i then marked (s.fproc i) else s.fproc j))
    × (s'.replies ≡ s.replies)

marked_kept : (p : Fproc) → p.fp_revived ≡ true → marked p ≡ p
marked_kept p e = elim (Bool-cases (p.fp_suspended && is_xlock p.fp_task)) [
  | inl h ↦ rw h (ap (λ b. record p { fp_revived = b }) (sym e))
  | inr h ↦ rw h refl
]

left_alone : (i : ℕ) (s : Waits) → marked (s.fproc i) ≡ s.fproc i → Round i s s
left_alone i s e = (λ j. same j, refl)
  where
    same : (j : ℕ) → s.fproc j ≡ (if j == i then marked (s.fproc i) else s.fproc j)
    same j = elim (Bool-cases (j == i)) [
      | inl h ↦ rw h (ap s.fproc ((==_iff j i).0 h) ∙ sym e)
      | inr h ↦ rw h refl
    ]

lock_revive_slot-Round :
    (i : ℕ) (s : Waits)
    → i < nr_procs
    → (s' : Waits) × (lock_revive_slot i (some s) ≡ some s') × Round i s s'
unfolding lock_revive_slot revive
lock_revive_slot-Round i s low =
    elim (Bool-cases ((s.fproc i).fp_suspended && is_xlock (s.fproc i).fp_task)) [
      | inr h ↦ (
        s,
        if_false {b = (s.fproc i).fp_suspended && is_xlock (s.fproc i).fp_task} _ _ h,
        left_alone i s (if_false _ _ h),
      )
      | inl h ↦ elim (Bool-cases (s.fproc i).fp_revived) [
        | inl r ↦ (
          s,
          if_true _ _ h ∙ if_false _ _ in_range ∙ if_false _ _ (suspends h) ∙ if_true _ _ r,
          left_alone i s (marked_kept (s.fproc i) r),
        )
        | inr r ↦ (
          one_marked i s,
          if_true _ _ h
              ∙ if_false _ _ in_range
              ∙ if_false _ _ (suspends h)
              ∙ if_false _ _ r
              ∙ ap some (revived-xlock i s (s.fproc i).fp_task (waits h)),
          ((λ j. ap (λ p. if j == i then p else s.fproc j) (sym (if_true _ _ h))), refl),
        )
      ]
    ]
  where
    in_range : not (ltb i nr_procs) ≡ false
    in_range = ground arith

    suspends :
        ((s.fproc i).fp_suspended && is_xlock (s.fproc i).fp_task) ≡ true
        → not (s.fproc i).fp_suspended ≡ false
    suspends h = ground arith

    waits :
        ((s.fproc i).fp_suspended && is_xlock (s.fproc i).fp_task) ≡ true
        → is_xlock (s.fproc i).fp_task ≡ true
    waits h = ground arith

Round-Marked :
    (n i : ℕ) (s s1 s' : Waits) → Round i s s1 → Marked n (suc i) s1 s' → Marked (suc n) i s s'
Round-Marked n i s s1 s' (f, a) (g, b) = (λ j. (g j ∙ step j (f j)), b ∙ a)
  where
    step :
        (j : ℕ)
        → s1.fproc j ≡ (if j == i then marked (s.fproc i) else s.fproc j)
        → (if leb (suc i) j && ltb j (suc i + n) then marked (s1.fproc j) else s1.fproc j)
          ≡ (if leb i j && ltb j (i + suc n) then marked (s.fproc j) else s.fproc j)
    step j e = elim (Bool-cases (j == i)) [
      | inl h ↦ first ((==_iff j i).0 h) (e ∙ if_true _ _ h)
      | inr h ↦
          ap (λ p. if leb (suc i) j && ltb j (suc i + n) then marked p else p) (e ∙ if_false _ _ h)
          ∙ ap (λ b. if b then marked (s.fproc j) else s.fproc j) (ground (arith, h))
    ]
      where
        first :
            j ≡ i
            → s1.fproc j ≡ marked (s.fproc i)
            → (if leb (suc i) j && ltb j (suc i + n) then marked (s1.fproc j) else s1.fproc j)
              ≡ (if leb i j && ltb j (i + suc n) then marked (s.fproc j) else s.fproc j)
        first q e1 =
            if_false {b = leb (suc i) j && ltb j (suc i + n)} _ (s1.fproc j) (ground (arith, q))
            ∙ e1
            ∙ ap (λ x. marked (s.fproc x)) (sym q)
            ∙ sym (if_true {b = leb i j && ltb j (i + suc n)} _ (s.fproc j) (ground (arith, q)))

lock_revive_loop-Marked :
    (n i : ℕ) (s : Waits)
    → i + n ≤ nr_procs
    → (s' : Waits) × (lock_revive_loop n i (some s) ≡ some s') × Marked n i s s'
unfolding lock_revive_loop
lock_revive_loop-Marked zero i s h = (
  s,
  refl,
  (
    (λ j.
        sym (
          if_false {b = leb i j && ltb j (i + 0)} (marked (s.fproc j)) (s.fproc j) (ground arith))),
    refl,
  ),
)
lock_revive_loop-Marked (suc n) i s h =
    let (s1, e1, r1) = lock_revive_slot-Round i s (omega (arith, h)) in
    let (s2, e2, r2) = lock_revive_loop-Marked n (suc i) s1 (omega (arith, h)) in
    (s2, ap (lock_revive_loop n (suc i)) e1 ∙ e2, Round-Marked n i s s1 s2 r1 r2)

lock_revive_eq : (s : Waits) → lock_revive s ≡ lock_revive_loop 29 3 (some s)
unfolding lock_revive
lock_revive_eq s = refl

-- lock_revive does not panic. Of the processes after INIT exactly those that wait for a lock are marked
-- for revival, all else about the processes is as before, and nobody is answered.
pub lock_revive-Marked :
    (s : Waits)
    → (s' : Waits) × (lock_revive s ≡ some s')
      × ((j : ℕ)
          → s'.fproc j ≡ (
              if leb (init_proc_nr + 1) j && ltb j nr_procs then marked (s.fproc j) else s.fproc j))
      × (s'.replies ≡ s.replies)
lock_revive-Marked s =
    let (s', e, (f, r)) = lock_revive_loop-Marked 29 3 s (omega arith) in
    (s', lock_revive_eq s ∙ e, λ j. f j, r)
