-- ===== src/Fs/Lock/Unlock.antt =====
-- An unlock (src/fs/lock.c) leaves parts of the locks that there were.
use minix4rt.Base.{
  ℕ, zero, suc, ◌+◌, ◌-◌, ◌≤◌, ◌<◌, Bool, true, false, ◌&&◌, none, leb, ◌==◌, if◌then◌else◌, update,
  ◌≡◌, refl, sym, ap, ◌∙◌, ◌⊎◌, inl, inr, Bool-cases, arith,
}
use minix4rt.Fs.Lock.{
  FileLock, Locks, Region, is_rd, is_used, conflicts, find_empty, nr_locks_max, slot_of, split_lock,
  Unlocked, going, no_lock, clear_slot, unlock_slot, unlock_loop,
}
use minix4rt.Fs.Lock.Exclusive.{Compatible, IsExclusive}

-- A lock is free or a part of another.
abbrev PartOf : FileLock → FileLock → Type 0
PartOf a b =
    is_used a.lock_type ≡ true
    → (a.lock_type ≡ b.lock_type)
      × (a.lock_pid ≡ b.lock_pid)
      × (a.lock_inode ≡ b.lock_inode)
      × (b.lock_first ≤ a.lock_first)
      × (a.lock_last ≤ b.lock_last)

part-Compatible :
    (a a' b b' : FileLock) → PartOf a' a → PartOf b' b → Compatible a b → Compatible a' b'
part-Compatible a a' b b' f g c ua ub ei l1 l2 = same (f ua) (g ub) (
    c (ap is_used (sym (f ua).0) ∙ ua) (ap is_used (sym (g ub).0) ∙ ub)
      (sym (f ua).2 ∙ ei ∙ (g ub).2) (low (f ua) (g ub)) (high (f ua) (g ub)))
  where
    Part : FileLock → FileLock → Type 0
    Part x y =
        (x.lock_type ≡ y.lock_type)
        × (x.lock_pid ≡ y.lock_pid)
        × (x.lock_inode ≡ y.lock_inode)
        × (y.lock_first ≤ x.lock_first)
        × (x.lock_last ≤ y.lock_last)

    low : Part a' a → Part b' b → a.lock_first ≤ b.lock_last
    low (p1, p2, p3, p4, p5) (q1, q2, q3, q4, q5) = omega (arith, p4, l1, q5)

    high : Part a' a → Part b' b → b.lock_first ≤ a.lock_last
    high (p1, p2, p3, p4, p5) (q1, q2, q3, q4, q5) = omega (arith, q4, l2, p5)

    same :
        Part a' a
        → Part b' b
        → ((is_rd a.lock_type && is_rd b.lock_type) ≡ true) ⊎ (a.lock_pid ≡ b.lock_pid)
        → ((is_rd a'.lock_type && is_rd b'.lock_type) ≡ true) ⊎ (a'.lock_pid ≡ b'.lock_pid)
    same (p1, p2, p3, p4, p5) (q1, q2, q3, q4, q5) (inl e) = inl (rw p1 (rw q1 e))
    same (p1, p2, p3, p4, p5) (q1, q2, q3, q4, q5) (inr e) = inr (p2 ∙ e ∙ sym q2)

part_self : (a : FileLock) → PartOf a a
part_self a u = (refl, refl, refl, omega arith, omega arith)

-- Every slot holds a part of what some slot held.
abbrev Shrunk : (ℕ → FileLock) → (ℕ → FileLock) → Type 0
Shrunk t' t = (i : ℕ) → i < nr_locks_max → (k : ℕ) × (k < nr_locks_max) × PartOf (t' i) (t k)

Shrunk-IsExclusive : (t t' : ℕ → FileLock) → Shrunk t' t → IsExclusive t → IsExclusive t'
Shrunk-IsExclusive t t' f x i j hi hj = both (f i hi) (f j hj)
  where
    both :
        ((k : ℕ) × (k < nr_locks_max) × PartOf (t' i) (t k))
        → ((k : ℕ) × (k < nr_locks_max) × PartOf (t' j) (t k))
        → Compatible (t' i) (t' j)
    both (k, hk, pk) (m, hm, pm) = part-Compatible (t k) (t' i) (t m) (t' j) pk pm (x k m hk hm)

update-Shrunk :
    (t' t : ℕ → FileLock) (i k : ℕ) (l : FileLock)
    → Shrunk t' t
    → k < nr_locks_max
    → PartOf l (t k)
    → Shrunk (update t' i l) t
update-Shrunk t' t i k l f hk p j hj = elim (Bool-cases (j == i)) [
  | inl e ↦ (k, hk, rw e p)
  | inr e ↦ rw e (f j hj)
]

keep-Shrunk : (t : ℕ → FileLock) → Shrunk t t
keep-Shrunk t i h = (i, h, part_self (t i))

-- What an unlock leaves at every point.
abbrev pub Kept : Unlocked → Type 0
Kept (going u s) = IsExclusive s.file_lock
Kept (no_lock s) = IsExclusive s.file_lock

Kept-if :
    (b : Bool) (x y : Unlocked)
    → (b ≡ true → Kept x)
    → (b ≡ false → Kept y)
    → Kept (if b then x else y)
Kept-if true x y f g = f refl
Kept-if false x y f g = g refl

overlap :
    (g : Region) (l : FileLock)
    → conflicts g l ≡ true
    → (l.lock_first ≤ g.last) × (g.first ≤ l.lock_last)
overlap g l e = ground (arith, e)

split-Shrunk :
    (g : Region) (i j : ℕ) (s : Locks)
    → i < nr_locks_max
    → (s.file_lock i).lock_first ≤ g.last + 1
    → g.first ≤ (s.file_lock i).lock_last
    → Shrunk (split_lock g i j s).file_lock s.file_lock
split-Shrunk g i j s hi h1 h2 =
    update-Shrunk (update s.file_lock j (record (s.file_lock i) { lock_first = g.last + 1 }))
      s.file_lock i i (record (s.file_lock i) { lock_last = g.first - 1 })
      (update-Shrunk s.file_lock s.file_lock j i
        (record (s.file_lock i) { lock_first = g.last + 1 }) (keep-Shrunk s.file_lock) hi
        (λ u. (refl, refl, refl, h1, omega arith)))
      hi (λ u. (refl, refl, refl, omega arith, omega (arith, h2)))

clear_slot-Kept :
    (g : Region) (i : ℕ) (s : Locks)
    → i < nr_locks_max
    → conflicts g (s.file_lock i) ≡ true
    → IsExclusive s.file_lock
    → Kept (clear_slot g i s)
unfolding clear_slot
clear_slot-Kept g i s hi c x =
    let (o1, o2) = overlap g (s.file_lock i) c in
    elim (Bool-cases
      (leb g.first (s.file_lock i).lock_first && leb (s.file_lock i).lock_last g.last)) [
        | inl h ↦ rw h (shrunk (record (s.file_lock i) { lock_type = none }) (λ u. absurd (cc)))
        | inr h ↦ rw h (elim (Bool-cases (leb g.first (s.file_lock i).lock_first)) [
          | inl h1 ↦ rw h1 (
              shrunk (record (s.file_lock i) { lock_first = g.last + 1 })
                (λ u. (refl, refl, refl, omega (arith, o1), omega arith)))
          | inr h1 ↦ rw h1 (upper o1 o2)
        ])
      ]
  where
    shrunk : (l : FileLock) → PartOf l (s.file_lock i) → IsExclusive (update s.file_lock i l)
    shrunk l p =
        Shrunk-IsExclusive s.file_lock (update s.file_lock i l)
          (update-Shrunk s.file_lock s.file_lock i i l (keep-Shrunk s.file_lock) hi p) x

    upper :
        (s.file_lock i).lock_first ≤ g.last
        → g.first ≤ (s.file_lock i).lock_last
        → Kept (
            if leb (s.file_lock i).lock_last g.last
            then going true (record s {
              file_lock = update s.file_lock i (record (s.file_lock i) { lock_last = g.first - 1 });
            })
            else if s.nr_locks == nr_locks_max
            then no_lock s
            else going true (split_lock g i (slot_of (find_empty nr_locks_max 0 s.file_lock)) s))
    upper o1 o2 = elim (Bool-cases (leb (s.file_lock i).lock_last g.last)) [
      | inl h ↦ rw h (
          shrunk (record (s.file_lock i) { lock_last = g.first - 1 })
            (λ u. (refl, refl, refl, omega arith, omega (arith, o2))))
      | inr h ↦ rw h (
          Kept-if (s.nr_locks == nr_locks_max) (no_lock s)
            (going true (split_lock g i (slot_of (find_empty nr_locks_max 0 s.file_lock)) s))
            (λ e. x)
            (λ e.
              Shrunk-IsExclusive s.file_lock
                (split_lock g i (slot_of (find_empty nr_locks_max 0 s.file_lock)) s).file_lock
                (split-Shrunk g i (slot_of (find_empty nr_locks_max 0 s.file_lock)) s hi
                  (omega (arith, o1)) o2)
                x))
    ]

unlock_slot-Kept :
    (g : Region) (i : ℕ) (u : Unlocked) → i < nr_locks_max → Kept u → Kept (unlock_slot g i u)
unfolding unlock_slot
unlock_slot-Kept g i (no_lock s) h k = k
unlock_slot-Kept g i (going u s) h k =
    Kept-if (conflicts g (s.file_lock i)) (clear_slot g i s) (going u s)
      (λ c. clear_slot-Kept g i s h c k) (λ c. k)

pub unlock_loop-Kept :
    (n i : ℕ) (g : Region) (u : Unlocked)
    → i + n ≤ nr_locks_max
    → Kept u
    → Kept (unlock_loop n i g u)
unfolding unlock_loop
unlock_loop-Kept zero i g u h k = k
unlock_loop-Kept (suc n) i g u h k =
    unlock_loop-Kept n (suc i) g (unlock_slot g i u) (omega (arith, h))
      (unlock_slot-Kept g i u (omega (arith, h)) k)
