-- ===== src/Fs/Lock/Exclusive.antt =====
-- The table of src/fs/lock.c keeps its meaning: locks on the same bytes of a file are all for reading,
-- or of one process.
use minix4rt.Base.{
  ℕ, zero, suc, ◌+◌, ◌≤◌, ◌<◌, Bool, true, false, ◌&&◌, Option, none, some, ◌==◌, if◌then◌else◌,
  ◌≡◌, refl, ap, ◌∙◌, ◌⊎◌, inl, inr, Bool-cases, ==_iff, arith,
}
use minix4rt.Fs.Lock.{
  FileLock, Region, is_rd, is_used, conflicts, find_conflict, nr_locks_max, lock_of,
}

-- Two slots may stand side by side.
abbrev pub Compatible : FileLock → FileLock → Type 0
Compatible a b =
    is_used a.lock_type ≡ true
    → is_used b.lock_type ≡ true
    → a.lock_inode ≡ b.lock_inode
    → a.lock_first ≤ b.lock_last
    → b.lock_first ≤ a.lock_last
    → ((is_rd a.lock_type && is_rd b.lock_type) ≡ true) ⊎ (a.lock_pid ≡ b.lock_pid)

abbrev pub IsExclusive : (ℕ → FileLock) → Type 0
IsExclusive t = (i j : ℕ) → i < nr_locks_max → j < nr_locks_max → Compatible (t i) (t j)

pub and_swap : (x y : Bool) → (x && y) ≡ true → (y && x) ≡ true
and_swap x y h = ground arith

-- The lock that is asked for goes beside all those that the search passes.
pub passed-Compatible :
    (g : Region) (l : FileLock) → conflicts g l ≡ false → Compatible l (lock_of g)
passed-Compatible g l e ul ug ei l1 l2 = elim (Bool-cases (is_rd g.ltype && is_rd l.lock_type)) [
  | inl r ↦ inl (and_swap (is_rd g.ltype) (is_rd l.lock_type) r)
  | inr r ↦ elim (Bool-cases (l.lock_pid == g.pid)) [
    | inl q ↦ inr ((==_iff l.lock_pid g.pid).0 q)
    | inr q ↦ ground (arith, e, ul, ug, ei, l1, l2, r, q)
  ]
]

if_none :
    (b : Bool) (i : ℕ) (o : Option ℕ) → (if b then some i else o) ≡ none → (b ≡ false) × (o ≡ none)
if_none true i o e = absurd (cc)
if_none false i o e = (refl, e)

pub find_conflict-none :
    (n i : ℕ) (g : Region) (t : ℕ → FileLock)
    → find_conflict n i g t ≡ none
    → (j : ℕ) → i ≤ j
    → j < i + n
    → conflicts g (t j) ≡ false
unfolding find_conflict
find_conflict-none zero i g t e j h1 h2 = absurd (omega (arith, h1, h2))
find_conflict-none (suc n) i g t e j h1 h2 =
    let (c, e') = if_none (conflicts g (t i)) i (find_conflict n (suc i) g t) e in
    elim (Bool-cases (j == i)) [
      | inl q ↦ ap (λ x. conflicts g (t x)) ((==_iff j i).0 q) ∙ c
      | inr q ↦ find_conflict-none n (suc i) g t e' j (ground (arith, q, h1)) (omega (arith, h2))
    ]
