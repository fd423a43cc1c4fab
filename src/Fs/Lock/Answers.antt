-- ===== src/Fs/Lock/Answers.antt =====
-- What lock_op (src/fs/lock.c) leaves in the table, over all requests and answers.
use minix4rt.Base.{
  ℕ, ◌<◌, Bool, true, false, not, ◌&&◌, Option, none, some, ◌==◌, if◌then◌else◌, update, ◌≡◌, refl,
  sym, ◌⊎◌, inl, inr, Bool-cases, arith,
}
use minix4rt.Fs.Lock.{
  Access, FileLock, Locks, Region, einval, ebadf, eagain, Reply, answer, suspended, report, is_rd,
  is_used, find_conflict, find_empty, nr_locks_max, lock_of, store, set_or_fail, set_lock, Unlocked,
  going, no_lock, unlock_loop, unlock_end, unlock,
}
use minix4rt.Fs.Lock.Request.{
  Request, getlk, setlk, setlkw, Flock, Filp, is_getlk, is_regular, may_lock, type_of, base_of,
  region_of, get_lock, run_request, run_region, lock_typed, lock_op,
}
use minix4rt.Fs.Lock.Exclusive.{
  and_swap, Compatible, IsExclusive, passed-Compatible, find_conflict-none,
}
use minix4rt.Fs.Lock.Unlock.{Kept, unlock_loop-Kept}

-- The table after an answer.
abbrev pub locks_of : Reply → Locks
locks_of (answer c u s) = s
locks_of (suspended s) = s
locks_of (report o s) = s

-- The table of an answer is exclusive.
abbrev Fine : Reply → Type 0
Fine r = IsExclusive (locks_of r).file_lock

Fine-if : (b : Bool) (x y : Reply) → Fine x → Fine y → Fine (if b then x else y)
Fine-if true x y f g = f
Fine-if false x y f g = g

swap-Compatible : (a b : FileLock) → Compatible a b → Compatible b a
swap-Compatible a b c ub ua e l1 l2 = swapped (c ua ub (sym e) l2 l1)
  where
    swapped :
        ((is_rd a.lock_type && is_rd b.lock_type) ≡ true) ⊎ (a.lock_pid ≡ b.lock_pid)
        → ((is_rd b.lock_type && is_rd a.lock_type) ≡ true) ⊎ (b.lock_pid ≡ a.lock_pid)
    swapped (inl h) = inl (and_swap (is_rd a.lock_type) (is_rd b.lock_type) h)
    swapped (inr h) = inr (sym h)

-- A new lock beside which all others may stand.
add-IsExclusive :
    (t : ℕ → FileLock) (e : ℕ) (l : FileLock)
    → ((j : ℕ) → j < nr_locks_max → Compatible (t j) l)
    → IsExclusive t
    → IsExclusive (update t e l)
add-IsExclusive t e l f x i j hi hj = elim (Bool-cases (i == e)) [
  | inl p ↦ elim (Bool-cases (j == e)) [
    | inl q ↦ rw p (rw q (λ a b c d h. inr refl))
    | inr q ↦ rw p (rw q (swap-Compatible (t j) l (f j hj)))
  ]
  | inr p ↦ elim (Bool-cases (j == e)) [
    | inl q ↦ rw p (rw q (f i hi))
    | inr q ↦ rw p (rw q (x i j hi hj))
  ]
]

store-Fine :
    (g : Region) (s : Locks) (o : Option ℕ)
    → ((j : ℕ) → j < nr_locks_max → Compatible (s.file_lock j) (lock_of g))
    → IsExclusive s.file_lock
    → Fine (store g s o)
unfolding store
store-Fine g s none f x = x
store-Fine g s (some e) f x = add-IsExclusive s.file_lock e (lock_of g) f x

set_or_fail-Fine :
    (w : Bool) (g : Region) (s : Locks) (o : Option ℕ)
    → find_conflict nr_locks_max 0 g s.file_lock ≡ o
    → IsExclusive s.file_lock
    → Fine (set_or_fail w g s o)
unfolding set_or_fail
set_or_fail-Fine w g s none e x =
    store-Fine g s (find_empty nr_locks_max 0 s.file_lock)
      (λ j h.
        passed-Compatible g (s.file_lock j)
          (find_conflict-none nr_locks_max 0 g s.file_lock e j (omega arith) h))
      x
set_or_fail-Fine w g s (some i) e x = Fine-if w (suspended s) (answer eagain false s) x x

set_lock-Fine :
    (w : Bool) (g : Region) (s : Locks) → IsExclusive s.file_lock → Fine (set_lock w g s)
unfolding set_lock
set_lock-Fine w g s x = set_or_fail-Fine w g s (find_conflict nr_locks_max 0 g s.file_lock) refl x

unlock_end-Fine : (u : Unlocked) → Kept u → Fine (unlock_end u)
unfolding unlock_end
unlock_end-Fine (going u s) k = k
unlock_end-Fine (no_lock s) k = k

unlock-Fine : (g : Region) (s : Locks) → IsExclusive s.file_lock → Fine (unlock g s)
unfolding unlock
unlock-Fine g s x =
    unlock_end-Fine (unlock_loop nr_locks_max 0 g (going false s))
      (unlock_loop-Kept nr_locks_max 0 g (going false s) (omega arith) x)

run_request-Fine :
    (r : Request) (g : Region) (s : Locks) → IsExclusive s.file_lock → Fine (run_request r g s)
unfolding run_request get_lock
run_request-Fine getlk g s x = x
run_request-Fine setlk g s x =
    Fine-if (is_used g.ltype) (set_lock false g s) (unlock g s) (set_lock-Fine false g s x)
      (unlock-Fine g s x)
run_request-Fine setlkw g s x =
    Fine-if (is_used g.ltype) (set_lock true g s) (unlock g s) (set_lock-Fine true g s x)
      (unlock-Fine g s x)

run_region-Fine :
    (r : Request) (o : Option Region) (s : Locks)
    → IsExclusive s.file_lock
    → Fine (run_region r o s)
unfolding run_region
run_region-Fine r none s x = x
run_region-Fine r (some g) s x = run_request-Fine r g s x

lock_typed-Fine :
    (who : ℕ) (f : Filp) (r : Request) (k : Flock) (o : Option (Option Access)) (s : Locks)
    → IsExclusive s.file_lock
    → Fine (lock_typed who f r k o s)
unfolding lock_typed
lock_typed-Fine who f r k none s x = x
lock_typed-Fine who f r k (some t) s x =
    Fine-if (is_getlk r && not (is_used t)) (answer einval false s) _ x (
      Fine-if (not (is_regular f)) (answer einval false s) _ x (
        Fine-if (not (is_getlk r) && not (may_lock t f.filp_mode)) (answer ebadf false s) _ x
          (run_region-Fine r (region_of who f t k (base_of k.l_whence f)) s x)))

-- Locks of different processes that share bytes of a file are all for reading, over the table of
-- NR_LOCKS slots: where this holds, it holds after lock_op, for every request of every process, with
-- every answer.
pub lock_op-IsExclusive :
    (who : ℕ) (f : Filp) (r : Request) (k : Option Flock) (s : Locks)
    → IsExclusive s.file_lock
    → IsExclusive (locks_of (lock_op who f r k s)).file_lock
unfolding lock_op
lock_op-IsExclusive who f r none s x = x
lock_op-IsExclusive who f r (some k) s x = lock_typed-Fine who f r k (type_of k.l_type) s x
