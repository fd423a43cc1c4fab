-- ===== src/Fs/Lock.antt =====
-- src/fs/lock.c: the advisory locks on files. The loop of lock_op over the table does one of three
-- things, by the request: it looks for a conflict, it looks for one and for a free slot, or it unlocks;
-- these are functions of their own. A file offset is an unsigned long of 32 bits. Fs/Suspend does what
-- an answer says about `suspend` and `lock_revive`.
pub mod Request
pub mod Exclusive
pub mod Unlock
pub mod Answers
use minix4rt.Base.{
  ℕ, zero, suc, ◌+◌, ◌-◌, ◌%◌, ◌^◌, Bool, true, false, not, ◌&&◌, ◌||◌, Option, none, some, ltb,
  leb, ◌==◌, if◌then◌else◌, update,
}

abbrev pub nr_locks_max : ℕ
nr_locks_max = 8

-- F_RDLCK and F_WRLCK
pub data Access : Type 0 where
  rdlck wrlck : Access

-- `lock_type` is `none` for a slot that is not used.
pub record FileLock : Type 0 where
  pub lock_type : Option Access
  pub lock_pid : ℕ
  pub lock_inode : ℕ
  pub lock_first : ℕ
  pub lock_last : ℕ

-- `file_lock` and `nr_locks`
pub record Locks : Type 0 where
  pub file_lock : ℕ → FileLock
  pub nr_locks : ℕ

-- What is asked for: the kind of lock, or `none` to unlock, and the region of the file.
pub record Region : Type 0 where
  pub ltype : Option Access
  pub pid : ℕ
  pub inode : ℕ
  pub first : ℕ
  pub last : ℕ

pub data FsCode : Type 0 where
  ok einval ebadf eagain enolck : FsCode

-- An answer and whether the waiting processes are revived, the suspension of the caller, or the
-- conflicting lock that F_GETLK reports.
pub data Reply : Type 0 where
  answer : FsCode → Bool → Locks → Reply
  suspended : Locks → Reply
  report : Option FileLock → Locks → Reply

abbrev pub is_rd : Option Access → Bool
is_rd (some rdlck) = true
is_rd o = false

abbrev pub is_used : Option Access → Bool
is_used none = false
is_used (some a) = true

-- The tests of the loop over the table, for one slot.
abbrev pub conflicts : Region → FileLock → Bool
conflicts g l =
    is_used l.lock_type
    && ((l.lock_inode == g.inode)
        && (not (ltb g.last l.lock_first)
            && (not (ltb l.lock_last g.first)
                && (not (is_rd g.ltype && is_rd l.lock_type)
                    && not (is_used g.ltype && (l.lock_pid == g.pid))))))

-- The first slot from `i` on, of `n`, with a conflict; and the first that is not used.
unfoldable pub find_conflict : ℕ → ℕ → Region → (ℕ → FileLock) → Option ℕ
find_conflict zero i g t = none
find_conflict (suc n) i g t =
    let rest = find_conflict n (suc i) g t in if conflicts g (t i) then some i else rest

unfoldable pub find_empty : ℕ → ℕ → (ℕ → FileLock) → Option ℕ
find_empty zero i t = none
find_empty (suc n) i t =
    let rest = find_empty n (suc i) t in if is_used (t i).lock_type then rest else some i

-- The new lock goes into a free slot.
abbrev pub lock_of : Region → FileLock
lock_of g = record {
  lock_type = g.ltype;
  lock_pid = g.pid;
  lock_inode = g.inode;
  lock_first = g.first;
  lock_last = g.last;
}

unfoldable pub store : Region → Locks → Option ℕ → Reply
store g s none = answer enolck false s
store g s (some e) =
    answer ok false
      (record { file_lock = update s.file_lock e (lock_of g); nr_locks = s.nr_locks + 1 })

-- F_SETLK and F_SETLKW; `waits` is F_SETLKW.
unfoldable pub set_or_fail : Bool → Region → Locks → Option ℕ → Reply
unfolding find_empty store
set_or_fail waits g s none = store g s (find_empty nr_locks_max 0 s.file_lock)
set_or_fail waits g s (some i) = if waits then suspended s else answer eagain false s

unfoldable pub set_lock : Bool → Region → Locks → Reply
unfolding find_conflict set_or_fail
set_lock waits g s = set_or_fail waits g s (find_conflict nr_locks_max 0 g s.file_lock)

-- Where `flp2` points when the search for a free slot ends: behind the table if none is free.
abbrev pub slot_of : Option ℕ → ℕ
slot_of none = nr_locks_max
slot_of (some i) = i

-- The two halves of a lock whose middle is unlocked, the upper one in the slot `j`.
abbrev pub split_lock : Region → ℕ → ℕ → Locks → Locks
split_lock g i j s = record {
  file_lock =
      update (update s.file_lock j (record (s.file_lock i) { lock_first = g.last + 1 })) i
        (record (s.file_lock i) { lock_last = g.first - 1 });
  nr_locks = s.nr_locks + 1;
}

-- What unlocking has done so far, with `unlocking`, or the return with ENOLCK.
pub data Unlocked : Type 0 where
  going : Bool → Locks → Unlocked
  no_lock : Locks → Unlocked

unfoldable pub clear_slot : Region → ℕ → Locks → Unlocked
unfolding find_empty
clear_slot g i s =
    let l = s.file_lock i in
    if leb g.first l.lock_first && leb l.lock_last g.last
    then going true (record {
      file_lock = update s.file_lock i (record l { lock_type = none });
      nr_locks = s.nr_locks - 1;
    })
    else if leb g.first l.lock_first
    then going true
        (record s { file_lock = update s.file_lock i (record l { lock_first = g.last + 1 }) })
    else if leb l.lock_last g.last
    then going true
        (record s { file_lock = update s.file_lock i (record l { lock_last = g.first - 1 }) })
    else if s.nr_locks == nr_locks_max
    then no_lock s
    else going true (split_lock g i (slot_of (find_empty nr_locks_max 0 s.file_lock)) s)

unfoldable pub unlock_slot : Region → ℕ → Unlocked → Unlocked
unfolding clear_slot
unlock_slot g i (no_lock s) = no_lock s
unlock_slot g i (going u s) = if conflicts g (s.file_lock i) then clear_slot g i s else going u s

-- The loop of an unlock over `n` slots from `i` on.
unfoldable pub unlock_loop : ℕ → ℕ → Region → Unlocked → Unlocked
unfolding unlock_slot
unlock_loop zero i g u = u
unlock_loop (suc n) i g u = unlock_loop n (suc i) g (unlock_slot g i u)

unfoldable pub unlock_end : Unlocked → Reply
unlock_end (going u s) = answer ok u s
unlock_end (no_lock s) = answer enolck false s

unfoldable pub unlock : Region → Locks → Reply
unfolding unlock_loop unlock_end
unlock g s = unlock_end (unlock_loop nr_locks_max 0 g (going false s))
