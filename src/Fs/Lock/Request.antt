-- ===== src/Fs/Lock/Request.antt =====
-- The first half of lock_op (src/fs/lock.c): the tests of the request, and the region that it is about;
-- and the whole of lock_op. The copy of the request from the caller is an argument, `none` where it
-- fails; the copy of the report back to the caller is left out.
use minix4rt.Base.{
  ℕ, ◌+◌, ◌-◌, ◌/◌, ◌%◌, ◌^◌, Bool, true, false, not, ◌&&◌, ◌||◌, Option, none, some, ltb, ◌==◌,
  if◌then◌else◌,
}
use minix4rt.Fs.Lock.{
  Access, rdlck, wrlck, Locks, Region, einval, ebadf, Reply, answer, report, find_conflict,
  nr_locks_max, set_lock, unlock, is_used, FileLock,
}

-- F_GETLK, F_SETLK and F_SETLKW
pub data Request : Type 0 where
  getlk setlk setlkw : Request

-- `struct flock`, as the caller has filled it in.
pub record Flock : Type 0 where
  pub l_type : ℕ
  pub l_whence : ℕ
  pub l_start : ℕ
  pub l_len : ℕ

-- What the function uses of `struct filp` and its inode.
pub record Filp : Type 0 where
  pub filp_mode : ℕ
  pub filp_ino : ℕ
  pub filp_pos : ℕ
  pub i_mode : ℕ
  pub i_size : ℕ

-- F_RDLCK, F_WRLCK and F_UNLCK; the outer `none` is any other number.
unfoldable pub type_of : ℕ → Option (Option Access)
type_of n =
    if n == 1
    then some (some rdlck)
    else if n == 2
    then some (some wrlck)
    else if n == 3
    then some none
    else none

abbrev pub is_getlk : Request → Bool
is_getlk getlk = true
is_getlk r = false

-- I_REGULAR in the bits of I_TYPE; R_BIT and W_BIT.
abbrev pub is_regular : Filp → Bool
is_regular f = f.i_mode / 4096 % 16 == 8

abbrev pub may_lock : Option Access → ℕ → Bool
may_lock none m = true
may_lock (some rdlck) m = m / 4 % 2 == 1
may_lock (some wrlck) m = m / 2 % 2 == 1

-- SEEK_SET, SEEK_CUR and SEEK_END
unfoldable pub base_of : ℕ → Filp → Option ℕ
base_of n f =
    if n == 0
    then some 0
    else if n == 1
    then some f.filp_pos
    else if n == 2
    then some f.i_size
    else none

-- The tests for an overflow of `first + l_start`, where `l_start` is positive and where it is negative.
abbrev pub overflows : ℕ → ℕ → Bool
overflows b st =
    (ltb 0 st && (ltb st (2 ^ 31) && ltb ((b + st) % 2 ^ 32) b))
    || (not (ltb st (2 ^ 31)) && ltb b ((b + st) % 2 ^ 32))

-- `last`; a length of 0 reaches to MAX_FILE_POS.
abbrev pub last_of : ℕ → ℕ → ℕ
last_of b len = if len == 0 then 2 ^ 32 - 1 else (b + len + (2 ^ 32 - 1)) % 2 ^ 32

unfoldable pub region_of : ℕ → Filp → Option Access → Flock → Option ℕ → Option Region
region_of who f t k none = none
region_of who f t k (some b) =
    let b1 = (b + k.l_start) % 2 ^ 32 in
    if overflows b k.l_start || ltb (last_of b1 k.l_len) b1
    then none
    else some
        (record { ltype = t; pid = who; inode = f.filp_ino; first = b1; last = last_of b1 k.l_len })

-- F_GETLK: the first lock in conflict, if there is one.
abbrev pub lock_at : Locks → Option ℕ → Option FileLock
lock_at s none = none
lock_at s (some i) = some (s.file_lock i)

unfoldable pub get_lock : Region → Locks → Reply
unfolding find_conflict
get_lock g s = report (lock_at s (find_conflict nr_locks_max 0 g s.file_lock)) s

-- What is done for a region, by the request and the type.
unfoldable pub run_request : Request → Region → Locks → Reply
unfolding get_lock set_lock unlock
run_request getlk g s = get_lock g s
run_request setlk g s = if is_used g.ltype then set_lock false g s else unlock g s
run_request setlkw g s = if is_used g.ltype then set_lock true g s else unlock g s

unfoldable pub run_region : Request → Option Region → Locks → Reply
unfolding run_request
run_region r none s = answer einval false s
run_region r (some g) s = run_request r g s

unfoldable pub lock_typed : ℕ → Filp → Request → Flock → Option (Option Access) → Locks → Reply
unfolding base_of region_of run_region
lock_typed who f r k none s = answer einval false s
lock_typed who f r k (some t) s =
    if is_getlk r && not (is_used t)
    then answer einval false s
    else if not (is_regular f)
    then answer einval false s
    else if not (is_getlk r) && not (may_lock t f.filp_mode)
    then answer ebadf false s
    else run_region r (region_of who f t k (base_of k.l_whence f)) s

-- `who` is the `fp_pid` of the caller.
unfoldable pub lock_op : ℕ → Filp → Request → Option Flock → Locks → Reply
unfolding type_of lock_typed
lock_op who f r none s = answer einval false s
lock_op who f r (some k) s = lock_typed who f r k (type_of k.l_type) s
