-- ===== src/Fs/Suspend.antt =====
-- Processes that wait for the file system (src/fs/pipe.c): `suspend`, `release` and `revive`, and
-- `lock_revive` of src/fs/lock.c. The answers that `reply` sends are recorded. A NULL pointer and a panic
-- are `none` or `fault`.
pub mod Revived
use minix4rt.Base.{
  ℕ, zero, suc, ◌+◌, ◌-◌, ◌*◌, ◌/◌, ◌%◌, ◌^◌, Bool, true, false, not, ◌&&◌, Option, none, some,
  ◌==◌, ltb, if◌then◌else◌, update, List, ◌∷◌,
}
use minix4rt.Fs.Lock.{Reply, answer, suspended, report, Locks}
use minix4rt.Fs.Lock.Request.{Request, setlkw, Filp, Flock, lock_op}

abbrev pub nr_procs : ℕ
nr_procs = 32

abbrev pub init_proc_nr : ℕ
init_proc_nr = 2

-- `fp_task`: XPIPE, XOPEN, XLOCK and XPOPEN, or a task.
pub data Waiting : Type 0 where
  xpipe xopen xlock xpopen : Waiting
  on_task : ℕ → Waiting

-- `struct fproc` without the fields that these functions do not use. `fp_filp` has the inode of the file
-- that a descriptor stands for.
pub record Fproc : Type 0 where
  pub fp_fd : ℕ
  pub fp_buffer : ℕ
  pub fp_nbytes : ℕ
  pub fp_suspended : Bool
  pub fp_revived : Bool
  pub fp_task : Waiting
  pub fp_filp : ℕ → Option ℕ

-- `susp_count` is an int of 32 bits; `replies` has the processes that were answered, with the results.
pub record Waits : Type 0 where
  pub fproc : ℕ → Fproc
  pub susp_count : ℕ
  pub reviving : ℕ
  pub dont_reply : Bool
  pub replies : List (ℕ × ℕ)

-- The message of the caller: `fd`, `fs_call`, and its arguments.
pub record Call : Type 0 where
  pub fp : ℕ
  pub fd : ℕ
  pub fs_call : ℕ
  pub name1 : ℕ
  pub request : ℕ
  pub buffer : ℕ
  pub nbytes : ℕ

abbrev pub is_pipe : Waiting → Bool
is_pipe xpipe = true
is_pipe xpopen = true
is_pipe w = false

abbrev pub is_xlock : Waiting → Bool
is_xlock xlock = true
is_xlock w = false

unfoldable pub suspend : Call → Waiting → Waits → Waits
suspend c w s = record s {
  susp_count = if is_pipe w then (s.susp_count + 1) % 2 ^ 32 else s.susp_count;
  fproc = update s.fproc c.fp (record (s.fproc c.fp) {
    fp_suspended = true;
    fp_fd = c.fd * 256 + c.fs_call;
    fp_task = w;
    fp_buffer = if is_xlock w then c.name1 else c.buffer;
    fp_nbytes = if is_xlock w then c.request else c.nbytes;
  });
  dont_reply = true;
}

-- A process that waits for a pipe or a lock tries again later; one that waits for something else is
-- answered.
unfoldable pub revived : ℕ → ℕ → Waiting → Waits → Waits
revived i bytes xpipe s = record s {
  fproc = update s.fproc i (record (s.fproc i) { fp_revived = true });
  reviving = s.reviving + 1;
}
revived i bytes xlock s = record s {
  fproc = update s.fproc i (record (s.fproc i) { fp_revived = true });
  reviving = s.reviving + 1;
}
revived i bytes xpopen s = record s {
  fproc = update s.fproc i (record (s.fproc i) { fp_suspended = false });
  replies = (i, (s.fproc i).fp_fd / 256) ∷ s.replies;
}
revived i bytes w s = record s {
  fproc = update s.fproc i (record (s.fproc i) { fp_suspended = false; fp_nbytes = bytes });
  replies = (i, bytes) ∷ s.replies;
}

unfoldable pub revive : ℕ → ℕ → Waits → Option Waits
unfolding revived
revive i bytes s =
    if not (ltb i nr_procs)
    then none
    else if not (s.fproc i).fp_suspended
    then some s
    else if (s.fproc i).fp_revived
    then some s
    else some (revived i bytes (s.fproc i).fp_task s)

-- `release`, which stops when `count` processes are released.
pub data Released : Type 0 where
  looking : ℕ → Waits → Released
  done : Waits → Released
  fault : Released

unfoldable pub counted : ℕ → Option Waits → Released
counted count none = fault
counted count (some s) =
    let s1 = record s { susp_count = (s.susp_count + (2 ^ 32 - 1)) % 2 ^ 32 } in
    if count == 1 then done s1 else looking (count - 1) s1

unfoldable pub release_if : ℕ → ℕ → ℕ → Waits → Option ℕ → Released
unfolding counted revive
release_if i ip count s none = fault
release_if i ip count s (some ino) =
    if ino == ip then counted count (revive i 0 s) else looking count s

unfoldable pub release_slot : ℕ → ℕ → ℕ → Released → Released
unfolding release_if
release_slot i ip call (done s) = done s
release_slot i ip call fault = fault
release_slot i ip call (looking count s) =
    let p = s.fproc i in
    if p.fp_suspended && (not p.fp_revived && (p.fp_fd % 256 == call))
    then release_if i ip count s (p.fp_filp (p.fp_fd / 256))
    else looking count s

unfoldable pub release_loop : ℕ → ℕ → ℕ → ℕ → Released → Released
unfolding release_slot
release_loop zero i ip call s = s
release_loop (suc n) i ip call s = release_loop n (suc i) ip call (release_slot i ip call s)

unfoldable pub release_end : Released → Option Waits
release_end (looking count s) = some s
release_end (done s) = some s
release_end fault = none

unfoldable pub release : ℕ → ℕ → ℕ → Waits → Option Waits
unfolding release_loop release_end
release ip call count s = release_end (release_loop nr_procs 0 ip call (looking count s))

-- `lock_revive`, over `n` processes from `i` on.
unfoldable pub lock_revive_slot : ℕ → Option Waits → Option Waits
unfolding revive
lock_revive_slot i none = none
lock_revive_slot i (some s) =
    if (s.fproc i).fp_suspended && is_xlock (s.fproc i).fp_task then revive i 0 s else some s

unfoldable pub lock_revive_loop : ℕ → ℕ → Option Waits → Option Waits
unfolding lock_revive_slot
lock_revive_loop zero i s = s
lock_revive_loop (suc n) i s = lock_revive_loop n (suc i) (lock_revive_slot i s)

unfoldable pub lock_revive : Waits → Option Waits
unfolding lock_revive_loop
lock_revive s = lock_revive_loop (nr_procs - (init_proc_nr + 1)) (init_proc_nr + 1) (some s)

-- What an answer of lock_op does to the processes.
unfoldable pub lock_waits : Call → Reply → Waits → Option Waits
unfolding suspend lock_revive
lock_waits c (answer r revives l) s = if revives then lock_revive s else some s
lock_waits c (suspended l) s = some (suspend c xlock s)
lock_waits c (report o l) s = some s
