-- ===== src/Tests/FsTests.antt =====
-- The record locks of src/fs/lock.c and the processes that wait for them.
use minix4rt.Base.{
  ℕ, ◌+◌, false, ◌&&◌, ◌||◌, Option, some, none, [], if◌then◌else◌, ltb, leb, ◌==◌, ◌≡◌, refl, inl,
  arith,
}
use minix4rt.Fs.Lock.{FileLock, Locks, rdlck}
use minix4rt.Fs.Lock.Exclusive.{IsExclusive}
use minix4rt.Fs.Lock.Request.{Flock, Filp, setlk, lock_op}
use minix4rt.Fs.Lock.Answers.{locks_of, lock_op-IsExclusive}
use minix4rt.Fs.Suspend.{Waits, xlock, xpipe, lock_revive, nr_procs, init_proc_nr}
use minix4rt.Fs.Suspend.Revived.{marked, lock_revive-Marked}

-- Three processes read the first ten bytes of the file 5.
abbrev read_slot : ℕ → FileLock
read_slot i = record {
  lock_type = if ltb i 3 then some rdlck else none;
  lock_pid = i;
  lock_inode = 5;
  lock_first = 0;
  lock_last = 9;
}

abbrev read_locks : Locks
read_locks = record { file_lock = read_slot; nr_locks = 3 }

read_locks-IsExclusive : IsExclusive read_slot
read_locks-IsExclusive i j hi hj ui uj e l1 l2 = inl (ground (arith, ui, uj))

-- Process 7 wants to read ten bytes from the fifth on.
abbrev read_file : Filp
read_file = record { filp_mode = 4; filp_ino = 5; filp_pos = 0; i_mode = 32768; i_size = 100 }

abbrev read_request : Flock
read_request = record { l_type = 1; l_whence = 0; l_start = 5; l_len = 10 }

lock_op_example :
    IsExclusive (locks_of (lock_op 7 read_file setlk (some read_request) read_locks)).file_lock
lock_op_example =
    lock_op-IsExclusive 7 read_file setlk (some read_request) read_locks read_locks-IsExclusive

-- The lock is in the fourth slot.
lock_op_stored :
    ((locks_of (lock_op 7 read_file setlk (some read_request) read_locks)).file_lock 3).lock_last
    ≡ 14
unfolding lock_op
lock_op_stored = refl

-- The process 4 waits for a lock, the process 5 for a pipe.
abbrev no_files : ℕ → Option ℕ
no_files d = none

abbrev waiting : Waits
waiting = record {
  fproc = λ i. record {
    fp_fd = 0;
    fp_buffer = 0;
    fp_nbytes = 0;
    fp_suspended = (i == 4) || (i == 5);
    fp_revived = false;
    fp_task = if i == 4 then xlock else xpipe;
    fp_filp = no_files;
  };
  susp_count = 1;
  reviving = 0;
  dont_reply = false;
  replies = [];
}

lock_revive_example :
    (s' : Waits) × (lock_revive waiting ≡ some s')
    × ((j : ℕ)
        → s'.fproc j ≡ (
            if leb (init_proc_nr + 1) j && ltb j nr_procs
            then marked (waiting.fproc j)
            else waiting.fproc j))
    × (s'.replies ≡ [])
lock_revive_example = lock_revive-Marked waiting
