-- ===== src/Tests/SemTests.antt =====
-- The semaphores of src/kernel/mrtsem.c: process 7 waits for semaphore 4, and process 2 runs.
use minix4rt.Base.{
  ℕ, ◌+◌, ◌*◌, ◌==◌, if◌then◌else◌, ◌≡◌, refl, inl, inr, true, false, none, some, [], ◌∷◌, arith,
}
use minix4rt.Plist.{Plist, plist_get}
use minix4rt.Plist.Invariant.{total}
use minix4rt.Vtimer.{Vtimer, Timers, alloc}
use minix4rt.Vtimer.Times.{IsActive}
use minix4rt.Messages.{Header, MsgQueue, any_proc}
use minix4rt.Irq.{Irqs}
use minix4rt.Rcode.{ok, e_try_again}
use minix4rt.Kernel.{nowait, Kernel, Proc, Semaphore, forever}
use minix4rt.Sem.{sproc_pty, semup, semdown}
use minix4rt.Sem.Value.{IsSem, Blocked, semdown-Blocked}
use minix4rt.Sem.Free.{SameLocks, semup-semdown, semdown-excludes}
use minix4rt.Sem.Up.{Waiting, Woken, semup-Woken}

abbrev one_waits : Plist
one_waits = record {
  bitmap = λ p. p == 0;
  in_q = 1;
  max_in_q = 1;
  list = λ p. if p == 0 then 7 ∷ [] else [];
}

abbrev pub nothing : Plist
nothing = record { bitmap = λ _. false; in_q = 0; max_in_q = 0; list = λ _. [] }

abbrev idle_timer : Vtimer
idle_timer = record {
  period = 0;
  limit = 0;
  action = 0;
  param = 0;
  priority = 15;
  owner = none;
  flags = alloc;
  nextexp = 0;
  timestamp = 0;
  expired = 0;
}

abbrev idle_timers : Timers
idle_timers = record {
  exp_q = nothing;
  earliest = 0;
  maxper = 0;
  act_q = [];
  free_q = [];
  vtimer = λ _. idle_timer;
}

abbrev process : Proc
process = record {
  priority = 3;
  baseprty = 3;
  limit = 0;
  scheds = 1;
  mbx_snd = false;
  mbx_rcv = false;
  sleep = false;
  sem_down = false;
  lock_wait = false;
  stop = false;
  ipcvt = some 1;
  pmq = none;
  pto = none;
  pfrom = none;
  psem = none;
  slock_l = [];
  salloc_l = [];
  realtime = true;
  is_user = true;
  retreg = none;
  period = 0;
  deadline = 0;
  watchdog = none;
  mdl = 0;
  timestamp = 0;
  maxlat = 0;
  minlax = 0;
  msgsent = 0;
  msgrcvd = 0;
  mq_size = 0;
  mq_flags = 0;
  pvt = none;
  pid = 1;
  is_process = true;
  periodic = false;
  pmsg = 0;
  pmhdr = 0;
  is_task = false;
  no_map = false;
  sending = false;
  receiving = false;
  pending = false;
  sig_pending = false;
  getfrom = any_proc;
  sendto = 0;
  callerq = [];
  messbuf = 0;
  int_blocked = false;
  int_held = false;
  sig_map = 0;
  d_vir = 0;
  s_vir = 100;
  s_len = 10;
}

abbrev semaphore : Semaphore
semaphore = record {
  value = 4294967295;
  prty_order = false;
  prty_inherit = true;
  mutex = true;
  owner = some 2;
  ups = 0;
  downs = 2;
  carrier = some 2;
  plist = one_waits;
}

abbrev free_mutex : Semaphore
free_mutex = record semaphore { value = 1; carrier = none; plist = nothing }

abbrev pub no_header : Header
no_header = record {
  src_pid = none;
  src_nr = none;
  dst_pid = none;
  dst_nr = none;
  mtype = 0;
  mid = 0;
  seqno = 0;
  tstamp = 0;
  priority = 0;
  deadline = 0;
}

abbrev pub no_queue : MsgQueue
no_queue = record {
  size = 0;
  prty_order = false;
  prty_inherit = false;
  owner = none;
  delivered = 0;
  enqueued = 0;
  plist = nothing;
}

abbrev pub idle_irqs : Irqs
idle_irqs = record {
  irq_q = nothing;
  mnx_q = [];
  soft_use = λ _. false;
  irqtab = λ _. record {
    count = 0;
    maxshower = 0;
    mdl = 0;
    timestamp = 0;
    maxlat = 0;
    reenter = 0;
    irq = 0;
    harmonic = 1;
    pvt = none;
    enqueued = false;
    disabled = false;
    latcalc = false;
    tdtrigger = false;
    tasklocked = false;
    handlocked = false;
    taskwait = false;
    handwait = false;
    latency = 0;
    shower = 0;
    before = 0;
    nrthandler = 0;
    rthandler = 0;
    period = 0;
    task = none;
    watchdog = none;
    priority = 15;
    rtirq = true;
    tdirq = false;
    softirq = false;
    istmsg = false;
  };
  mask = λ _ _. false;
  real_pic = λ _. false;
  virtual_pic = λ _. false;
  interrupts = 0;
  newint = false;
  latency = false;
  minixcli = false;
  rtmode = true;
  oneshot = false;
  flushlck = false;
  spurious = 0;
}

abbrev pub system : Kernel
system = record {
  proc = λ i.
      if i == 7
      then record process { sem_down = true; psem = some 4 }
      else if i == 2
      then record process { slock_l = 4 ∷ [] }
      else process;
  sem = λ i. if i == 5 then free_mutex else semaphore;
  sfree_l = [];
  rdy_q = record nothing {
    bitmap = λ p. p == 3;
    in_q = 1;
    list = λ p. if p == 3 then 2 ∷ [] else [];
  };
  timers = idle_timers;
  messages = record {
    mqe_l = [];
    mqe = λ _. no_header;
    m_u = λ _. [];
    msgq_l = [];
    msgq = λ _. no_queue;
  };
  running = 2;
  bpip = false;
  wild = 0;
  need_sched = true;
  sys_scheds = 0;
  ticks = 0;
  bill = 0;
  prtylvl = 15;
  idlecount = 0;
  idlelast = 0;
  idlemax = 1;
  mess_count = 0;
  hardware = 0;
  numap = λ p a b. a;
  user_msg = λ _. [];
  user_hdr = λ _. no_header;
  irqs = idle_irqs;
  task_q = [];
  server_q = [];
  user_q = [];
  held_q = [];
  rtsched = false;
  switching = false;
  reentered = false;
  idle = 1;
  mm = 3;
  fs = 4;
  mrttask = 5;
  sig_procs = 0;
  sig_buf = 0;
  data_map = λ p a. 1000 * p + a;
  message = λ _. record { m_source = 0; m_type = 0; body = [] };
  stray_lock = false;
  stray_timer = false;
}

semaphore-IsSem : IsSem (system.sem 4)
unfolding total
semaphore-IsSem = record {
  lists = record { bits = λ p. ground arith; count = refl };
  balance = inr (omega arith, omega arith);
}

free-IsSem : IsSem (system.sem 5)
unfolding total
free-IsSem = record {
  lists = record { bits = λ p. refl; count = refl };
  balance = inl (omega arith, refl);
}

idle-IsActive : IsActive idle_timers
idle-IsActive = record { distinct = tt; spanned = refl; bounded = omega arith }

ipcvt_of : (x : ℕ) → (system.proc x).ipcvt ≡ some 1
ipcvt_of x = ground arith

system-Waiting : Waiting system 4
unfolding sproc_pty
system-Waiting = record {
  placed = λ x t h m. ground arith;
  stoppable = λ x t h m. (1, ipcvt_of x, inl refl);
  active = idle-IsActive;
}

semup_example : (x : ℕ) × (plist_get one_waits ≡ some x) × Woken system 4 x (semup system 4)
semup_example = semup-Woken system 4 2 semaphore-IsSem system-Waiting refl refl (omega arith) refl

semdown_example : Blocked system 4 (semdown 1 system 4 forever)
semdown_example =
    semdown-Blocked 0 system 4 2 semaphore-IsSem refl refl refl (omega arith) (omega arith)

semup_free_example :
    (k1 : Kernel) × (semdown 1 system 5 nowait ≡ some (ok, k1))
    × (k2 : Kernel) × (semup k1 5 ≡ some (ok, k2))
    × SameLocks system 5 k2
semup_free_example = semup-semdown 1 system 5 2 nowait refl refl refl refl

semdown_free_example :
    (k1 : Kernel) × (semdown 1 system 5 nowait ≡ some (ok, k1))
    × ((k1.sem 5).carrier ≡ some 2)
    × ((fuel r : ℕ)
        → semdown fuel (record k1 { running = r }) 5 nowait
          ≡ some (e_try_again, record k1 { running = r }))
semdown_free_example = semdown-excludes 1 system 5 2 nowait refl refl refl
