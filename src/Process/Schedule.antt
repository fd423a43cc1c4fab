-- ===== src/Process/Schedule.antt =====
-- `MRT_pick_proc` gives the processor to the first ready process of the highest priority.
use minix4rt.Base.{
  ℕ, ◌≡◌, refl, ap, Bool, true, false, Option, none, some, update_keep, update_self,
}
use minix4rt.Plist.{pri_lowest, plist_get}
use minix4rt.Plist.Invariant.{IsPlist}
use minix4rt.Plist.Highest.{Highest, plist_get-Highest}
use minix4rt.Kernel.{Kernel, Proc, inc}
use minix4rt.Process.{prtylvl_set, dispatch, pick_found, pick_proc}

-- What the scheduler must yield. Where it finds no process, all lists of ready processes are empty,
-- and the process that ran stays the current one.
abbrev pub Scheduled : Kernel → Bool × Kernel → Type 0
Scheduled k (false, r) =
    Highest k.rdy_q none
    × (r.running ≡ k.running)
    × (r.prtylvl ≡ pri_lowest)
    × (r.proc ≡ k.proc)
    × (r.rdy_q ≡ k.rdy_q)
Scheduled k (true, r) =
    Highest k.rdy_q (some r.running)
    × (r.prtylvl ≡ (k.proc r.running).priority)
    × ((r.proc r.running).scheds ≡ inc (k.proc r.running).scheds)
    × ((p : ℕ) → (r.proc p).priority ≡ (k.proc p).priority)
    × (r.rdy_q ≡ k.rdy_q)

pick_found-Scheduled :
    (k : Kernel) (o : Option ℕ) → Highest k.rdy_q o → Scheduled k (pick_found k o)
unfolding pick_found dispatch prtylvl_set
pick_found-Scheduled k none h = (h, refl, refl, refl, refl)
pick_found-Scheduled k (some x) h = (
  h,
  refl,
  ap (λ p. p.scheds) (update_self k.proc x (started x)),
  (λ p. update_keep k.proc x (started x) (λ a. a.priority) p refl),
  refl,
)
  where
    started : ℕ → Proc
    started x = record (k.proc x) { timestamp = k.ticks; scheds = inc (k.proc x).scheds }

-- Where the ready queue is well-formed, the scheduler takes the first ready process of the highest
-- priority, counts the schedule and sets the priority level to that of the process; where no
-- process is ready, it says so, the current process stays, and the level is the lowest. The ready
-- queue and all priorities are left alone.
pub pick_proc-Scheduled : (k : Kernel) → IsPlist k.rdy_q → Scheduled k (pick_proc k)
unfolding pick_proc
pick_proc-Scheduled k v =
    pick_found-Scheduled (record k { need_sched = false }) (plist_get k.rdy_q)
      (plist_get-Highest k.rdy_q v)
