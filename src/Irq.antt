-- ===== src/Irq.antt =====
-- src/kernel/mrtirq.c: the interrupt descriptors (`MRT_sysirq_t`). A descriptor is named by its number,
-- hardware ones from 0 and software ones from 16; a handler is named by a number too. The status bits
-- of a descriptor and of its type are Booleans. The masks of the interrupt controllers are functions
-- from the number of an interrupt to its bit; what the controllers do is I/O and left out. The name
-- of a descriptor and its link, which is its place in the lists, are left out.
pub mod Handler
pub mod Service
pub mod Dispatch
pub mod Soft
pub mod Locked
use minix4rt.Base.{
  ℕ, zero, suc, ◌+◌, ◌-◌, Bool, true, false, not, ◌||◌, ◌&&◌, Option, none, some, List, [], ltb,
  leb, ◌==◌, if◌then◌else◌, update,
}
use minix4rt.Plist.{Plist, plist_rst, plist_rmv, pri_lowest}

abbrev pub nr_irq_vectors : ℕ
nr_irq_vectors = 16

abbrev pub nr_irq_soft : ℕ
nr_irq_soft = 16

-- `task` and `watchdog` are `none` for HARDWARE.
pub record Irqd : Type 0 where
  pub count : ℕ
  pub maxshower : ℕ
  pub mdl : ℕ
  pub timestamp : ℕ
  pub maxlat : ℕ
  pub reenter : ℕ
  pub irq : ℕ
  pub harmonic : ℕ
  pub pvt : Option ℕ
  pub enqueued : Bool
  pub disabled : Bool
  pub latcalc : Bool
  pub tdtrigger : Bool
  pub tasklocked : Bool
  pub handlocked : Bool
  pub taskwait : Bool
  pub handwait : Bool
  pub latency : ℕ
  pub shower : ℕ
  pub before : ℕ
  pub nrthandler : ℕ
  pub rthandler : ℕ
  pub period : ℕ
  pub task : Option ℕ
  pub watchdog : Option ℕ
  pub priority : ℕ
  pub rtirq : Bool
  pub tdirq : Bool
  pub softirq : Bool
  pub istmsg : Bool

-- `newint` to `oneshot` are flags of `MRT_sv`; `spurious` is the number of the handler `spurious_irq`.
pub record Irqs : Type 0 where
  pub irq_q : Plist
  pub mnx_q : List ℕ
  pub soft_use : ℕ → Bool
  pub irqtab : ℕ → Irqd
  pub mask : ℕ → ℕ → Bool
  pub real_pic : ℕ → Bool
  pub virtual_pic : ℕ → Bool
  pub interrupts : ℕ
  pub newint : Bool
  pub latency : Bool
  pub minixcli : Bool
  pub rtmode : Bool
  pub oneshot : Bool
  pub flushlck : Bool
  pub spurious : ℕ

abbrev pub set_irqd : Irqs → ℕ → Irqd → Irqs
set_irqd s x d = record s { irqtab = update s.irqtab x d }

-- The loop of `MRT_softirq_alloc` from descriptor `i`, with the rounds that are left.
unfoldable pub soft_loop : ℕ → ℕ → (ℕ → Bool) → Option ℕ
soft_loop zero i used = none
soft_loop (suc n) i used = let rest = soft_loop n (suc i) used in if used i then rest else some i

-- `none` is E_MRT_NOSOFTIRQ.
unfoldable pub softirq_found : Irqs → Option ℕ → Option ℕ × Irqs
softirq_found s none = (none, s)
softirq_found s (some i) =
    (some (i + nr_irq_vectors), record s { soft_use = update s.soft_use i true })

unfoldable pub softirq_alloc : Irqs → Option ℕ × Irqs
unfolding soft_loop softirq_found
softirq_alloc s = softirq_found s (soft_loop nr_irq_soft 0 s.soft_use)

-- `none` is a panic. Bit 16, which the test lets pass, is not one of the bitmap.
unfoldable pub softirq_free : ℕ → Irqs → Option Irqs
softirq_free irq s =
    if ltb irq nr_irq_vectors || ltb nr_irq_soft (irq - nr_irq_vectors)
    then none
    else some (record s { soft_use = update s.soft_use (irq - nr_irq_vectors) false })

unfoldable pub irqd_clrstat : Irqd → Irqd
irqd_clrstat d = record d {
  count = 0;
  maxshower = 0;
  mdl = 0;
  timestamp = 0;
  maxlat = 0;
  reenter = 0;
}

unfoldable pub irqd_clr : Irqd → Irqd
unfolding irqd_clrstat
irqd_clr d = record (irqd_clrstat d) {
  latency = 0;
  shower = 0;
  before = 0;
  enqueued = false;
  disabled = false;
  latcalc = false;
  tdtrigger = false;
  tasklocked = false;
  handlocked = false;
  taskwait = false;
  handwait = false;
}

unfoldable pub irqd_rst : ℕ → Irqd → Irqd
unfolding irqd_clr
irqd_rst spurious d =
    record (irqd_clr (record d {
      rthandler = spurious;
      nrthandler = spurious;
      harmonic = 1;
      period = 0;
      task = none;
      watchdog = none;
      priority = pri_lowest;
      pvt = none;
    })) { rtirq = false; tdirq = false; istmsg = false; softirq = not (ltb d.irq nr_irq_vectors) }

unfoldable pub reset_irqd : ℕ → Irqs → Irqs
unfolding irqd_rst
reset_irqd x s = set_irqd s x (irqd_rst s.spurious (s.irqtab x))

unfoldable pub reset_freed : ℕ → Option Irqs → Option Irqs
unfolding reset_irqd
reset_freed x none = none
reset_freed x (some s) = some (reset_irqd x s)

unfoldable pub irqd_free : ℕ → Irqs → Option Irqs
unfolding softirq_free reset_freed
irqd_free x s =
    reset_freed x
      (if leb nr_irq_vectors (s.irqtab x).irq then softirq_free (s.irqtab x).irq s else some s)

unfoldable pub irqq_init : Irqs → Irqs
unfolding plist_rst
irqq_init s = record s { irq_q = plist_rst; mnx_q = []; mask = λ _ _. false }

-- `MRT_set_irq` and `MRT_reset_irq`, without the controller.
unfoldable pub set_irq : ℕ → Irqs → Irqs
set_irq irq s = record s { real_pic = update s.real_pic irq false }

unfoldable pub reset_irq : ℕ → Irqs → Irqs
reset_irq irq s = record s { real_pic = update s.real_pic irq true }

-- The real controller follows where the system is not in real-time mode or the descriptor is not a
-- real-time one.
abbrev pub follows : ℕ → Irqs → Bool
follows irq s = not s.rtmode || not (s.irqtab irq).rtirq

unfoldable pub enable_irq : ℕ → Irqs → Irqs
unfolding set_irq
enable_irq irq s =
    let s1 = record s { virtual_pic = update s.virtual_pic irq false } in
    if follows irq s1 then set_irq irq s1 else s1

unfoldable pub disable_irq : ℕ → Irqs → Irqs
unfolding set_irq
disable_irq irq s =
    let s1 = record s { virtual_pic = update s.virtual_pic irq true } in
    if follows irq s1 then set_irq irq s1 else s1

-- `none` is a panic.
unfoldable pub irqd_deq : ℕ → Irqs → Option Irqs
unfolding plist_rmv
irqd_deq x s =
    if (s.irqtab x).enqueued
    then some (record s {
      irq_q = plist_rmv s.irq_q x (s.irqtab x).priority;
      irqtab = update s.irqtab x (record (s.irqtab x) { enqueued = false });
    })
    else none
