-- ===== src/Vtimer.antt =====
-- src/kernel/mrtvt.c: the virtual timers of the RT-kernel and their queues (`MRT_systmr_t`). A timer
-- is named by its index in the pool. The active queue is a delta list: `earliest` is the time to the
-- first expiration, `nextexp` of a timer the time from its expiration to the next one, and `maxper`
-- the time from the first expiration to the last. `lcounter_t` is an unsigned long of 32 bits.
-- A panic and a dereferenced NULL are `none`. The link of a timer is its place in the queues.
-- The chip that one-shot mode programs is not modelled: the handler returns the period it would set.
pub mod Times
pub mod Schedule
pub mod Walk
pub mod Last
pub mod Insert
pub mod Gap
pub mod Remove
pub mod Handlers
pub mod Clock
pub mod Tick
pub mod Pool
pub mod Actions
use minix4rt.Base.{
  ℕ, zero, suc, ◌+◌, ◌-◌, ◌%◌, ◌^◌, min, Bool, true, false, not, ◌&&◌, ◌||◌, Option, none, some,
  List, [], ◌∷◌, ◌++◌, ltb, leb, ◌==◌, if◌then◌else◌, is_empty, head?, remove, update, length,
}
use minix4rt.Plist.{Plist, plist_rst, plist_app, plist_rmv, pri_lowest}

abbrev pub maxper_limit : ℕ
maxper_limit = 10000

abbrev pub nbr_vtact : ℕ
nbr_vtact = 13

abbrev pub nr_vtimers : ℕ
nr_vtimers = 16

-- VT_ALLOC, VT_FREEQ, VT_ACTIVEQ, VT_EXPIREDQ
pub data Status : Type 0 where
  alloc freeq activeq expiredq : Status

-- `owner` is `none` for HARDWARE.
pub record Vtimer : Type 0 where
  pub period : ℕ
  pub limit : ℕ
  pub action : ℕ
  pub param : ℕ
  pub priority : ℕ
  pub owner : Option ℕ
  pub flags : Status
  pub nextexp : ℕ
  pub timestamp : ℕ
  pub expired : ℕ

pub record Timers : Type 0 where
  pub exp_q : Plist
  pub earliest : ℕ
  pub maxper : ℕ
  pub act_q : List ℕ
  pub free_q : List ℕ
  pub vtimer : ℕ → Vtimer

-- Sums and differences of counters of 32 bits.
abbrev pub add_l : ℕ → ℕ → ℕ
add_l a b = (a + b) % 2 ^ 32

abbrev pub sub_l : ℕ → ℕ → ℕ
sub_l a b = (a + 2 ^ 32 - b) % 2 ^ 32

unfoldable pub set_nextexp : (ℕ → Vtimer) → ℕ → ℕ → ℕ → Vtimer
set_nextexp f x n = update f x (record (f x) { nextexp = n })

unfoldable pub set_flags : (ℕ → Vtimer) → ℕ → Status → ℕ → Vtimer
set_flags f x s = update f x (record (f x) { flags = s })

-- The last member of a list, and the member before another one (`link.prev`).
abbrev pub last? : List ℕ → Option ℕ
last? [] = none
last? (x ∷ []) = some x
last? (x ∷ y ∷ ys) = last? (y ∷ ys)

abbrev pub prev? : ℕ → List ℕ → Option ℕ
prev? x [] = none
prev? x (y ∷ []) = none
prev? x (y ∷ z ∷ zs) = if z == x then some y else prev? x (z ∷ zs)

-- The loop of `MRT_vtimer_ins` behind the timer `prev`, and the insertion where it ends.
pub walk : (ℕ → Vtimer) → ℕ → ℕ → ℕ → ℕ → List ℕ → List ℕ × (ℕ → Vtimer)
walk f x period prev ticksum [] = ([], f)
walk f x period prev ticksum (y ∷ rest) =
    let (zs, g) = walk f x period y (add_l ticksum (f y).nextexp) rest in
    if leb ticksum period && not (is_empty rest)
    then (y ∷ zs, g)
    else let f' = set_nextexp f x (sub_l ticksum period) in
      (x ∷ y ∷ rest, set_nextexp f' prev (sub_l (f' prev).nextexp (f' x).nextexp))

-- The insertion in the middle of the queue; `prev` of the first timer is NULL.
pub ins_middle : Timers → ℕ → ℕ → List ℕ → Option Timers
unfolding walk
ins_middle q x period [] = none
ins_middle q x period (y ∷ rest) =
    let (zs, g) = walk q.vtimer x period y (add_l q.earliest (q.vtimer y).nextexp) rest in
    if leb q.earliest period && not (is_empty rest)
    then some (record q { act_q = y ∷ zs; vtimer = g })
    else none

-- The insertion behind the last timer.
pub ins_last : Timers → ℕ → ℕ → Option ℕ → Option Timers
ins_last q x period none = none
ins_last q x period (some l) = some (record q {
  act_q = q.act_q ++ (x ∷ []);
  maxper = sub_l period q.earliest;
  vtimer = set_nextexp (set_nextexp q.vtimer l (sub_l period (add_l q.maxper q.earliest))) x 0;
})

pub ins_active : Timers → ℕ → ℕ → Option Timers
unfolding ins_middle ins_last
ins_active q x period =
    if is_empty q.act_q
    then some (record q {
      earliest = period;
      maxper = 0;
      act_q = x ∷ [];
      vtimer = set_nextexp q.vtimer x 0;
    })
    else if ltb period q.earliest
    then some (record q {
      earliest = period;
      maxper = add_l q.maxper (sub_l q.earliest period);
      act_q = x ∷ q.act_q;
      vtimer = set_nextexp q.vtimer x (sub_l q.earliest period);
    })
    else if leb (add_l q.maxper q.earliest) period
    then ins_last q x period (last? q.act_q)
    else ins_middle q x period q.act_q

pub vtimer_ins : Timers → ℕ → Option Timers
unfolding ins_active
vtimer_ins q x =
    ins_active (record q { vtimer = set_flags q.vtimer x activeq }) x (q.vtimer x).period

pub is_at : Option ℕ → ℕ → Bool
is_at none x = false
is_at (some y) x = y == x

-- The adjustments of `MRT_vtimer_rmv` before the timer leaves the list.
pub rmv_adjust : Timers → ℕ → Option ℕ → Option Timers
unfolding is_at
rmv_adjust q x prev =
    if is_at (head? q.act_q) x && is_at (last? q.act_q) x
    then some (record q { earliest = 0; maxper = 0 })
    else if is_at (head? q.act_q) x
    then some (record q {
      earliest = add_l q.earliest (q.vtimer x).nextexp;
      maxper = sub_l q.maxper (q.vtimer x).nextexp;
    })
    else elim prev [
      | none ↦ none
      | some p ↦
          if is_at (last? q.act_q) x
          then some (record q { maxper = sub_l q.maxper (q.vtimer p).nextexp })
          else some (record q {
            vtimer = set_nextexp q.vtimer p (add_l (q.vtimer p).nextexp (q.vtimer x).nextexp);
          })
    ]

pub rmv_unlink : ℕ → Option Timers → Option Timers
rmv_unlink x none = none
rmv_unlink x (some q) =
    some (record q { act_q = remove x q.act_q; vtimer = set_flags q.vtimer x alloc })

pub vtimer_rmv : Timers → ℕ → Option Timers
unfolding rmv_adjust rmv_unlink
vtimer_rmv q x = rmv_unlink x (rmv_adjust q x (prev? x q.act_q))
