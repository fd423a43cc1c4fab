-- ===== src/Vtimer/Pool.antt =====
-- `MRT_vtimer_free` and `MRT_vtimer_alloc` on the pool of timers.
use minix4rt.Base.{
  ℕ, ◌⊎◌, inl, inr, ◌≡◌, refl, ap, sym, ◌∙◌, true, false, Option, none, some, List, [], ◌∷◌, ◌++◌,
  has, has-remove_self, remove, ne_of_has_sym, update, update_other, update_self,
}
use minix4rt.Vtimer.{Vtimer, Timers, Status, alloc, freeq, activeq, vtimer_rmv}
use minix4rt.Vtimer.Times.{schedule, remove_time, IsActive, times-Agree, span-Agree}
use minix4rt.Vtimer.Remove.{vtimer_rmv-Removed}
use minix4rt.Vtimer.Handlers.{
  reset, stopped, leave_queue, vtimer_stop, to_free, vtimer_free, acceptable, vtimer_alloc,
}

-- A timer outside the active queue may change without any effect on the schedule.
abbrev with_timer : Timers → ℕ → Vtimer → Timers
with_timer q x v = record q { vtimer = update q.vtimer x v }

module _ (q : Timers) (x : ℕ) (v : Vtimer) (out : has x q.act_q ≡ false) where
  agree :
      (a : ℕ) → has a q.act_q ≡ true → ((with_timer q x v).vtimer a).nextexp ≡ (q.vtimer a).nextexp
  agree a i = ap (λ w. w.nextexp) (update_other q.vtimer x a v (ne_of_has_sym a x q.act_q i out))

  with_timer-schedule : schedule (with_timer q x v) ≡ schedule q
  with_timer-schedule = times-Agree q.vtimer (with_timer q x v).vtimer q.earliest q.act_q agree

  with_timer-IsActive : IsActive q → IsActive (with_timer q x v)
  with_timer-IsActive a = record {
    distinct = a.distinct;
    spanned = a.spanned ∙ sym (span-Agree q.vtimer (with_timer q x v).vtimer q.act_q agree);
    bounded = a.bounded;
  }

-- What giving back a timer must yield, where it leaves the queues as `r` says.
abbrev Freed : Timers → ℕ → Option Timers → Type 0
Freed r x o =
    (r' : Timers) × (o ≡ some r')
    × IsActive r'
    × (r'.act_q ≡ r.act_q)
    × (schedule r' ≡ schedule r)
    × (r'.exp_q ≡ r.exp_q)
    × (r'.free_q ≡ r.free_q ++ (x ∷ []))
    × ((r'.vtimer x).flags ≡ freeq)

free-Freed :
    (r : Timers) (x : ℕ)
    → IsActive r
    → has x r.act_q ≡ false
    → Freed r x (to_free x (stopped x (some r)))
unfolding to_free stopped
free-Freed r x a out = (
  record (with_timer s x w) { free_q = r.free_q ++ (x ∷ []) },
  refl,
  record { distinct = done.distinct; spanned = done.spanned; bounded = done.bounded },
  refl,
  with_timer-schedule s x w out ∙ with_timer-schedule r x v out,
  refl,
  refl,
  ap (λ t. t.flags) (update_self s.vtimer x w),
)
  where
    v : Vtimer
    v = record (r.vtimer x) { nextexp = 0; flags = alloc }

    s : Timers
    s = with_timer r x v

    w : Vtimer
    w = record (reset (s.vtimer x)) { flags = freeq }

    done : IsActive (with_timer s x w)
    done = with_timer-IsActive s x w out (with_timer-IsActive r x v out a)

free_eq :
    (q : Timers) (x : ℕ) (s : Status)
    → (q.vtimer x).flags ≡ s
    → vtimer_free q x ≡ to_free x (stopped x (leave_queue s q x))
unfolding vtimer_free vtimer_stop
free_eq q x s e = ap (λ t. to_free x (stopped x (leave_queue t q x))) e

leave-active : (q : Timers) (x : ℕ) → leave_queue activeq q x ≡ vtimer_rmv q x
unfolding leave_queue
leave-active q x = refl

leave-alloc : (q : Timers) (x : ℕ) → leave_queue alloc q x ≡ some q
unfolding leave_queue
leave-alloc q x = refl

leave-freeq : (q : Timers) (x : ℕ) → to_free x (stopped x (leave_queue freeq q x)) ≡ none
unfolding leave_queue stopped to_free
leave-freeq q x = refl

-- An active timer that is given back leaves the active queue, all others keep their expirations, and
-- it is the last one of the free timers and marked as one. There is no fault, the counters of the
-- active queue stay right and the queue of expired timers does not change.
vtimer_free-activeq :
    (q : Timers) (x : ℕ)
    → IsActive q
    → (q.vtimer x).flags ≡ activeq
    → has x q.act_q ≡ true
    → (r : Timers) × (vtimer_free q x ≡ some r)
      × IsActive r
      × (has x r.act_q ≡ false)
      × (schedule r ≡ remove_time x (schedule q))
      × (r.exp_q ≡ q.exp_q)
      × (r.free_q ≡ q.free_q ++ (x ∷ []))
      × ((r.vtimer x).flags ≡ freeq)
vtimer_free-activeq q x v s i =
    let (t, e, a, rest, sched, exp, free, _) = vtimer_rmv-Removed q x v i in
    let (r, e', a', act, sched', exp', free', flag) = free-Freed t x a (gone t rest) in
    (
      r,
      free_eq q x activeq s ∙ ap (λ o. to_free x (stopped x o)) (leave-active q x ∙ e) ∙ e',
      a',
      ap (has x) act ∙ gone t rest,
      sched' ∙ sched,
      exp' ∙ exp,
      free' ∙ ap (λ l. l ++ (x ∷ [])) free,
      flag,
    )
  where
    gone : (t : Timers) → t.act_q ≡ remove x q.act_q → has x t.act_q ≡ false
    gone t rest = ap (has x) rest ∙ has-remove_self x q.act_q v.distinct

-- A timer that is already free cannot be given back: the kernel panics.
pub vtimer_free-free : (q : Timers) (x : ℕ) → (q.vtimer x).flags ≡ freeq → vtimer_free q x ≡ none
vtimer_free-free q x e = free_eq q x freeq e ∙ leave-freeq q x

-- The timer that an allocation takes.
abbrev taken : Vtimer → Vtimer → Vtimer
taken vt old = record old {
  owner = vt.owner;
  priority = vt.priority;
  period = vt.period;
  limit = vt.limit;
  action = vt.action;
  param = vt.param;
  flags = alloc;
}

alloc_eq :
    (q : Timers) (vt : Vtimer) (x : ℕ) (rest : List ℕ)
    → acceptable vt ≡ true
    → q.free_q ≡ x ∷ rest
    → vtimer_alloc q vt
      ≡ (some x, record (with_timer q x (taken vt (q.vtimer x))) { free_q = rest })
unfolding vtimer_alloc
alloc_eq q vt x rest ok e = rw (e, ok)

-- A timer that was allocated with acceptable parameters and never started can be given back without
-- a fault: the schedule and the expired timers are those of before the allocation, the counters of
-- the active queue stay right, and the timer, which was the first of the free ones, is now the last.
pub vtimer_free-vtimer_alloc :
    (q : Timers) (vt : Vtimer) (x : ℕ) (rest : List ℕ)
    → IsActive q
    → acceptable vt ≡ true
    → q.free_q ≡ x ∷ rest
    → has x q.act_q ≡ false
    → ((vtimer_alloc q vt).0 ≡ some x)
      × (r : Timers) × (vtimer_free (vtimer_alloc q vt).1 x ≡ some r)
      × IsActive r
      × (schedule r ≡ schedule q)
      × (r.exp_q ≡ q.exp_q)
      × (r.free_q ≡ rest ++ (x ∷ []))
vtimer_free-vtimer_alloc q vt x rest v ok e out =
    let (r, e', a, _, sched, exp, free, _) = free-Freed t x t_active out in
    (
      ap (λ p. p.0) (alloc_eq q vt x rest ok e),
      r,
      ap (λ p. vtimer_free p.1 x) (alloc_eq q vt x rest ok e)
          ∙ free_eq t x alloc (ap (λ w. w.flags) (update_self q.vtimer x (taken vt (q.vtimer x))))
          ∙ ap (λ o. to_free x (stopped x o)) (leave-alloc t x)
          ∙ e',
      a,
      sched ∙ with_timer-schedule q x (taken vt (q.vtimer x)) out,
      exp,
      free,
    )
  where
    t : Timers
    t = record (with_timer q x (taken vt (q.vtimer x))) { free_q = rest }

    t_active : IsActive t
    t_active =
        let a = with_timer-IsActive q x (taken vt (q.vtimer x)) out v in
        record { distinct = a.distinct; spanned = a.spanned; bounded = a.bounded }

-- The timer is in no queue, or in the active queue, as its state says.
abbrev pub Stoppable : Timers → ℕ → Type 0
Stoppable q x =
    ((q.vtimer x).flags ≡ alloc) ⊎ (((q.vtimer x).flags ≡ activeq) × (has x q.act_q ≡ true))

stop_eq :
    (q : Timers) (x : ℕ) (s : Status)
    → (q.vtimer x).flags ≡ s
    → vtimer_stop q x ≡ stopped x (leave_queue s q x)
unfolding vtimer_stop
stop_eq q x s e = ap (λ t. stopped x (leave_queue t q x)) e

stopped-some : (q : Timers) (x : ℕ) → (r : Timers) × (stopped x (some q) ≡ some r)
unfolding stopped
stopped-some q x = (_, refl)

-- Such a timer can be stopped.
pub vtimer_stop-some :
    (q : Timers) (x : ℕ) → IsActive q → Stoppable q x → (r : Timers) × (vtimer_stop q x ≡ some r)
vtimer_stop-some q x v (inl e) =
    let (r, k) = stopped-some q x in (r, stop_eq q x alloc e ∙ ap (stopped x) (leave-alloc q x) ∙ k)
vtimer_stop-some q x v (inr (e, i)) =
    let (t, k, _, _, _, _, _, _) = vtimer_rmv-Removed q x v i in
    let (r, l) = stopped-some t x in
    (r, stop_eq q x activeq e ∙ ap (stopped x) (leave-active q x ∙ k) ∙ l)
