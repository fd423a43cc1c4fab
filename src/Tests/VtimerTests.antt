-- ===== src/Tests/VtimerTests.antt =====
-- The virtual timers of src/kernel/mrtvt.c with the timers 3 and 5 in the active queue.
use minix4rt.Base.{ℕ, ◌<◌, ◌==◌, if◌then◌else◌, ◌++◌, ◌≡◌, refl, true, false, some, [], ◌∷◌, arith}
use minix4rt.Plist.{Plist}
use minix4rt.Vtimer.{Vtimer, Timers, freeq, activeq, vtimer_ins, vtimer_rmv}
use minix4rt.Vtimer.Times.{schedule, IsActive}
use minix4rt.Vtimer.Insert.{Inserted, vtimer_ins-Inserted}
use minix4rt.Vtimer.Remove.{Removed, vtimer_rmv-Removed}
use minix4rt.Vtimer.Clock.{Expired, expire_loop-Expired}
use minix4rt.Vtimer.Tick.{Ticked, timer_irq-Ticked}
use minix4rt.Vtimer.Handlers.{expire_loop, timer_irq, acceptable, vtimer_alloc, vtimer_free}
use minix4rt.Vtimer.Pool.{vtimer_free-vtimer_alloc}

-- Timer 5 expires four ticks after timer 3; all have the period 3.
abbrev timer_at : ℕ → Vtimer
timer_at i = record {
  period = 3;
  limit = 1;
  action = 1;
  param = 0;
  priority = 2;
  owner = some 7;
  flags = if i == 3 then activeq else if i == 5 then activeq else freeq;
  nextexp = if i == 3 then 4 else 0;
  timestamp = 0;
  expired = 0;
}

abbrev none_expired : Plist
none_expired = record { bitmap = λ _. false; in_q = 0; max_in_q = 0; list = λ _. [] }

-- The first expiration is after `e` ticks.
abbrev two_timers : ℕ → Timers
two_timers e = record {
  exp_q = none_expired;
  earliest = e;
  maxper = 4;
  act_q = 3 ∷ 5 ∷ [];
  free_q = 8 ∷ 9 ∷ [];
  vtimer = timer_at;
}

two_timers-IsActive : (e : ℕ) → e < 3 → IsActive (two_timers e)
two_timers-IsActive e h = record {
  distinct = (refl, (refl, tt));
  spanned = refl;
  bounded = omega arith;
}

timer_8-acceptable : acceptable (timer_at 8) ≡ true
unfolding acceptable
timer_8-acceptable = refl

vtimer_ins_example : Inserted (two_timers 2) 8 3 (vtimer_ins (two_timers 2) 8)
vtimer_ins_example =
    vtimer_ins-Inserted (two_timers 2) 8 (two_timers-IsActive 2 (omega arith)) refl (omega arith)

vtimer_rmv_example : Removed (two_timers 2) 3 (vtimer_rmv (two_timers 2) 3)
vtimer_rmv_example = vtimer_rmv-Removed (two_timers 2) 3 (two_timers-IsActive 2 (omega arith)) refl

expire_loop_example : Expired (two_timers 0) (expire_loop 3 true (two_timers 0) 9)
expire_loop_example =
    expire_loop-Expired 3 true (two_timers 0) 9 (two_timers-IsActive 0 (omega arith)) (omega arith)

timer_irq_example : Ticked (two_timers 1) (timer_irq false (two_timers 1))
timer_irq_example = timer_irq-Ticked (two_timers 1) (two_timers-IsActive 1 (omega arith)) refl

vtimer_free-vtimer_alloc_example :
    ((vtimer_alloc (two_timers 2) (timer_at 8)).0 ≡ some 8)
    × (r : Timers) × (vtimer_free (vtimer_alloc (two_timers 2) (timer_at 8)).1 8 ≡ some r)
    × IsActive r
    × (schedule r ≡ schedule (two_timers 2))
    × (r.exp_q ≡ none_expired)
    × (r.free_q ≡ (9 ∷ []) ++ (8 ∷ []))
vtimer_free-vtimer_alloc_example =
    vtimer_free-vtimer_alloc (two_timers 2) (timer_at 8) 8 (9 ∷ [])
      (two_timers-IsActive 2 (omega arith)) timer_8-acceptable refl refl
