-- ===== src/Vtimer/Handlers.antt =====
-- src/kernel/mrtvt.c and src/kernel/mrtirq.c: the timer interrupt, and the timers of the pool.
use minix4rt.Base.{
  ℕ, zero, suc, ◌+◌, ◌%◌, ◌^◌, min, Bool, ◌&&◌, ◌||◌, Option, none, some, List, [], ◌∷◌, ◌++◌, ltb,
  ◌==◌, if◌then◌else◌, is_empty, update, length,
}
use minix4rt.Plist.{plist_app, plist_rmv, pri_lowest, plist_rst}
use minix4rt.Vtimer.{
  Vtimer, Timers, Status, alloc, freeq, activeq, expiredq, maxper_limit, nbr_vtact, nr_vtimers,
  sub_l, vtimer_rmv,
}

-- In one-shot mode the period of an expired timer that will be inserted again counts.
unfoldable pub again : Bool → Vtimer → ℕ → ℕ
again oneshot vt minexp =
    if oneshot && (ltb ((vt.expired + 1) % 2 ^ 32) vt.limit || vt.limit == 0)
    then min minexp vt.period
    else minexp

-- The body of the loop of `MRT_clock_handler`: the first timer moves to the expired ones if its time
-- has come. `go_on` is the rest of the loop.
unfoldable pub move_expired :
    (Timers → ℕ → Option (Timers × ℕ)) → Bool → Timers → ℕ → ℕ → Option Timers → Option (Timers × ℕ)
move_expired go_on oneshot q minexp x none = none
move_expired go_on oneshot q minexp x (some r) =
    go_on (record r { exp_q = plist_app r.exp_q x (r.vtimer x).priority })
      (again oneshot (q.vtimer x) minexp)

unfoldable pub expire_first :
    (Timers → ℕ → Option (Timers × ℕ)) → Bool → Timers → ℕ → List ℕ → Option (Timers × ℕ)
unfolding move_expired
expire_first go_on oneshot q minexp [] = some (q, minexp)
expire_first go_on oneshot q minexp (x ∷ _) =
    if q.earliest == 0
    then move_expired go_on oneshot q minexp x (vtimer_rmv q x)
    else some (q, minexp)

-- The loop, with fuel: `none` means a fault, or that the fuel ran out.
unfoldable pub expire_loop : ℕ → Bool → Timers → ℕ → Option (Timers × ℕ)
unfolding expire_first
expire_loop zero oneshot q minexp = none
expire_loop (suc fuel) oneshot q minexp =
    expire_first (expire_loop fuel oneshot) oneshot q minexp q.act_q

-- The period that one-shot mode programs.
unfoldable pub next_shot : Bool → Timers × ℕ → Timers × Option ℕ
next_shot oneshot (q, minexp) =
    if oneshot
    then (q, elim q.act_q [ [] ↦ some minexp | x ∷ _ ↦ some (min minexp (q.vtimer x).period) ])
    else (q, none)

unfoldable pub map_shot : Bool → Option (Timers × ℕ) → Option (Timers × Option ℕ)
map_shot oneshot none = none
map_shot oneshot (some r) = some (next_shot oneshot r)

unfoldable pub clock_handler : Bool → Timers → Option (Timers × Option ℕ)
unfolding again expire_loop next_shot map_shot
clock_handler oneshot q = map_shot oneshot (expire_loop (length q.act_q + 1) oneshot q maxper_limit)

-- What `MRT_IRQ_dispatch` does with the queue of active timers at a timer interrupt.
unfoldable pub timer_irq : Bool → Timers → Option (Timers × Option ℕ)
unfolding clock_handler
timer_irq oneshot q =
    if oneshot
    then clock_handler oneshot (record q { earliest = 0 })
    else if is_empty q.act_q
    then some (q, none)
    else let e = sub_l q.earliest 1 in
      if e == 0
      then clock_handler oneshot (record q { earliest = e })
      else some (record q { earliest = e }, none)

-- `MRT_vtimer_rst`; the expiration count is left as it is.
unfoldable pub reset : Vtimer → Vtimer
reset v = record {
  period = 0;
  limit = 0;
  action = 0;
  param = 0;
  priority = pri_lowest;
  owner = none;
  flags = alloc;
  nextexp = 0;
  timestamp = 0;
  expired = v.expired;
}

unfoldable pub stopped : ℕ → Option Timers → Option Timers
stopped x none = none
stopped x (some q) =
    some
      (record q { vtimer = update q.vtimer x (record (q.vtimer x) { nextexp = 0; flags = alloc }) })

unfoldable pub leave_queue : Status → Timers → ℕ → Option Timers
leave_queue freeq q x = none
leave_queue activeq q x = vtimer_rmv q x
leave_queue expiredq q x = some (record q { exp_q = plist_rmv q.exp_q x (q.vtimer x).priority })
leave_queue alloc q x = some q

unfoldable pub vtimer_stop : Timers → ℕ → Option Timers
unfolding leave_queue stopped
vtimer_stop q x = stopped x (leave_queue (q.vtimer x).flags q x)

unfoldable pub to_free : ℕ → Option Timers → Option Timers
unfolding reset
to_free x none = none
to_free x (some q) = some (record q {
  free_q = q.free_q ++ (x ∷ []);
  vtimer = update q.vtimer x (record (reset (q.vtimer x)) { flags = freeq });
})

unfoldable pub vtimer_free : Timers → ℕ → Option Timers
unfolding vtimer_stop to_free
vtimer_free q x = to_free x (vtimer_stop q x)

-- The tests of the parameters: `period` and `limit` are unsigned.
unfoldable pub acceptable : Vtimer → Bool
acceptable vt =
    ltb 0 vt.period && (ltb vt.period (maxper_limit + 1) && ltb vt.action (nbr_vtact + 1))

-- The first free timer, or NULL.
unfoldable pub vtimer_alloc : Timers → Vtimer → Option ℕ × Timers
unfolding acceptable
vtimer_alloc q vt = elim q.free_q [
  | [] ↦ (none, q)
  | x ∷ rest ↦
      if acceptable vt
      then (
        some x,
        record q {
          free_q = rest;
          vtimer = update q.vtimer x (record (q.vtimer x) {
            owner = vt.owner;
            priority = vt.priority;
            period = vt.period;
            limit = vt.limit;
            action = vt.action;
            param = vt.param;
            flags = alloc;
          });
        },
      )
      else (none, q)
]

-- `MRT_timerQ_init`
unfoldable pub timer_q_init : Timers → Timers
timer_q_init q = record q { earliest = 0; maxper = 0; act_q = []; free_q = []; exp_q = plist_rst }

-- The loop of `MRT_vtimer_init` from timer `i`, with the rounds that are left.
unfoldable pub init_loop : ℕ → ℕ → Timers → Timers
unfolding reset
init_loop zero i q = q
init_loop (suc n) i q =
    init_loop n (suc i)
      (record q { free_q = q.free_q ++ (i ∷ []); vtimer = update q.vtimer i (reset (q.vtimer i)) })

unfoldable pub vtimer_init : Timers → Timers
unfolding init_loop
vtimer_init q = init_loop nr_vtimers 0 q
