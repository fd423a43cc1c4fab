-- ===== src/Vtimer/Tick.antt =====
-- The timer interrupt of the tick mode on the schedule of the active timers.
use minix4rt.Base.{
  ℕ, ◌+◌, ◌-◌, ◌<◌, ◌≡◌, refl, ap, sym, ◌∙◌, inl, inr, Bool, true, false, Option, none, some, List,
  [], ◌∷◌, arith, ltb, ◌==◌, Bool-cases, length,
}
use minix4rt.Plist.{Plist}
use minix4rt.Vtimer.{Vtimer, Timers, sub_l, maxper_limit}
use minix4rt.Vtimer.Times.{Schedule, times, schedule, IsActive}
use minix4rt.Vtimer.Insert.{timers}
use minix4rt.Vtimer.Clock.{drop_due, app_due, elapse, expire_loop-Expired}
use minix4rt.Vtimer.Handlers.{expire_loop, next_shot, map_shot, clock_handler, timer_irq}

-- The first timer is not due.
abbrev pub waits : Schedule → Bool
waits [] = true
waits ((x, t) ∷ s) = ltb 0 t

waits-drop_due : (s : Schedule) → waits (drop_due s) ≡ true
waits-drop_due [] = refl
waits-drop_due ((x, t) ∷ s) = elim (Bool-cases (t == 0)) [
  | inl e ↦ rw e (waits-drop_due s)
  | inr e ↦ rw e (ground arith)
]

times-elapse :
    (f : ℕ → Vtimer) (e : ℕ) (xs : List ℕ) → 0 < e → times f (e - 1) xs ≡ elapse (times f e xs)
times-elapse f e [] h = refl
times-elapse f e (x ∷ xs) h =
    ap (λ s. (x, e - 1) ∷ s)
      (ap (λ t. times f t xs) (omega (arith, h))
        ∙ times-elapse f (e + (f x).nextexp) xs (omega (arith, h)))

-- What a tick must yield.
abbrev pub Ticked : Timers → Option (Timers × Option ℕ) → Type 0
Ticked q o =
    (r : Timers) × (o ≡ some (r, none))
    × IsActive r
    × (schedule r ≡ drop_due (elapse (schedule q)))
    × (waits (schedule r) ≡ true)
    × (r.exp_q ≡ app_due q.vtimer (elapse (schedule q)) q.exp_q)
    × (r.free_q ≡ q.free_q)

-- In tick mode the handler is its loop.
clock_handler_tick :
    (q r : Timers) (m : ℕ)
    → expire_loop (length q.act_q + 1) false q maxper_limit ≡ some (r, m)
    → clock_handler false q ≡ some (r, none)
unfolding clock_handler next_shot map_shot
clock_handler_tick q r m e = ap (map_shot false) e

module _ (exp : Plist) (e m : ℕ) (fq : List ℕ) (f : ℕ → Vtimer) where
  irq-idle : timer_irq false (timers exp e m [] fq f) ≡ some (timers exp e m [] fq f, none)
  unfolding timer_irq
  irq-idle = refl

  irq-quiet :
      (x : ℕ) (xs : List ℕ)
      → (sub_l e 1 == 0) ≡ false
      → timer_irq false (timers exp e m (x ∷ xs) fq f)
        ≡ some (timers exp (sub_l e 1) m (x ∷ xs) fq f, none)
  unfolding timer_irq
  irq-quiet x xs h = rw h

  irq-due :
      (x : ℕ) (xs : List ℕ)
      → (sub_l e 1 == 0) ≡ true
      → timer_irq false (timers exp e m (x ∷ xs) fq f)
        ≡ clock_handler false (timers exp (sub_l e 1) m (x ∷ xs) fq f)
  unfolding timer_irq
  irq-due x xs h = rw h

  -- The queue with one tick less to its first expiration.
  elapse-IsActive :
      (xs : List ℕ)
      → IsActive (timers exp e m xs fq f)
      → 0 < e
      → IsActive (timers exp (sub_l e 1) m xs fq f)
  elapse-IsActive xs v h = record {
    distinct = v.distinct;
    spanned = v.spanned;
    bounded = omega (arith, v.bounded, h);
  }

  elapse-schedule :
      (xs : List ℕ)
      → IsActive (timers exp e m xs fq f)
      → 0 < e
      → times f (sub_l e 1) xs ≡ elapse (times f e xs)
  elapse-schedule xs v h =
      ap (λ t. times f t xs) (omega (arith, v.bounded, h)) ∙ times-elapse f e xs h

  tick-list :
      (xs : List ℕ)
      → IsActive (timers exp e m xs fq f)
      → waits (times f e xs) ≡ true
      → Ticked (timers exp e m xs fq f) (timer_irq false (timers exp e m xs fq f))
  tick-list [] v w = (timers exp e m [] fq f, irq-idle, v, refl, refl, refl, refl)
  tick-list (x ∷ xs) v w = elim (Bool-cases (sub_l e 1 == 0)) [
    | inr h ↦ (
      timers exp (sub_l e 1) m (x ∷ xs) fq f,
      irq-quiet x xs h,
      elapse-IsActive (x ∷ xs) v early,
      ran ∙ kept h,
      ground arith,
      kept' h,
      refl,
    )
    | inl h ↦
        let now : Timers = timers exp (sub_l e 1) m (x ∷ xs) fq f in
        let (r, n, eq, a, s, ex, fr) =
          expire_loop-Expired (length (x ∷ xs) + 1) false now maxper_limit
            (elapse-IsActive (x ∷ xs) v early) (omega arith) in
        (
          r,
          irq-due x xs h ∙ clock_handler_tick now r n eq,
          a,
          s ∙ ap drop_due ran,
          rw s (waits-drop_due (schedule now)),
          ex ∙ ap (λ t. app_due f t exp) ran,
          fr,
        )
  ]
    where
      early : 0 < e
      early = ground arith

      ran : times f (sub_l e 1) (x ∷ xs) ≡ elapse (times f e (x ∷ xs))
      ran = elapse-schedule (x ∷ xs) v early

      stays :
          (sub_l e 1 == 0) ≡ false
          → times f (sub_l e 1) (x ∷ xs) ≡ drop_due (times f (sub_l e 1) (x ∷ xs))
      stays h = rw h

      kept :
          (sub_l e 1 == 0) ≡ false
          → elapse (times f e (x ∷ xs)) ≡ drop_due (elapse (times f e (x ∷ xs)))
      kept h = sym ran ∙ stays h ∙ ap drop_due ran

      kept' : (sub_l e 1 == 0) ≡ false → exp ≡ app_due f (elapse (times f e (x ∷ xs))) exp
      kept' h = sym (ap (λ s. app_due f s exp) (sym ran) ∙ rw h)

-- A tick of the clock, while no timer of the active queue is overdue: every expiration comes one
-- tick nearer, exactly the timers whose time has come leave the active queue, and they are appended,
-- in their order and with their priorities, to the expired ones. There is no fault, the loop ends,
-- the counters of the queue stay right, no timer is left overdue, nothing is programmed for a next
-- shot and the queue of free timers does not change.
pub timer_irq-Ticked :
    (q : Timers) → IsActive q → waits (schedule q) ≡ true → Ticked q (timer_irq false q)
timer_irq-Ticked q v w = tick-list q.exp_q q.earliest q.maxper q.free_q q.vtimer q.act_q v w
