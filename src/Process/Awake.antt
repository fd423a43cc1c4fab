-- ===== src/Process/Awake.antt =====
-- `MRT_wakeup`: a sleeping process becomes ready.
use minix4rt.Base.{
  ℕ, ◌<◌, ◌≡◌, ap, ◌∙◌, true, false, ◌&&◌, some, [], ◌∷◌, ◌++◌, arith, ltb, if◌then◌else◌,
  update_self, if_false, if_true,
}
use minix4rt.Plist.{Plist, nr_prty, plist_app}
use minix4rt.Plist.Invariant.{IsPlist, plist_app-IsPlist}
use minix4rt.Vtimer.{alloc}
use minix4rt.Rcode.{ok, e_mrt_unready}
use minix4rt.Kernel.{Kernel, Proc, set_proc, is_rtready, rdy_q_app}
use minix4rt.Kernel.Outcome.{Outcome, ret, ◌>>=◌}
use minix4rt.Ipc.{vt_stop}
use minix4rt.Ipc.Direct.{vt_stop-idle, stop_idle}
use minix4rt.Process.Wakeup.{miss_deadline, wake_or_miss, end_sleep, wakeup}

-- The process sleeps, waits for nothing else, has schedules left, and its timer `v` does not run.
abbrev pub Sleeps : Kernel → ℕ → ℕ → Type 0
Sleeps k r v =
    ((k.proc r).sleep ≡ true)
    × ((k.proc r).mbx_snd ≡ false)
    × ((k.proc r).mbx_rcv ≡ false)
    × ((k.proc r).sem_down ≡ false)
    × ((k.proc r).lock_wait ≡ false)
    × ((ltb (k.proc r).limit (k.proc r).scheds && ltb 0 (k.proc r).limit) ≡ false)
    × ((k.proc r).ipcvt ≡ some v)
    × ((k.timers.vtimer v).flags ≡ alloc)

abbrev pub Awake : Kernel → ℕ → Outcome → Type 0
Awake k r out =
    (k' : Kernel) × (out ≡ ret ok k')
    × IsPlist k'.rdy_q
    × (is_rtready (k'.proc r) ≡ true)
    × (k'.rdy_q.list (k.proc r).priority ≡ k.rdy_q.list (k.proc r).priority ++ (r ∷ []))

abbrev risen : Kernel → ℕ → Kernel
risen k r = set_proc k r (record (k.proc r) { sleep = false })

risen-proc : (k : Kernel) (r : ℕ) → (risen k r).proc r ≡ record (k.proc r) { sleep = false }
risen-proc k r = update_self k.proc r (record (k.proc r) { sleep = false })

is_ready :
    (p : Proc)
    → p.mbx_snd ≡ false
    → p.mbx_rcv ≡ false
    → p.sem_down ≡ false
    → p.lock_wait ≡ false
    → is_rtready (record p { sleep = false }) ≡ true
unfolding is_rtready
is_ready p a b c d = ground (arith, a, b, c, d)

app-list : (pl : Plist) (x p : ℕ) → (plist_app pl x p).list p ≡ pl.list p ++ (x ∷ [])
unfolding plist_app
app-list pl x p = update_self pl.list p (pl.list p ++ (x ∷ []))

abbrev enqueued : Kernel → ℕ → Kernel
enqueued k r = record (risen k r) { rdy_q = plist_app k.rdy_q r (k.proc r).priority }

app-risen :
    (k : Kernel) (r : ℕ)
    → (ltb (k.proc r).limit (k.proc r).scheds && ltb 0 (k.proc r).limit) ≡ false
    → rdy_q_app (risen k r) r ≡ enqueued k r
unfolding rdy_q_app
app-risen k r left =
    ap
      (λ (p : Proc).
        if ltb p.limit p.scheds && ltb 0 p.limit
        then stops
        else record (risen k r) { rdy_q = plist_app k.rdy_q r p.priority })
      (risen-proc k r)
    ∙ if_false stops (enqueued k r) left
  where
    stops : Kernel
    stops = set_proc (risen k r) k.running (record ((risen k r).proc k.running) { stop = true })

-- A sleeping process of a priority below 16 that waits for nothing else, has schedules left and a timer
-- that does not run: `MRT_wakeup` returns OK, and the process is ready and the last of its list of the
-- ready queue, which stays well-formed.
pub wakeup-Awake :
    (fuel : ℕ) (k : Kernel) (r v : ℕ)
    → Sleeps k r v
    → IsPlist k.rdy_q
    → (k.proc r).priority < nr_prty
    → Awake k r (wakeup fuel r k)
unfolding wakeup wake_or_miss end_sleep
wakeup-Awake fuel k r v (sl, snd, rcv, sem, lck, left, tm, idle) wf low = (
  k2,
  ap (λ o. vt_stop o k >>= wake_or_miss fuel r) tm
      ∙ ap (λ o. o >>= wake_or_miss fuel r) (vt_stop-idle v k idle)
      ∙ if_true (end_sleep r k0) (miss_deadline fuel r k0) sl
      ∙ if_true (ret ok (rdy_q_app (risen k0 r) r)) (ret e_mrt_unready (risen k0 r)) ready
      ∙ ap (ret ok) (app-risen k0 r left),
  plist_app-IsPlist k.rdy_q r (k.proc r).priority wf low,
  ready,
  app-list k.rdy_q r (k.proc r).priority,
)
  where
    k0 : Kernel
    k0 = record k { timers = stop_idle v k.timers }

    k2 : Kernel
    k2 = enqueued k0 r

    ready : is_rtready ((risen k0 r).proc r) ≡ true
    ready = ap is_rtready (risen-proc k0 r) ∙ is_ready (k.proc r) snd rcv sem lck
