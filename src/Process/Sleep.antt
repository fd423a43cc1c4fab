-- ===== src/Process/Sleep.antt =====
-- `MRT_sleep`: the process leaves the ready queue and is not ready.
use minix4rt.Base.{
  ℕ, ◌<◌, ◌≡◌, ap, ◌∙◌, true, false, Option, some, arith, has, remove, ==_refl, update_self,
}
use minix4rt.Plist.{Plist, nr_prty, plist_rmv}
use minix4rt.Plist.Invariant.{IsPlist, plist_rmv-IsPlist}
use minix4rt.Rcode.{Rcode, ok}
use minix4rt.Kernel.{Kernel, Proc, set_proc, is_rtready, rdy_q_rmv, forever}
use minix4rt.Process.{sleep_proc, fall_asleep}

-- What a sleep without a time limit must yield.
abbrev pub Asleep : Kernel → ℕ → Option (Rcode × Kernel) → Type 0
Asleep k r out =
    (k' : Kernel) × (out ≡ some (ok, k'))
    × IsPlist k'.rdy_q
    × (is_rtready (k'.proc r) ≡ false)
    × (k'.rdy_q.list (k.proc r).priority ≡ remove r (k.rdy_q.list (k.proc r).priority))

-- The process marked as sleeping.
abbrev marked : Kernel → ℕ → Kernel
marked k r = set_proc k r (record (k.proc r) { sleep = true })

rmv-rdy_q :
    (k : Kernel) (r : ℕ)
    → (rdy_q_rmv (marked k r) r).rdy_q ≡ plist_rmv k.rdy_q r (k.proc r).priority
unfolding rdy_q_rmv
rmv-rdy_q k r = rw (==_refl r)

rmv-proc :
    (k : Kernel) (r : ℕ) → (rdy_q_rmv (marked k r) r).proc r ≡ record (k.proc r) { sleep = true }
unfolding rdy_q_rmv
rmv-proc k r = update_self k.proc r (record (k.proc r) { sleep = true })

not_ready : (p : Proc) → is_rtready (record p { sleep = true }) ≡ false
unfolding is_rtready
not_ready p = ground arith

sleep-forever :
    (k : Kernel) (r : ℕ)
    → (k.proc r).realtime ≡ true
    → sleep_proc k r forever ≡ some (ok, rdy_q_rmv (marked k r) r)
unfolding sleep_proc fall_asleep
sleep-forever k r e = rw e

rmv-list : (pl : Plist) (x p : ℕ) → (plist_rmv pl x p).list p ≡ remove x (pl.list p)
unfolding plist_rmv
rmv-list pl x p = update_self pl.list p (remove x (pl.list p))

-- A real-time process of a priority below 16 that stands in its list of a well-formed ready queue and
-- sleeps without a time limit gets OK: it leaves its list, the ready queue stays well-formed, and
-- the process does not count as ready.
pub sleep_proc-Asleep :
    (k : Kernel) (r : ℕ)
    → (k.proc r).realtime ≡ true
    → IsPlist k.rdy_q
    → (k.proc r).priority < nr_prty
    → has r (k.rdy_q.list (k.proc r).priority) ≡ true
    → Asleep k r (sleep_proc k r forever)
sleep_proc-Asleep k r e v low m = (
  rdy_q_rmv (marked k r) r,
  sleep-forever k r e,
  rw (rmv-rdy_q k r) (plist_rmv-IsPlist k.rdy_q r (k.proc r).priority v low m),
  ap is_rtready (rmv-proc k r) ∙ not_ready (k.proc r),
  ap (λ l. l.list (k.proc r).priority) (rmv-rdy_q k r) ∙ rmv-list k.rdy_q r (k.proc r).priority,
)
