-- ===== src/Sem/Value.antt =====
-- The value of a semaphore counts the processes that wait for it.
use minix4rt.Base.{
  ℕ, suc, ◌+◌, ◌-◌, ◌≤◌, ◌<◌, ◌^◌, ◌≡◌, refl, ap, ◌∙◌, ◌⊎◌, inl, inr, true, false, Option, none,
  some, [], ◌∷◌, ◌++◌, arith, ◌==◌, ==_refl, if◌then◌else◌, Bool-cases, update_self,
}
use minix4rt.Plist.{Plist, nr_prty, plist_app}
use minix4rt.Plist.Invariant.{IsPlist, plist_app-IsPlist}
use minix4rt.Rcode.{Rcode, ok}
use minix4rt.Kernel.{Kernel, Proc, Semaphore, inc, dec, forever, rdy_q_rmv}
use minix4rt.Kernel.Inherit.{inherit}
use minix4rt.Sem.{
  is_negative, sproc_pty, sproc_app, enqueue, lend, count_down, map_kernel, with_code, carry,
  semdown, is_taken, down_taken, down_owned,
}

-- Nobody waits where the value is not negative; else it is minus the number of those who wait.
abbrev pub Balanced : ℕ → ℕ → Type 0
Balanced value waiting =
    ((value < 2 ^ 31) × (waiting ≡ 0)) ⊎ ((2 ^ 31 ≤ value) × (value + waiting ≡ 2 ^ 32))

pub record IsSem (s : Semaphore) : Type 0 where
  pub lists : IsPlist s.plist
  pub balance : Balanced s.value s.plist.in_q

pub Balanced-dec :
    (v w : ℕ) → is_taken v ≡ true → w + 1 < 2 ^ 31 → Balanced v w → Balanced (dec v) (w + 1)
Balanced-dec v w h b (inl (l, e)) = inr (ground arith, ground arith)
Balanced-dec v w h b (inr (l, e)) = inr (omega arith, omega arith)

pub Balanced-inc :
    (v w : ℕ) → is_negative v ≡ true → 0 < w → Balanced v w → Balanced (inc v) (w - 1)
Balanced-inc v w h pos (inl (l, e)) = ground arith
Balanced-inc v w h pos (inr (l, e)) = elim (Bool-cases (w == 1)) [
  | inl k ↦ inl (ground arith, ground arith)
  | inr k ↦ inr (ground arith, ground arith)
]

sproc_pty_lem : (s : Semaphore) (p : Proc) → p.priority < nr_prty → sproc_pty s p < nr_prty
unfolding sproc_pty
sproc_pty_lem s p h = ground arith

plist_app-in_q : (pl : Plist) (x p : ℕ) → (plist_app pl x p).in_q ≡ pl.in_q + 1
unfolding plist_app
plist_app-in_q pl x p = refl

plist_app-list : (pl : Plist) (x p : ℕ) → (plist_app pl x p).list p ≡ pl.list p ++ (x ∷ [])
unfolding plist_app
plist_app-list pl x p = update_self pl.list p (pl.list p ++ (x ∷ []))

-- Without priority inheritance in the system nothing is inherited.
inherit-off :
    (fuel prty : ℕ) (o : Option ℕ) (k : Kernel)
    → k.bpip ≡ false
    → inherit (suc fuel) prty o k ≡ some k
unfolding inherit
inherit-off fuel prty none k e = rw e
inherit-off fuel prty (some r) k e = rw e

lend-off :
    (fuel s : ℕ) (k : Kernel) → k.bpip ≡ false → lend (suc fuel) s (some k) ≡ some (enqueue s k)
unfolding lend enqueue rdy_q_rmv
lend-off fuel s k e = elim (Bool-cases ((enqueue s k).sem s).prty_inherit) [
  | inl i ↦ rw i (inherit-off fuel _ _ (enqueue s k) e)
  | inr i ↦ rw i
]

down_taken-off :
    (fuel : ℕ) (k : Kernel) (s : ℕ)
    → k.bpip ≡ false
    → down_taken (suc fuel) k s forever ≡ some (ok, count_down (enqueue s k) s)
unfolding down_taken with_code map_kernel
down_taken-off fuel k s b =
    ap (λ o. with_code ok (map_kernel (λ k1. count_down k1 s) o)) (lend-off fuel s k b)

down-waits :
    (fuel : ℕ) (k : Kernel) (s o : ℕ)
    → (k.sem s).owner ≡ some o
    → is_taken (k.sem s).value ≡ true
    → k.bpip ≡ false
    → semdown (suc fuel) k s forever ≡ some (ok, count_down (enqueue s k) s)
unfolding semdown down_owned
down-waits fuel k s o e h b =
    ap (down_owned (suc fuel) k s forever) e
    ∙ ap (λ t. if t then down_taken (suc fuel) k s forever else some (ok, count_down (carry k s) s))
        h
    ∙ down_taken-off fuel k s b

-- The semaphore and the process after the enqueueing.
enqueue-sem :
    (k : Kernel) (s : ℕ)
    → (count_down (enqueue s k) s).sem s ≡ record (k.sem s) {
      plist = plist_app (k.sem s).plist k.running (sproc_pty (k.sem s) (k.proc k.running));
      downs = inc (k.sem s).downs;
      value = dec (k.sem s).value;
    }
unfolding count_down enqueue rdy_q_rmv sproc_app sproc_pty
enqueue-sem k s = rw (==_refl s, ==_refl k.running)

enqueue-proc :
    (k : Kernel) (s : ℕ)
    → (count_down (enqueue s k) s).proc k.running
      ≡ record (k.proc k.running) { sem_down = true; psem = some s }
unfolding count_down enqueue rdy_q_rmv
enqueue-proc k s = rw (==_refl k.running)

-- What a `down` that blocks must yield.
abbrev pub Blocked : Kernel → ℕ → Option (Rcode × Kernel) → Type 0
Blocked k s out =
    (r : Kernel) × (out ≡ some (ok, r))
    × IsSem (r.sem s)
    × ((r.sem s).plist.in_q ≡ (k.sem s).plist.in_q + 1)
    × ((r.sem s).plist.list (sproc_pty (k.sem s) (k.proc k.running))
        ≡ (k.sem s).plist.list (sproc_pty (k.sem s) (k.proc k.running)) ++ (k.running ∷ []))
    × ((r.proc k.running).sem_down ≡ true)
    × ((r.proc k.running).psem ≡ some s)

-- Where priority inheritance is switched off in the system, the semaphore has an owner and a value of
-- at most 0, and fewer than 2^31 - 1 processes wait for it, a `down` without a time limit of a
-- process with a priority below 16 does not fault and returns OK. The process waits: it is the
-- last of its list of the semaphore and is marked as waiting for it, and the value of the
-- semaphore still counts those who wait.
pub semdown-Blocked :
    (fuel : ℕ) (k : Kernel) (s o : ℕ)
    → IsSem (k.sem s)
    → (k.sem s).owner ≡ some o
    → is_taken (k.sem s).value ≡ true
    → k.bpip ≡ false
    → (k.proc k.running).priority < nr_prty
    → (k.sem s).plist.in_q + 1 < 2 ^ 31
    → Blocked k s (semdown (suc fuel) k s forever)
semdown-Blocked fuel k s o v e h b low few = (
  count_down (enqueue s k) s,
  down-waits fuel k s o e h b,
  rw (enqueue-sem k s) (record {
    lists =
        plist_app-IsPlist (k.sem s).plist k.running pty v.lists
          (sproc_pty_lem (k.sem s) (k.proc k.running) low);
    balance =
        rw (plist_app-in_q (k.sem s).plist k.running pty)
          (Balanced-dec (k.sem s).value (k.sem s).plist.in_q h few v.balance);
  }),
  ap (λ t. t.plist.in_q) (enqueue-sem k s) ∙ plist_app-in_q (k.sem s).plist k.running pty,
  ap (λ t. t.plist.list pty) (enqueue-sem k s) ∙ plist_app-list (k.sem s).plist k.running pty,
  ap (λ p. p.sem_down) (enqueue-proc k s),
  ap (λ p. p.psem) (enqueue-proc k s),
)
  where
    pty : ℕ
    pty = sproc_pty (k.sem s) (k.proc k.running)
