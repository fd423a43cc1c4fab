-- ===== src/Sem/Free.antt =====
-- `MRT_semdown` where nobody has to wait, and the `MRT_semup` that gives the semaphore back.
use minix4rt.Base.{
  ℕ, ◌≡◌, refl, ap, sym, ◌∙◌, inl, inr, Bool, true, false, not, ◌&&◌, ◌||◌, Option, none, some,
  List, [], ◌∷◌, ◌++◌, arith, ◌==◌, ==_iff, has, remove, update, remove-append_cons, has-append,
  if◌then◌else◌, Bool-cases, update_self, update_other,
}
use minix4rt.Rcode.{ok, e_try_again}
use minix4rt.Kernel.{Kernel, Proc, Semaphore, set_proc, set_sem, inc, dec, nowait, sproc_pick}
use minix4rt.Sem.{
  is_negative, is_taken, drop_lock, carry, leave, count_up, count_down, down_taken, down_owned,
  semdown, up_owned, semup, wake, with_code, map_kernel,
}

-- The kernel after a `down` that takes a free mutex, before it is counted.
abbrev carried : Kernel → ℕ → Kernel
carried k s =
    set_proc (set_sem k s (record (k.sem s) { carrier = some k.running })) k.running
      (record (k.proc k.running) { slock_l = (k.proc k.running).slock_l ++ (s ∷ []) })

-- The kernel after an `up` that leaves a mutex, before it is counted.
abbrev left : Kernel → ℕ → Kernel
left k s = set_sem (drop_lock k s) s (record (k.sem s) { carrier = none })

-- Whether a `down` takes the semaphore as a mutex.
abbrev takes : Kernel → ℕ → Bool
takes k s = (k.sem s).value == 1 && (k.sem s).mutex

abbrev leaves : Kernel → ℕ → Bool
leaves k s = (k.sem s).value == 0 && (k.sem s).mutex

abbrev counted_down : Semaphore → Semaphore
counted_down v = record v { downs = inc v.downs; value = dec v.value }

abbrev counted_up : Semaphore → Semaphore
counted_up v = record v { ups = inc v.ups; value = inc v.value }

down-passes :
    (fuel : ℕ) (k : Kernel) (s o timeout : ℕ)
    → (k.sem s).owner ≡ some o
    → is_taken (k.sem s).value ≡ false
    → semdown fuel k s timeout ≡ some (ok, count_down (if takes k s then carried k s else k) s)
unfolding semdown down_owned carry
down-passes fuel k s o timeout e h =
    ap (down_owned fuel k s timeout) e
    ∙ ap (λ t. if t then down_taken fuel k s timeout else some (ok, count_down (carry k s) s)) h

up-passes :
    (k : Kernel) (s o : ℕ)
    → (k.sem s).owner ≡ some o
    → is_negative (k.sem s).value ≡ false
    → semup k s ≡ some (ok, count_up (if leaves k s then left k s else k) s)
unfolding semup up_owned with_code map_kernel leave
up-passes k s o e h =
    ap (up_owned k s) e
    ∙ ap
        (λ b. with_code ok (
          map_kernel (λ k1. count_up k1 s)
            (if b then wake k s (sproc_pick (k.sem s)) else some (leave k s))))
        h

-- The semaphore `s` and the lists of locked semaphores are as before, but for the statistics.
abbrev pub SameLocks : Kernel → ℕ → Kernel → Type 0
SameLocks k s r =
    ((r.sem s).value ≡ (k.sem s).value)
    × ((r.sem s).plist ≡ (k.sem s).plist)
    × ((r.sem s).carrier ≡ (k.sem s).carrier)
    × ((p : ℕ) → (r.proc p).slock_l ≡ (k.proc p).slock_l)
    × (r.stray_lock ≡ k.stray_lock)

dec-inc : (v : ℕ) → is_taken v ≡ false → inc (dec v) ≡ v
dec-inc v h = ground arith

dec-positive :
    (v : ℕ) → is_taken v ≡ false → (is_negative (dec v) ≡ false) × ((dec v == 0) ≡ (v == 1))
dec-positive v h = (ground arith, ground arith)

count_down-sem : (r : Kernel) (s : ℕ) → (count_down r s).sem s ≡ counted_down (r.sem s)
unfolding count_down
count_down-sem r s = update_self r.sem s (counted_down (r.sem s))

count_up-sem : (r : Kernel) (s : ℕ) → (count_up r s).sem s ≡ counted_up (r.sem s)
unfolding count_up
count_up-sem r s = update_self r.sem s (counted_up (r.sem s))

plain-sem :
    (k : Kernel) (s : ℕ) → (count_up (count_down k s) s).sem s ≡ counted_up (counted_down (k.sem s))
plain-sem k s = count_up-sem (count_down k s) s ∙ ap counted_up (count_down-sem k s)

plain-SameLocks :
    (k : Kernel) (s : ℕ)
    → is_taken (k.sem s).value ≡ false
    → SameLocks k s (count_up (count_down k s) s)
unfolding count_up count_down
plain-SameLocks k s h = (
  ap (λ v. v.value) (plain-sem k s) ∙ dec-inc (k.sem s).value h,
  ap (λ v. v.plist) (plain-sem k s),
  ap (λ v. v.carrier) (plain-sem k s),
  λ p. refl,
  refl,
)

-- The kernel after the `down` and the `up` of a mutex.
abbrev returned : Kernel → ℕ → Kernel
returned k s = count_up (left (count_down (carried k s) s) s) s

mutex-sem :
    (k : Kernel) (s : ℕ)
    → (returned k s).sem s ≡ counted_up (record (counted_down (k.sem s)) { carrier = none })
mutex-sem k s =
    let taken = record (k.sem s) { carrier = some k.running } in
    let k1 = count_down (carried k s) s in
    count_up-sem (left k1 s) s
    ∙ ap counted_up (update_self k1.sem s (record (k1.sem s) { carrier = none }))
    ∙ ap (λ (v : Semaphore). counted_up (record v { carrier = none }))
        (count_down-sem (carried k s) s ∙ ap counted_down (update_self k.sem s taken))

-- The lists after an append and a removal at the process `r`.
mutex-slocks :
    (f : ℕ → Proc) (r s p : ℕ)
    → has s (f r).slock_l ≡ false
    → (let g = update f r (record (f r) { slock_l = (f r).slock_l ++ (s ∷ []) }) in
        ((update g r (record (g r) { slock_l = remove s (g r).slock_l })) p).slock_l
        ≡ (f p).slock_l)
mutex-slocks f r s p out = elim (Bool-cases (p == r)) [
  | inl e ↦
      let same : p ≡ r = (==_iff p r).0 e in
      ap (λ i. (update g r y i).slock_l) same
      ∙ ap (λ q. q.slock_l) (update_self g r y)
      ∙ ap (λ q. remove s q.slock_l) (update_self f r x)
      ∙ remove-append_cons s (f r).slock_l out
      ∙ ap (λ i. (f i).slock_l) (sym same)
  | inr e ↦ ap (λ q. q.slock_l) (update_other g r p y e ∙ update_other f r p x e)
]
  where
    x : Proc
    x = record (f r) { slock_l = (f r).slock_l ++ (s ∷ []) }

    g : ℕ → Proc
    g = update f r x

    y : Proc
    y = record (g r) { slock_l = remove s (g r).slock_l }

-- A list with the semaphore at its end has it.
stray_not : (b : Bool) (xs : List ℕ) (s : ℕ) → (b || not (has s (xs ++ (s ∷ [])))) ≡ b
stray_not b xs s = ground (arith, has-append s xs (s ∷ []))

mutex-SameLocks :
    (k : Kernel) (s : ℕ)
    → is_taken (k.sem s).value ≡ false
    → (k.sem s).carrier ≡ none
    → has s (k.proc k.running).slock_l ≡ false
    → SameLocks k s (returned k s)
unfolding count_up count_down
mutex-SameLocks k s h c out = (
  ap (λ v. v.value) (mutex-sem k s) ∙ dec-inc (k.sem s).value h,
  ap (λ v. v.plist) (mutex-sem k s),
  ap (λ v. v.carrier) (mutex-sem k s) ∙ sym c,
  λ p. mutex-slocks k.proc k.running s p out,
  ap (λ q. k.stray_lock || not (has s q.slock_l))
        (update_self k.proc k.running
          (record (k.proc k.running) { slock_l = (k.proc k.running).slock_l ++ (s ∷ []) }))
      ∙ stray_not k.stray_lock (k.proc k.running).slock_l s,
)

downed-sem :
    (k : Kernel) (s : ℕ)
    → (count_down (carried k s) s).sem s
      ≡ counted_down (record (k.sem s) { carrier = some k.running })
downed-sem k s =
    count_down-sem (carried k s) s
    ∙ ap counted_down (update_self k.sem s (record (k.sem s) { carrier = some k.running }))

-- The `up` in a state `k1` after the `down`.
up_after :
    (k k1 : Kernel) (s o : ℕ) (c : Option ℕ) (b : Bool)
    → k1.sem s ≡ counted_down (record (k.sem s) { carrier = c })
    → (k.sem s).owner ≡ some o
    → is_taken (k.sem s).value ≡ false
    → takes k s ≡ b
    → semup k1 s ≡ some (ok, count_up (if b then left k1 s else k1) s)
up_after k k1 s o c b same e h m =
    let (positive, zero) : _ × _ = dec-positive (k.sem s).value h in
    up-passes k1 s o (ap (λ v. v.owner) same ∙ e)
      (ap (λ (v : Semaphore). is_negative v.value) same ∙ positive)
    ∙ ap (λ t. some (ok, count_up (if t then left k1 s else k1) s))
        (ap (λ (v : Semaphore). v.value == 0 && v.mutex) same
          ∙ ap (λ t. t && (k.sem s).mutex) zero
          ∙ m)

-- Where a semaphore has an owner, a positive value and no carrier, and the running process has not
-- locked it: a `down` with any time limit returns OK, and the `up` of the same process that follows
-- does, too. Then the value, the waiting queue and the carrier of the semaphore are as before, and so
-- are the locked semaphores of all processes; no semaphore was taken out of a list that it is not in.
pub semup-semdown :
    (fuel : ℕ) (k : Kernel) (s o timeout : ℕ)
    → (k.sem s).owner ≡ some o
    → is_taken (k.sem s).value ≡ false
    → (k.sem s).carrier ≡ none
    → has s (k.proc k.running).slock_l ≡ false
    → (k1 : Kernel) × (semdown fuel k s timeout ≡ some (ok, k1))
      × (k2 : Kernel) × (semup k1 s ≡ some (ok, k2))
      × SameLocks k s k2
semup-semdown fuel k s o timeout e h c out = elim (Bool-cases (takes k s)) [
  | inl m ↦ (
    count_down (carried k s) s,
    down-passes fuel k s o timeout e h
        ∙ ap (λ b. some (ok, count_down (if b then carried k s else k) s)) m,
    returned k s,
    up_after k (count_down (carried k s) s) s o (some k.running) true (downed-sem k s) e h m,
    mutex-SameLocks k s h c out,
  )
  | inr m ↦ (
    count_down k s,
    down-passes fuel k s o timeout e h
        ∙ ap (λ b. some (ok, count_down (if b then carried k s else k) s)) m,
    count_up (count_down k s) s,
    up_after k (count_down k s) s o (k.sem s).carrier false (count_down-sem k s) e h m,
    plain-SameLocks k s h,
  )
]

refused :
    (fuel : ℕ) (k : Kernel) (s o : ℕ)
    → (k.sem s).owner ≡ some o
    → is_taken (k.sem s).value ≡ true
    → semdown fuel k s nowait ≡ some (e_try_again, k)
unfolding semdown down_owned down_taken
refused fuel k s o e h =
    ap (down_owned fuel k s nowait) e
    ∙ ap (λ t. if t then down_taken fuel k s nowait else some (ok, count_down (carry k s) s)) h

-- Where a mutex has an owner and the value 1, a `down` with any time limit returns OK and makes the
-- running process its carrier. In the state after it, whichever process runs, a `down` that does not wait
-- is refused with E_TRY_AGAIN and changes nothing.
pub semdown-excludes :
    (fuel : ℕ) (k : Kernel) (s o timeout : ℕ)
    → (k.sem s).owner ≡ some o
    → (k.sem s).value ≡ 1
    → (k.sem s).mutex ≡ true
    → (k1 : Kernel) × (semdown fuel k s timeout ≡ some (ok, k1))
      × ((k1.sem s).carrier ≡ some k.running)
      × ((fuel' r : ℕ)
          → semdown fuel' (record k1 { running = r }) s nowait
            ≡ some (e_try_again, record k1 { running = r }))
semdown-excludes fuel k s o timeout e one m =
    let taking : takes k s ≡ true = ap (λ v. v == 1 && (k.sem s).mutex) one ∙ m in
    let k1 = count_down (carried k s) s in
    (
      k1,
      down-passes fuel k s o timeout e (ap is_taken one)
          ∙ ap (λ b. some (ok, count_down (if b then carried k s else k) s)) taking,
      ap (λ v. v.carrier) (downed-sem k s),
      λ fuel' r.
          refused fuel' (record k1 { running = r }) s o (ap (λ v. v.owner) (downed-sem k s) ∙ e)
            (ap (λ (v : Semaphore). is_taken v.value) (downed-sem k s)
              ∙ ap (λ v. is_taken (dec v)) one),
    )
