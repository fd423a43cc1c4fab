-- ===== src/Vtimer/Schedule.antt =====
-- Facts about schedules: their timers, and their last expiration.
use minix4rt.Base.{
  ℕ, ◌+◌, ◌≤◌, ◌<◌, ◌≡◌, refl, ap, ◌∙◌, inl, inr, false, List, [], ◌∷◌, arith, leb, ◌==◌, has,
  not_has_tail, Distinct, Bool-cases,
}
use minix4rt.Vtimer.{Vtimer}
use minix4rt.Vtimer.Times.{Schedule, times, span, insert_time}

-- The timers of a schedule.
abbrev pub ids : Schedule → List ℕ
ids [] = []
ids ((x, t) ∷ s) = x ∷ ids s

pub ids-times : (f : ℕ → Vtimer) (t : ℕ) (xs : List ℕ) → ids (times f t xs) ≡ xs
ids-times f t [] = refl
ids-times f t (x ∷ xs) = ap (λ s. x ∷ s) (ids-times f (t + (f x).nextexp) xs)

pub has-insert_time :
    (a x p : ℕ) (s : Schedule) → (a == x) ≡ false → has a (ids (insert_time x p s)) ≡ has a (ids s)
has-insert_time a x p [] h = rw h
has-insert_time a x p ((y, t) ∷ s) h = ground (arith, has-insert_time a x p s)

pub Distinct-insert_time :
    (x p : ℕ) (s : Schedule)
    → Distinct (ids s)
    → has x (ids s) ≡ false
    → Distinct (ids (insert_time x p s))
Distinct-insert_time x p [] d h = (refl, tt)
Distinct-insert_time x p ((y, t) ∷ s) d h = elim (Bool-cases (leb t p)) [
  | inl e ↦ rw e (
    has-insert_time y x p s (ground arith) ∙ d.0,
    Distinct-insert_time x p s d.1 (not_has_tail x y (ids s) h),
  )
  | inr e ↦ rw e (h, d)
]

-- The expiration time of the last timer, or `d`.
abbrev pub last_time : ℕ → Schedule → ℕ
last_time d [] = d
last_time d ((x, t) ∷ s) = last_time t s

pub last_time-times :
    (f : ℕ → Vtimer) (d t x : ℕ) (xs : List ℕ)
    → last_time d (times f t (x ∷ xs)) ≡ t + span f (x ∷ xs)
last_time-times f d t x [] = omega arith
last_time-times f d t x (y ∷ ys) = last_time-times f t (t + (f x).nextexp) y ys ∙ omega arith

pub last_time-insert_time :
    (x p d : ℕ) (s : Schedule)
    → d ≤ p
    → p < last_time d s
    → last_time d (insert_time x p s) ≡ last_time d s
last_time-insert_time x p d [] h k = absurd (omega arith)
last_time-insert_time x p d ((y, t) ∷ s) h k = elim (Bool-cases (leb t p)) [
  | inl e ↦ rw e (last_time-insert_time x p t s (ground arith) k)
  | inr e ↦ rw e
]
