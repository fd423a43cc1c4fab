-- ===== src/Vtimer/Times.antt =====
-- What the active queue stands for: each timer with the time to its expiration, in order; and the
-- reference operations on such lists.
use minix4rt.Base.{
  ℕ, ◌+◌, ◌<◌, ◌^◌, ◌≡◌, refl, ap, true, false, List, [], ◌∷◌, arith, leb, ◌==◌, if◌then◌else◌, has,
  has_head, has_tail, Distinct,
}
use minix4rt.Vtimer.{Vtimer, Timers, Status, set_nextexp, set_flags}

abbrev pub Schedule : Type 0
Schedule = List (ℕ × ℕ)

abbrev pub times : (ℕ → Vtimer) → ℕ → List ℕ → Schedule
times f t [] = []
times f t (x ∷ xs) = (x, t) ∷ times f (t + (f x).nextexp) xs

abbrev pub schedule : Timers → Schedule
schedule q = times q.vtimer q.earliest q.act_q

-- The time from the first expiration to the last.
abbrev pub span : (ℕ → Vtimer) → List ℕ → ℕ
span f [] = 0
span f (x ∷ []) = 0
span f (x ∷ y ∷ ys) = (f x).nextexp + span f (y ∷ ys)

-- A timer comes behind those that expire before it or with it.
abbrev pub insert_time : ℕ → ℕ → Schedule → Schedule
insert_time x p [] = (x, p) ∷ []
insert_time x p ((y, t) ∷ s) = if leb t p then (y, t) ∷ insert_time x p s else (x, p) ∷ (y, t) ∷ s

abbrev pub remove_time : ℕ → Schedule → Schedule
remove_time x [] = []
remove_time x ((y, t) ∷ s) = if x == y then s else (y, t) ∷ remove_time x s

pub record IsActive (q : Timers) : Type 0 where
  pub distinct : Distinct q.act_q
  pub spanned : q.maxper ≡ span q.vtimer q.act_q
  pub bounded : q.earliest + q.maxper < 2 ^ 32

-- Two pools with the same `nextexp` on a list.
abbrev pub Agree : (ℕ → Vtimer) → (ℕ → Vtimer) → List ℕ → Type 0
Agree f g xs = (a : ℕ) → has a xs ≡ true → (g a).nextexp ≡ (f a).nextexp

pub times-Agree :
    (f g : ℕ → Vtimer) (t : ℕ) (xs : List ℕ) → Agree f g xs → times g t xs ≡ times f t xs
times-Agree f g t [] same = refl
times-Agree f g t (x ∷ xs) same = rw (same x (has_head x xs)) (
    ap (λ s. (x, t) ∷ s)
      (times-Agree f g (t + (f x).nextexp) xs (λ a m. same a (has_tail a x xs m))))

pub span-Agree : (f g : ℕ → Vtimer) (xs : List ℕ) → Agree f g xs → span g xs ≡ span f xs
span-Agree f g [] same = refl
span-Agree f g (x ∷ []) same = refl
span-Agree f g (x ∷ y ∷ ys) same = omega (
  arith,
  same x (has_head x (y ∷ ys)),
  span-Agree f g (y ∷ ys) (λ a m. same a (has_tail a x (y ∷ ys) m)),
)

pub set_nextexp_other :
    (f : ℕ → Vtimer) (x n a : ℕ) → (a == x) ≡ false → (set_nextexp f x n a).nextexp ≡ (f a).nextexp
unfolding set_nextexp
set_nextexp_other f x n a e = ground arith

pub set_nextexp_self : (f : ℕ → Vtimer) (x n : ℕ) → (set_nextexp f x n x).nextexp ≡ n
unfolding set_nextexp
set_nextexp_self f x n = ground arith

pub set_flags_nextexp :
    (f : ℕ → Vtimer) (x : ℕ) (s : Status) (a : ℕ) → (set_flags f x s a).nextexp ≡ (f a).nextexp
unfolding set_flags
set_flags_nextexp f x s a = ground arith
