-- ===== src/Vtimer/Insert.antt =====
-- `MRT_vtimer_ins`: the queue stands for the old schedule with the new expiration in its place.
use minix4rt.Base.{
  ℕ, ◌+◌, ◌≤◌, ◌<◌, ◌^◌, ◌≡◌, refl, ap, sym, ◌∙◌, inl, inr, true, false, Option, some, List, [],
  ◌∷◌, ◌++◌, arith, ltb, leb, ◌==◌, has, ne_of_has_sym, Distinct, Bool-cases,
}
use minix4rt.Plist.{Plist}
use minix4rt.Vtimer.{
  Vtimer, Timers, activeq, add_l, sub_l, set_nextexp, set_flags, last?, walk, ins_middle, ins_last,
  ins_active, vtimer_ins,
}
use minix4rt.Vtimer.Times.{
  times, schedule, span, insert_time, IsActive, times-Agree, span-Agree, set_nextexp_other,
  set_nextexp_self, set_flags_nextexp,
}
use minix4rt.Vtimer.Schedule.{
  ids, ids-times, Distinct-insert_time, last_time, last_time-times, last_time-insert_time,
}
use minix4rt.Vtimer.Last.{last?-some, has-last?, times-last, span-last}
use minix4rt.Vtimer.Walk.{Walked, walk-Walked}

abbrev pub timers : Plist → ℕ → ℕ → List ℕ → List ℕ → (ℕ → Vtimer) → Timers
timers exp e m xs fq f = record {
  exp_q = exp;
  earliest = e;
  maxper = m;
  act_q = xs;
  free_q = fq;
  vtimer = f;
}

-- What the insertion of a timer must yield.
abbrev pub Inserted : Timers → ℕ → ℕ → Option Timers → Type 0
Inserted q x p o =
    (r : Timers) × (o ≡ some r)
    × IsActive r
    × (schedule r ≡ insert_time x p (schedule q))
    × (r.exp_q ≡ q.exp_q)
    × (r.free_q ≡ q.free_q)

-- The members of the new queue are distinct, as those of its schedule are.
Distinct-inserted :
    (q r : Timers) (x p : ℕ)
    → Distinct q.act_q
    → has x q.act_q ≡ false
    → schedule r ≡ insert_time x p (schedule q)
    → Distinct r.act_q
Distinct-inserted q r x p d out e = rw (sym (ids-times r.vtimer r.earliest r.act_q) ∙ ap ids e) (
    Distinct-insert_time x p (schedule q) (rw (ids-times q.vtimer q.earliest q.act_q) d)
      (rw (ids-times q.vtimer q.earliest q.act_q) out))

module _ (exp : Plist) (e m : ℕ) (fq : List ℕ) (f : ℕ → Vtimer) (x p : ℕ) (small : p < 2 ^ 32) where
  ins-empty : Inserted (timers exp e m [] fq f) x p (ins_active (timers exp e m [] fq f) x p)
  unfolding ins_active
  ins-empty = (
    timers exp p 0 (x ∷ []) fq (set_nextexp f x 0),
    refl,
    record { distinct = (refl, tt); spanned = refl; bounded = omega arith },
    refl,
    refl,
    refl,
  )

  module _ (y : ℕ) (ys : List ℕ) (v : IsActive (timers exp e m (y ∷ ys) fq f))
      (out : has x (y ∷ ys) ≡ false) where
    abbrev q : Timers
    q = timers exp e m (y ∷ ys) fq f

    apart : (a : ℕ) → has a (y ∷ ys) ≡ true → (a == x) ≡ false
    apart a i = ne_of_has_sym a x (y ∷ ys) i out

    -- The members of the new queue are distinct, as those of its schedule are.
    Distinct-of : (r : Timers) → schedule r ≡ insert_time x p (schedule q) → Distinct r.act_q
    Distinct-of r s = Distinct-inserted q r x p v.distinct out s

    abbrev front : ℕ → Vtimer
    front = set_nextexp f x (sub_l e p)

    ins-first_eq :
        ltb p e ≡ true
        → ins_active q x p ≡ some (timers exp p (add_l m (sub_l e p)) (x ∷ y ∷ ys) fq front)
    unfolding ins_active
    ins-first_eq h = rw h

    front_same : (a : ℕ) → has a (y ∷ ys) ≡ true → (front a).nextexp ≡ (f a).nextexp
    front_same a i = set_nextexp_other f x (sub_l e p) a (apart a i)

    ins-first : ltb p e ≡ true → Inserted q x p (ins_active q x p)
    ins-first h = (
      timers exp p (add_l m (sub_l e p)) (x ∷ y ∷ ys) fq front,
      ins-first_eq h,
      record {
        distinct = (out, v.distinct);
        spanned = omega (
          arith,
          v.spanned,
          v.bounded,
          earlier,
          at_front,
          span-Agree f front (y ∷ ys) front_same,
        );
        bounded = omega (arith, v.bounded, earlier);
      },
      rw (later, sum_front) (ap (λ s. (x, p) ∷ s) (times-Agree f front e (y ∷ ys) front_same)),
      refl,
      refl,
    )
      where
        earlier : p < e
        earlier = ground arith

        later : leb e p ≡ false
        later = ground arith

        at_front : (front x).nextexp ≡ sub_l e p
        at_front = set_nextexp_self f x (sub_l e p)

        sum_front : p + (front x).nextexp ≡ e
        sum_front = omega (arith, at_front, earlier, v.bounded)

    abbrev behind : ℕ → ℕ → Vtimer
    behind l = set_nextexp (set_nextexp f l (sub_l p (add_l m e))) x 0

    ins-behind_eq :
        (l : ℕ)
        → ltb p e ≡ false
        → leb (add_l m e) p ≡ true
        → last? (y ∷ ys) ≡ some l
        → ins_active q x p ≡ some (timers exp e (sub_l p e) ((y ∷ ys) ++ (x ∷ [])) fq (behind l))
    unfolding ins_active ins_last
    ins-behind_eq l h k g = rw (h, k, g)

    ins-behind : ltb p e ≡ false → leb (add_l m e) p ≡ true → Inserted q x p (ins_active q x p)
    ins-behind h k = (
      timers exp e (sub_l p e) ((y ∷ ys) ++ (x ∷ [])) fq (behind l),
      ins-behind_eq l h k is_last,
      record {
        distinct =
            Distinct-of (timers exp e (sub_l p e) ((y ∷ ys) ++ (x ∷ [])) fq (behind l)) in_place;
        spanned = omega (
          arith,
          at_last,
          v.spanned,
          v.bounded,
          reaches,
          span-last f (behind l) x p l same y ys is_last v.distinct out,
        );
        bounded = omega (arith, reaches, v.bounded);
      },
      in_place,
      refl,
      refl,
    )
      where
        l : ℕ
        l = (last?-some y ys).0

        is_last : last? (y ∷ ys) ≡ some l
        is_last = (last?-some y ys).1

        reaches : m + e ≤ p
        reaches = ground (arith, v.bounded)

        same : (a : ℕ) → (a == x) ≡ false → (a == l) ≡ false → (behind l a).nextexp ≡ (f a).nextexp
        same a h k = set_nextexp_other _ x 0 a h ∙ set_nextexp_other f l _ a k

        at_last : (behind l l).nextexp ≡ sub_l p (add_l m e)
        at_last =
            set_nextexp_other _ x 0 l (apart l (has-last? y ys l is_last)) ∙ set_nextexp_self f l _

        in_place : times (behind l) e ((y ∷ ys) ++ (x ∷ [])) ≡ insert_time x p (times f e (y ∷ ys))
        in_place =
            times-last f (behind l) x p l same e y ys is_last v.distinct out
              (omega (arith, at_last, v.spanned, v.bounded, reaches))

  module _ (y z : ℕ) (zs : List ℕ) (v : IsActive (timers exp e m (y ∷ z ∷ zs) fq f))
      (out : has x (y ∷ z ∷ zs) ≡ false) where
    abbrev loop : List ℕ × (ℕ → Vtimer)
    loop = walk f x p y (add_l e (f y).nextexp) (z ∷ zs)

    ins-between_eq :
        ltb p e ≡ false
        → leb (add_l m e) p ≡ false
        → leb e p ≡ true
        → ins_active (timers exp e m (y ∷ z ∷ zs) fq f) x p
          ≡ some (timers exp e m (y ∷ loop.0) fq loop.1)
    unfolding ins_active ins_middle
    ins-between_eq h k g = rw (h, k, g)

    ins-between :
        ltb p e ≡ false
        → leb (add_l m e) p ≡ false
        → Inserted
            (timers exp e m (y ∷ z ∷ zs) fq f)
            x
            p
            (ins_active (timers exp e m (y ∷ z ∷ zs) fq f) x p)
    ins-between h k = (
      timers exp e m (y ∷ loop.0) fq loop.1,
      ins-between_eq h k starts,
      record {
        distinct =
            Distinct-inserted (timers exp e m (y ∷ z ∷ zs) fq f)
              (timers exp e m (y ∷ loop.0) fq loop.1) x p v.distinct out in_place;
        spanned = omega (arith, v.spanned, same_end);
        bounded = v.bounded;
      },
      in_place,
      refl,
      refl,
    )
      where
        starts : leb e p ≡ true
        starts = ground arith

        inside : p < m + e
        inside = ground (arith, v.bounded)

        walked : Walked f x p y e (add_l e (f y).nextexp) (z ∷ zs) loop
        walked =
            walk-Walked f x p y e (add_l e (f y).nextexp) z zs (omega (arith, v.bounded, v.spanned))
              (ground arith) (omega (arith, v.bounded, v.spanned, inside))
              (omega (arith, v.bounded, v.spanned)) v.distinct out

        no_wrap : add_l e (f y).nextexp ≡ e + (f y).nextexp
        no_wrap = omega (arith, v.bounded, v.spanned)

        in_place : times loop.1 e (y ∷ loop.0) ≡ insert_time x p (times f e (y ∷ z ∷ zs))
        in_place =
            rw starts
              (walked.inserted ∙ ap (λ t. (y, e) ∷ insert_time x p (times f t (z ∷ zs))) no_wrap)

        same_end : e + span loop.1 (y ∷ loop.0) ≡ e + span f (y ∷ z ∷ zs)
        same_end =
            sym (last_time-times loop.1 e e y loop.0)
            ∙ ap (last_time e) in_place
            ∙ last_time-insert_time x p e (times f e (y ∷ z ∷ zs)) (ground arith)
                (rw (last_time-times f e e y (z ∷ zs)) (omega (arith, v.spanned, inside)))
            ∙ last_time-times f e e y (z ∷ zs)

  ins_active-Inserted :
      (xs : List ℕ)
      → IsActive (timers exp e m xs fq f)
      → has x xs ≡ false
      → Inserted (timers exp e m xs fq f) x p (ins_active (timers exp e m xs fq f) x p)
  ins_active-Inserted [] v out = ins-empty
  ins_active-Inserted (y ∷ ys) v out = elim (Bool-cases (ltb p e)) [
    | inl h ↦ ins-first y ys v out h
    | inr h ↦ elim (Bool-cases (leb (add_l m e) p)) [
      | inl k ↦ ins-behind y ys v out h k
      | inr k ↦ middle ys v out h k
    ]
  ]
    where
      middle :
          (ys : List ℕ)
          → IsActive (timers exp e m (y ∷ ys) fq f)
          → has x (y ∷ ys) ≡ false
          → ltb p e ≡ false
          → leb (add_l m e) p ≡ false
          → Inserted
              (timers exp e m (y ∷ ys) fq f)
              x
              p
              (ins_active (timers exp e m (y ∷ ys) fq f) x p)
      middle [] v out h k = absurd (ground (arith, v.spanned, v.bounded))
      middle (z ∷ zs) v out h k = ins-between y z zs v out h k

-- A timer that is not in the active queue and has a period below 2^32 is put in its place: the
-- schedule is the old one with the timer's expiration after `period` ticks, behind those that come
-- before it or with it. There is no fault, the counters of the queue stay right, and the queues of
-- expired and of free timers do not change.
pub vtimer_ins-Inserted :
    (q : Timers) (x : ℕ)
    → IsActive q
    → has x q.act_q ≡ false
    → (q.vtimer x).period < 2 ^ 32
    → Inserted q x (q.vtimer x).period (vtimer_ins q x)
unfolding vtimer_ins
vtimer_ins-Inserted q x v out small =
    let (r, e, a, s, k, l) =
      ins_active-Inserted q.exp_q q.earliest q.maxper q.free_q g x (q.vtimer x).period small q.act_q
        (record {
          distinct = v.distinct;
          spanned = v.spanned ∙ sym (span-Agree q.vtimer g q.act_q same);
          bounded = v.bounded;
        })
        out in
    (
      r,
      e,
      a,
      s ∙ ap (insert_time x (q.vtimer x).period) (times-Agree q.vtimer g q.earliest q.act_q same),
      k,
      l,
    )
  where
    g : ℕ → Vtimer
    g = set_flags q.vtimer x activeq

    same : (a : ℕ) → has a q.act_q ≡ true → (g a).nextexp ≡ (q.vtimer a).nextexp
    same a m = set_flags_nextexp q.vtimer x activeq a
