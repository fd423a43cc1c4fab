-- ===== src/Links/Segment.antt =====
-- Segments of a doubly linked list: what the pointers of a run of links say, with the link before
-- the run and the link behind it.
use minix4rt.Base.{
  ℕ, ◌≡◌, refl, ap, ◌∙◌, true, false, Option, some, List, [], ◌∷◌, ◌++◌, arith, ◌==◌, has, has_head,
  has_tail, ne_of_has, Distinct,
}
use minix4rt.Links.{Links}

abbrev pub head_or : List ℕ → Option ℕ → Option ℕ
head_or [] e = e
head_or (x ∷ xs) e = some x

abbrev pub last_of : Option ℕ → List ℕ → Option ℕ
last_of p [] = p
last_of p (x ∷ xs) = last_of (some x) xs

-- From the link `p` the links `xs` follow in order, and `e` follows them.
abbrev pub Segment : Links → Option ℕ → List ℕ → Option ℕ → Type 0
Segment h p [] e = Unit
Segment h p (x ∷ xs) e = (h.prev x ≡ p) × (h.next x ≡ head_or xs e) × Segment h (some x) xs e

pub head_or-append :
    (xs ys : List ℕ) (e : Option ℕ) → head_or (xs ++ ys) e ≡ head_or xs (head_or ys e)
head_or-append [] ys e = refl
head_or-append (x ∷ xs) ys e = refl

pub last_of-append :
    (p : Option ℕ) (xs ys : List ℕ) → last_of p (xs ++ ys) ≡ last_of (last_of p xs) ys
last_of-append p [] ys = refl
last_of-append p (x ∷ xs) ys = last_of-append (some x) xs ys

pub has-last_of :
    (x : ℕ) (xs : List ℕ) (t : ℕ) → last_of (some x) xs ≡ some t → has t (x ∷ xs) ≡ true
has-last_of x [] t h = ground arith
has-last_of x (y ∷ ys) t h = ground (arith, has-last_of y ys t h)

pub Segment-split :
    (h : Links) (p : Option ℕ) (xs ys : List ℕ) (e : Option ℕ)
    → Segment h p (xs ++ ys) e
    → Segment h p xs (head_or ys e) × Segment h (last_of p xs) ys e
Segment-split h p [] ys e s = (tt, s)
Segment-split h p (x ∷ xs) ys e s =
    let (l, r) = Segment-split h (some x) xs ys e s.2 in ((s.0, s.1 ∙ head_or-append xs ys e, l), r)

pub Segment-join :
    (h : Links) (p : Option ℕ) (xs ys : List ℕ) (e : Option ℕ)
    → Segment h p xs (head_or ys e)
    → Segment h (last_of p xs) ys e
    → Segment h p (xs ++ ys) e
Segment-join h p [] ys e s t = t
Segment-join h p (x ∷ xs) ys e s t =
    (s.0, rw (head_or-append xs ys e) s.1, Segment-join h (some x) xs ys e s.2 t)

-- `g` agrees with `h` on the links of a list.
pub record Same (h g : Links) (xs : List ℕ) : Type 0 where
  pub same_next : (a : ℕ) → has a xs ≡ true → g.next a ≡ h.next a
  pub same_prev : (a : ℕ) → has a xs ≡ true → g.prev a ≡ h.prev a

pub Same-tail : {h g : Links} {x : ℕ} {xs : List ℕ} → Same h g (x ∷ xs) → Same h g xs
Same-tail {x} {xs} s = record {
  same_next = λ a m. s.same_next a (has_tail a x xs m);
  same_prev = λ a m. s.same_prev a (has_tail a x xs m);
}

pub Segment-frame :
    (h g : Links) (p : Option ℕ) (xs : List ℕ) (e : Option ℕ)
    → Same h g xs
    → Segment h p xs e
    → Segment g p xs e
Segment-frame h g p [] e same s = tt
Segment-frame h g p (x ∷ xs) e same s = (
  same.same_prev x (has_head x xs) ∙ s.0,
  same.same_next x (has_head x xs) ∙ s.1,
  Segment-frame h g (some x) xs e (Same-tail same) s.2,
)

-- A write to `next` of the last link changes what follows the segment.
pub Segment-end :
    (h g : Links) (p : Option ℕ) (x : ℕ) (xs : List ℕ) (e e' : Option ℕ) (t : ℕ)
    → last_of (some x) xs ≡ some t
    → Distinct (x ∷ xs)
    → ((a : ℕ) → has a (x ∷ xs) ≡ true → g.prev a ≡ h.prev a)
    → ((a : ℕ) → has a (x ∷ xs) ≡ true → (a == t) ≡ false → g.next a ≡ h.next a)
    → g.next t ≡ e'
    → Segment h p (x ∷ xs) e
    → Segment g p (x ∷ xs) e'
Segment-end h g p x [] e e' t l d sp sn st s = (sp x (has_head x []) ∙ s.0, ap g.next (cc) ∙ st, tt)
Segment-end h g p x (y ∷ ys) e e' t l d sp sn st s = (
  sp x (has_head x (y ∷ ys)) ∙ s.0,
  sn x (has_head x (y ∷ ys)) (ne_of_has x t (y ∷ ys) d.0 (has-last_of y ys t l)) ∙ s.1,
  Segment-end h g (some x) y ys e e' t l d.1 (λ a m. sp a (has_tail a x (y ∷ ys) m))
      (λ a m. sn a (has_tail a x (y ∷ ys) m)) st s.2,
)

-- A write to `prev` of the first link changes what the segment follows.
pub Segment-start :
    (h g : Links) (p p' : Option ℕ) (x : ℕ) (xs : List ℕ) (e : Option ℕ)
    → g.prev x ≡ p'
    → g.next x ≡ h.next x
    → Same h g xs
    → Segment h p (x ∷ xs) e
    → Segment g p' (x ∷ xs) e
Segment-start h g p p' x xs e sp sn same s =
    (sp, ground arith, Segment-frame h g (some x) xs e same s.2)
