-- ===== src/Links/Represents/Append.antt =====
-- `MRT_list_app` implements an append to a sequence.
use minix4rt.Base.{
  ℕ, ◌+◌, max, ◌≡◌, refl, ◌∙◌, true, false, Option, none, some, List, [], ◌∷◌, ◌++◌, arith, ◌==◌,
  has, ne_of_has, ne_of_has_sym, Distinct, Distinct-append_cons, length, length-append, update,
  update_self, update_other, sym,
}
use minix4rt.Links.{Links, ListHead, list_app}
use minix4rt.Links.Segment.{
  last_of, Segment, Segment-join, Segment-end, last_of-append, has-last_of as has_last,
}
use minix4rt.Links.Represents.{Represents, SameOutside, last_of-some}

abbrev pub Appended : ListHead → Links → List ℕ → ℕ → ListHead × Links → Type 0
Appended l h xs x (k, g) =
    Represents k g (xs ++ (x ∷ []))
    × (k.max_in_q ≡ max (length xs + 1) l.max_in_q)
    × SameOutside x xs h g

-- The stores that the operations leave.
abbrev app_links : Links → Option ℕ → ℕ → Links
app_links h none x = record { next = update h.next x none; prev = update h.prev x none }
app_links h (some t) x = record {
  next = update (update h.next t (some x)) x none;
  prev = update h.prev x (some t);
}

abbrev counted : ListHead → Option ℕ → Option ℕ → ListHead
counted l f t = record {
  in_q = l.in_q + 1;
  max_in_q = max (l.in_q + 1) l.max_in_q;
  first = f;
  last = t;
}

list_app-nil :
    (l : ListHead) (h : Links) (x : ℕ)
    → l.first ≡ none
    → list_app l h x ≡ some (counted l (some x) (some x), app_links h none x)
unfolding list_app
list_app-nil l h x e = rw (e, list_app)

list_app-cons :
    (l : ListHead) (h : Links) (x y t : ℕ)
    → l.first ≡ some y
    → l.last ≡ some t
    → list_app l h x ≡ some (counted l (some y) (some x), app_links h (some t) x)
unfolding list_app
list_app-cons l h x y t e f = ground arith

app_links-Segment :
    (h : Links) (y : ℕ) (ys : List ℕ) (t x : ℕ)
    → last_of (some y) ys ≡ some t
    → has x (y ∷ ys) ≡ false
    → Distinct (y ∷ ys)
    → Segment h none (y ∷ ys) none
    → Segment (app_links h (some t) x) none ((y ∷ ys) ++ (x ∷ [])) none
app_links-Segment h y ys t x e out d s =
    Segment-join g none (y ∷ ys) (x ∷ []) none
      (Segment-end h g none y ys none (some x) t e d
        (λ a m. update_other h.prev x a (some t) (ne a m))
        (λ a m n.
          update_other (update h.next t (some x)) x a none (ne a m)
          ∙ update_other h.next t a (some x) n)
        (update_other (update h.next t (some x)) x t none (ne t (has_last y ys t e))
          ∙ update_self h.next t (some x))
        s)
      (update_self h.prev x (some t) ∙ sym e, update_self (update h.next t (some x)) x none, tt)
  where
    g : Links
    g = app_links h (some t) x

    ne : (a : ℕ) → has a (y ∷ ys) ≡ true → (a == x) ≡ false
    ne a m = ne_of_has_sym a x (y ∷ ys) m out

-- If a head and the links stand for a sequence and a link is not in it, then appending the link does
-- not fault, the result stands for the sequence with the link at its end, the greatest length
-- is kept up, and the links outside the sequence keep their pointers.
pub list_app_lem :
    (l : ListHead) (h : Links) (xs : List ℕ) (x : ℕ)
    → Represents l h xs
    → has x xs ≡ false
    → (r : ListHead × Links) × (list_app l h x ≡ some r) × Appended l h xs x r
list_app_lem l h [] x rep out = (
  (counted l (some x) (some x), app_links h none x),
  list_app-nil l h x rep.first_link,
  (
    record {
      count = omega (arith, rep.count);
      first_link = refl;
      last_link = refl;
      chain = (update_self h.prev x none, update_self h.next x none, tt);
      distinct = (refl, tt);
    },
    omega (arith, rep.count),
    λ a n _. (update_other h.next x a none n, update_other h.prev x a none n),
  ),
)
list_app_lem l h (y ∷ ys) x rep out =
    let (t, e, m) = last_of-some y ys in
    (
      (counted l (some y) (some x), app_links h (some t) x),
      list_app-cons l h x y t rep.first_link (rep.last_link ∙ e),
      (
        record {
          count = omega (arith, rep.count, length-append ys (x ∷ []));
          first_link = refl;
          last_link = sym (last_of-append none (y ∷ ys) (x ∷ []));
          chain = app_links-Segment h y ys t x e out rep.distinct rep.chain;
          distinct = Distinct-append_cons (y ∷ ys) x rep.distinct out;
        },
        omega (arith, rep.count),
        λ a n o. (
          update_other (update h.next t (some x)) x a none n
              ∙ update_other h.next t a (some x) (ne_of_has a t (y ∷ ys) o m),
          update_other h.prev x a (some t) n,
        ),
      ),
    )
