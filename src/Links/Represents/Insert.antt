-- ===== src/Links/Represents/Insert.antt =====
-- `MRT_list_ins` implements an insertion in front of a sequence.
use minix4rt.Base.{
  ℕ, ◌+◌, max, ◌≡◌, refl, ◌∙◌, true, false, Option, none, some, List, [], ◌∷◌, arith, ◌==◌, has,
  has_head, has_tail, ne_of_has, ne_of_has_sym, length, update, update_self, update_other,
}
use minix4rt.Links.{Links, ListHead, list_ins}
use minix4rt.Links.Segment.{Segment-start}
use minix4rt.Links.Represents.{Represents, SameOutside}

abbrev Inserted : ListHead → Links → List ℕ → ℕ → ListHead × Links → Type 0
Inserted l h xs x (k, g) =
    Represents k g (x ∷ xs) × (k.max_in_q ≡ max (length xs + 1) l.max_in_q) × SameOutside x xs h g

abbrev ins_links : Links → Option ℕ → ℕ → Links
ins_links h none x = record { next = update h.next x none; prev = update h.prev x none }
ins_links h (some f) x = record {
  next = update h.next x (some f);
  prev = update (update h.prev x none) f (some x);
}

abbrev counted : ListHead → Option ℕ → Option ℕ → ListHead
counted l f t = record {
  in_q = l.in_q + 1;
  max_in_q = max (l.in_q + 1) l.max_in_q;
  first = f;
  last = t;
}

list_ins-nil :
    (l : ListHead) (h : Links) (x : ℕ)
    → l.first ≡ none
    → list_ins l h x ≡ some (counted l (some x) (some x), ins_links h none x)
unfolding list_ins
list_ins-nil l h x e = ground arith

list_ins-cons :
    (l : ListHead) (h : Links) (x y : ℕ)
    → l.first ≡ some y
    → list_ins l h x ≡ some (counted l (some x) l.last, ins_links h (some y) x)
unfolding list_ins
list_ins-cons l h x y e = ground arith

-- If a head and the links stand for a sequence and a link is not in it, then inserting the link does
-- not fault, the result stands for the sequence with the link at its front, the greatest length
-- is kept up, and the links outside the sequence keep their pointers.
list_ins_lem :
    (l : ListHead) (h : Links) (xs : List ℕ) (x : ℕ)
    → Represents l h xs
    → has x xs ≡ false
    → (r : ListHead × Links) × (list_ins l h x ≡ some r) × Inserted l h xs x r
list_ins_lem l h [] x rep out = (
  (counted l (some x) (some x), ins_links h none x),
  list_ins-nil l h x rep.first_link,
  (
    record {
      count = omega (arith, rep.count);
      first_link = refl;
      last_link = refl;
      chain = (update_self h.prev x none, update_self h.next x none, tt);
      distinct = (refl, tt);
    },
    omega (arith, rep.count),
    λ a n _. (update_other h.next x a none n, update_other h.prev x a none n),
  ),
)
list_ins_lem l h (y ∷ ys) x rep out = (
  (counted l (some x) l.last, ins_links h (some y) x),
  list_ins-cons l h x y rep.first_link,
  (
    record {
      count = omega (arith, rep.count);
      first_link = refl;
      last_link = rep.last_link;
      chain = (
        update_other (update h.prev x none) y x (some x)
              (ne_of_has x y (y ∷ ys) out (has_head y ys))
            ∙ update_self h.prev x none,
        update_self h.next x (some y),
        Segment-start h (ins_links h (some y) x) none (some x) y ys none
            (update_self (update h.prev x none) y (some x)) (same_next y (has_head y ys))
            (record {
              same_next = λ a m. same_next a (has_tail a y ys m);
              same_prev = λ a m.
                  update_other (update h.prev x none) y a (some x)
                    (ne_of_has_sym a y ys m rep.distinct.0)
                  ∙ update_other h.prev x a none (ne a (has_tail a y ys m));
            })
            rep.chain,
      );
      distinct = (out, rep.distinct);
    },
    omega (arith, rep.count),
    λ a n o. (
      update_other h.next x a (some y) n,
      update_other (update h.prev x none) y a (some x) (ne_of_has a y (y ∷ ys) o (has_head y ys))
          ∙ update_other h.prev x a none n,
    ),
  ),
)
  where
    ne : (a : ℕ) → has a (y ∷ ys) ≡ true → (a == x) ≡ false
    ne a m = ne_of_has_sym a x (y ∷ ys) m out

    same_next : (a : ℕ) → has a (y ∷ ys) ≡ true → update h.next x (some y) a ≡ h.next a
    same_next a m = update_other h.next x a (some y) (ne a m)
