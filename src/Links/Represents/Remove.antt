-- ===== src/Links/Represents/Remove.antt =====
-- `MRT_list_rmv` implements the removal of a member of a sequence, wherever it stands.
use minix4rt.Base.{
  ℕ, ◌-◌, ◌≡◌, refl, ap, ◌∙◌, sym, true, false, Option, none, some, List, [], ◌∷◌, ◌++◌, arith,
  ◌==◌, has, has_head, has_tail, not_has_tail, not_has_parts, true_ne_false, Bool-cases, inl, inr,
  ne_of_has, ne_of_has_sym, Distinct, Distinct-parts, Distinct-drop, length-append, update,
  update_self, update_other,
}
use minix4rt.Links.{Links, ListHead, unlink_prev, unlink_next, count_out, list_rmv}
use minix4rt.Links.Segment.{
  head_or, last_of, last_of-append, has-last_of as has_last, Segment, Segment-split, Segment-join,
  Segment-end, Segment-start,
}
use minix4rt.Links.Represents.{Represents, SameOutside, last_of-some}

abbrev write : (ℕ → Option ℕ) → Option ℕ → Option ℕ → ℕ → Option ℕ
write f none v = f
write f (some a) v = update f a v

abbrev rmv_links : Links → Option ℕ → Option ℕ → ℕ → Links
rmv_links h p n x = record {
  next = update (write h.next p n) x none;
  prev = update (write h.prev n p) x none;
}

abbrev or_else : Option ℕ → Option ℕ → Option ℕ → Option ℕ
or_else none v w = v
or_else (some _) v w = w

abbrev rmv_head : ListHead → Option ℕ → Option ℕ → ListHead
rmv_head l p n = record {
  in_q = l.in_q - 1;
  max_in_q = l.max_in_q;
  first = or_else p n l.first;
  last = or_else n p l.last;
}

-- `x` is not the link that an option names.
abbrev Apart : ℕ → Option ℕ → Type 0
Apart x none = Unit
Apart x (some a) = (x == a) ≡ false

unlink_prev-eq :
    (l : ListHead) (h : Links) (x : ℕ) (p n : Option ℕ)
    → h.prev x ≡ p
    → h.next x ≡ n
    → unlink_prev (l, h) x
      ≡ (record l { first = or_else p n l.first }, record h { next = write h.next p n })
unfolding unlink_prev
unlink_prev-eq l h x none n e f = rw (e, unlink_prev) (rw f)
unlink_prev-eq l h x (some p) n e f = rw (e, unlink_prev) (rw f)

unlink_next-eq :
    (l : ListHead) (h : Links) (x : ℕ) (p n : Option ℕ)
    → h.prev x ≡ p
    → h.next x ≡ n
    → unlink_next (l, h) x
      ≡ (record l { last = or_else n p l.last }, record h { prev = write h.prev n p })
unfolding unlink_next
unlink_next-eq l h x p none e f = rw (f, unlink_next) (rw e)
unlink_next-eq l h x p (some n) e f = rw (f, unlink_next) (rw e)

write_other : (f : ℕ → Option ℕ) (p v : Option ℕ) (x : ℕ) → Apart x p → write f p v x ≡ f x
write_other f none v x a = refl
write_other f (some p) v x a = update_other f p x v a

list_rmv-eq :
    (l : ListHead) (h : Links) (x : ℕ) (p n : Option ℕ)
    → h.prev x ≡ p
    → h.next x ≡ n
    → Apart x p
    → list_rmv l h x ≡ (rmv_head l p n, rmv_links h p n x)
unfolding list_rmv count_out
list_rmv-eq l h x p n e f a =
    ap (λ s. count_out (unlink_next s x) x) (unlink_prev-eq l h x p n e f)
    ∙ ap (λ s. count_out s x)
        (unlink_next-eq (record l { first = or_else p n l.first })
          (record h { next = write h.next p n }) x p n e (write_other h.next p n x a ∙ f))

Apart-last_of :
    (a : ℕ) (xs : List ℕ) (p : Option ℕ) → last_of none xs ≡ p → has a xs ≡ false → Apart a p
Apart-last_of a xs none e o = tt
Apart-last_of a [] (some t) e o = cc
Apart-last_of a (y ∷ ys) (some t) e o = ne_of_has a t (y ∷ ys) o (has_last y ys t e)

Apart-head_or : (a : ℕ) (xs : List ℕ) → has a xs ≡ false → Apart a (head_or xs none)
Apart-head_or a [] o = tt
Apart-head_or a (y ∷ ys) o = ne_of_has a y (y ∷ ys) o (has_head y ys)

-- Away from the removed link and the neighbour that is written, the links are as before.
rmv_next :
    (h : Links) (p n : Option ℕ) (x a : ℕ)
    → (a == x) ≡ false
    → Apart a p
    → (rmv_links h p n x).next a ≡ h.next a
rmv_next h p n x a e o = update_other (write h.next p n) x a none e ∙ write_other h.next p n a o

rmv_prev :
    (h : Links) (p n : Option ℕ) (x a : ℕ)
    → (a == x) ≡ false
    → Apart a n
    → (rmv_links h p n x).prev a ≡ h.prev a
rmv_prev h p n x a e o = update_other (write h.prev n p) x a none e ∙ write_other h.prev n p a o

-- The members behind the removed link follow its predecessor.
behind-Segment :
    (h : Links) (p : Option ℕ) (x : ℕ) (xs : List ℕ)
    → Distinct (x ∷ xs)
    → ((a : ℕ) → has a xs ≡ true → Apart a p)
    → Segment h p (x ∷ xs) none
    → Segment (rmv_links h p (head_or xs none) x) p xs none
behind-Segment h p x [] d apart s = tt
behind-Segment h p x (y ∷ ys) d apart s =
    Segment-start h g (some x) p y ys none
      (update_other (update h.prev y p) x y none (ne y (has_head y ys)) ∙ update_self h.prev y p)
      (rmv_next h p (some y) x y (ne y (has_head y ys)) (apart y (has_head y ys)))
      (record {
        same_next = λ a m.
            rmv_next h p (some y) x a (ne a (has_tail a y ys m)) (apart a (has_tail a y ys m));
        same_prev = λ a m.
            rmv_prev h p (some y) x a (ne a (has_tail a y ys m)) (ne_of_has_sym a y ys m d.1.0);
      })
      s.2
  where
    g : Links
    g = rmv_links h p (some y) x

    ne : (a : ℕ) → has a (y ∷ ys) ≡ true → (a == x) ≡ false
    ne a m = ne_of_has_sym a x (y ∷ ys) m d.0

-- The members before the removed link are followed by its successor.
before-Segment :
    (h : Links) (y : ℕ) (ys : List ℕ) (t x : ℕ) (xs : List ℕ)
    → last_of (some y) ys ≡ some t
    → Distinct (y ∷ ys)
    → ((a : ℕ) → has a (y ∷ ys) ≡ true → has a (x ∷ xs) ≡ false)
    → Segment h none (y ∷ ys) (some x)
    → Segment (rmv_links h (some t) (head_or xs none) x) none (y ∷ ys) (head_or xs none)
before-Segment h y ys t x xs e d apart s =
    Segment-end h (rmv_links h (some t) n x) none y ys (some x) n t e d
      (λ a m. rmv_prev h (some t) n x a (ne a m) (Apart-head_or a xs (out a m)))
      (λ a m o. rmv_next h (some t) n x a (ne a m) o)
      (update_other (update h.next t n) x t none (ne t (has_last y ys t e))
        ∙ update_self h.next t n)
      s
  where
    n : Option ℕ
    n = head_or xs none

    ne : (a : ℕ) → has a (y ∷ ys) ≡ true → (a == x) ≡ false
    ne a m = ne_of_has a x (x ∷ xs) (apart a m) (has_head x xs)

    out : (a : ℕ) → has a (y ∷ ys) ≡ true → has a xs ≡ false
    out a m = not_has_tail a x xs (apart a m)

abbrev pub Removed : ListHead → Links → List ℕ → ℕ → List ℕ → ListHead × Links → Type 0
Removed l h before x behind (k, g) =
    Represents k g (before ++ behind)
    × (k.max_in_q ≡ l.max_in_q)
    × (g.next x ≡ none)
    × (g.prev x ≡ none)
    × SameOutside x (before ++ (x ∷ behind)) h g

last-removed :
    (l : ListHead) (p : Option ℕ) (before : List ℕ) (x : ℕ) (behind : List ℕ)
    → last_of none before ≡ p
    → l.last ≡ last_of none (before ++ (x ∷ behind))
    → or_else (head_or behind none) p l.last ≡ last_of none (before ++ behind)
last-removed l p before x [] e last = sym e ∙ sym (last_of-append none before [])
last-removed l p before x (z ∷ zs) e last =
    last ∙ last_of-append none before (x ∷ z ∷ zs) ∙ sym (last_of-append none before (z ∷ zs))

module _ (l : ListHead) (h : Links) (before : List ℕ) (x : ℕ) (behind : List ℕ)
    (rep : Represents l h (before ++ (x ∷ behind))) where
  -- What is left of the proof once the members before the link are known to be linked up.
  rmv_finish :
      (p : Option ℕ)
      → last_of none before ≡ p
      → or_else p (head_or behind none) l.first ≡ head_or (before ++ behind) none
      → Segment (rmv_links h p (head_or behind none) x) none before (head_or behind none)
      → Removed l h before x behind (list_rmv l h x)
  rmv_finish p e first linked =
      rw
        (list_rmv-eq l h x p (head_or behind none) (here.0 ∙ e) here.1
          (Apart-last_of x before p e (not_before x (has_head x behind))))
        (
          record {
            count =
                omega (
                  arith,
                  rep.count,
                  length-append before (x ∷ behind),
                  length-append before behind,
                );
            first_link = first;
            last_link = last-removed l p before x behind e rep.last_link;
            chain = Segment-join g none before behind none linked (
                rw e (
                  behind-Segment h p x behind parts.1
                    (λ a m. Apart-last_of a before p e (not_before a (has_tail a x behind m)))
                    (rw e at here)));
            distinct = Distinct-drop before x behind rep.distinct;
          },
          refl,
          update_self (write h.next p n) x none,
          update_self (write h.prev n p) x none,
          λ a i o. (
            rmv_next h p n x a i (Apart-last_of a before p e (outside a o).0),
            rmv_prev h p n x a i (Apart-head_or a behind (outside a o).1),
          ),
        )
    where
      n : Option ℕ
      n = head_or behind none

      g : Links
      g = rmv_links h p n x

      parts :
          Distinct before
          × Distinct (x ∷ behind)
          × ((a : ℕ) → has a before ≡ true → has a (x ∷ behind) ≡ false)
      parts = Distinct-parts before (x ∷ behind) rep.distinct

      here : Segment h (last_of none before) (x ∷ behind) none
      here = (Segment-split h none before (x ∷ behind) none rep.chain).1

      not_before : (a : ℕ) → has a (x ∷ behind) ≡ true → has a before ≡ false
      not_before a m = elim (Bool-cases (has a before)) [
        | inl i ↦ absurd (true_ne_false (sym m ∙ parts.2 a i))
        | inr o ↦ o
      ]

      outside :
          (a : ℕ)
          → has a (before ++ (x ∷ behind)) ≡ false
          → (has a before ≡ false) × (has a behind ≡ false)
      outside a o = not_has_parts a before x behind o

-- If a head and the links stand for a sequence, removing a member at any place gives a head and links
-- that stand for the sequence without it. The greatest length is kept, the link of the member is
-- reset, and the links outside the sequence keep their pointers.
pub list_rmv_lem :
    (l : ListHead) (h : Links) (before : List ℕ) (x : ℕ) (behind : List ℕ)
    → Represents l h (before ++ (x ∷ behind))
    → Removed l h before x behind (list_rmv l h x)
list_rmv_lem l h [] x behind rep = rmv_finish l h [] x behind rep none refl refl tt
list_rmv_lem l h (y ∷ ys) x behind rep =
    let (t, e, m) = last_of-some y ys in
    let (d, _, apart) = Distinct-parts (y ∷ ys) (x ∷ behind) rep.distinct in
    rmv_finish l h (y ∷ ys) x behind rep (some t) e rep.first_link (
      before-Segment h y ys t x behind e d apart
        (Segment-split h none (y ∷ ys) (x ∷ behind) none rep.chain).0)
