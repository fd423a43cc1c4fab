-- ===== src/Links.antt =====
-- src/kernel/mrtlib.c: the doubly linked lists of the RT-kernel (`link_t`, `list_t`), at the level
-- of the pointers. A link is named by a number, NULL is `none`, and the `next` and `prev` fields of
-- all links are one store, so that two lists may share it. The fields `this` and `object` of a link
-- are left out: a link's number names its object. An operation yields `none` where the code would
-- dereference NULL.
pub mod Segment
pub mod Represents
use minix4rt.Base.{ℕ, ◌+◌, ◌-◌, max, Option, none, some, update}

pub record Links : Type 0 where
  pub next : ℕ → Option ℕ
  pub prev : ℕ → Option ℕ

pub record ListHead : Type 0 where
  pub in_q : ℕ
  pub max_in_q : ℕ
  pub first : Option ℕ
  pub last : Option ℕ

pub list_rst : ListHead
list_rst = record { in_q = 0; max_in_q = 0; first = none; last = none }

-- `plink->next = NULL; plink->prev = NULL`
pub link_rst : Links → ℕ → Links
link_rst h x = record { next = update h.next x none; prev = update h.prev x none }

set_next : Links → ℕ → Option ℕ → Links
set_next h x q = record h { next = update h.next x q }

set_prev : Links → ℕ → Option ℕ → Links
set_prev h x q = record h { prev = update h.prev x q }

-- `inQ++` and `maxinQ = MAX(inQ, maxinQ)`
count_in : ListHead → ListHead
count_in l = record l { in_q = l.in_q + 1; max_in_q = max (l.in_q + 1) l.max_in_q }

pub list_app : ListHead → Links → ℕ → Option (ListHead × Links)
unfolding set_next set_prev count_in
list_app l h x = elim l.first [
  | none ↦
      some
        (count_in (record l { first = some x; last = some x }), set_next (set_prev h x none) x none)
  | some _ ↦ elim l.last [
    | none ↦ none
    | some t ↦ some (
      count_in (record l { last = some x }),
      set_next (set_next (set_prev h x (some t)) t (some x)) x none,
    )
  ]
]

pub list_ins : ListHead → Links → ℕ → Option (ListHead × Links)
unfolding set_next set_prev count_in
list_ins l h x = elim l.first [
  | none ↦ some (
    count_in (record l { first = some x; last = some x }),
    set_prev (set_next h x l.first) x none,
  )
  | some f ↦ some (
    count_in (record l { first = some x }),
    set_prev (set_prev (set_next h x l.first) x none) f (some x),
  )
]

-- The two tests of `MRT_list_rmv`, in order: the second reads what the first has written.
unlink_prev : ListHead × Links → ℕ → ListHead × Links
unfolding set_next
unlink_prev (l, h) x = elim (h.prev x) [
  | none ↦ (record l { first = h.next x }, h)
  | some p ↦ (l, set_next h p (h.next x))
]

unlink_next : ListHead × Links → ℕ → ListHead × Links
unfolding set_prev
unlink_next (l, h) x = elim (h.next x) [
  | none ↦ (record l { last = h.prev x }, h)
  | some n ↦ (l, set_prev h n (h.prev x))
]

count_out : ListHead × Links → ℕ → ListHead × Links
unfolding link_rst
count_out (l, h) x = (record l { in_q = l.in_q - 1 }, link_rst h x)

pub list_rmv : ListHead → Links → ℕ → ListHead × Links
unfolding unlink_prev unlink_next count_out
list_rmv l h x = count_out (unlink_next (unlink_prev (l, h) x) x) x
