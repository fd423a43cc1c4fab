-- ===== src/Plist.antt =====
-- src/kernel/mrtlib.c: the priority lists of the RT-kernel (`plist_t`): a list of objects for each
-- of the 16 priorities, a bitmap of the lists that hold an object, and counters. An object is
-- named by its number. A list is the sequence of its members, which the module Links justifies; the
-- bitmap is a function from a bit's place to the bit. Priorities are below 16, so `1 << pty` is a
-- bit of the 16-bit bitmap.
pub mod Invariant
pub mod Highest
use minix4rt.Base.{
  ℕ, zero, suc, ◌+◌, ◌-◌, max, Bool, true, false, Option, none, some, List, [], ◌∷◌, ◌++◌, ◌==◌,
  if◌then◌else◌, head?, is_empty, remove, update,
}

abbrev pub nr_prty : ℕ
nr_prty = 16

abbrev pub pri_highest : ℕ
pri_highest = 0

abbrev pub pri_lowest : ℕ
pri_lowest = 15

pub record Plist : Type 0 where
  pub bitmap : ℕ → Bool
  pub in_q : ℕ
  pub max_in_q : ℕ
  pub list : ℕ → List ℕ

unfoldable pub plist_rst : Plist
plist_rst = record { bitmap = λ _. false; in_q = 0; max_in_q = 0; list = λ _. [] }

unfoldable pub plist_app : Plist → ℕ → ℕ → Plist
plist_app pl x pty = record {
  bitmap = update pl.bitmap pty true;
  in_q = pl.in_q + 1;
  max_in_q = max (pl.in_q + 1) pl.max_in_q;
  list = update pl.list pty (pl.list pty ++ (x ∷ []));
}

unfoldable pub plist_ins : Plist → ℕ → ℕ → Plist
plist_ins pl x pty = record {
  bitmap = update pl.bitmap pty true;
  in_q = pl.in_q + 1;
  max_in_q = max (pl.in_q + 1) pl.max_in_q;
  list = update pl.list pty (x ∷ pl.list pty);
}

unfoldable pub plist_rmv : Plist → ℕ → ℕ → Plist
plist_rmv pl x pty = record {
  bitmap = if is_empty left then update pl.bitmap pty false else pl.bitmap;
  in_q = pl.in_q - 1;
  max_in_q = pl.max_in_q;
  list = update pl.list pty left;
}
  where
    left : List ℕ
    left = remove x (pl.list pty)

-- The loop of `MRT_plist_get` from priority `p`, with the rounds that are left.
get_loop : ℕ → ℕ → Plist → Option ℕ
get_loop zero p pl = none
get_loop (suc n) p pl =
    let rest = get_loop n (suc p) pl in if pl.bitmap p then head? (pl.list p) else rest

unfoldable pub plist_get : Plist → Option ℕ
unfolding get_loop
plist_get pl = if pl.in_q == 0 then none else get_loop nr_prty 0 pl
