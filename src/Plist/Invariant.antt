-- ===== src/Plist/Invariant.antt =====
-- The invariant of a priority list, and that its operations keep it.
use minix4rt.Base.{
  ℕ, zero, suc, ◌+◌, ◌≤◌, ◌<◌, ◌≡◌, refl, ◌⊎◌, inl, inr, true, false, not, List, [], ◌∷◌, ◌++◌,
  arith, ◌==◌, is_empty, has, length, length-append, length-remove, remove, update, Bool-cases,
  ==_iff,
}
use minix4rt.Plist.{Plist, nr_prty, plist_rst, plist_app, plist_ins, plist_rmv}

-- The number of objects in the `n` lists from priority `p` on.
unfoldable pub total : ℕ → ℕ → (ℕ → List ℕ) → ℕ
total zero p f = 0
total (suc n) p f = length (f p) + total n (suc p) f

pub record IsPlist (pl : Plist) : Type 0 where
  pub bits : (p : ℕ) → pl.bitmap p ≡ not (is_empty (pl.list p))
  pub count : pl.in_q ≡ total nr_prty 0 pl.list

total_out_step : (n p q : ℕ) → (q < p) ⊎ (p + suc n ≤ q) → (q < suc p) ⊎ (suc p + n ≤ q)
total_out_step n p q h = omega arith

total-update_out :
    (n p : ℕ) (f : ℕ → List ℕ) (q : ℕ) (xs : List ℕ)
    → (q < p) ⊎ (p + n ≤ q)
    → total n p (update f q xs) ≡ total n p f
unfolding total
total-update_out zero p f q xs h = refl
total-update_out (suc n) p f q xs h =
    ground (arith, total-update_out n (suc p) f q xs (total_out_step n p q h))

pub total-update :
    (n p : ℕ) (f : ℕ → List ℕ) (q : ℕ) (xs : List ℕ)
    → p ≤ q
    → q < p + n
    → total n p (update f q xs) + length (f q) ≡ total n p f + length xs
unfolding total
total-update zero p f q xs h k = absurd (omega arith)
total-update (suc n) p f q xs h k = elim (Bool-cases (p == q)) [
  | inl e ↦
      ground (arith, total-update_out n (suc p) f q xs (inl (omega (arith, (==_iff p q).0 e))))
  | inr e ↦ ground (arith, total-update n (suc p) f q xs)
]

pub plist_rst-IsPlist : IsPlist plist_rst
unfolding plist_rst total
plist_rst-IsPlist = record { bits = λ p. refl; count = refl }

is_empty-append_cons : (xs : List ℕ) (x : ℕ) → is_empty (xs ++ (x ∷ [])) ≡ false
is_empty-append_cons [] x = refl
is_empty-append_cons (y ∷ xs) x = refl

-- The counter of all objects after a list is replaced.
count-update :
    (pl : Plist) (pty : ℕ) (xs : List ℕ)
    → IsPlist pl
    → pty < nr_prty
    → total nr_prty 0 (update pl.list pty xs) + length (pl.list pty) ≡ pl.in_q + length xs
count-update pl pty xs v h = omega (arith, v.count, total-update nr_prty 0 pl.list pty xs)

-- Appending an object at a priority below 16 keeps the bitmap and the counter in step with the lists.
pub plist_app-IsPlist :
    (pl : Plist) (x pty : ℕ) → IsPlist pl → pty < nr_prty → IsPlist (plist_app pl x pty)
unfolding plist_app
plist_app-IsPlist pl x pty v h = record {
  bits = λ p. ground (arith, v.bits p, is_empty-append_cons (pl.list pty) x);
  count = omega (
    arith,
    count-update pl pty (pl.list pty ++ (x ∷ [])) v h,
    length-append (pl.list pty) (x ∷ []),
  );
}

-- Inserting an object in front at a priority below 16 keeps the bitmap and the counter in step with
-- the lists.
plist_ins-IsPlist :
    (pl : Plist) (x pty : ℕ) → IsPlist pl → pty < nr_prty → IsPlist (plist_ins pl x pty)
unfolding plist_ins
plist_ins-IsPlist pl x pty v h = record {
  bits = λ p. ground (arith, v.bits p);
  count = omega (arith, count-update pl pty (x ∷ pl.list pty) v h);
}

-- Removing an object from the list of a priority below 16 that holds it keeps the bitmap and the
-- counter in step with the lists.
pub plist_rmv-IsPlist :
    (pl : Plist) (x pty : ℕ)
    → IsPlist pl
    → pty < nr_prty
    → has x (pl.list pty) ≡ true
    → IsPlist (plist_rmv pl x pty)
unfolding plist_rmv
plist_rmv-IsPlist pl x pty v h m = record {
  bits = λ p. ground (arith, v.bits p);
  count =
      omega
        (arith, count-update pl pty (remove x (pl.list pty)) v h, length-remove x (pl.list pty) m);
}
