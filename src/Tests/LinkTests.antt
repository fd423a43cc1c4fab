-- ===== src/Tests/LinkTests.antt =====
-- The pointer-level lists of src/kernel/mrtlib.c on a list of two links.
use minix4rt.Base.{◌==◌, if◌then◌else◌, ◌≡◌, refl, none, some, [], ◌∷◌}
use minix4rt.Links.{Links, ListHead, list_app, list_rmv}
use minix4rt.Links.Represents.{Represents}
use minix4rt.Links.Represents.Append.{Appended, list_app_lem}
use minix4rt.Links.Represents.Remove.{Removed, list_rmv_lem}

-- The links 1 and 2, in that order.
abbrev two_links : Links
two_links = record {
  next = λ i. if i == 1 then some 2 else none;
  prev = λ i. if i == 2 then some 1 else none;
}

abbrev two_head : ListHead
two_head = record { in_q = 2; max_in_q = 2; first = some 1; last = some 2 }

two-Represents : Represents two_head two_links (1 ∷ 2 ∷ [])
two-Represents = record {
  count = refl;
  first_link = refl;
  last_link = refl;
  chain = (refl, refl, (refl, refl, tt));
  distinct = (refl, (refl, tt));
}

list_app_example :
    (r : ListHead × Links) × (list_app two_head two_links 3 ≡ some r)
    × Appended two_head two_links (1 ∷ 2 ∷ []) 3 r
list_app_example = list_app_lem two_head two_links (1 ∷ 2 ∷ []) 3 two-Represents refl

list_rmv_example : Removed two_head two_links (1 ∷ []) 2 [] (list_rmv two_head two_links 2)
list_rmv_example = list_rmv_lem two_head two_links (1 ∷ []) 2 [] two-Represents
