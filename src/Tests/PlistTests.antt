-- ===== src/Tests/PlistTests.antt =====
-- The priority lists of src/kernel/mrtlib.c with two objects of priority 3.
use minix4rt.Base.{◌==◌, if◌then◌else◌, refl, [], ◌∷◌, arith}
use minix4rt.Plist.{Plist, plist_get}
use minix4rt.Plist.Invariant.{IsPlist, total}
use minix4rt.Plist.Highest.{Highest, plist_get-Highest}

abbrev two_objects : Plist
two_objects = record {
  bitmap = λ p. p == 3;
  in_q = 2;
  max_in_q = 2;
  list = λ p. if p == 3 then 5 ∷ 6 ∷ [] else [];
}

two_objects-IsPlist : IsPlist two_objects
unfolding total
two_objects-IsPlist = record { bits = λ p. ground arith; count = refl }

plist_get_example : Highest two_objects (plist_get two_objects)
plist_get_example = plist_get-Highest two_objects two_objects-IsPlist
