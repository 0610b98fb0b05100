-- ===== src/KeyList/Examples.antt =====
-- A keyed list for twapi/base/keylist.c, and the theorem at it.
use twapi.Base.{◌≡◌, refl, some, List, [], ◌∷◌}
use twapi.Parseargs.Objects.{Obj, word, number, objs, list_of, elements, objects}
use twapi.KeyList.Get.{result, kl_get}
use twapi.KeyList.Finds.{flatten, kl_get-find}

abbrev pairs : List (Obj × Obj)
pairs = (word (97 ∷ []), number 1) ∷ (word (98 ∷ []), number 2) ∷ (word (97 ∷ []), number 3) ∷ []

abbrev keyed : Obj
keyed = objects.from_list (flatten pairs)

keyed-flatten : objects.to_elements keyed ≡ some (flatten pairs)
unfolding objs list_of elements
keyed-flatten = refl

kl_get-find_example :
    (kl_get objects (keyed ∷ word (97 ∷ []) ∷ []) ≡ result (number 1))
    × (kl_get objects (keyed ∷ word (97 ∷ []) ∷ number 9 ∷ []) ≡ result (number 1))
kl_get-find_example = kl_get-find objects keyed (word (97 ∷ [])) (number 9) pairs keyed-flatten
