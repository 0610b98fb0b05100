-- ===== src/ZList/Examples.antt =====
-- Lists of twapi/include/zlist.h, and the theorems at them.
use twapi.Base.{ℕ, ◌≡◌, refl, Bool, [], ◌∷◌, arith, ◌==◌}
use twapi.ZList.Links.{
  Links, ZList, empty_list, append, prepend, insert_after, remove, move_to_head, locate,
}
use twapi.ZList.Represents.{Represents}
use twapi.ZList.Removes.{remove-Represents}
use twapi.ZList.Attaches.{
  append-Represents, prepend-Represents, insert_after-Represents, move_to_head-Represents,
}
use twapi.ZList.Locates.{find, locate-find}

abbrev no_links : Links
no_links = λ x. record { zl_prev = 0; zl_next = 0 }

empty_list-Represents : Represents empty_list no_links []
empty_list-Represents = record {
  head = refl;
  tail = refl;
  count = refl;
  linked = tt;
  distinct = tt;
  nonnull = tt;
}

abbrev one : ZList × Links
one = append 30 empty_list no_links

append-Represents_example : Represents one.0 one.1 (30 ∷ [])
append-Represents_example =
    append-Represents empty_list no_links [] 30 (omega arith) (λ q. cc) tt empty_list-Represents

one-Represents : Represents one.0 one.1 (30 ∷ [])
one-Represents =
    append-Represents empty_list no_links [] 30 (omega arith) (λ q. cc) tt empty_list-Represents

abbrev two : ZList × Links
two = prepend 20 one.0 one.1

prepend-Represents_example : Represents two.0 two.1 (20 ∷ 30 ∷ [])
prepend-Represents_example =
    prepend-Represents one.0 one.1 (30 ∷ []) 20 (omega arith) (λ q. cc)
      ((λ q. omega (arith, q)), tt) one-Represents

two-Represents : Represents two.0 two.1 (20 ∷ 30 ∷ [])
two-Represents =
    prepend-Represents one.0 one.1 (30 ∷ []) 20 (omega arith) (λ q. cc)
      ((λ q. omega (arith, q)), tt) one-Represents

abbrev three : ZList × Links
three = insert_after 20 25 two.0 two.1

three-Represents : Represents three.0 three.1 (20 ∷ 25 ∷ 30 ∷ [])
three-Represents =
    insert_after-Represents two.0 two.1 20 [] 25 (30 ∷ []) (omega arith) (λ q. cc)
      ((λ q. omega (arith, q)), ((λ q. omega (arith, q)), tt)) two-Represents

remove-Represents_example :
    Represents (remove 25 three.0 three.1).0 (remove 25 three.0 three.1).1 (20 ∷ 30 ∷ [])
remove-Represents_example =
    remove-Represents three.0 three.1 (20 ∷ []) 25 (30 ∷ []) (omega arith) three-Represents

move_to_head-Represents_example :
    Represents
      (move_to_head 30 three.0 three.1).0
      (move_to_head 30 three.0 three.1).1
      (30 ∷ 20 ∷ 25 ∷ [])
move_to_head-Represents_example =
    move_to_head-Represents three.0 three.1 (20 ∷ 25 ∷ []) 30 [] (omega arith) three-Represents

abbrev is_30 : ℕ → Bool
is_30 x = x == 30

two_count : two.0.zlist_count ≡ 2
unfolding append prepend
two_count = refl

locate-find_example : locate 2 is_30 two.0 two.1 ≡ find is_30 (20 ∷ 30 ∷ [])
locate-find_example =
    locate-find 2 is_30 two.0 two.1 (20 ∷ 30 ∷ []) (omega (arith, two_count)) two-Represents
