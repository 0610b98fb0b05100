-- ===== src/RecordArray/Objects.antt =====
-- The rest of the Tcl library on the simple objects of Parseargs.Objects, for twapi/base/recordarray.c.
use twapi.Base.{
  ℕ, Option, none, some, List, [], ◌∷◌, ◌++◌, get_elem?, set_elem, if◌then◌else◌, ap, ◌∙◌,
}
use twapi.Parseargs.Tcl.{Str}
use twapi.Parseargs.Objects.{Obj, word, objects, objects-IsTcl}
use twapi.RecordArray.Reply.{Lists, IsLists}
use twapi.RecordArray.Twine.{one_further}

abbrev find_word : Str → List Str → Option ℕ
find_word s [] = none
find_word s (w ∷ ws) = if objects.lstr_equal s w then some 0 else one_further (find_word s ws)

abbrev index_in : Option (List Obj) → ℕ → Option (Option Obj)
index_in none n = none
index_in (some es) n = some (get_elem? es n)

abbrev replace_in : Option (List Obj) → Obj → ℕ → Obj → Obj
replace_in none o n v = o
replace_in (some es) o n v = objects.from_list (set_elem es n v)

abbrev append_in : Option (List Obj) → Option (List Obj) → Obj → Obj
append_in none ys l = l
append_in (some xs) none l = l
append_in (some xs) (some ys) l = objects.from_list (xs ++ ys)

abbrev pub lists : Lists Obj
lists = record {
  list_index = λ o n. index_in (objects.to_elements o) n;
  list_replace = λ o n v. replace_in (objects.to_elements o) o n v;
  append_list = λ l o. append_in (objects.to_elements l) (objects.to_elements o) l;
  get_index = λ table o. find_word (objects.to_string o) table;
  lstri_equal = objects.lstr_equal;
  string_match = λ s p nocase. objects.lstr_equal s p;
  empty = word [];
}

pub lists-IsLists : IsLists objects lists
lists-IsLists = record {
  index = λ o n es e. ap (λ x. index_in x n) e;
  replace = λ o v n es e lt.
      ap (λ x. objects.to_elements (replace_in x o n v)) e ∙ objects-IsTcl.list (set_elem es n v);
  append = λ l o xs ys e f.
      ap (λ x. objects.to_elements (append_in x (objects.to_elements o) l)) e
      ∙ ap (λ x. objects.to_elements (append_in (some xs) x l)) f
      ∙ objects-IsTcl.list (xs ++ ys);
}
