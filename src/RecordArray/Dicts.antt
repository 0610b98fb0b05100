-- ===== src/RecordArray/Dicts.antt =====
-- The dictionaries that `RecordInstanceObjCmd` of twapi/base/recordarray.c makes with `TwapiTwine` of
-- twapi/base/twine.c, read by `Twapi_KlGetObjCmd` of twapi/base/keylist.c.
use twapi.Base.{ℕ, Option, none, some, List, [], ◌∷◌, get_elem?}
use twapi.Parseargs.Tcl.{Tcl}
use twapi.RecordArray.Reply.{Lists}

abbrev zip : {A B : Type 0} → List A → List B → List (A × B)
zip [] ys = []
zip (x ∷ xs) [] = []
zip (x ∷ xs) (y ∷ ys) = (x, y) ∷ zip xs ys

module _ {Obj Vars : Type 0} (tcl : Tcl Obj Vars) (lists : Lists Obj) where
  abbrev value_at_position : Option ℕ → List Obj → Option Obj
  value_at_position none es = none
  value_at_position (some k) es = get_elem? es k
