-- ===== src/KeyList/Get.antt =====
-- `Twapi_KlGetObjCmd` of twapi/base/keylist.c: the value of a key in a list of keys and values.
use twapi.Base.{◌%◌, none, some, List, [], ◌∷◌, length, ◌==◌, if◌then◌else◌}
use twapi.Parseargs.Tcl.{Str, streq, Tcl}

-- The command's result, or its error.
pub data Answer (Obj : Type 0) : Type 0 where
  result : Obj → Answer Obj
  wrong_num_args not_a_list odd_length no_field : Answer Obj

-- The default, if there is one.
unfoldable pub or_default : {Obj : Type 0} → List Obj → Answer Obj
or_default [] = no_field
or_default (def ∷ _) = result def

module _ {Obj Vars : Type 0} (tcl : Tcl Obj Vars) where
  -- The loop over the keys. A last key without a value is not reached in a list of even length.
  unfoldable pub search : Str → List Obj → List Obj → Answer Obj
  unfolding or_default
  search key [] def = or_default def
  search key (entry ∷ []) def = or_default def
  search key (entry ∷ value ∷ rest) def =
      let later = search key rest def in
      if streq tcl key (tcl.to_string entry) then result value else later

  unfoldable pub get_elements : Obj → Obj → List Obj → Answer Obj
  unfolding search
  get_elements keylist key def = elim (tcl.to_elements keylist) [
    | none ↦ not_a_list
    | some os ↦ if length os % 2 == 1 then odd_length else search (tcl.to_string key) os def
  ]

  -- The words of the command, without its name.
  unfoldable pub kl_get : List Obj → Answer Obj
  unfolding get_elements
  kl_get [] = wrong_num_args
  kl_get (keylist ∷ []) = wrong_num_args
  kl_get (keylist ∷ key ∷ []) = get_elements keylist key []
  kl_get (keylist ∷ key ∷ def ∷ []) = get_elements keylist key (def ∷ [])
  kl_get (_ ∷ _ ∷ _ ∷ _ ∷ _) = wrong_num_args
