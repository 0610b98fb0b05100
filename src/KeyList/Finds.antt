-- ===== src/KeyList/Finds.antt =====
-- `Twapi_KlGetObjCmd` of twapi/base/keylist.c, compared with a lookup in a list of pairs.
use twapi.Base.{
  ◌%◌, ◌≡◌, refl, false, Option, none, some, List, [], ◌∷◌, length, arith, ◌==◌, if◌then◌else◌, inl,
  inr, Bool-cases,
}
use twapi.Parseargs.Tcl.{Str, streq, Tcl}
use twapi.KeyList.Get.{Answer, result, no_field, or_default, search, get_elements, kl_get}

-- A keyed list and the pairs it stands for.
abbrev pub flatten : {Obj : Type 0} → List (Obj × Obj) → List Obj
flatten [] = []
flatten ((k, v) ∷ kvs) = k ∷ v ∷ flatten kvs

module _ {Obj Vars : Type 0} (tcl : Tcl Obj Vars) where
  -- The value of the first pair whose key has the string.
  abbrev pub find : Str → List (Obj × Obj) → Option Obj
  find key [] = none
  find key ((k, v) ∷ kvs) = if streq tcl key (tcl.to_string k) then some v else find key kvs

  abbrev pub answer_of : Option Obj → Answer Obj → Answer Obj
  answer_of none def = def
  answer_of (some v) def = result v

  even-flatten : (kvs : List (Obj × Obj)) → length (flatten kvs) % 2 ≡ 0
  even-flatten [] = refl
  even-flatten ((k, v) ∷ kvs) = omega (arith, even-flatten kvs)

  search-find :
      (key : Str) (kvs : List (Obj × Obj)) (def : List Obj)
      → search tcl key (flatten kvs) def ≡ answer_of (find key kvs) (or_default def)
  unfolding search
  search-find key [] def = refl
  search-find key ((k, v) ∷ kvs) def = elim (Bool-cases (streq tcl key (tcl.to_string k))) [
    | inl hit ↦ rw (search, hit) refl
    | inr miss ↦ rw (search, miss) (search-find key kvs def)
  ]

  get_elements-find :
      (keylist key : Obj) (def : List Obj) (kvs : List (Obj × Obj))
      → tcl.to_elements keylist ≡ some (flatten kvs)
      → get_elements tcl keylist key def ≡ answer_of (find (tcl.to_string key) kvs) (or_default def)
  unfolding get_elements
  get_elements-find keylist key def kvs e =
      let even : (length (flatten kvs) % 2 == 1) ≡ false = ground (arith, even-flatten kvs) in
      rw (get_elements, e, even) (search-find (tcl.to_string key) kvs def)

-- For a keyed list that is made of pairs, the command returns the value of the first pair that has
-- the key; if none has it, the default if there is one, and otherwise an error.
pub kl_get-find :
    {Obj Vars : Type 0} (tcl : Tcl Obj Vars) (keylist key def : Obj) (kvs : List (Obj × Obj))
    → tcl.to_elements keylist ≡ some (flatten kvs)
    → (kl_get tcl (keylist ∷ key ∷ []) ≡ answer_of tcl (find tcl (tcl.to_string key) kvs) no_field)
      × (kl_get tcl (keylist ∷ key ∷ def ∷ [])
          ≡ answer_of tcl (find tcl (tcl.to_string key) kvs) (result def))
unfolding kl_get or_default
kl_get-find tcl keylist key def kvs e =
    (get_elements-find tcl keylist key [] kvs e, get_elements-find tcl keylist key (def ∷ []) kvs e)
