-- ===== src/RecordArray/Twine.antt =====
-- `ObjToEnum` of twapi/base/tclobjs.c, and `TwapiTwine`, `TwapiTwineObjv` and `Twapi_TwineObjCmd` of
-- twapi/base/twine.c.
use twapi.Base.{
  ℕ, zero, suc, Option, none, some, List, [], ◌∷◌, ◌++◌, length, drop, leb, if◌then◌else◌,
}
use twapi.Parseargs.Tcl.{Str, streq, Tcl}
use twapi.RecordArray.Reply.{invalid_args, bad_object, Reply, refused, ◌>>=◌, expect, Lists}

-- `TwapiTwineObjv`: the first `n` elements of two arrays in turn.
unfoldable pub twine_objv : {Obj : Type 0} → List Obj → List Obj → ℕ → List Obj
twine_objv xs ys zero = []
twine_objv [] ys (suc n) = []
twine_objv (x ∷ xs) [] (suc n) = []
twine_objv (x ∷ xs) (y ∷ ys) (suc n) = x ∷ y ∷ twine_objv xs ys n

-- The two loops of `TwapiTwine`, over what one list has more than the other.
unfoldable pub pad_second : {Obj : Type 0} → Obj → List Obj → List Obj
pad_second e [] = []
pad_second e (x ∷ xs) = x ∷ e ∷ pad_second e xs

unfoldable pub pad_first : {Obj : Type 0} → Obj → List Obj → List Obj
pad_first e [] = []
pad_first e (y ∷ ys) = e ∷ y ∷ pad_first e ys

unfoldable pub twine_lists : {Obj : Type 0} → Obj → List Obj → List Obj → List Obj
unfolding twine_objv pad_second pad_first
twine_lists e xs ys =
    let n = if leb (length xs) (length ys) then length xs else length ys in
    twine_objv xs ys n
    ++ (if leb (length xs) n then pad_first e (drop n ys) else pad_second e (drop n xs))

abbrev pub one_further : Option ℕ → Option ℕ
one_further none = none
one_further (some i) = some (suc i)

module _ {Obj Vars : Type 0} (tcl : Tcl Obj Vars) (lists : Lists Obj) where
  -- `TwapiTwine`: none is a null pointer.
  unfoldable pub twine : Obj → Obj → Option Obj
  unfolding twine_lists
  twine first second = elim (tcl.to_elements first) [
    | none ↦ none
    | some xs ↦ elim (tcl.to_elements second) [
      | none ↦ none
      | some ys ↦ some (tcl.from_list (twine_lists lists.empty xs ys))
    ]
  ]

  -- The words of `Twapi_TwineObjCmd`, without its name.
  unfoldable pub twine_command : List Obj → Reply Obj
  unfolding twine
  twine_command (nested ∷ []) = expect (tcl.to_elements nested) bad_object >>= λ ls. elim ls [
    | x ∷ y ∷ [] ↦ expect (twine x y) bad_object
    | _ ↦ refused invalid_args
  ]
  twine_command (x ∷ y ∷ []) = expect (twine x y) bad_object
  twine_command _ = refused invalid_args

  -- The loop of `ObjToEnum`.
  unfoldable pub position_of : Str → List Obj → Option ℕ
  position_of name [] = none
  position_of name (o ∷ os) =
      let rest = one_further (position_of name os) in
      if streq tcl name (tcl.to_string o) then some 0 else rest

  -- The position of a name among the elements of a list.
  unfoldable pub to_enum : Obj → Obj → Reply ℕ
  unfolding position_of
  to_enum enums name = do
    os ← expect (tcl.to_elements enums) bad_object
    expect (position_of (tcl.to_string name) os) bad_object
