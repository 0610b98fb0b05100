-- ===== src/Parseargs/Tcl.antt =====
-- What twapi/base/parseargs.c calls in the Tcl library, in Windows and in its own conversions of Tcl
-- objects: an interface. A string is its bytes, without the final NUL.
use twapi.Base.{ℕ, ◌≡◌, refl, ◌⊎◌, inl, inr, Bool, Option, some, List, [], ◌∷◌, ◌&&◌, ◌==◌}

abbrev pub Str : Type 0
Str = List ℕ

-- `*p`, the final NUL of an empty string included.
abbrev pub first_byte : Str → ℕ
first_byte [] = 0
first_byte (c ∷ cs) = c

-- Why a call returns `TCL_ERROR`.
pub data Error : Type 0 where
  not_a_list bad_descriptor extra_argument missing_maxleftover bad_maxleftover no_variable : Error
  missing_value unknown_option bad_value bad_dictionary extra_arguments set_variable : Error

-- A call succeeds, returns an error, or dereferences a null pointer.
pub data Result (A : Type 0) : Type 0 where
  done : A → Result A
  failed : Error → Result A
  crashed : Result A

-- The functions on objects: numbers are given by their bits, and `none` is an error. `Vars` are the
-- variables of the interpreter.
pub record Tcl (Obj Vars : Type 0) : Type 0 where
  pub to_string : Obj → Str
  pub to_elements : Obj → Option (List Obj)
  pub to_wide : Obj → Option ℕ
  pub to_int : Obj → Option ℕ
  pub to_boolean : Obj → Option Bool
  pub dict_get : Obj → Obj → Option (Option Obj)
  pub from_boolean : Bool → Obj
  pub from_int : ℕ → Obj
  pub from_string : Str → Obj
  pub from_list : List Obj → Obj
  pub utf_find_first : Str → ℕ → Option ℕ
  pub utf_equal : Str → Str → ℕ → Bool
  pub lstr_equal : Str → Str → Bool
  pub get_var : Vars → Obj → Option Obj
  pub set_var : Vars → Obj → Obj → Option Vars

-- `STREQ`
abbrev pub streq : {Obj Vars : Type 0} → Tcl Obj Vars → Str → Str → Bool
streq tcl s t = first_byte s == first_byte t && tcl.lstr_equal s t

-- The laws that are relied on: an object made from a value gives that value.
pub record IsTcl {Obj Vars : Type 0} (tcl : Tcl Obj Vars) : Type 0 where
  pub list : (os : List Obj) → tcl.to_elements (tcl.from_list os) ≡ some os
  pub string : (s : Str) → tcl.to_string (tcl.from_string s) ≡ s
  pub wide : tcl.to_wide (tcl.from_int 0) ≡ some 0
  pub boolean : (b : Bool) → tcl.to_boolean (tcl.from_boolean b) ≡ some b

pub done-eq : {A : Type 0} (a b : A) → done a ≡ done b → a ≡ b
done-eq a b h = cc

pub failed-ne-done : {A : Type 0} (e : Error) (a : A) → failed e ≡ done a → ⊥
failed-ne-done e a h = cc

pub crashed-ne-done : {A : Type 0} (a : A) → crashed ≡ done a → ⊥
crashed-ne-done a h = cc

pub Result-cases :
    {A : Type 0} (r : Result A)
    → ((a : A) × (r ≡ done a)) ⊎ (((e : Error) × (r ≡ failed e)) ⊎ (r ≡ crashed))
Result-cases (done a) = inl (a, refl)
Result-cases (failed e) = inr (inl (e, refl))
Result-cases crashed = inr (inr refl)
