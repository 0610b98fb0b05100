-- ===== src/Parseargs/Objects.antt =====
-- Simple Tcl objects, which meet the assumptions on what twapi/base/parseargs.c calls.
use twapi.Base.{
  ℕ, suc, ◌+◌, ◌-◌, ◌%◌, ◌≡◌, refl, ap, Bool, true, false, Option, none, some, List, [], ◌∷◌, take,
  ◌&&◌, ◌==◌, if◌then◌else◌,
}
use twapi.Parseargs.Tcl.{Str, Tcl, IsTcl}

abbrev same_bytes : Str → Str → Bool
same_bytes [] [] = true
same_bytes [] (d ∷ ds) = false
same_bytes (c ∷ cs) [] = false
same_bytes (c ∷ cs) (d ∷ ds) = c == d && same_bytes cs ds

-- A word, a number, a truth value or a list.
mutual
  pub data Obj : Type 0 where
    word : Str → Obj
    number : ℕ → Obj
    truth : Bool → Obj
    sequence : Objs → Obj

  pub data Objs : Type 0 where
    nil : Objs
    cons : Obj → Objs → Objs

unfoldable pub objs : List Obj → Objs
objs [] = nil
objs (o ∷ os) = cons o (objs os)

unfoldable pub list_of : Objs → List Obj
list_of nil = []
list_of (cons o os) = o ∷ list_of os

list_of-objs : (os : List Obj) → list_of (objs os) ≡ os
unfolding list_of objs
list_of-objs [] = refl
list_of-objs (o ∷ os) = ap (λ xs. o ∷ xs) (list_of-objs os)

-- Numbers have one digit here.
abbrev text : Obj → Str
text (word s) = s
text (number n) = (48 + n % 10) ∷ []
text (truth true) = 49 ∷ []
text (truth false) = 48 ∷ []
text (sequence os) = []

unfoldable pub elements : Obj → Option (List Obj)
unfolding list_of
elements (word s) = some (word s ∷ [])
elements (number n) = some (number n ∷ [])
elements (truth b) = some (truth b ∷ [])
elements (sequence os) = some (list_of os)

abbrev digit : Str → Option ℕ
digit [] = none
digit (c ∷ []) = if c == 48 + (c - 48) % 10 then some (c - 48) else none
digit (c ∷ d ∷ s) = none

abbrev wide : Obj → Option ℕ
wide (word s) = digit s
wide (number n) = some n
wide (truth b) = none
wide (sequence os) = none

abbrev boolean : Obj → Option Bool
boolean (word s) = none
boolean (number n) = some (if n == 0 then false else true)
boolean (truth b) = some b
boolean (sequence os) = none

unfoldable pub position : ℕ → Str → ℕ → Option ℕ
position k [] c = none
position k (d ∷ s) c = let rest = position (suc k) s c in if d == c then some k else rest

-- The interpreter has one variable.
abbrev pub objects : Tcl Obj Obj
objects = record {
  to_string = text;
  to_elements = elements;
  to_wide = wide;
  to_int = wide;
  to_boolean = boolean;
  dict_get = λ d k. some none;
  from_boolean = truth;
  from_int = number;
  from_string = word;
  from_list = λ os. sequence (objs os);
  utf_find_first = position 0;
  utf_equal = λ s t n. same_bytes (take n s) (take n t);
  lstr_equal = same_bytes;
  get_var = λ vars name. some vars;
  set_var = λ vars name value. some value;
}

pub objects-IsTcl : IsTcl objects
unfolding elements
objects-IsTcl = record {
  list = λ os. ap some (list_of-objs os);
  string = λ s. refl;
  wide = refl;
  boolean = λ b. refl;
}
