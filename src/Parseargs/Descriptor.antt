-- ===== src/Parseargs/Descriptor.antt =====
-- `OptionDescriptor`, `SetParseargsOptFromAny` and `UpdateStringParseargsOpt` of
-- twapi/base/parseargs.c: a list of option definitions, and the list it is printed as.
use twapi.Base.{
  ℕ, ◌+◌, ◌%◌, ◌^◌, Bool, true, false, not, ◌&&◌, Option, none, some, List, [], ◌∷◌, map, length,
  drop, ◌==◌, if◌then◌else◌,
}
use twapi.Parseargs.Tcl.{Str, first_byte, streq, Tcl}

pub data OptType : Type 0 where
  opt_any opt_bool opt_int opt_switch opt_sym : OptType

pub record OptionDescriptor (Obj : Type 0) : Type 0 where
  pub name : Obj
  pub def_value : Option Obj
  pub valid_values : Option Obj
  pub name_len : ℕ
  pub type : OptType
  pub first : ℕ

unfoldable pub is_sym : OptType → Bool
is_sym opt_sym = true
is_sym opt_any = false
is_sym opt_bool = false
is_sym opt_int = false
is_sym opt_switch = false

module _ {Obj Vars : Type 0} (tcl : Tcl Obj Vars) where
  -- The words `int`, `arg`, `bool`, `switch` and `sym`.
  unfoldable pub type_of : Str → Option OptType
  type_of s =
      if streq tcl s (105 ∷ 110 ∷ 116 ∷ [])
      then some opt_int
      else if streq tcl s (97 ∷ 114 ∷ 103 ∷ [])
      then some opt_any
      else if streq tcl s (98 ∷ 111 ∷ 111 ∷ 108 ∷ [])
      then some opt_bool
      else if streq tcl s (115 ∷ 119 ∷ 105 ∷ 116 ∷ 99 ∷ 104 ∷ [])
      then some opt_switch
      else if streq tcl s (115 ∷ 121 ∷ 109 ∷ [])
      then some opt_sym
      else none

  -- The length of the name, an `unsigned short`, and the type that stands behind a dot.
  unfoldable pub name_and_type : Str → Option (ℕ × OptType)
  unfolding type_of
  name_and_type p = elim (tcl.utf_find_first p 46) [
    | none ↦ some (length p % 2 ^ 16, opt_switch)
    | some k ↦
        if k == 0
        then none
        else elim (type_of (drop (k + 1) p)) [ none ↦ none | some t ↦ some (k % 2 ^ 16, t) ]
  ]

  -- The validity list: not empty, and of even length for a dictionary.
  unfoldable pub is_valid_list : OptType → List Obj → Bool
  unfolding is_sym
  is_valid_list t os = not (length os == 0) && not (is_sym t && length os % 2 == 1)

  -- The elements behind the name: the default value and the validity list, if any.
  unfoldable pub set_values : OptionDescriptor Obj → List Obj → Option (OptionDescriptor Obj)
  unfolding is_valid_list
  set_values d [] = some d
  set_values d (def ∷ []) = some (record d { def_value = some def })
  set_values d (def ∷ valid ∷ _) = elim (tcl.to_elements valid) [
    | none ↦ none
    | some os ↦
        if is_valid_list d.type os
        then some (record d { def_value = some def; valid_values = some valid })
        else none
  ]

  unfoldable pub named : Obj → ℕ → OptType → OptionDescriptor Obj
  named name len t = record {
    name = name;
    def_value = none;
    valid_values = none;
    name_len = len;
    type = t;
    first = first_byte (tcl.to_string name);
  }

  -- One turn of the loop, on the elements of an option definition.
  unfoldable pub set_option : List Obj → Option (OptionDescriptor Obj)
  unfolding name_and_type set_values named
  set_option [] = none
  set_option (name ∷ rest) = elim (name_and_type (tcl.to_string name)) [
    | none ↦ none
    | some (len, t) ↦ set_values (named name len t) rest
  ]

  unfoldable pub set_options : List Obj → Option (List (OptionDescriptor Obj))
  unfolding set_option
  set_options [] = some []
  set_options (o ∷ os) =
      let rest = set_options os in
      elim (tcl.to_elements o) [
        | none ↦ none
        | some elems ↦ elim (set_option elems) [
          | none ↦ none
          | some d ↦ elim rest [ none ↦ none | some ds ↦ some (d ∷ ds) ]
        ]
      ]

  unfoldable pub set_parseargs_opt : Obj → Option (List (OptionDescriptor Obj))
  unfolding set_options
  set_parseargs_opt o = elim (tcl.to_elements o) [ none ↦ none | some os ↦ set_options os ]

  -- The elements that an option definition is printed as.
  unfoldable pub describe : OptionDescriptor Obj → List Obj
  describe d = d.name ∷ elim d.def_value [
    | none ↦ []
    | some def ↦ def ∷ elim d.valid_values [ none ↦ [] | some valid ↦ valid ∷ [] ]
  ]

  unfoldable pub update_string : List (OptionDescriptor Obj) → Obj
  unfolding describe
  update_string ds = tcl.from_list (map (λ d. tcl.from_list (describe d)) ds)
