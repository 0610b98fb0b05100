-- ===== src/Parseargs/Values.antt =====
-- The loop of `Twapi_ParseargsObjCmd` of twapi/base/parseargs.c over the option definitions: defaults,
-- and the checks on the values.
use twapi.Base.{
  ℕ, Bool, true, false, Option, none, some, List, [], ◌∷◌, ◌++◌, take, ◌==◌, if◌then◌else◌,
}
use twapi.Parseargs.Tcl.{
  Str, not_a_list, bad_value, bad_dictionary, Result, done, failed, crashed, Tcl,
}
use twapi.Parseargs.Descriptor.{opt_any, opt_bool, opt_int, opt_switch, opt_sym, OptionDescriptor}
use twapi.Parseargs.Scan.{Switches, is_switch}

-- What is known of an option's value before its type is checked.
pub data Given (Obj : Type 0) : Type 0 where
  skipped : Given Obj
  given : Option Obj → Given Obj

module _ {Obj Vars : Type 0} (tcl : Tcl Obj Vars) where
  -- `TwapiParseargsSetResultBadValue` prints the value: a null pointer is dereferenced.
  unfoldable pub refuse : {A : Type 0} → Option Obj → Result A
  refuse none = crashed
  refuse (some _) = failed bad_value

  -- The default, unless a value was given. An option without either is skipped.
  unfoldable pub default_value : Bool → OptionDescriptor Obj → Option Obj → Given Obj
  unfolding is_switch
  default_value nulldefault d v = if is_switch d.type then given v else elim v [
    | some o ↦ given (some o)
    | none ↦ elim d.def_value [
      | some def ↦ given (some def)
      | none ↦ if nulldefault then given none else skipped
    ]
  ]

  -- Is the number among the allowed ones? The list is read up to the first that fits.
  unfoldable pub find_wide : ℕ → List Obj → Result Bool
  find_wide w [] = done false
  find_wide w (o ∷ os) =
      let rest = find_wide w os in
      elim (tcl.to_wide o) [ none ↦ failed bad_value | some x ↦ if x == w then done true else rest ]

  unfoldable pub find_string : Str → List Obj → Bool
  find_string s [] = false
  find_string s (o ∷ os) =
      let rest = find_string s os in if tcl.lstr_equal (tcl.to_string o) s then true else rest

  -- The validity list of a number. The value is what a refusal prints.
  unfoldable pub check_wide : OptionDescriptor Obj → Option Obj → ℕ → Result (Unit {0})
  unfolding find_wide refuse
  check_wide d v w = elim d.valid_values [
    | none ↦ done tt
    | some l ↦ elim (tcl.to_elements l) [
      | none ↦ failed not_a_list
      | some os ↦ elim (find_wide w os) [
        | done found ↦ if found then done tt else refuse v
        | failed e ↦ failed e
        | crashed ↦ crashed
      ]
    ]
  ]

  unfoldable pub check_string : OptionDescriptor Obj → Option Obj → Str → Result (Unit {0})
  unfolding find_string refuse
  check_string d v s = elim d.valid_values [
    | none ↦ done tt
    | some l ↦ elim (tcl.to_elements l) [
      | none ↦ failed not_a_list
      | some os ↦ if find_string s os then done tt else refuse v
    ]
  ]

  -- The value's number; none is 0.
  unfoldable pub wide_of : Option Obj → Result ℕ
  wide_of none = done 0
  wide_of (some o) = elim (tcl.to_wide o) [ none ↦ failed bad_value | some w ↦ done w ]

  unfoldable pub or_else : Option Obj → Obj → Obj
  or_else none o = o
  or_else (some v) o = v

  unfoldable pub int_value : OptionDescriptor Obj → Option Obj → Result Obj
  unfolding wide_of check_wide or_else
  int_value d v = elim (wide_of v) [
    | failed e ↦ failed e
    | crashed ↦ crashed
    | done w ↦ elim (check_wide d v w) [
      | done _ ↦ done (or_else v (tcl.from_int 0))
      | failed e ↦ failed e
      | crashed ↦ crashed
    ]
  ]

  unfoldable pub string_of : Option Obj → Str
  string_of none = []
  string_of (some o) = tcl.to_string o

  unfoldable pub any_value : OptionDescriptor Obj → Option Obj → Result Obj
  unfolding check_string or_else string_of
  any_value d v = elim (check_string d v (string_of v)) [
    | done _ ↦ done (or_else v (tcl.from_string []))
    | failed e ↦ failed e
    | crashed ↦ crashed
  ]

  -- The value that a symbol stands for, if the dictionary has it.
  unfoldable pub symbol_value : OptionDescriptor Obj → Obj → Result Obj
  symbol_value d o = elim d.valid_values [
    | none ↦ done o
    | some dict ↦ elim (tcl.dict_get dict o) [
      | none ↦ failed bad_dictionary
      | some none ↦ done o
      | some (some x) ↦ done x
    ]
  ]

  unfoldable pub sym_value : OptionDescriptor Obj → Option Obj → Result Obj
  unfolding symbol_value
  sym_value d none = done (tcl.from_int 0)
  sym_value d (some o) = elim (symbol_value d o) [
    | done x ↦ elim (tcl.to_wide x) [ none ↦ failed bad_value | some w ↦ done x ]
    | failed e ↦ failed e
    | crashed ↦ crashed
  ]

  -- What a true value becomes: the validity list, if there is one.
  unfoldable pub true_value : OptionDescriptor Obj → Bool → Obj
  true_value d j = elim d.valid_values [
    | none ↦ tcl.from_boolean j
    | some l ↦ if j then l else tcl.from_boolean j
  ]

  unfoldable pub bool_value : OptionDescriptor Obj → Option Obj → Result Obj
  unfolding true_value
  bool_value d none = done (tcl.from_boolean false)
  bool_value d (some o) = elim (tcl.to_boolean o) [
    | none ↦ failed bad_value
    | some j ↦ done (true_value d j)
  ]

  -- The checks by type.
  unfoldable pub check_value : OptionDescriptor Obj → Option Obj → Result Obj
  unfolding int_value any_value sym_value bool_value
  check_value d v = elim d.type [
    | opt_int ↦ int_value d v
    | opt_any ↦ any_value d v
    | opt_sym ↦ sym_value d v
    | opt_switch ↦ bool_value d v
    | opt_bool ↦ bool_value d v
  ]

  -- The name under which a value is returned, without its type.
  unfoldable pub result_name : Bool → OptionDescriptor Obj → Obj
  result_name hyphenated d =
      if hyphenated
      then tcl.from_string (45 ∷ take d.name_len (tcl.to_string d.name))
      else tcl.from_string (take d.name_len (tcl.to_string d.name))

  unfoldable pub collect_value :
      Switches → OptionDescriptor Obj → Option Obj → Result (List (Obj × Obj))
  unfolding default_value check_value result_name
  collect_value sw d v = elim (default_value sw.nulldefault d v) [
    | skipped ↦ done []
    | given o ↦ elim (check_value d o) [
      | done x ↦ done ((result_name sw.hyphenated d, x) ∷ [])
      | failed e ↦ failed e
      | crashed ↦ crashed
    ]
  ]

  -- The names and the values that are returned, in the order of the definitions. There are as many
  -- values as options.
  unfoldable pub collect :
      Switches → List (OptionDescriptor Obj) → List (Option Obj) → Result (List (Obj × Obj))
  unfolding collect_value
  collect sw [] vs = done []
  collect sw (d ∷ ds) [] = done []
  collect sw (d ∷ ds) (v ∷ vs) =
      let rest = collect sw ds vs in
      elim (collect_value sw d v) [
        | failed e ↦ failed e
        | crashed ↦ crashed
        | done xs ↦ elim rest [
          | failed e ↦ failed e
          | crashed ↦ crashed
          | done ys ↦ done (xs ++ ys)
        ]
      ]
