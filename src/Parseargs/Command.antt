-- ===== src/Parseargs/Command.antt =====
-- `Twapi_ParseargsObjCmd` of twapi/base/parseargs.c as a whole. Its temporary memory, the reference
-- counts of the objects and the wording of the errors are not modelled.
use twapi.Base.{
  ℕ, ◌^◌, ◌+◌, ◌%◌, Bool, Option, none, some, List, [], ◌∷◌, ◌++◌, length, ltb, if◌then◌else◌,
  replicate,
}
use twapi.Parseargs.Tcl.{
  not_a_list, bad_descriptor, no_variable, extra_arguments, set_variable, Result, done, failed,
  crashed, Tcl,
}
use twapi.Parseargs.Descriptor.{OptionDescriptor, set_parseargs_opt}
use twapi.Parseargs.Scan.{Switches, no_switches, parse_switches, scan}
use twapi.Parseargs.Values.{collect}

-- The command's result, the new value of the argument variable, and the variables.
pub record Parsed (Obj Vars : Type 0) : Type 0 where
  pub result : List (Obj × Obj)
  pub leftover : List Obj
  pub vars : Vars

-- `(int) a < (int) b`
abbrev pub int_below : ℕ → ℕ → Bool
int_below a b = ltb ((a + 2 ^ 31) % 2 ^ 32) ((b + 2 ^ 31) % 2 ^ 32)

module _ {Obj Vars : Type 0} (tcl : Tcl Obj Vars) where
  unfoldable pub set_vars : List (Obj × Obj) → Vars → Option Vars
  set_vars [] vs = some vs
  set_vars ((n, v) ∷ xs) vs = elim (tcl.set_var vs n v) [ none ↦ none | some vs' ↦ set_vars xs vs' ]

  -- From the values on: the number of arguments left, the variables and the result.
  unfoldable pub finish :
      Obj → Switches → List (Obj × Obj) → List Obj → List Obj → Vars → Result (Parsed Obj Vars)
  unfolding set_vars
  finish argv_var sw ret newargv rest vars =
      if int_below sw.maxleftover (length rest)
      then failed extra_arguments
      else elim (if sw.setvars then set_vars ret vars else some vars) [
        | none ↦ failed set_variable
        | some vars' ↦ elim (tcl.set_var vars' argv_var (tcl.from_list (newargv ++ rest))) [
          | none ↦ failed set_variable
          | some vars'' ↦ done (record {
            result = if sw.setvars then [] else ret;
            leftover = newargv ++ rest;
            vars = vars'';
          })
        ]
      ]

  -- The arguments of one variable, for options and switches that were read.
  unfoldable pub parse_argv :
      Obj → List (OptionDescriptor Obj) → Switches → List Obj → Vars → Result (Parsed Obj Vars)
  unfolding finish
  parse_argv argv_var opts sw argv vars =
      elim (scan tcl opts sw.ignoreunknown argv
        (record { values = replicate (length opts) none; newargv = [] })) [
          | failed e ↦ failed e
          | crashed ↦ crashed
          | done (st, rest) ↦ elim (collect tcl sw opts st.values) [
            | failed e ↦ failed e
            | crashed ↦ crashed
            | done ret ↦ finish argv_var sw ret st.newargv rest vars
          ]
        ]

  -- `argvVar optlist switches`
  unfoldable pub parseargs : Obj → Obj → List Obj → Vars → Result (Parsed Obj Vars)
  unfolding parse_argv
  parseargs argv_var optlist switches vars = elim (set_parseargs_opt tcl optlist) [
    | none ↦ failed bad_descriptor
    | some opts ↦ elim (parse_switches tcl switches no_switches) [
      | failed e ↦ failed e
      | crashed ↦ crashed
      | done sw ↦ elim (tcl.get_var vars argv_var) [
        | none ↦ failed no_variable
        | some o ↦ elim (tcl.to_elements o) [
          | none ↦ failed not_a_list
          | some argv ↦ parse_argv argv_var opts sw argv vars
        ]
      ]
    ]
  ]
