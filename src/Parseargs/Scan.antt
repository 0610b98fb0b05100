-- ===== src/Parseargs/Scan.antt =====
-- The loops of `Twapi_ParseargsObjCmd` of twapi/base/parseargs.c over its own switches and over the
-- arguments: which option each argument belongs to, and which arguments are left.
use twapi.Base.{
  ℕ, zero, suc, ◌-◌, ◌^◌, Bool, true, false, not, ◌&&◌, Option, none, some, List, [], ◌∷◌, ◌++◌,
  length, drop, ◌==◌, if◌then◌else◌,
}
use twapi.Parseargs.Tcl.{
  first_byte, Str, streq, extra_argument, missing_maxleftover, bad_maxleftover, missing_value,
  unknown_option, Result, done, failed, Tcl,
}
use twapi.Parseargs.Descriptor.{
  OptType, opt_switch, opt_any, opt_bool, opt_int, opt_sym, OptionDescriptor,
}

-- The command's switches. `maxleftover` is given by the 32 bits of the `int`.
pub record Switches : Type 0 where
  pub nulldefault : Bool
  pub maxleftover : ℕ
  pub setvars : Bool
  pub ignoreunknown : Bool
  pub hyphenated : Bool

abbrev pub no_switches : Switches
no_switches = record {
  nulldefault = false;
  maxleftover = 2 ^ 31 - 1;
  setvars = false;
  ignoreunknown = false;
  hyphenated = false;
}

-- `-nulldefault`, `-maxleftover`, `-setvars`, `-ignoreunknown` and `-hyphenated`.
pub data Switch : Type 0 where
  nulldefault_switch maxleftover_switch setvars_switch ignoreunknown_switch hyphenated_switch
        no_switch :
      Switch

-- What an argument is taken for. The option's place in the list is counted from 0.
pub data Arg : Type 0 where
  operand terminator unknown : Arg
  switch valued : ℕ → Arg

-- The values given to the options, and the arguments that are passed on.
pub record Scanned (Obj : Type 0) : Type 0 where
  pub values : List (Option Obj)
  pub newargv : List Obj

abbrev pub set_at {ℓ} : {A : Type ℓ} → ℕ → A → List A → List A
set_at k v [] = []
set_at zero v (x ∷ xs) = v ∷ xs
set_at (suc k) v (x ∷ xs) = x ∷ set_at k v xs

abbrev pub give : {Obj : Type 0} → ℕ → Obj → Scanned Obj → Scanned Obj
give k v st = record st { values = set_at k (some v) st.values }

abbrev pub pass_on : {Obj : Type 0} → Obj → Scanned Obj → Scanned Obj
pass_on a st = record st { newargv = st.newargv ++ a ∷ [] }

unfoldable pub is_switch : OptType → Bool
is_switch opt_switch = true
is_switch opt_any = false
is_switch opt_bool = false
is_switch opt_int = false
is_switch opt_sym = false

-- `"-"`, `"--"`, and arguments that do not begin with a hyphen, end the options.
unfoldable pub is_hyphens : Str → Bool
is_hyphens [] = false
is_hyphens (_ ∷ []) = true
is_hyphens (_ ∷ d ∷ []) = d == 45
is_hyphens (_ ∷ _ ∷ _ ∷ _) = false

module _ {Obj Vars : Type 0} (tcl : Tcl Obj Vars) where
  unfoldable pub switch_of : Str → Switch
  switch_of s =
      if streq tcl s (45 ∷ 110 ∷ 117 ∷ 108 ∷ 108 ∷ 100 ∷ 101 ∷ 102 ∷ 97 ∷ 117 ∷ 108 ∷ 116 ∷ [])
      then nulldefault_switch
      else if streq tcl s (45 ∷ 109 ∷ 97 ∷ 120 ∷ 108 ∷ 101 ∷ 102 ∷ 116 ∷ 111 ∷ 118 ∷ 101 ∷ 114 ∷ [])
      then maxleftover_switch
      else if streq tcl s (45 ∷ 115 ∷ 101 ∷ 116 ∷ 118 ∷ 97 ∷ 114 ∷ 115 ∷ [])
      then setvars_switch
      else if streq tcl s
          (45 ∷ 105 ∷ 103 ∷ 110 ∷ 111 ∷ 114 ∷ 101 ∷ 117 ∷ 110 ∷ 107 ∷ 110 ∷ 111 ∷ 119 ∷ 110 ∷ [])
      then ignoreunknown_switch
      else if streq tcl s (45 ∷ 104 ∷ 121 ∷ 112 ∷ 104 ∷ 101 ∷ 110 ∷ 97 ∷ 116 ∷ 101 ∷ 100 ∷ [])
      then hyphenated_switch
      else no_switch

  unfoldable pub parse_switches : List Obj → Switches → Result Switches
  unfolding switch_of
  parse_switches [] sw = done sw
  parse_switches (o ∷ []) sw = elim (switch_of (tcl.to_string o)) [
    | nulldefault_switch ↦ done (record sw { nulldefault = true })
    | maxleftover_switch ↦ failed missing_maxleftover
    | setvars_switch ↦ done (record sw { setvars = true })
    | ignoreunknown_switch ↦ done (record sw { ignoreunknown = true })
    | hyphenated_switch ↦ done (record sw { hyphenated = true })
    | no_switch ↦ failed extra_argument
  ]
  parse_switches (o ∷ n ∷ os) sw = elim (switch_of (tcl.to_string o)) [
    | nulldefault_switch ↦ parse_switches (n ∷ os) (record sw { nulldefault = true })
    | maxleftover_switch ↦ elim (tcl.to_int n) [
      | none ↦ failed bad_maxleftover
      | some i ↦ parse_switches os (record sw { maxleftover = i })
    ]
    | setvars_switch ↦ parse_switches (n ∷ os) (record sw { setvars = true })
    | ignoreunknown_switch ↦ parse_switches (n ∷ os) (record sw { ignoreunknown = true })
    | hyphenated_switch ↦ parse_switches (n ∷ os) (record sw { hyphenated = true })
    | no_switch ↦ failed extra_argument
  ]

  -- The option's name is the argument less its hyphen.
  unfoldable pub is_option : Str → OptionDescriptor Obj → Bool
  is_option argp d =
      d.name_len == length argp - 1
      && (d.first == first_byte (drop 1 argp)
          && tcl.utf_equal (tcl.to_string d.name) (drop 1 argp) (length argp - 1))

  -- The first option of that name, if any.
  unfoldable pub find_option : ℕ → Str → List (OptionDescriptor Obj) → Arg
  unfolding is_option is_switch
  find_option j argp [] = unknown
  find_option j argp (d ∷ ds) =
      let rest = find_option (suc j) argp ds in
      if is_option argp d then (if is_switch d.type then switch j else valued j) else rest

  unfoldable pub classify : List (OptionDescriptor Obj) → Obj → Arg
  unfolding find_option is_hyphens
  classify opts a =
      let argp = tcl.to_string a in
      if not (first_byte argp == 45)
      then operand
      else if is_hyphens argp
      then terminator
      else find_option 0 argp opts

  -- The loop: what was found, and the arguments behind the options.
  unfoldable pub scan :
      List (OptionDescriptor Obj) → Bool → List Obj → Scanned Obj → Result (Scanned Obj × List Obj)
  unfolding classify
  scan opts ignoreunknown [] st = done (st, [])
  scan opts ignoreunknown (a ∷ []) st = elim (classify opts a) [
    | operand ↦ done (st, a ∷ [])
    | terminator ↦ done (st, [])
    | unknown ↦ if ignoreunknown then done (pass_on a st, []) else failed unknown_option
    | switch j ↦ done (give j (tcl.from_boolean true) st, [])
    | valued j ↦ failed missing_value
  ]
  scan opts ignoreunknown (a ∷ b ∷ rest) st = elim (classify opts a) [
    | operand ↦ done (st, a ∷ b ∷ rest)
    | terminator ↦ done (st, b ∷ rest)
    | unknown ↦ elim ignoreunknown [
      | false ↦ failed unknown_option
      | true ↦ elim (first_byte (tcl.to_string b) == 45) [
        | true ↦ scan opts ignoreunknown (b ∷ rest) (pass_on a st)
        | false ↦ scan opts ignoreunknown rest (pass_on b (pass_on a st))
      ]
    ]
    | switch j ↦ scan opts ignoreunknown (b ∷ rest) (give j (tcl.from_boolean true) st)
    | valued j ↦ scan opts ignoreunknown rest (give j b st)
  ]
