-- ===== src/Parseargs/NeverCrashes.antt =====
-- `Twapi_ParseargsObjCmd` of twapi/base/parseargs.c as a whole, and null pointers.
use twapi.Base.{
  ◌≡◌, refl, ◌≢◌, inl, inr, Bool, true, none, some, List, [], ◌∷◌, ◌++◌, ◌==◌, Bool-cases,
  Option-cases, if◌then◌else◌, length, replicate,
}
use twapi.Parseargs.Tcl.{first_byte, Tcl, crashed, Result-cases}
use twapi.Parseargs.Descriptor.{OptionDescriptor, set_parseargs_opt}
use twapi.Parseargs.Scan.{
  Arg, operand, terminator, unknown, switch, valued, Switch, nulldefault_switch, maxleftover_switch,
  setvars_switch, ignoreunknown_switch, hyphenated_switch, no_switch, Switches, no_switches,
  switch_of, parse_switches, Scanned, classify, scan, give, pass_on,
}
use twapi.Parseargs.Values.{collect}
use twapi.Parseargs.Command.{finish, parse_argv, parseargs, set_vars, int_below}
use twapi.Parseargs.Safe.{Safe, Safe-ne-crashed, none-ne-some}
use twapi.Parseargs.Guards.{AllGuarded, set_options-AllGuarded, collect-Safe}

module _ {Obj Vars : Type 0} (tcl : Tcl Obj Vars) where
  module _ (opts : List (OptionDescriptor Obj)) (ig : Bool) where
    Scans : List Obj → Type 0
    Scans argv = (st : Scanned Obj) → Safe (scan tcl opts ig argv st)

    last-Scans : (a : Obj) → Scans (a ∷ [])
    unfolding Scans scan
    last-Scans a st = go (classify tcl opts a) refl
      where
        go : (k : Arg) → classify tcl opts a ≡ k → Safe (scan tcl opts ig (a ∷ []) st)
        go operand e = rw (scan, e) tt
        go terminator e = rw (scan, e) tt
        go unknown e = elim (Bool-cases ig) [
          | inl on ↦ rw (scan, e, on) tt
          | inr off ↦ rw (scan, e, off) tt
        ]
        go (switch j) e = rw (scan, e) tt
        go (valued j) e = rw (scan, e) tt

    next-Scans :
        (a b : Obj) (rest : List Obj) → Scans (b ∷ rest) → Scans rest → Scans (a ∷ b ∷ rest)
    unfolding Scans scan
    next-Scans a b rest one two st = go (classify tcl opts a) refl
      where
        go : (k : Arg) → classify tcl opts a ≡ k → Safe (scan tcl opts ig (a ∷ b ∷ rest) st)
        go operand e = rw (scan, e) tt
        go terminator e = rw (scan, e) tt
        go unknown e = elim (Bool-cases ig) [
          | inl on ↦ elim (Bool-cases (first_byte (tcl.to_string b) == 45)) [
            | inl dash ↦ rw (scan, e, on, dash) (one (pass_on a st))
            | inr value ↦ rw (scan, e, on, value) (two (pass_on b (pass_on a st)))
          ]
          | inr off ↦ rw (scan, e, off) tt
        ]
        go (switch j) e = rw (scan, e) (one (give j (tcl.from_boolean true) st))
        go (valued j) e = rw (scan, e) (two (give j b st))

    scan-Scans : (argv : List Obj) → Scans argv
    unfolding Scans scan
    scan-Scans [] st = tt
    scan-Scans (a ∷ []) st = last-Scans a st
    scan-Scans (a ∷ b ∷ rest) st = next-Scans a b rest (scan-Scans (b ∷ rest)) (scan-Scans rest) st

    scan-Safe : (argv : List Obj) (st : Scanned Obj) → Safe (scan tcl opts ig argv st)
    unfolding Scans
    scan-Safe argv st = scan-Scans argv st

  Reads : List Obj → Type 0
  Reads os = (sw : Switches) → Safe (parse_switches tcl os sw)

  last-Reads : (o : Obj) → Reads (o ∷ [])
  unfolding Reads parse_switches
  last-Reads o sw = go (switch_of tcl (tcl.to_string o)) refl
    where
      go :
          (k : Switch) → switch_of tcl (tcl.to_string o) ≡ k → Safe (parse_switches tcl (o ∷ []) sw)
      go nulldefault_switch e = rw (parse_switches, e) tt
      go maxleftover_switch e = rw (parse_switches, e) tt
      go setvars_switch e = rw (parse_switches, e) tt
      go ignoreunknown_switch e = rw (parse_switches, e) tt
      go hyphenated_switch e = rw (parse_switches, e) tt
      go no_switch e = rw (parse_switches, e) tt

  next-Reads : (o n : Obj) (os : List Obj) → Reads (n ∷ os) → Reads os → Reads (o ∷ n ∷ os)
  unfolding Reads parse_switches
  next-Reads o n os one two sw = go (switch_of tcl (tcl.to_string o)) refl
    where
      go :
          (k : Switch)
          → switch_of tcl (tcl.to_string o) ≡ k
          → Safe (parse_switches tcl (o ∷ n ∷ os) sw)
      go nulldefault_switch e = rw (parse_switches, e) (one (record sw { nulldefault = true }))
      go maxleftover_switch e = elim (Option-cases (tcl.to_int n)) [
        | inl e1 ↦ rw (parse_switches, e, e1) tt
        | inr (i, e1) ↦ rw (parse_switches, e, e1) (two (record sw { maxleftover = i }))
      ]
      go setvars_switch e = rw (parse_switches, e) (one (record sw { setvars = true }))
      go ignoreunknown_switch e = rw (parse_switches, e) (one (record sw { ignoreunknown = true }))
      go hyphenated_switch e = rw (parse_switches, e) (one (record sw { hyphenated = true }))
      go no_switch e = rw (parse_switches, e) tt

  switches-Reads : (os : List Obj) → Reads os
  unfolding Reads parse_switches
  switches-Reads [] sw = tt
  switches-Reads (o ∷ []) sw = last-Reads o sw
  switches-Reads (o ∷ n ∷ os) sw =
      next-Reads o n os (switches-Reads (n ∷ os)) (switches-Reads os) sw

  finish-Safe :
      (argv_var : Obj) (sw : Switches) (ret : List (Obj × Obj)) (newargv rest : List Obj)
      (vars : Vars)
      → Safe (finish tcl argv_var sw ret newargv rest vars)
  unfolding finish
  finish-Safe argv_var sw ret newargv rest vars =
      elim (Bool-cases (int_below sw.maxleftover (length rest))) [
        | inl many ↦ rw (finish, many) tt
        | inr few ↦ elim (Option-cases (if sw.setvars then set_vars tcl ret vars else some vars)) [
          | inl e ↦ rw (finish, few, e) tt
          | inr (vars', e) ↦
              elim (Option-cases (tcl.set_var vars' argv_var (tcl.from_list (newargv ++ rest)))) [
                | inl e1 ↦ rw (finish, few, e, e1) tt
                | inr (vars'', e1) ↦ rw (finish, few, e, e1) tt
              ]
        ]
      ]

  parse_argv-Safe :
      (argv_var : Obj) (opts : List (OptionDescriptor Obj)) (sw : Switches) (argv : List Obj)
      (vars : Vars)
      → AllGuarded opts
      → Safe (parse_argv tcl argv_var opts sw argv vars)
  unfolding parse_argv
  parse_argv-Safe argv_var opts sw argv vars g =
      elim (Result-cases (
        scan tcl opts sw.ignoreunknown argv
          (record { values = replicate (length opts) none; newargv = [] }))) [
            | inl ((st, rest), e) ↦ elim (Result-cases (collect tcl sw opts st.values)) [
              | inl (ret, e1) ↦
                  rw (parse_argv, e, e1) (finish-Safe argv_var sw ret st.newargv rest vars)
              | inr (inl (x, e1)) ↦ rw (parse_argv, e, e1) tt
              | inr (inr e1) ↦ absurd (Safe-ne-crashed _ (collect-Safe tcl sw opts st.values g) e1)
            ]
            | inr (inl (x, e)) ↦ rw (parse_argv, e) tt
            | inr (inr e) ↦ absurd (Safe-ne-crashed _ (scan-Safe opts sw.ignoreunknown argv _) e)
          ]

  set_parseargs_opt-AllGuarded :
      (o : Obj) (opts : List (OptionDescriptor Obj))
      → set_parseargs_opt tcl o ≡ some opts
      → AllGuarded opts
  unfolding set_parseargs_opt
  set_parseargs_opt-AllGuarded o opts h = elim (Option-cases (tcl.to_elements o)) [
    | inl e ↦ absurd (none-ne-some opts (rw (set_parseargs_opt, e) at h))
    | inr (os, e) ↦ set_options-AllGuarded tcl os opts (rw (set_parseargs_opt, e) at h)
  ]

  parseargs-Safe :
      (argv_var optlist : Obj) (switches : List Obj) (vars : Vars)
      → Safe (parseargs tcl argv_var optlist switches vars)
  unfolding parseargs Reads
  parseargs-Safe argv_var optlist switches vars =
      elim (Option-cases (set_parseargs_opt tcl optlist)) [
        | inl e ↦ rw (parseargs, e) tt
        | inr (opts, e) ↦ elim (Result-cases (parse_switches tcl switches no_switches)) [
          | inr (inl (x, e1)) ↦ rw (parseargs, e, e1) tt
          | inr (inr e1) ↦ absurd (Safe-ne-crashed _ (switches-Reads switches no_switches) e1)
          | inl (sw, e1) ↦ elim (Option-cases (tcl.get_var vars argv_var)) [
            | inl e2 ↦ rw (parseargs, e, e1, e2) tt
            | inr (o, e2) ↦ elim (Option-cases (tcl.to_elements o)) [
              | inl e3 ↦ rw (parseargs, e, e1, e2, e3) tt
              | inr (argv, e3) ↦
                  rw (parseargs, e, e1, e2, e3)
                    (parse_argv-Safe argv_var opts sw argv vars
                      (set_parseargs_opt-AllGuarded optlist opts e))
            ]
          ]
        ]
      ]

-- Whatever option definitions, switches and arguments it is given, the option parser returns a
-- result or an error: it prints no value through a null pointer.
pub parseargs-ne-crashed :
    {Obj Vars : Type 0} (tcl : Tcl Obj Vars) (argv_var optlist : Obj) (switches : List Obj)
    (vars : Vars)
    → parseargs tcl argv_var optlist switches vars ≢ crashed
parseargs-ne-crashed tcl argv_var optlist switches vars =
    Safe-ne-crashed _ (parseargs-Safe tcl argv_var optlist switches vars)
