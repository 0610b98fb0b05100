-- ===== src/Parseargs/Leaves.antt =====
-- Which arguments the loop of `Twapi_ParseargsObjCmd` of twapi/base/parseargs.c leaves, by rules.
use twapi.Base.{
  ℕ, ◌≡◌, ◌≢◌, refl, ◌∙◌, Bool, true, false, List, [], ◌∷◌, ◌++◌, arith, ◌==◌, append_assoc,
}
use twapi.Parseargs.Tcl.{first_byte, Tcl, done}
use twapi.Parseargs.Descriptor.{OptionDescriptor}
use twapi.Parseargs.Scan.{
  operand, terminator, unknown, switch, valued, Scanned, give, pass_on, classify, scan,
}

-- The second list is what is left of the first. From the first operand on, everything is left; so is
-- everything behind a hyphen or two, which are not. A known option is taken, with its value if it has
-- one. An unknown option is left if it is to be ignored, and with it the next argument, unless that
-- begins with a hyphen. No rule is for an unknown option that is not ignored, or for an option that
-- lacks its value.
pub data Leaves {Obj Vars : Type 0} (tcl : Tcl Obj Vars) (opts : List (OptionDescriptor Obj))
    (ig : Bool) : List Obj → List Obj → Type 0 where
  at_end : Leaves tcl opts ig [] []
  at_operand :
      (a : Obj) (rest : List Obj)
      → classify tcl opts a ≡ operand
      → Leaves tcl opts ig (a ∷ rest) (a ∷ rest)
  at_terminator :
      (a : Obj) (rest : List Obj)
      → classify tcl opts a ≡ terminator
      → Leaves tcl opts ig (a ∷ rest) rest
  ignored_last :
      (a : Obj) → ig ≡ true → classify tcl opts a ≡ unknown → Leaves tcl opts ig (a ∷ []) (a ∷ [])
  ignored_option :
      (a b : Obj) (rest out : List Obj)
      → ig ≡ true
      → classify tcl opts a ≡ unknown
      → first_byte (tcl.to_string b) ≡ 45
      → Leaves tcl opts ig (b ∷ rest) out
      → Leaves tcl opts ig (a ∷ b ∷ rest) (a ∷ out)
  ignored_with_value :
      (a b : Obj) (rest out : List Obj)
      → ig ≡ true
      → classify tcl opts a ≡ unknown
      → first_byte (tcl.to_string b) ≢ 45
      → Leaves tcl opts ig rest out
      → Leaves tcl opts ig (a ∷ b ∷ rest) (a ∷ b ∷ out)
  taken_switch :
      (a : Obj) (rest out : List Obj) (j : ℕ)
      → classify tcl opts a ≡ switch j
      → Leaves tcl opts ig rest out
      → Leaves tcl opts ig (a ∷ rest) out
  taken_value :
      (a b : Obj) (rest out : List Obj) (j : ℕ)
      → classify tcl opts a ≡ valued j
      → Leaves tcl opts ig rest out
      → Leaves tcl opts ig (a ∷ b ∷ rest) out

module _ {Obj Vars : Type 0} (tcl : Tcl Obj Vars) (opts : List (OptionDescriptor Obj))
    (ig : Bool) where
  -- The loop ends with what the rules leave, behind what it had passed on before.
  unfoldable pub Scans : List Obj → Scanned Obj → List Obj → Type 0
  Scans argv st out =
      (r : Scanned Obj × List Obj) × (scan tcl opts ig argv st ≡ done r)
      × (r.0.newargv ++ r.1 ≡ st.newargv ++ out)

  operand-Scans :
      (a : Obj) (rest : List Obj) (st : Scanned Obj)
      → classify tcl opts a ≡ operand
      → Scans (a ∷ rest) st (a ∷ rest)
  unfolding Scans scan
  operand-Scans a [] st e = ((st, a ∷ []), rw (scan, e) refl, refl)
  operand-Scans a (b ∷ rest) st e = ((st, a ∷ b ∷ rest), rw (scan, e) refl, refl)

  terminator-Scans :
      (a : Obj) (rest : List Obj) (st : Scanned Obj)
      → classify tcl opts a ≡ terminator
      → Scans (a ∷ rest) st rest
  unfolding Scans scan
  terminator-Scans a [] st e = ((st, []), rw (scan, e) refl, refl)
  terminator-Scans a (b ∷ rest) st e = ((st, b ∷ rest), rw (scan, e) refl, refl)

  switch-Scans :
      (a : Obj) (rest out : List Obj) (j : ℕ) (st : Scanned Obj)
      → classify tcl opts a ≡ switch j
      → Scans rest (give j (tcl.from_boolean true) st) out
      → Scans (a ∷ rest) st out
  unfolding Scans scan
  switch-Scans a [] out j st e (r, h, q) = (r, rw (scan, e) h, q)
  switch-Scans a (b ∷ rest) out j st e (r, h, q) = (r, rw (scan, e) h, q)

  pub Leaves-Scans :
      {argv out : List Obj} → Leaves tcl opts ig argv out → (st : Scanned Obj) → Scans argv st out
  unfolding Scans scan
  Leaves-Scans at_end st = ((st, []), refl, refl)
  Leaves-Scans (at_operand a rest e) st = operand-Scans a rest st e
  Leaves-Scans (at_terminator a rest e) st = terminator-Scans a rest st e
  Leaves-Scans (ignored_last a on e) st =
      ((pass_on a st, []), rw (scan, e, on) refl, append_assoc st.newargv (a ∷ []) [])
  Leaves-Scans (ignored_option a b rest out on e hyphen l) st =
      let (r, h, q) = Leaves-Scans l (pass_on a st) in
      let dash : (first_byte (tcl.to_string b) == 45) ≡ true = ground arith in
      (r, rw (scan, e, on, dash) h, q ∙ append_assoc st.newargv (a ∷ []) out)
  Leaves-Scans (ignored_with_value a b rest out on e value l) st =
      let (r, h, q) = Leaves-Scans l (pass_on b (pass_on a st)) in
      let no_dash : (first_byte (tcl.to_string b) == 45) ≡ false = ground arith in
      (
        r,
        rw (scan, e, on, no_dash) h,
        q
            ∙ append_assoc (st.newargv ++ a ∷ []) (b ∷ []) out
            ∙ append_assoc st.newargv (a ∷ []) (b ∷ out),
      )
  Leaves-Scans (taken_switch a rest out j e l) st =
      switch-Scans a rest out j st e (Leaves-Scans l (give j (tcl.from_boolean true) st))
  Leaves-Scans (taken_value a b rest out j e l) st =
      let (r, h, q) = Leaves-Scans l (give j b st) in (r, rw (scan, e) h, q)
