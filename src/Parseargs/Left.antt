-- ===== src/Parseargs/Left.antt =====
-- The arguments that `Twapi_ParseargsObjCmd` of twapi/base/parseargs.c leaves are those that the rules
-- leave.
use twapi.Base.{
  ◌≡◌, ◌↔◌, refl, sym, subst, ◌∙◌, inl, inr, Bool, true, none, List, [], ◌∷◌, ◌++◌, arith, length,
  ◌==◌, Bool-cases, replicate, append_assoc,
}
use twapi.Parseargs.Tcl.{first_byte, Tcl, Result, done, failed, crashed, done-eq, failed-ne-done}
use twapi.Parseargs.Descriptor.{OptionDescriptor}
use twapi.Parseargs.Scan.{
  Arg, operand, terminator, unknown, switch, valued, Switches, Scanned, give, pass_on, classify,
  scan,
}
use twapi.Parseargs.Command.{Parsed, parse_argv}
use twapi.Parseargs.Leftovers.{Stored, parse_argv-Found}
use twapi.Parseargs.Leaves.{
  Leaves, at_end, at_operand, at_terminator, ignored_last, ignored_option, ignored_with_value,
  taken_switch, taken_value, Scans, Leaves-Scans,
}

module _ {Obj Vars : Type 0} (tcl : Tcl Obj Vars) (opts : List (OptionDescriptor Obj))
    (ig : Bool) where
  -- What a loop that ends well leaves, the rules leave.
  IsLeft : List Obj → List Obj → Scanned Obj × List Obj → Type 0
  IsLeft before argv r =
      (out : List Obj) × Leaves tcl opts ig argv out × (r.0.newargv ++ r.1 ≡ before ++ out)

  AllLeft : List Obj → Type 0
  AllLeft argv =
      (st : Scanned Obj) (r : Scanned Obj × List Obj)
      → scan tcl opts ig argv st ≡ done r
      → IsLeft st.newargv argv r

  last-AllLeft : (a : Obj) → AllLeft (a ∷ [])
  unfolding AllLeft IsLeft scan
  last-AllLeft a st r h = go (classify tcl opts a) refl
    where
      ends :
          (x : Scanned Obj × List Obj)
          → done x ≡ done r
          → IsLeft st.newargv (a ∷ []) x
          → IsLeft st.newargv (a ∷ []) r
      ends x e k = subst (IsLeft st.newargv (a ∷ [])) (done-eq x r e) k

      go : (k : Arg) → classify tcl opts a ≡ k → IsLeft st.newargv (a ∷ []) r
      go operand e = ends _ (rw (scan, e) at h) (a ∷ [], at_operand a [] e, refl)
      go terminator e = ends _ (rw (scan, e) at h) ([], at_terminator a [] e, refl)
      go unknown e = elim (Bool-cases ig) [
        | inl on ↦
            ends _ (rw (scan, e, on) at h)
              (a ∷ [], ignored_last a on e, append_assoc st.newargv (a ∷ []) [])
        | inr off ↦ absurd (failed-ne-done _ r (rw (scan, e, off) at h))
      ]
      go (switch j) e = ends _ (rw (scan, e) at h) ([], taken_switch a [] [] j e at_end, refl)
      go (valued j) e = absurd (failed-ne-done _ r (rw (scan, e) at h))

  next-AllLeft :
      (a b : Obj) (rest : List Obj) → AllLeft (b ∷ rest) → AllLeft rest → AllLeft (a ∷ b ∷ rest)
  unfolding AllLeft IsLeft scan
  next-AllLeft a b rest one two st r h = go (classify tcl opts a) refl
    where
      ends :
          (x : Scanned Obj × List Obj)
          → done x ≡ done r
          → IsLeft st.newargv (a ∷ b ∷ rest) x
          → IsLeft st.newargv (a ∷ b ∷ rest) r
      ends x e k = subst (IsLeft st.newargv (a ∷ b ∷ rest)) (done-eq x r e) k

      go : (k : Arg) → classify tcl opts a ≡ k → IsLeft st.newargv (a ∷ b ∷ rest) r
      go operand e = ends _ (rw (scan, e) at h) (a ∷ b ∷ rest, at_operand a (b ∷ rest) e, refl)
      go terminator e = ends _ (rw (scan, e) at h) (b ∷ rest, at_terminator a (b ∷ rest) e, refl)
      go unknown e = elim (Bool-cases ig) [
        | inl on ↦ elim (Bool-cases (first_byte (tcl.to_string b) == 45)) [
          | inl dash ↦
              let (out, l, q) = one (pass_on a st) r (rw (scan, e, on, dash) at h) in
              (
                a ∷ out,
                ignored_option a b rest out on e (ground (arith, dash)) l,
                q ∙ append_assoc st.newargv (a ∷ []) out,
              )
          | inr value ↦
              let (out, l, q) = two (pass_on b (pass_on a st)) r (rw (scan, e, on, value) at h) in
              (
                a ∷ b ∷ out,
                ignored_with_value a b rest out on e (ground (arith, value)) l,
                q
                    ∙ append_assoc (st.newargv ++ a ∷ []) (b ∷ []) out
                    ∙ append_assoc st.newargv (a ∷ []) (b ∷ out),
              )
        ]
        | inr off ↦ absurd (failed-ne-done _ r (rw (scan, e, off) at h))
      ]
      go (switch j) e =
          let (out, l, q) = one (give j (tcl.from_boolean true) st) r (rw (scan, e) at h) in
          (out, taken_switch a (b ∷ rest) out j e l, q)
      go (valued j) e =
          let (out, l, q) = two (give j b st) r (rw (scan, e) at h) in
          (out, taken_value a b rest out j e l, q)

  scan-AllLeft : (argv : List Obj) → AllLeft argv
  unfolding AllLeft IsLeft scan
  scan-AllLeft [] st r h = subst (IsLeft st.newargv []) (done-eq (st, []) r h) ([], at_end, refl)
  scan-AllLeft (a ∷ []) st r h = last-AllLeft a st r h
  scan-AllLeft (a ∷ b ∷ rest) st r h =
      next-AllLeft a b rest (scan-AllLeft (b ∷ rest)) (scan-AllLeft rest) st r h

  -- The loop, with nothing passed on before, ends well and leaves the arguments `out`.
  abbrev pub ScansTo : List Obj → List Obj → Type 0
  ScansTo argv out =
      (r : Scanned Obj × List Obj) × (scan tcl opts ig argv
          (record { values = replicate (length opts) none; newargv = [] })
        ≡ done r)
      × (r.0.newargv ++ r.1 ≡ out)

  ScansTo-Leaves : (argv out : List Obj) → ScansTo argv out ↔ Leaves tcl opts ig argv out
  unfolding AllLeft IsLeft Scans
  ScansTo-Leaves argv out = (
    λ (r, h, q).
        let (out', l, q') = scan-AllLeft argv _ r h in
        subst (Leaves tcl opts ig argv) (sym q' ∙ q) l,
    λ l. Leaves-Scans tcl opts ig l _,
  )

-- What holds of the result of a call, if it succeeds.
abbrev pub WhenDone : {A : Type 0} → (A → Type 0) → Result A → Type 0
WhenDone P (done a) = P a
WhenDone P (failed x) = Unit
WhenDone P crashed = Unit

WhenDone-intro :
    {A : Type 0} (P : A → Type 0) (r : Result A) → ((a : A) → r ≡ done a → P a) → WhenDone P r
WhenDone-intro P (done a) h = h a refl
WhenDone-intro P (failed x) h = tt
WhenDone-intro P crashed h = tt

-- For any arguments `out`: the loop over the arguments ends without an error, and what it passes on
-- and what it stops at make up `out`, exactly if the rules say that `out` is left. By the rules
-- everything is left from the first operand on, or behind a hyphen or two; known options are taken,
-- with their values; unknown options are left only with `-ignoreunknown`, and with the argument behind
-- them, if that does not begin with a hyphen. When option parsing succeeds, what it has put into the
-- argument variable, as a list, is what the rules leave.
pub parse_argv-Leaves :
    {Obj Vars : Type 0} (tcl : Tcl Obj Vars) (argv_var : Obj) (opts : List (OptionDescriptor Obj))
    (sw : Switches) (argv : List Obj) (vars : Vars) (out : List Obj)
    → (ScansTo tcl opts sw.ignoreunknown argv out ↔ Leaves tcl opts sw.ignoreunknown argv out)
      × WhenDone
          (λ (p : Parsed Obj Vars).
            Leaves tcl opts sw.ignoreunknown argv p.leftover × Stored tcl argv_var sw p)
          (parse_argv tcl argv_var opts sw argv vars)
parse_argv-Leaves tcl argv_var opts sw argv vars out = (
  ScansTo-Leaves tcl opts sw.ignoreunknown argv out,
  WhenDone-intro _ (parse_argv tcl argv_var opts sw argv vars) λ p h.
      let f = parse_argv-Found tcl argv_var sw opts argv vars p h in
      (
        (ScansTo-Leaves tcl opts sw.ignoreunknown argv p.leftover).0
            ((f.st, f.rest), f.scanned, sym f.leftover),
        f.stored,
      ),
)
