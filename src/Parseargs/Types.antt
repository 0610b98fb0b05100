-- ===== src/Parseargs/Types.antt =====
-- What `Twapi_ParseargsObjCmd` of twapi/base/parseargs.c returns for a list of options.
use twapi.Base.{
  ◌≡◌, refl, subst, ◌⊎◌, inl, inr, false, Option, none, some, List, [], ◌∷◌, ◌++◌, arith, length,
  Bool-cases, Option-cases,
}
use twapi.Parseargs.Tcl.{Tcl, IsTcl, done, done-eq, failed-ne-done, crashed-ne-done, Result-cases}
use twapi.Parseargs.Descriptor.{OptionDescriptor}
use twapi.Parseargs.Scan.{Switches, is_switch}
use twapi.Parseargs.Values.{
  Given, skipped, given, default_value, check_value, result_name, collect_value, collect,
}
use twapi.Parseargs.Suits.{Suits, check_value-Suits}

module _ {Obj Vars : Type 0} (tcl : Tcl Obj Vars) where
  -- What is returned for a list of options: for each, in order, its name with a value that suits it,
  -- or nothing if it has neither a value nor a default.
  pub data Returned (sw : Switches)
      : List (OptionDescriptor Obj) → List (Option Obj) → List (Obj × Obj) → Type 0 where
    no_more : Returned sw [] [] []
    none_returned :
        (d : OptionDescriptor Obj) {ds : List (OptionDescriptor Obj)} {vs : List (Option Obj)}
        {ret : List (Obj × Obj)}
        → d.def_value ≡ none
        → sw.nulldefault ≡ false
        → Returned sw ds vs ret
        → Returned sw (d ∷ ds) (none ∷ vs) ret
    one_returned :
        (d : OptionDescriptor Obj) (v : Option Obj) (x : Obj) {ds : List (OptionDescriptor Obj)}
        {vs : List (Option Obj)} {ret : List (Obj × Obj)}
        → Suits tcl d.type d x
        → Returned sw ds vs ret
        → Returned sw (d ∷ ds) (v ∷ vs) ((result_name tcl sw.hyphenated d, x) ∷ ret)

  given-ne-skipped : (o : Option Obj) → given o ≡ skipped → ⊥
  given-ne-skipped o h = cc

  default_value-skipped :
      (sw : Switches) (d : OptionDescriptor Obj) (v : Option Obj)
      → default_value tcl sw.nulldefault d v ≡ skipped
      → (v ≡ none) × (d.def_value ≡ none) × (sw.nulldefault ≡ false)
  unfolding default_value
  default_value-skipped sw d v h = elim (Bool-cases (is_switch d.type)) [
    | inl e ↦ absurd (given-ne-skipped v (rw (default_value, e) at h))
    | inr e ↦ elim (Option-cases v) [
      | inr (o, e1) ↦ absurd (given-ne-skipped (some o) (rw (default_value, e, e1) at h))
      | inl e1 ↦ elim (Option-cases d.def_value) [
        | inr (o, e2) ↦ absurd (given-ne-skipped (some o) (rw (default_value, e, e1, e2) at h))
        | inl e2 ↦ elim (Bool-cases sw.nulldefault) [
          | inl e3 ↦ absurd (given-ne-skipped none (rw (default_value, e, e1, e2, e3) at h))
          | inr e3 ↦ (e1, e2, e3)
        ]
      ]
    ]
  ]

  Given-cases : (g : Given Obj) → (g ≡ skipped) ⊎ ((o : Option Obj) × (g ≡ given o))
  Given-cases skipped = inl refl
  Given-cases (given o) = inr (o, refl)

  collect_value-Returned :
      (sw : Switches) (d : OptionDescriptor Obj) (v : Option Obj) (xs ret : List (Obj × Obj))
      (ds : List (OptionDescriptor Obj)) (vs : List (Option Obj))
      → IsTcl tcl
      → collect_value tcl sw d v ≡ done xs
      → Returned sw ds vs ret
      → Returned sw (d ∷ ds) (v ∷ vs) (xs ++ ret)
  unfolding collect_value
  collect_value-Returned sw d v xs ret ds vs ok h r =
      elim (Given-cases (default_value tcl sw.nulldefault d v)) [
        | inl e ↦
            let (e1, e2, e3) = default_value-skipped sw d v e in
            subst (λ ys. Returned sw (d ∷ ds) (v ∷ vs) (ys ++ ret))
              (done-eq [] xs (rw (collect_value, e) at h)) (rw e1 (none_returned d e2 e3 r))
        | inr (o, e) ↦ elim (Result-cases (check_value tcl d o)) [
          | inl (x, e1) ↦
              subst (λ ys. Returned sw (d ∷ ds) (v ∷ vs) (ys ++ ret))
                (done-eq _ xs (rw (collect_value, e, e1) at h))
                (one_returned d v x (check_value-Suits tcl d o x ok e1) r)
          | inr (inl (y, e1)) ↦ absurd (failed-ne-done y xs (rw (collect_value, e, e1) at h))
          | inr (inr e1) ↦ absurd (crashed-ne-done xs (rw (collect_value, e, e1) at h))
        ]
      ]

  -- When the values of as many options as there are definitions pass the checks, what is returned
  -- is, in order, each option's name with a value that suits its type and its validity list; an
  -- option is left out only if it has neither a value nor a default, without `-nulldefault`.
  -- An object made from a value is taken to give that value.
  pub collect-Returned :
      (sw : Switches) (ds : List (OptionDescriptor Obj)) (vs : List (Option Obj))
      (ret : List (Obj × Obj))
      → IsTcl tcl
      → length ds ≡ length vs
      → collect tcl sw ds vs ≡ done ret
      → Returned sw ds vs ret
  unfolding collect
  collect-Returned sw [] [] ret ok same h = subst (Returned sw [] []) (done-eq [] ret h) no_more
  collect-Returned sw [] (v ∷ vs) ret ok same h = absurd (omega (arith, same))
  collect-Returned sw (d ∷ ds) [] ret ok same h = absurd (omega (arith, same))
  collect-Returned sw (d ∷ ds) (v ∷ vs) ret ok same h =
      elim (Result-cases (collect_value tcl sw d v)) [
        | inl (xs, e) ↦ elim (Result-cases (collect tcl sw ds vs)) [
          | inl (ys, e1) ↦
              subst (Returned sw (d ∷ ds) (v ∷ vs))
                (done-eq (xs ++ ys) ret (rw (collect, e, e1) at h))
                (collect_value-Returned sw d v xs ys ds vs ok e
                  (collect-Returned sw ds vs ys ok (omega (arith, same)) e1))
          | inr (inl (y, e1)) ↦ absurd (failed-ne-done y ret (rw (collect, e, e1) at h))
          | inr (inr e1) ↦ absurd (crashed-ne-done ret (rw (collect, e, e1) at h))
        ]
        | inr (inl (y, e)) ↦ absurd (failed-ne-done y ret (rw (collect, e) at h))
        | inr (inr e) ↦ absurd (crashed-ne-done ret (rw (collect, e) at h))
      ]
