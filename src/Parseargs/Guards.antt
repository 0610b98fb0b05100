-- ===== src/Parseargs/Guards.antt =====
-- The option definitions that `SetParseargsOptFromAny` of twapi/base/parseargs.c reads, their defaults,
-- and the loop over them.
use twapi.Base.{
  ℕ, ◌≡◌, refl, subst, ◌∙◌, sym, ◌⊎◌, inl, inr, true, Option, none, some, List, [], ◌∷◌, Bool-cases,
  Option-cases,
}
use twapi.Parseargs.Tcl.{Tcl, Result-cases}
use twapi.Parseargs.Descriptor.{
  OptType, OptionDescriptor, name_and_type, is_valid_list, set_values, named, set_option,
  set_options,
}
use twapi.Parseargs.Scan.{Switches, is_switch}
use twapi.Parseargs.Values.{
  Given, skipped, given, default_value, check_value, collect_value, collect,
}
use twapi.Parseargs.Safe.{Safe, Safe-ne-crashed, none-ne-some, check_value-Safe}

IsGuarded : {Obj : Type 0} → OptionDescriptor Obj → Type 0
IsGuarded d = d.def_value ≡ none → d.valid_values ≡ none

pub AllGuarded : {Obj : Type 0} → List (OptionDescriptor Obj) → Type 0
AllGuarded [] = Unit
AllGuarded (d ∷ ds) = IsGuarded d × AllGuarded ds

some-eq : {A : Type 0} (a b : A) → some a ≡ some b → a ≡ b
some-eq a b h = cc

given-eq : {A : Type 0} (a b : Option A) → given a ≡ given b → a ≡ b
given-eq a b h = cc

skipped-ne-given : {A : Type 0} (a : Option A) → skipped ≡ given a → ⊥
skipped-ne-given a h = cc

module _ {Obj Vars : Type 0} (tcl : Tcl Obj Vars) where
  set_values-IsGuarded :
      (name : Obj) (len : ℕ) (t : OptType) (rest : List Obj) (d : OptionDescriptor Obj)
      → set_values tcl (named tcl name len t) rest ≡ some d
      → IsGuarded d
  unfolding set_values named IsGuarded
  set_values-IsGuarded name len t [] d h =
      subst IsGuarded (some-eq (named tcl name len t) d h) (λ _. refl)
  set_values-IsGuarded name len t (def ∷ []) d h =
      subst IsGuarded (some-eq (record (named tcl name len t) { def_value = some def }) d h)
        (λ _. refl)
  set_values-IsGuarded name len t (def ∷ valid ∷ more) d h =
      elim (Option-cases (tcl.to_elements valid)) [
        | inl e ↦ absurd (none-ne-some d (rw (set_values, e) at h))
        | inr (os, e) ↦ elim (Bool-cases (is_valid_list tcl t os)) [
          | inl ok ↦
              subst IsGuarded (some-eq _ d (rw (set_values, e, ok) at h))
                (λ q. absurd (none-ne-some def (sym q)))
          | inr bad ↦ absurd (none-ne-some d (rw (set_values, e, bad) at h))
        ]
      ]

  set_option-IsGuarded :
      (elems : List Obj) (d : OptionDescriptor Obj) → set_option tcl elems ≡ some d → IsGuarded d
  unfolding set_option
  set_option-IsGuarded [] d h = absurd (none-ne-some d h)
  set_option-IsGuarded (name ∷ rest) d h =
      elim (Option-cases (name_and_type tcl (tcl.to_string name))) [
        | inl e ↦ absurd (none-ne-some d (rw (set_option, e) at h))
        | inr ((len, t), e) ↦ set_values-IsGuarded name len t rest d (rw (set_option, e) at h)
      ]

  pub set_options-AllGuarded :
      (os : List Obj) (ds : List (OptionDescriptor Obj))
      → set_options tcl os ≡ some ds
      → AllGuarded ds
  unfolding set_options AllGuarded
  set_options-AllGuarded [] ds h = subst AllGuarded (some-eq [] ds h) tt
  set_options-AllGuarded (o ∷ os) ds h = elim (Option-cases (tcl.to_elements o)) [
    | inl e ↦ absurd (none-ne-some ds (rw (set_options, e) at h))
    | inr (elems, e) ↦ elim (Option-cases (set_option tcl elems)) [
      | inl e2 ↦ absurd (none-ne-some ds (rw (set_options, e, e2) at h))
      | inr (d, e2) ↦ elim (Option-cases (set_options tcl os)) [
        | inl e3 ↦ absurd (none-ne-some ds (rw (set_options, e, e2, e3) at h))
        | inr (more, e3) ↦
            subst AllGuarded (some-eq (d ∷ more) ds (rw (set_options, e, e2, e3) at h))
              (set_option-IsGuarded elems d e2, set_options-AllGuarded os more e3)
      ]
    ]
  ]

  default_value-given :
      (sw : Switches) (d : OptionDescriptor Obj) (v o : Option Obj)
      → default_value tcl sw.nulldefault d v ≡ given o
      → (is_switch d.type ≡ true) ⊎ (o ≡ none → d.def_value ≡ none)
  unfolding default_value
  default_value-given sw d v o h = elim (Bool-cases (is_switch d.type)) [
    | inl e ↦ inl e
    | inr e ↦ elim (Option-cases v) [
      | inr (x, e1) ↦ inr (λ q.
          absurd (none-ne-some x (sym (given-eq (some x) o (rw (default_value, e, e1) at h) ∙ q))))
      | inl e1 ↦ elim (Option-cases d.def_value) [
        | inr (x, e2) ↦ inr (λ q.
            absurd
              (none-ne-some x (sym (given-eq (some x) o (rw (default_value, e, e1, e2) at h) ∙ q))))
        | inl e2 ↦ inr (λ q. e2)
      ]
    ]
  ]

  Given-cases : (g : Given Obj) → (g ≡ skipped) ⊎ ((o : Option Obj) × (g ≡ given o))
  Given-cases skipped = inl refl
  Given-cases (given o) = inr (o, refl)

  guard :
      (d : OptionDescriptor Obj) (o : Option Obj)
      → IsGuarded d
      → (is_switch d.type ≡ true) ⊎ (o ≡ none → d.def_value ≡ none)
      → (is_switch d.type ≡ true) ⊎ (o ≡ none → d.valid_values ≡ none)
  unfolding IsGuarded
  guard d o g (inl e) = inl e
  guard d o g (inr k) = inr (λ q. g (k q))

  collect_value-Safe :
      (sw : Switches) (d : OptionDescriptor Obj) (v : Option Obj)
      → IsGuarded d
      → Safe (collect_value tcl sw d v)
  unfolding collect_value
  collect_value-Safe sw d v g = elim (Given-cases (default_value tcl sw.nulldefault d v)) [
    | inl e ↦ rw (collect_value, e) tt
    | inr (o, e) ↦ elim (Result-cases (check_value tcl d o)) [
      | inl (x, e1) ↦ rw (collect_value, e, e1) tt
      | inr (inl (x, e1)) ↦ rw (collect_value, e, e1) tt
      | inr (inr e1) ↦ absurd (
          Safe-ne-crashed _
            (check_value-Safe tcl d o (guard d o g (default_value-given sw d v o e))) e1)
    ]
  ]

  pub collect-Safe :
      (sw : Switches) (ds : List (OptionDescriptor Obj)) (vs : List (Option Obj))
      → AllGuarded ds
      → Safe (collect tcl sw ds vs)
  unfolding collect AllGuarded
  collect-Safe sw [] vs g = tt
  collect-Safe sw (d ∷ ds) [] g = tt
  collect-Safe sw (d ∷ ds) (v ∷ vs) (gd, gs) = elim (Result-cases (collect_value tcl sw d v)) [
    | inl (xs, e) ↦ elim (Result-cases (collect tcl sw ds vs)) [
      | inl (ys, e1) ↦ rw (collect, e, e1) tt
      | inr (inl (x, e1)) ↦ rw (collect, e, e1) tt
      | inr (inr e1) ↦ absurd (Safe-ne-crashed _ (collect-Safe sw ds vs gs) e1)
    ]
    | inr (inl (x, e)) ↦ rw (collect, e) tt
    | inr (inr e) ↦ absurd (Safe-ne-crashed _ (collect_value-Safe sw d v gd) e)
  ]
