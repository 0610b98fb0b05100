-- ===== src/Parseargs/Describes.antt =====
-- Printing a list of option definitions of twapi/base/parseargs.c and reading it again.
use twapi.Base.{
  ℕ, ◌≡◌, refl, subst, inl, inr, none, some, List, [], ◌∷◌, map, Bool-cases, Option-cases,
}
use twapi.Parseargs.Tcl.{Tcl, IsTcl}
use twapi.Parseargs.Descriptor.{
  OptType, OptionDescriptor, name_and_type, is_valid_list, set_values, named, set_option,
  set_options, set_parseargs_opt, describe, update_string,
}

some-eq : {A : Type 0} (a b : A) → some a ≡ some b → a ≡ b
some-eq a b h = cc

none-ne-some : {A : Type 0} (a : A) → none ≡ some a → ⊥
none-ne-some a h = cc

module _ {Obj Vars : Type 0} (tcl : Tcl Obj Vars) where
  abbrev Reads : OptionDescriptor Obj → Type 0
  Reads d = set_option tcl (describe tcl d) ≡ some d

  module _ (name : Obj) (len : ℕ) (t : OptType)
      (typed : name_and_type tcl (tcl.to_string name) ≡ some (len, t)) where
    values-describe :
        (rest : List Obj) (d : OptionDescriptor Obj)
        → set_values tcl (named tcl name len t) rest ≡ some d
        → Reads d
    unfolding set_values named set_option describe
    values-describe [] d h =
        subst Reads (some-eq (named tcl name len t) d h) (rw (set_option, typed) refl)
    values-describe (def ∷ []) d h =
        subst Reads (some-eq (record (named tcl name len t) { def_value = some def }) d h)
          (rw (set_option, typed) refl)
    values-describe (def ∷ valid ∷ more) d h = elim (Option-cases (tcl.to_elements valid)) [
      | inl e ↦ absurd (none-ne-some d (rw (set_values, e) at h))
      | inr (os, e) ↦ elim (Bool-cases (is_valid_list tcl t os)) [
        | inl ok ↦
            subst Reads
              (some-eq
                (record (named tcl name len t) { def_value = some def; valid_values = some valid })
                d (rw (set_values, e, ok) at h))
              (rw (set_option, typed, set_values, e, ok) refl)
        | inr bad ↦ absurd (none-ne-some d (rw (set_values, e, bad) at h))
      ]
    ]

  option-describe :
      (elems : List Obj) (d : OptionDescriptor Obj) → set_option tcl elems ≡ some d → Reads d
  unfolding set_option
  option-describe [] d h = absurd (none-ne-some d h)
  option-describe (name ∷ rest) d h = elim (Option-cases (name_and_type tcl (tcl.to_string name))) [
    | inl e ↦ absurd (none-ne-some d (rw (set_option, e) at h))
    | inr ((len, t), e) ↦ values-describe name len t e rest d (rw (set_option, e) at h)
  ]

  module _ (ok : IsTcl tcl) where
    options-describe :
        (os : List Obj) (ds : List (OptionDescriptor Obj))
        → set_options tcl os ≡ some ds
        → set_options tcl (map (λ d. tcl.from_list (describe tcl d)) ds) ≡ some ds
    unfolding set_options
    options-describe [] ds h =
        subst (λ x. set_options tcl (map (λ d. tcl.from_list (describe tcl d)) x) ≡ some x)
          (some-eq [] ds h) refl
    options-describe (o ∷ os) ds h = elim (Option-cases (tcl.to_elements o)) [
      | inl e ↦ absurd (none-ne-some ds (rw (set_options, e) at h))
      | inr (elems, e) ↦ elim (Option-cases (set_option tcl elems)) [
        | inl e2 ↦ absurd (none-ne-some ds (rw (set_options, e, e2) at h))
        | inr (d, e2) ↦ elim (Option-cases (set_options tcl os)) [
          | inl e3 ↦ absurd (none-ne-some ds (rw (set_options, e, e2, e3) at h))
          | inr (more, e3) ↦
              subst (λ x. set_options tcl (map (λ d. tcl.from_list (describe tcl d)) x) ≡ some x)
                (some-eq (d ∷ more) ds (rw (set_options, e, e2, e3) at h))
                (rw
                  (
                    set_options,
                    ok.list (describe tcl d),
                    option-describe elems d e2,
                    options-describe os more e3,
                  )
                  refl)
        ]
      ]
    ]

-- What a list of option definitions is read as is printed as a list that is read as the same
-- options again: names, types, defaults and validity lists. The list that a Tcl object is made
-- from is taken to be the list of its elements.
pub set_parseargs_opt-update_string :
    {Obj Vars : Type 0} (tcl : Tcl Obj Vars) (o : Obj) (ds : List (OptionDescriptor Obj))
    → IsTcl tcl
    → set_parseargs_opt tcl o ≡ some ds
    → set_parseargs_opt tcl (update_string tcl ds) ≡ some ds
unfolding set_parseargs_opt update_string
set_parseargs_opt-update_string tcl o ds ok h = elim (Option-cases (tcl.to_elements o)) [
  | inl e ↦ absurd (none-ne-some ds (rw (set_parseargs_opt, e) at h))
  | inr (os, e) ↦
      rw (set_parseargs_opt, ok.list (map (λ d. tcl.from_list (describe tcl d)) ds))
        (options-describe tcl ok os ds (rw (set_parseargs_opt, e) at h))
]
