-- ===== src/Parseargs/Safe.antt =====
-- The checks on values in `Twapi_ParseargsObjCmd` of twapi/base/parseargs.c, and null pointers.
use twapi.Base.{
  ℕ, ◌≡◌, refl, subst, ◌∙◌, sym, ◌≢◌, ◌⊎◌, inl, inr, Bool, true, false, Option, none, some, List,
  [], ◌∷◌, ◌==◌, Option-cases, if◌then◌else◌,
}
use twapi.Parseargs.Tcl.{Str, Tcl, Result, done, failed, crashed, Result-cases}
use twapi.Parseargs.Descriptor.{
  OptType, opt_any, opt_bool, opt_int, opt_switch, opt_sym, OptionDescriptor,
}
use twapi.Parseargs.Scan.{is_switch}
use twapi.Parseargs.Values.{
  refuse, find_wide, find_string, check_wide, check_string, wide_of, int_value, string_of,
  any_value, symbol_value, sym_value, bool_value, check_value,
}

-- The call does not crash.
abbrev pub Safe : {A : Type 0} → Result A → Type 0
Safe (done a) = Unit
Safe (failed e) = Unit
Safe crashed = ⊥

pub Safe-ne-crashed : {A : Type 0} (r : Result A) → Safe r → r ≢ crashed
Safe-ne-crashed r h e = subst Safe e h

-- A test of a computed value that both of its outcomes pass.
if-Safe : {A : Type 0} (b : Bool) (x y : Result A) → Safe x → Safe y → Safe (if b then x else y)
if-Safe true x y hx hy = hx
if-Safe false x y hx hy = hy

false-ne-true : false ≡ true → ⊥
false-ne-true h = cc

pub none-ne-some : {A : Type 0} (a : A) → none ≡ some a → ⊥
none-ne-some a h = cc

module _ {Obj Vars : Type 0} (tcl : Tcl Obj Vars) where
  find_wide-Safe : (w : ℕ) (os : List Obj) → Safe (find_wide tcl w os)
  unfolding find_wide
  find_wide-Safe w [] = tt
  find_wide-Safe w (o ∷ os) = go (tcl.to_wide o) refl (find_wide-Safe w os)
    where
      go :
          (x : Option ℕ)
          → tcl.to_wide o ≡ x
          → Safe (find_wide tcl w os)
          → Safe (find_wide tcl w (o ∷ os))
      go none e h = rw (find_wide, e) tt
      go (some x) e h = rw (find_wide, e) (if-Safe (x == w) (done true) (find_wide tcl w os) tt h)

  refuse-Safe : (v : Option Obj) → v ≢ none → Safe (refuse tcl {A = Unit {0}} v)
  unfolding refuse
  refuse-Safe none h = h refl
  refuse-Safe (some o) h = tt

  not_none : (v o : Option Obj) (l : Obj) → (v ≡ none → o ≡ none) → o ≡ some l → v ≢ none
  not_none v o l k e q = none-ne-some l (sym (k q) ∙ e)

  check_wide-Safe :
      (d : OptionDescriptor Obj) (v : Option Obj) (w : ℕ)
      → (v ≡ none → d.valid_values ≡ none)
      → Safe (check_wide tcl d v w)
  unfolding check_wide
  check_wide-Safe d v w k = elim (Option-cases d.valid_values) [
    | inl e ↦ rw (check_wide, e) tt
    | inr (l, e) ↦ elim (Option-cases (tcl.to_elements l)) [
      | inl e1 ↦ rw (check_wide, e, e1) tt
      | inr (os, e1) ↦ elim (Result-cases (find_wide tcl w os)) [
        | inl (b, e2) ↦
            rw (check_wide, e, e1, e2)
              (if-Safe b _ _ tt (refuse-Safe v (not_none v d.valid_values l k e)))
        | inr (inl (x, e2)) ↦ rw (check_wide, e, e1, e2) tt
        | inr (inr e2) ↦ absurd (Safe-ne-crashed _ (find_wide-Safe w os) e2)
      ]
    ]
  ]

  check_string-Safe :
      (d : OptionDescriptor Obj) (v : Option Obj) (s : Str)
      → (v ≡ none → d.valid_values ≡ none)
      → Safe (check_string tcl d v s)
  unfolding check_string
  check_string-Safe d v s k = elim (Option-cases d.valid_values) [
    | inl e ↦ rw (check_string, e) tt
    | inr (l, e) ↦ elim (Option-cases (tcl.to_elements l)) [
      | inl e1 ↦ rw (check_string, e, e1) tt
      | inr (os, e1) ↦
          rw (check_string, e, e1)
            (if-Safe (find_string tcl s os) _ _ tt
              (refuse-Safe v (not_none v d.valid_values l k e)))
    ]
  ]

  wide_of-Safe : (v : Option Obj) → Safe (wide_of tcl v)
  unfolding wide_of
  wide_of-Safe none = tt
  wide_of-Safe (some o) = elim (Option-cases (tcl.to_wide o)) [
    | inl e ↦ rw (wide_of, e) tt
    | inr (w, e) ↦ rw (wide_of, e) tt
  ]

  int_value-Safe :
      (d : OptionDescriptor Obj) (v : Option Obj)
      → (v ≡ none → d.valid_values ≡ none)
      → Safe (int_value tcl d v)
  unfolding int_value
  int_value-Safe d v k = elim (Result-cases (wide_of tcl v)) [
    | inl (w, e) ↦ elim (Result-cases (check_wide tcl d v w)) [
      | inl (u, e1) ↦ rw (int_value, e, e1) tt
      | inr (inl (x, e1)) ↦ rw (int_value, e, e1) tt
      | inr (inr e1) ↦ absurd (Safe-ne-crashed _ (check_wide-Safe d v w k) e1)
    ]
    | inr (inl (x, e)) ↦ rw (int_value, e) tt
    | inr (inr e) ↦ absurd (Safe-ne-crashed _ (wide_of-Safe v) e)
  ]

  any_value-Safe :
      (d : OptionDescriptor Obj) (v : Option Obj)
      → (v ≡ none → d.valid_values ≡ none)
      → Safe (any_value tcl d v)
  unfolding any_value
  any_value-Safe d v k = elim (Result-cases (check_string tcl d v (string_of tcl v))) [
    | inl (u, e1) ↦ rw (any_value, e1) tt
    | inr (inl (x, e1)) ↦ rw (any_value, e1) tt
    | inr (inr e1) ↦ absurd (Safe-ne-crashed _ (check_string-Safe d v (string_of tcl v) k) e1)
  ]

  symbol_value-Safe : (d : OptionDescriptor Obj) (o : Obj) → Safe (symbol_value tcl d o)
  unfolding symbol_value
  symbol_value-Safe d o = elim (Option-cases d.valid_values) [
    | inl e ↦ rw (symbol_value, e) tt
    | inr (l, e) ↦ elim (Option-cases (tcl.dict_get l o)) [
      | inl e1 ↦ rw (symbol_value, e, e1) tt
      | inr (x, e1) ↦ elim (Option-cases x) [
        | inl e2 ↦ rw (symbol_value, e, e1, e2) tt
        | inr (y, e2) ↦ rw (symbol_value, e, e1, e2) tt
      ]
    ]
  ]

  sym_value-Safe : (d : OptionDescriptor Obj) (v : Option Obj) → Safe (sym_value tcl d v)
  unfolding sym_value
  sym_value-Safe d none = tt
  sym_value-Safe d (some o) = elim (Result-cases (symbol_value tcl d o)) [
    | inl (x, e) ↦ elim (Option-cases (tcl.to_wide x)) [
      | inl e1 ↦ rw (sym_value, e, e1) tt
      | inr (w, e1) ↦ rw (sym_value, e, e1) tt
    ]
    | inr (inl (x, e)) ↦ rw (sym_value, e) tt
    | inr (inr e) ↦ absurd (Safe-ne-crashed _ (symbol_value-Safe d o) e)
  ]

  bool_value-Safe : (d : OptionDescriptor Obj) (v : Option Obj) → Safe (bool_value tcl d v)
  unfolding bool_value
  bool_value-Safe d none = tt
  bool_value-Safe d (some o) = elim (Option-cases (tcl.to_boolean o)) [
    | inl e ↦ rw (bool_value, e) tt
    | inr (j, e) ↦ rw (bool_value, e) tt
  ]

  pub check_value-Safe :
      (d : OptionDescriptor Obj) (v : Option Obj)
      → (is_switch d.type ≡ true) ⊎ (v ≡ none → d.valid_values ≡ none)
      → Safe (check_value tcl d v)
  unfolding check_value is_switch
  check_value-Safe d v k = go d.type refl k
    where
      go :
          (t : OptType)
          → d.type ≡ t
          → (is_switch d.type ≡ true) ⊎ (v ≡ none → d.valid_values ≡ none)
          → Safe (check_value tcl d v)
      go opt_int e (inl q) = absurd (false-ne-true (rw e at q))
      go opt_int e (inr k) = rw (check_value, e) (int_value-Safe d v k)
      go opt_any e (inl q) = absurd (false-ne-true (rw e at q))
      go opt_any e (inr k) = rw (check_value, e) (any_value-Safe d v k)
      go opt_sym e k = rw (check_value, e) (sym_value-Safe d v)
      go opt_switch e k = rw (check_value, e) (bool_value-Safe d v)
      go opt_bool e k = rw (check_value, e) (bool_value-Safe d v)
