-- ===== src/Parseargs/Suits.antt =====
-- The checks on values in `Twapi_ParseargsObjCmd` of twapi/base/parseargs.c, and the types of options.
use twapi.Base.{
  ℕ, ◌≡◌, refl, sym, ap, subst, ◌∙◌, ◌⊎◌, inl, inr, Bool, true, false, Option, none, some, List, [],
  ◌∷◌, arith, ◌==◌, Bool-cases, Option-cases,
}
use twapi.Parseargs.Tcl.{Tcl, IsTcl, done, done-eq, failed-ne-done, crashed-ne-done, Result-cases}
use twapi.Parseargs.Descriptor.{
  OptType, opt_any, opt_bool, opt_int, opt_switch, opt_sym, OptionDescriptor,
}
use twapi.Parseargs.Values.{
  refuse, find_wide, find_string, check_wide, check_string, wide_of, or_else, int_value, string_of,
  any_value, symbol_value, sym_value, true_value, bool_value, check_value,
}

module _ {Obj Vars : Type 0} (tcl : Tcl Obj Vars) where
  -- One of the numbers of a list.
  pub data IsListed (w : ℕ) : List Obj → Type 0 where
    at_head : (o : Obj) {os : List Obj} → tcl.to_wide o ≡ some w → IsListed w (o ∷ os)
    in_tail : (o : Obj) {os : List Obj} → IsListed w os → IsListed w (o ∷ os)

  -- A number, in the validity list if there is one.
  pub AllowedInt : OptionDescriptor Obj → Obj → Type 0
  AllowedInt d x =
      (w : ℕ) × (tcl.to_wide x ≡ some w)
      × ((l : Obj) (os : List Obj)
          → d.valid_values ≡ some l
          → tcl.to_elements l ≡ some os
          → IsListed w os)

  -- A Boolean, or the validity list that stands for true.
  pub AllowedBoolean : OptionDescriptor Obj → Obj → Type 0
  AllowedBoolean d x = ((b : Bool) × (tcl.to_boolean x ≡ some b)) ⊎ (d.valid_values ≡ some x)

  -- A string that the validity list has, if there is one.
  pub AllowedString : OptionDescriptor Obj → Obj → Type 0
  AllowedString d x =
      (l : Obj) (os : List Obj)
      → d.valid_values ≡ some l
      → tcl.to_elements l ≡ some os
      → find_string tcl (tcl.to_string x) os ≡ true

  pub Suits : OptType → OptionDescriptor Obj → Obj → Type 0
  Suits opt_int d x = AllowedInt d x
  Suits opt_any d x = AllowedString d x
  Suits opt_sym d x = (w : ℕ) × (tcl.to_wide x ≡ some w)
  Suits opt_switch d x = AllowedBoolean d x
  Suits opt_bool d x = AllowedBoolean d x

  find_wide-IsListed : (w : ℕ) (os : List Obj) → find_wide tcl w os ≡ done true → IsListed w os
  unfolding find_wide
  find_wide-IsListed w [] h = absurd cc
  find_wide-IsListed w (o ∷ os) h = elim (Option-cases (tcl.to_wide o)) [
    | inl e ↦ absurd (failed-ne-done _ true (rw (find_wide, e) at h))
    | inr (x, e) ↦ elim (Bool-cases (x == w)) [
      | inl same ↦ let q : x ≡ w = ground arith in at_head o (e ∙ ap some q)
      | inr other ↦ in_tail o (find_wide-IsListed w os (rw (find_wide, e, other) at h))
    ]
  ]

  refuse-ne-done : {A : Type 0} (v : Option Obj) (a : A) → refuse tcl v ≡ done a → ⊥
  unfolding refuse
  refuse-ne-done none a h = cc
  refuse-ne-done (some o) a h = cc

  check_wide-IsListed :
      (d : OptionDescriptor Obj) (v : Option Obj) (w : ℕ) (l : Obj) (os : List Obj)
      → check_wide tcl d v w ≡ done tt
      → d.valid_values ≡ some l
      → tcl.to_elements l ≡ some os
      → IsListed w os
  unfolding check_wide
  check_wide-IsListed d v w l os h e e' = elim (Result-cases (find_wide tcl w os)) [
    | inl (found, q) ↦ elim (Bool-cases found) [
      | inl hit ↦ find_wide-IsListed w os (q ∙ ap done hit)
      | inr miss ↦ absurd (refuse-ne-done v tt (rw (check_wide, e, e', q, miss) at h))
    ]
    | inr (inl (x, q)) ↦ absurd (failed-ne-done x tt (rw (check_wide, e, e', q) at h))
    | inr (inr q) ↦ absurd (crashed-ne-done tt (rw (check_wide, e, e', q) at h))
  ]

  wide_of-or_else :
      (v : Option Obj) (w : ℕ)
      → IsTcl tcl
      → wide_of tcl v ≡ done w
      → tcl.to_wide (or_else tcl v (tcl.from_int 0)) ≡ some w
  unfolding wide_of or_else
  wide_of-or_else none w ok h = ok.wide ∙ ap some (done-eq 0 w h)
  wide_of-or_else (some o) w ok h = elim (Option-cases (tcl.to_wide o)) [
    | inl e ↦ absurd (failed-ne-done _ w (rw (wide_of, e) at h))
    | inr (x, e) ↦ e ∙ ap some (done-eq x w (rw (wide_of, e) at h))
  ]

  int_value-AllowedInt :
      (d : OptionDescriptor Obj) (v : Option Obj) (x : Obj)
      → IsTcl tcl
      → int_value tcl d v ≡ done x
      → AllowedInt d x
  unfolding int_value AllowedInt
  int_value-AllowedInt d v x ok h = elim (Result-cases (wide_of tcl v)) [
    | inl (w, e) ↦ elim (Result-cases (check_wide tcl d v w)) [
      | inl (u, e') ↦
          subst
            (λ y.
              (w : ℕ) × (tcl.to_wide y ≡ some w)
              × ((l : Obj) (os : List Obj)
                  → d.valid_values ≡ some l
                  → tcl.to_elements l ≡ some os
                  → IsListed w os))
            (done-eq _ x (rw (int_value, e, e') at h))
            (w, wide_of-or_else v w ok e, λ l os. check_wide-IsListed d v w l os e')
      | inr (inl (y, e')) ↦ absurd (failed-ne-done y x (rw (int_value, e, e') at h))
      | inr (inr e') ↦ absurd (crashed-ne-done x (rw (int_value, e, e') at h))
    ]
    | inr (inl (y, e)) ↦ absurd (failed-ne-done y x (rw (int_value, e) at h))
    | inr (inr e) ↦ absurd (crashed-ne-done x (rw (int_value, e) at h))
  ]

  sym_value-wide :
      (d : OptionDescriptor Obj) (v : Option Obj) (x : Obj)
      → IsTcl tcl
      → sym_value tcl d v ≡ done x
      → (w : ℕ) × (tcl.to_wide x ≡ some w)
  unfolding sym_value
  sym_value-wide d none x ok h =
      subst (λ y. (w : ℕ) × (tcl.to_wide y ≡ some w)) (done-eq _ x h) (0, ok.wide)
  sym_value-wide d (some o) x ok h = elim (Result-cases (symbol_value tcl d o)) [
    | inl (y, e) ↦ elim (Option-cases (tcl.to_wide y)) [
      | inl e' ↦ absurd (failed-ne-done _ x (rw (sym_value, e, e') at h))
      | inr (w, e') ↦
          subst (λ y. (w : ℕ) × (tcl.to_wide y ≡ some w)) (done-eq y x (rw (sym_value, e, e') at h))
            (w, e')
    ]
    | inr (inl (y, e)) ↦ absurd (failed-ne-done y x (rw (sym_value, e) at h))
    | inr (inr e) ↦ absurd (crashed-ne-done x (rw (sym_value, e) at h))
  ]

  true_value-AllowedBoolean :
      (d : OptionDescriptor Obj) (j : Bool) → IsTcl tcl → AllowedBoolean d (true_value tcl d j)
  unfolding true_value AllowedBoolean
  true_value-AllowedBoolean d j ok = elim (Option-cases d.valid_values) [
    | inl e ↦ inl (j, rw (true_value, e) (ok.boolean j))
    | inr (l, e) ↦ elim (Bool-cases j) [
      | inl on ↦ inr (rw (true_value, e, on) refl)
      | inr off ↦ inl (j, rw (true_value, e, off) (ok.boolean false))
    ]
  ]

  bool_value-AllowedBoolean :
      (d : OptionDescriptor Obj) (v : Option Obj) (x : Obj)
      → IsTcl tcl
      → bool_value tcl d v ≡ done x
      → AllowedBoolean d x
  unfolding bool_value AllowedBoolean
  bool_value-AllowedBoolean d none x ok h =
      subst (AllowedBoolean d) (done-eq _ x h) (inl (false, ok.boolean false))
  bool_value-AllowedBoolean d (some o) x ok h = elim (Option-cases (tcl.to_boolean o)) [
    | inl e ↦ absurd (failed-ne-done _ x (rw (bool_value, e) at h))
    | inr (j, e) ↦
        subst (AllowedBoolean d) (done-eq _ x (rw (bool_value, e) at h))
          (true_value-AllowedBoolean d j ok)
  ]

  check_string-find_string :
      (d : OptionDescriptor Obj) (v : Option Obj) (str : _) (l : Obj) (os : List Obj)
      → check_string tcl d v str ≡ done tt
      → d.valid_values ≡ some l
      → tcl.to_elements l ≡ some os
      → find_string tcl str os ≡ true
  unfolding check_string
  check_string-find_string d v str l os h e e' = elim (Bool-cases (find_string tcl str os)) [
    | inl hit ↦ hit
    | inr miss ↦ absurd (refuse-ne-done v tt (rw (check_string, e, e', miss) at h))
  ]

  string_of-or_else :
      (v : Option Obj)
      → IsTcl tcl
      → tcl.to_string (or_else tcl v (tcl.from_string [])) ≡ string_of tcl v
  unfolding string_of or_else
  string_of-or_else none ok = ok.string []
  string_of-or_else (some o) ok = refl

  any_value-AllowedString :
      (d : OptionDescriptor Obj) (v : Option Obj) (x : Obj)
      → IsTcl tcl
      → any_value tcl d v ≡ done x
      → AllowedString d x
  unfolding any_value AllowedString
  any_value-AllowedString d v x ok h l os e e' =
      elim (Result-cases (check_string tcl d v (string_of tcl v))) [
        | inl (u, q) ↦
            let hit = check_string-find_string d v (string_of tcl v) l os q e e' in
            let same =
              sym (string_of-or_else v ok)
              ∙ ap tcl.to_string (done-eq _ x (rw (any_value, q) at h)) in
            subst (λ str. find_string tcl str os ≡ true) same hit
        | inr (inl (y, q)) ↦ absurd (failed-ne-done y x (rw (any_value, q) at h))
        | inr (inr q) ↦ absurd (crashed-ne-done x (rw (any_value, q) at h))
      ]

  pub check_value-Suits :
      (d : OptionDescriptor Obj) (v : Option Obj) (x : Obj)
      → IsTcl tcl
      → check_value tcl d v ≡ done x
      → Suits d.type d x
  unfolding check_value Suits AllowedString AllowedBoolean AllowedInt
  check_value-Suits d v x ok h = go d.type refl
    where
      go : (t : OptType) → d.type ≡ t → Suits d.type d x
      go opt_int e = rw e (int_value-AllowedInt d v x ok (rw (check_value, e) at h))
      go opt_any e = rw e (any_value-AllowedString d v x ok (rw (check_value, e) at h))
      go opt_sym e = rw e (sym_value-wide d v x ok (rw (check_value, e) at h))
      go opt_switch e = rw e (bool_value-AllowedBoolean d v x ok (rw (check_value, e) at h))
      go opt_bool e = rw e (bool_value-AllowedBoolean d v x ok (rw (check_value, e) at h))
