-- ===== src/RecordArray/Reads.antt =====
-- How the options of `Twapi_RecordArrayHelperObjCmd` of twapi/base/recordarray.c are read: without a
-- null pointer.
use twapi.Base.{
  ◌≡◌, refl, inl, inr, Bool, true, false, none, List, [], ◌∷◌, Bool-cases, Option-cases,
}
use twapi.Parseargs.Tcl.{streq, Tcl}
use twapi.RecordArray.Reply.{bad_object, Lists, Ends, ends, stops, Always, bind-Ends, expect-Ends}
use twapi.RecordArray.Twine.{to_enum, position_of}
use twapi.RecordArray.Options.{
  Options, nocase_word, filter_ops, operator_of, Operator, operand_of, is_int_op, make_filter,
  filter_of, filters_of, indices_of,
}
use twapi.RecordArray.Records.{has_key}
use twapi.RecordArray.Command.{key_position, read_filters, read_slice}

module _ {Obj Vars : Type 0} (tcl : Tcl Obj Vars) (lists : Lists Obj) where
  to_enum-Ends : (fields name : Obj) → Ends Always (to_enum tcl lists fields name)
  unfolding to_enum
  to_enum-Ends fields name =
      bind-Ends _ _ (expect-Ends (tcl.to_elements fields) bad_object)
        (λ os e u. expect-Ends (position_of tcl lists (tcl.to_string name) os) bad_object)

  operand_of-Ends : (op : Operator) (value : Obj) → Ends Always (operand_of tcl lists op value)
  unfolding operand_of
  operand_of-Ends op value = elim (Bool-cases (is_int_op tcl lists op)) [
    | inl i ↦
        rw (operand_of, i)
          (bind-Ends _ _ (expect-Ends (tcl.to_wide value) bad_object) (λ w e u. ends tt))
    | inr i ↦ rw (operand_of, i) (ends tt)
  ]

  make_filter-Ends :
      (fields field op value : Obj) (nocase : Bool)
      → Ends Always (make_filter tcl lists fields field op value nocase)
  unfolding make_filter
  make_filter-Ends fields field op value nocase =
      bind-Ends _ _ (to_enum-Ends fields field) (λ pos e u.
        bind-Ends _ _ (expect-Ends (lists.get_index filter_ops op) bad_object)
          (λ n e1 u1. bind-Ends _ _ (operand_of-Ends (operator_of n) value) (λ x e2 u2. ends tt)))

  filter_of-Ends : (fields : Obj) (es : List Obj) → Ends Always (filter_of tcl lists fields es)
  unfolding filter_of
  filter_of-Ends fields [] = stops
  filter_of-Ends fields (a ∷ []) = stops
  filter_of-Ends fields (a ∷ b ∷ []) = stops
  filter_of-Ends fields (a ∷ b ∷ c ∷ []) = make_filter-Ends fields a b c false
  filter_of-Ends fields (a ∷ b ∷ c ∷ d ∷ []) =
      elim (Bool-cases (streq tcl nocase_word (tcl.to_string d))) [
        | inl e ↦ rw (filter_of, e) (make_filter-Ends fields a b c true)
        | inr e ↦ rw (filter_of, e) stops
      ]
  filter_of-Ends fields (a ∷ b ∷ c ∷ d ∷ e ∷ es) = stops

  filters_of-Ends : (fields : Obj) (os : List Obj) → Ends Always (filters_of tcl lists fields os)
  unfolding filters_of
  filters_of-Ends fields [] = ends tt
  filters_of-Ends fields (o ∷ os) =
      bind-Ends _ _ (expect-Ends (tcl.to_elements o) bad_object) (λ es e u.
        bind-Ends _ _ (filter_of-Ends fields es)
          (λ f e1 u1. bind-Ends _ _ (filters_of-Ends fields os) (λ fs e2 u2. ends tt)))

  indices_of-Ends : (fields : Obj) (os : List Obj) → Ends Always (indices_of tcl lists fields os)
  unfolding indices_of
  indices_of-Ends fields [] = ends tt
  indices_of-Ends fields (o ∷ os) =
      bind-Ends _ _ (to_enum-Ends fields o)
        (λ k e u. bind-Ends _ _ (indices_of-Ends fields os) (λ ks e1 u1. ends tt))

  pub key_position-Ends :
      (o : Options Obj) (fields : Obj) → Ends Always (key_position tcl lists o fields)
  unfolding key_position
  key_position-Ends o fields = elim (Option-cases o.key) [
    | inl e ↦ rw (key_position, e) (ends tt)
    | inr (key, e) ↦ elim (Bool-cases (has_key o.format)) [
      | inl f ↦
          rw (key_position, e, f) (bind-Ends _ _ (to_enum-Ends fields key) (λ k e1 u. ends tt))
      | inr f ↦ rw (key_position, e, f) (ends tt)
    ]
  ]

  pub read_filters-Ends :
      (o : Options Obj) (fields : Obj) → Ends Always (read_filters tcl lists o fields)
  unfolding read_filters
  read_filters-Ends o fields = elim (Option-cases o.filter) [
    | inl e ↦ rw (read_filters, e) (ends tt)
    | inr (f, e) ↦
        rw (read_filters, e)
          (bind-Ends _ _ (expect-Ends (tcl.to_elements f) bad_object)
            (λ os e1 u. filters_of-Ends fields os))
  ]

  pub read_slice-Ends :
      (o : Options Obj) (fields : Obj)
      → Ends (λ s. s ≡ none → o.slice ≡ none) (read_slice tcl lists o fields)
  unfolding read_slice
  read_slice-Ends o fields = elim (Option-cases o.slice) [
    | inl e ↦ rw (read_slice, e) (ends (λ q. refl))
    | inr (l, e) ↦
        rw (read_slice, e)
          (bind-Ends _ _ (expect-Ends (tcl.to_elements l) bad_object) (λ names e1 u.
            bind-Ends _ _ (indices_of-Ends fields names) (λ ks e2 u2. ends (λ q. cc))))
  ]
