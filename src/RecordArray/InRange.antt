-- ===== src/RecordArray/InRange.antt =====
-- The positions that the options of `Twapi_RecordArrayHelperObjCmd` in twapi/base/recordarray.c are
-- read to: each is the position of a field.
use twapi.Base.{
  ℕ, ◌≡◌, refl, subst, inl, inr, ◌<◌, Bool, Option, none, some, List, [], ◌∷◌, length, map,
  AllBelow, arith, Bool-cases, Option-cases, ◌+◌,
}
use twapi.Parseargs.Tcl.{Str, streq, Tcl}
use twapi.RecordArray.Reply.{
  bad_object, invalid_args, reply, expect, Lists, bind-reply, expect-reply, reply-eq,
  refused-ne-reply,
}
use twapi.RecordArray.Twine.{one_further, position_of, to_enum}
use twapi.RecordArray.Options.{
  Filter, Options, nocase_word, filter_ops, operator_of, operand_of, make_filter, filter_of,
  filters_of, indices_of,
}
use twapi.RecordArray.Records.{Slice, has_key}
use twapi.RecordArray.Command.{key_position, read_filters, read_slice}
use twapi.RecordArray.Selects.{KeyBelow, SliceBelow}

module _ {Obj Vars : Type 0} (tcl : Tcl Obj Vars) (lists : Lists Obj) where
  some-eq : {A : Type 0} {a b : A} → some a ≡ some b → a ≡ b
  some-eq h = cc

  one_further-some :
      (o : Option ℕ) (k n : ℕ) → ((j : ℕ) → o ≡ some j → j < n) → one_further o ≡ some k → k < n + 1
  one_further-some none k n below h = cc
  one_further-some (some i) k n below h = omega (arith, below i refl, some-eq h)

  pub position_of-lt :
      (name : Str) (os : List Obj) (k : ℕ) → position_of tcl lists name os ≡ some k → k < length os
  unfolding position_of
  position_of-lt name [] k h = cc
  position_of-lt name (o ∷ os) k h = elim (Bool-cases (streq tcl name (tcl.to_string o))) [
    | inl e ↦ omega (arith, some-eq (rw (position_of, e) at h))
    | inr e ↦ omega (
      arith,
      one_further-some (position_of tcl lists name os) k (length os) (λ j. position_of-lt name os j)
          (rw (position_of, e) at h),
    )
  ]

  module _ (fields : Obj) (fs : List Obj) (ef : tcl.to_elements fields ≡ some fs) where
    pub to_enum-lt : (name : Obj) (k : ℕ) → to_enum tcl lists fields name ≡ reply k → k < length fs
    unfolding to_enum
    to_enum-lt name k h = position_of-lt (tcl.to_string name) fs k (
        expect-reply (position_of tcl lists (tcl.to_string name) fs) bad_object
          (rw (to_enum, ef) at h))

    make_filter-lt :
        (field op value : Obj) (nocase : Bool) (f : Filter)
        → make_filter tcl lists fields field op value nocase ≡ reply f
        → f.filter_pos < length fs
    unfolding make_filter
    make_filter-lt field op value nocase f h =
        let (pos, e1, h1) = bind-reply (to_enum tcl lists fields field) _ h in
        let (n, e2, h2) = bind-reply (expect (lists.get_index filter_ops op) bad_object) _ h1 in
        let (operand, e3, h3) = bind-reply (operand_of tcl lists (operator_of n) value) _ h2 in
        subst (λ x. x.filter_pos < length fs) (reply-eq h3) (to_enum-lt field pos e1)

    filter_of-lt :
        (es : List Obj) (f : Filter)
        → filter_of tcl lists fields es ≡ reply f
        → f.filter_pos < length fs
    unfolding filter_of
    filter_of-lt [] f h = cc
    filter_of-lt (a ∷ []) f h = cc
    filter_of-lt (a ∷ b ∷ []) f h = cc
    filter_of-lt (a ∷ b ∷ c ∷ []) f h = make_filter-lt a b c _ f h
    filter_of-lt (a ∷ b ∷ c ∷ d ∷ []) f h =
        elim (Bool-cases (streq tcl nocase_word (tcl.to_string d))) [
          | inl e ↦ make_filter-lt a b c _ f (rw (filter_of, e) at h)
          | inr e ↦ absurd (refused-ne-reply invalid_args f (rw (filter_of, e) at h))
        ]
    filter_of-lt (a ∷ b ∷ c ∷ d ∷ e ∷ es) f h = cc

    filters_of-below :
        (os : List Obj) (gs : List Filter)
        → filters_of tcl lists fields os ≡ reply gs
        → AllBelow (length fs) (map (λ f. f.filter_pos) gs)
    unfolding filters_of
    filters_of-below [] gs h =
        subst (λ l. AllBelow (length fs) (map (λ f. f.filter_pos) l)) (reply-eq h) tt
    filters_of-below (o ∷ os) gs h =
        let (es, e1, h1) = bind-reply (expect (tcl.to_elements o) bad_object) _ h in
        let (f, e2, h2) = bind-reply (filter_of tcl lists fields es) _ h1 in
        let (more, e3, h3) = bind-reply (filters_of tcl lists fields os) _ h2 in
        subst (λ l. AllBelow (length fs) (map (λ g. g.filter_pos) l)) (reply-eq h3)
          (filter_of-lt es f e2, filters_of-below os more e3)

    indices_of-below :
        (names : List Obj) (ks : List ℕ)
        → indices_of tcl lists fields names ≡ reply ks
        → AllBelow (length fs) ks
    unfolding indices_of
    indices_of-below [] ks h = subst (AllBelow (length fs)) (reply-eq h) tt
    indices_of-below (name ∷ names) ks h =
        let (k, e1, h1) = bind-reply (to_enum tcl lists fields name) _ h in
        let (more, e2, h2) = bind-reply (indices_of tcl lists fields names) _ h1 in
        subst (AllBelow (length fs)) (reply-eq h2)
          (to_enum-lt name k e1, indices_of-below names more e2)

    pub key_position-below :
        (o : Options Obj) (k : Option ℕ)
        → key_position tcl lists o fields ≡ reply k
        → KeyBelow (length fs) k
    unfolding key_position
    key_position-below o k h = elim (Option-cases o.key) [
      | inl e ↦ subst (KeyBelow (length fs)) (reply-eq (rw (key_position, e) at h)) tt
      | inr (key, e) ↦ elim (Bool-cases (has_key o.format)) [
        | inr f ↦ subst (KeyBelow (length fs)) (reply-eq (rw (key_position, e, f) at h)) tt
        | inl f ↦
            let (n, e1, h1) =
              bind-reply (to_enum tcl lists fields key) _ (rw (key_position, e, f) at h) in
            subst (KeyBelow (length fs)) (reply-eq h1) (to_enum-lt key n e1)
      ]
    ]

    pub read_filters-below :
        (o : Options Obj) (gs : List Filter)
        → read_filters tcl lists o fields ≡ reply gs
        → AllBelow (length fs) (map (λ f. f.filter_pos) gs)
    unfolding read_filters
    read_filters-below o gs h = elim (Option-cases o.filter) [
      | inl e ↦
          subst (λ l. AllBelow (length fs) (map (λ f. f.filter_pos) l))
            (reply-eq (rw (read_filters, e) at h)) tt
      | inr (f, e) ↦
          let (os, e1, h1) =
            bind-reply (expect (tcl.to_elements f) bad_object) _ (rw (read_filters, e) at h) in
          filters_of-below os gs h1
    ]

    pub read_slice-below :
        (o : Options Obj) (s : Option (Slice Obj))
        → read_slice tcl lists o fields ≡ reply s
        → SliceBelow (length fs) s
    unfolding read_slice
    read_slice-below o s h = elim (Option-cases o.slice) [
      | inl e ↦ subst (SliceBelow (length fs)) (reply-eq (rw (read_slice, e) at h)) tt
      | inr (l, e) ↦
          let (names, e1, h1) =
            bind-reply (expect (tcl.to_elements l) bad_object) _ (rw (read_slice, e) at h) in
          let (ks, e2, h2) = bind-reply (indices_of tcl lists fields names) _ h1 in
          subst (SliceBelow (length fs)) (reply-eq h2) (indices_of-below names ks e2)
    ]
