-- ===== src/RecordArray/NeverNull.antt =====
-- The null pointers of `Twapi_RecordArrayHelperObjCmd` in twapi/base/recordarray.c.
use twapi.Base.{
  ℕ, ◌≡◌, subst, ◌≢◌, inl, inr, ◌≤◌, false, Option, none, some, List, [], ◌∷◌, ◌++◌, length,
  get_elem?-get_or, AllBelow, arith, ltb, Bool-cases, Option-cases,
}
use twapi.Parseargs.Tcl.{Tcl}
use twapi.RecordArray.Reply.{
  invalid_data, bad_object, null_pointer, Lists, Ends, ends, stops, Always, bind-Ends, expect-Ends,
  Ends-ne-null, expect-reply,
}
use twapi.RecordArray.Options.{Filter, Options}
use twapi.RecordArray.Records.{
  Slice, Query, is_dict, passes, value_at, is_match, key_of, pick, value_of, row, rows, objects_of,
  run_query,
}
use twapi.RecordArray.Command.{run_records, query}
use twapi.RecordArray.Selects.{SliceBelow}
use twapi.RecordArray.InRange.{read_slice-below}
use twapi.RecordArray.Queries.{query_of}
use twapi.RecordArray.Reads.{key_position-Ends, read_filters-Ends, read_slice-Ends}

-- No null pointer in `output`.
abbrev IsObject : {Obj : Type 0} → Option Obj → Type 0
IsObject none = ⊥
IsObject (some o) = Unit

abbrev AllObjects : {Obj : Type 0} → List (Option Obj) → Type 0
AllObjects [] = Unit
AllObjects (o ∷ os) = IsObject o × AllObjects os

-- Records that are twined with the names of the fields need a slice.
abbrev pub IsSliced : {Obj : Type 0} → Query Obj → Type 0
IsSliced q = q.slice ≡ none → is_dict q.format ≡ false

AllObjects-append :
    {Obj : Type 0} (os ps : List (Option Obj))
    → AllObjects os
    → AllObjects ps
    → AllObjects (os ++ ps)
AllObjects-append [] ps h k = k
AllObjects-append (o ∷ os) ps (h0, h) k = (h0, AllObjects-append os ps h k)

SliceBelow-given :
    {Obj : Type 0} (n : ℕ) (o : Option (Slice Obj)) (s : Slice Obj)
    → o ≡ some s
    → SliceBelow n o
    → AllBelow n s.indices
SliceBelow-given n o s e h = subst (SliceBelow n) e h

module _ {Obj Vars : Type 0} (tcl : Tcl Obj Vars) (lists : Lists Obj) where
  value_at-Ends : (r : Obj) (n : ℕ) → Ends Always (value_at tcl lists r n)
  unfolding value_at
  value_at-Ends r n =
      bind-Ends _ _ (expect-Ends (lists.list_index r n) bad_object)
        (λ v e u. expect-Ends v invalid_data)

  is_match-Ends : (fs : List Filter) (r : Obj) → Ends Always (is_match tcl lists fs r)
  unfolding is_match
  is_match-Ends [] r = ends tt
  is_match-Ends (f ∷ fs) r = bind-Ends _ _ (value_at-Ends r f.filter_pos) (λ v e u.
      elim (Bool-cases (passes tcl lists f v)) [
        | inl p ↦ rw p (is_match-Ends fs r)
        | inr p ↦ rw p (ends tt)
      ])

  key_of-Ends : (k : Option ℕ) (r : Obj) → Ends AllObjects (key_of tcl lists k r)
  unfolding key_of
  key_of-Ends none r = ends tt
  key_of-Ends (some n) r = bind-Ends _ _ (value_at-Ends r n) (λ v e u. ends (tt, tt))

  pick-Ends :
      (ks : List ℕ) (values : List Obj)
      → AllBelow (length values) ks
      → Ends Always (pick tcl lists ks values)
  unfolding pick
  pick-Ends [] values below = ends tt
  pick-Ends (k ∷ ks) values (lt, below) =
      rw (pick, get_elem?-get_or values k lists.empty lt)
        (bind-Ends _ _ (pick-Ends ks values below) (λ vs e u. ends tt))

  AllBelow-le : (m n : ℕ) (ks : List ℕ) → m ≤ n → AllBelow m ks → AllBelow n ks
  AllBelow-le m n [] le below = tt
  AllBelow-le m n (k ∷ ks) le (lt, below) = (omega (arith, le, lt), AllBelow-le m n ks le below)

  value_of-Ends :
      (q : Query Obj) (r : Obj)
      → IsSliced q
      → SliceBelow q.nfields q.slice
      → Ends IsObject (value_of tcl lists q r)
  unfolding value_of
  value_of-Ends q r sliced below = elim (Option-cases q.slice) [
    | inl e ↦ rw (value_of, e, sliced e) (ends tt)
    | inr (s, e) ↦
        rw (value_of, e)
          (bind-Ends _ _ (expect-Ends (tcl.to_elements r) bad_object) (λ values e1 u.
            elim (Bool-cases (ltb (length values) q.nfields)) [
              | inl short ↦ rw short stops
              | inr enough ↦ rw enough (
                  bind-Ends _ _
                    (pick-Ends s.indices values (
                      AllBelow-le q.nfields (length values) s.indices (ground (arith, enough))
                        (SliceBelow-given q.nfields q.slice s e below)))
                    (λ vs e2 u2. ends tt))
            ]))
  ]

  module _ (q : Query Obj) (sliced : IsSliced q) (below : SliceBelow q.nfields q.slice) where
    row-Ends : (r : Obj) → Ends AllObjects (row tcl lists q r)
    unfolding row
    row-Ends r = bind-Ends _ _ (key_of-Ends q.keyfield_pos r) (λ k e all.
        bind-Ends _ _ (value_of-Ends q r sliced below)
          (λ v e1 is_object. ends (AllObjects-append k (v ∷ []) all (is_object, tt))))

    rows-Ends : (rs : List Obj) → Ends AllObjects (rows tcl lists q rs)
    unfolding rows
    rows-Ends [] = ends tt
    rows-Ends (r ∷ rs) = bind-Ends _ _ (is_match-Ends q.filters r) (λ m e u. elim (Bool-cases m) [
      | inr n ↦ rw n (rows-Ends rs)
      | inl y ↦ rw y (
          bind-Ends _ _ (row-Ends r) (λ out e1 all. elim (Bool-cases q.first) [
            | inl f ↦ rw f (ends all)
            | inr f ↦ rw f (
                bind-Ends _ _ (rows-Ends rs)
                  (λ more e2 all2. ends (AllObjects-append out more all all2)))
          ]))
    ])

  objects_of-Ends : (os : List (Option Obj)) → AllObjects os → Ends Always (objects_of tcl lists os)
  unfolding objects_of
  objects_of-Ends [] all = ends tt
  objects_of-Ends (none ∷ os) (null, all) = absurd null
  objects_of-Ends (some o ∷ os) (is_object, all) =
      bind-Ends _ _ (objects_of-Ends os all) (λ more e u. ends tt)

  run_records-Ends :
      (q : Query Obj) (rs : List Obj)
      → IsSliced q
      → ((fs : List Obj) → tcl.to_elements q.fields ≡ some fs → SliceBelow (length fs) q.slice)
      → Ends Always (run_records tcl lists q rs)
  unfolding run_records run_query
  run_records-Ends q [] sliced below = ends tt
  run_records-Ends q (r ∷ rs) sliced below =
      bind-Ends _ _ (expect-Ends (tcl.to_elements q.fields) bad_object) (λ fs e u.
        let q' = record q { nfields = length fs } in
        bind-Ends _ _ (rows-Ends q' sliced (below fs (expect-reply _ bad_object e)) (r ∷ rs))
          (λ out e1 all. bind-Ends _ _ (objects_of-Ends out all) (λ os e2 u2. ends tt)))

  query-Ends :
      (o : Options Obj) (fields recs : Obj)
      → (o.slice ≡ none → is_dict o.format ≡ false)
      → Ends Always (query tcl lists o fields recs)
  unfolding query
  query-Ends o fields recs h = bind-Ends _ _ (key_position-Ends tcl lists o fields) (λ k e u.
      bind-Ends _ _ (read_filters-Ends tcl lists o fields) (λ gs e1 u1.
        bind-Ends _ _ (read_slice-Ends tcl lists o fields) (λ s e2 from.
          bind-Ends _ _ (expect-Ends (tcl.to_elements recs) bad_object) (λ rs e3 u3.
            run_records-Ends (query_of o fields k gs s 0) rs (λ q. h (from q))
              (λ fs ef. read_slice-below tcl lists fields fs ef o s e2)))))

  -- Unless the records are to be dictionaries of all their fields, the command never dereferences a
  -- null pointer and never reads past the end of a record, whatever it is given.
  pub query-ne-null :
      (o : Options Obj) (fields recs : Obj)
      → (o.slice ≡ none → is_dict o.format ≡ false)
      → query tcl lists o fields recs ≢ null_pointer
  query-ne-null o fields recs h = Ends-ne-null _ (query-Ends o fields recs h)
