-- ===== src/RecordArray/Selects.antt =====
-- The loop over the records and the result of `Twapi_RecordArrayHelperObjCmd` in
-- twapi/base/recordarray.c, compared with a selection from a table of complete records.
use twapi.Base.{
  ℕ, ◌≡◌, refl, sym, ap, subst, ◌∙◌, inl, inr, ◌≤◌, ◌<◌, Bool, true, false, Option, none, some,
  List, [], ◌∷◌, ◌++◌, length, map, take, get_or, get_elem?-get_or, filter, concat_map, map-append,
  AllBelow, arith, ltb, Bool-cases, if◌then◌else◌, Option-cases, append_nil,
}
use twapi.Parseargs.Tcl.{Tcl}
use twapi.RecordArray.Reply.{Reply, reply, ◌>>=◌, Lists, IsLists}
use twapi.RecordArray.Twine.{twine, twine_objv, twine_lists}
use twapi.RecordArray.Options.{Filter}
use twapi.RecordArray.Records.{
  Query, Slice, is_dict, passes, value_at, is_match, key_of, pick, value_of, row, rows, objects_of,
}

abbrev pub SliceBelow : {Obj : Type 0} → ℕ → Option (Slice Obj) → Type 0
SliceBelow n none = Unit
SliceBelow n (some s) = AllBelow n s.indices

abbrev pub KeyBelow : ℕ → Option ℕ → Type 0
KeyBelow n none = Unit
KeyBelow n (some k) = k < n

module _ {Obj Vars : Type 0} (tcl : Tcl Obj Vars) (lists : Lists Obj) where
  -- A record and its values.
  abbrev pub Entry : Type 0
  Entry = Obj × List Obj

  abbrev pub value : List Obj → ℕ → Obj
  value es n = get_or es n lists.empty

  -- Every filter is passed by the value of its field.
  abbrev pub keeps : List Filter → List Obj → Bool
  keeps [] es = true
  keeps (f ∷ fs) es = if passes tcl lists f (value es f.filter_pos) then keeps fs es else false

  abbrev pub key_part : Option ℕ → List Obj → List Obj
  key_part none es = []
  key_part (some k) es = value es k ∷ []

  -- What an entry becomes. `fs` are the names of the fields.
  abbrev pub value_part : List Obj → Query Obj → Entry → Obj
  value_part fs q e = elim q.slice [
    | none ↦ if is_dict q.format then tcl.from_list (twine_lists lists.empty fs e.1) else e.0
    | some s ↦
        let vs = map (value e.1) s.indices in
        tcl.from_list (if is_dict q.format then twine_objv s.names vs (length s.names) else vs)
  ]

  abbrev pub entry_row : List Obj → Query Obj → Entry → List Obj
  entry_row fs q e = key_part q.keyfield_pos e.1 ++ value_part fs q e ∷ []

  -- The entries that pass the filters, or the first of them.
  abbrev pub chosen : Query Obj → List Entry → List Entry
  chosen q t =
      if q.first
      then take 1 (filter (λ e. keeps q.filters e.1) t)
      else filter (λ e. keeps q.filters e.1) t

  abbrev pub IsEntry : ℕ → Entry → Type 0
  IsEntry n e = (tcl.to_elements e.0 ≡ some e.1) × (n ≤ length e.1)

  abbrev pub IsTable : ℕ → List Entry → Type 0
  IsTable n [] = Unit
  IsTable n (e ∷ t) = IsEntry n e × IsTable n t

  -- The positions that a query reads are positions of fields.
  pub record InFields (q : Query Obj) : Type 0 where
    pub filters_below : AllBelow q.nfields (map (λ f. f.filter_pos) q.filters)
    pub key_below : KeyBelow q.nfields q.keyfield_pos
    pub slice_below : SliceBelow q.nfields q.slice

  pub objects_of-some : (os : List Obj) → objects_of tcl lists (map some os) ≡ reply os
  unfolding objects_of
  objects_of-some [] = refl
  objects_of-some (o ∷ os) = rw (objects_of-some os) refl

  module _ (laws : IsLists tcl lists) (n : ℕ) (e : Entry) (is_entry : IsEntry n e) where
    pub value_at-value : (k : ℕ) → k < n → value_at tcl lists e.0 k ≡ reply (value e.1 k)
    unfolding value_at
    value_at-value k lt =
        rw
          (
            laws.index e.0 k e.1 is_entry.0,
            get_elem?-get_or e.1 k lists.empty (omega (arith, lt, is_entry.1)),
          )
          refl

    pub is_match-keeps :
        (fs : List Filter)
        → AllBelow n (map (λ f. f.filter_pos) fs)
        → is_match tcl lists fs e.0 ≡ reply (keeps fs e.1)
    unfolding is_match
    is_match-keeps [] below = refl
    is_match-keeps (f ∷ fs) (lt, below) =
        elim (Bool-cases (passes tcl lists f (value e.1 f.filter_pos))) [
          | inl p ↦ rw (value_at-value f.filter_pos lt, p) (is_match-keeps fs below)
          | inr p ↦ rw (value_at-value f.filter_pos lt, p) refl
        ]

    pick-value : (ks : List ℕ) → AllBelow n ks → pick tcl lists ks e.1 ≡ reply (map (value e.1) ks)
    unfolding pick
    pick-value [] below = refl
    pick-value (k ∷ ks) (lt, below) =
        rw
          (
            pick,
            get_elem?-get_or e.1 k lists.empty (omega (arith, lt, is_entry.1)),
            pick-value ks below,
          )
          refl

    key_of-part :
        (k : Option ℕ) → KeyBelow n k → key_of tcl lists k e.0 ≡ reply (map some (key_part k e.1))
    unfolding key_of
    key_of-part none below = refl
    key_of-part (some k) below = rw (value_at-value k below) refl

    value_of-part :
        (q : Query Obj) (fs : List Obj)
        → q.nfields ≡ n
        → SliceBelow n q.slice
        → tcl.to_elements q.fields ≡ some fs
        → value_of tcl lists q e.0 ≡ reply (some (value_part fs q e))
    unfolding value_of twine
    value_of-part q fs en below ef = elim (Option-cases q.slice) [
      | inl none_given ↦ elim (Bool-cases (is_dict q.format)) [
        | inl d ↦ rw (value_of, none_given, d, twine, ef, is_entry.0) refl
        | inr d ↦ rw (value_of, none_given, d) refl
      ]
      | inr (s, given) ↦
          let enough : ltb (length e.1) q.nfields ≡ false = ground (arith, en, is_entry.1) in
          rw
            (
              value_of,
              given,
              is_entry.0,
              enough,
              pick-value s.indices (subst (SliceBelow n) given below),
            )
            refl
    ]

    row-entry :
        (q : Query Obj) (fs : List Obj)
        → q.nfields ≡ n
        → InFields q
        → tcl.to_elements q.fields ≡ some fs
        → row tcl lists q e.0 ≡ reply (map some (entry_row fs q e))
    unfolding row
    row-entry q fs en v ef =
        rw
          (
            row,
            key_of-part q.keyfield_pos (subst (λ m. KeyBelow m q.keyfield_pos) en v.key_below),
            value_of-part q fs en (subst (λ m. SliceBelow m q.slice) en v.slice_below) ef,
          )
          (ap reply (sym (map-append some (key_part q.keyfield_pos e.1) (value_part fs q e ∷ []))))

  -- A row, and those after it unless it is to be the only one.
  join_rows :
      (b : Bool) (f : Entry → List Obj) (e : Entry) (l : List Entry)
      (more : Reply (List (Option Obj)))
      → more ≡ reply (map some (concat_map f (if b then take 1 l else l)))
      → (if b then reply (map some (f e)) else more >>= λ m. reply (map some (f e) ++ m))
        ≡ reply (map some (concat_map f (if b then take 1 (e ∷ l) else e ∷ l)))
  join_rows true f e l more h = ap (λ os. reply (map some os)) (sym (append_nil (f e)))
  join_rows false f e l more h = rw h (ap reply (sym (map-append some (f e) (concat_map f l))))

  pub rows-chosen :
      (laws : IsLists tcl lists) (q : Query Obj) (fs : List Obj) (t : List Entry)
      → tcl.to_elements q.fields ≡ some fs
      → InFields q
      → IsTable q.nfields t
      → rows tcl lists q (map (λ e. e.0) t)
        ≡ reply (map some (concat_map (entry_row fs q) (chosen q t)))
  unfolding rows
  rows-chosen laws q fs [] ef v ist = elim (Bool-cases q.first) [
    | inl f ↦ rw f refl
    | inr f ↦ rw f refl
  ]
  rows-chosen laws q fs (e ∷ t) ef v (ise, ist) =
      let m = is_match-keeps laws q.nfields e ise q.filters v.filters_below in
      let r = row-entry laws q.nfields e ise q fs refl v ef in
      let more = rows-chosen laws q fs t ef v ist in
      elim (Bool-cases (keeps q.filters e.1)) [
        | inr k ↦ rw (rows, m, k) (more ∙ refl)
        | inl k ↦ rw (rows, m, k, r) (join_rows q.first (entry_row fs q) e _ _ more)
      ]
