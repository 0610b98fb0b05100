-- ===== src/RecordArray/Command.antt =====
-- `Twapi_RecordArrayHelperObjCmd` of twapi/base/recordarray.c, from its words to its result.
use twapi.Base.{ℕ, Option, none, some, List, [], ◌∷◌, length, if◌then◌else◌}
use twapi.Parseargs.Tcl.{Tcl}
use twapi.RecordArray.Reply.{
  invalid_args, invalid_data, bad_object, Reply, reply, refused, ◌>>=◌, expect, Lists,
}
use twapi.RecordArray.Twine.{to_enum}
use twapi.RecordArray.Options.{Options, no_options, Filter, parse_options, filters_of, indices_of}
use twapi.RecordArray.Records.{Slice, Query, has_key, run_query}

module _ {Obj Vars : Type 0} (tcl : Tcl Obj Vars) (lists : Lists Obj) where
  -- The key is looked up only for the formats that have one.
  unfoldable pub key_position : Options Obj → Obj → Reply (Option ℕ)
  unfolding to_enum
  key_position o fields = elim o.key [
    | none ↦ reply none
    | some key ↦
        if has_key o.format
        then (to_enum tcl lists fields key >>= λ k. reply (some k))
        else reply none
  ]

  unfoldable pub read_filters : Options Obj → Obj → Reply (List Filter)
  unfolding filters_of
  read_filters o fields = elim o.filter [
    | none ↦ reply []
    | some f ↦ expect (tcl.to_elements f) bad_object >>= λ os. filters_of tcl lists fields os
  ]

  unfoldable pub read_slice : Options Obj → Obj → Reply (Option (Slice Obj))
  unfolding indices_of
  read_slice o fields = elim o.slice [
    | none ↦ reply none
    | some s ↦ expect (tcl.to_elements s) bad_object >>= λ names.
        indices_of tcl lists fields names >>= λ ks.
        reply (some (record { names = names; indices = ks }))
  ]

  -- The query, once the fields are read.
  unfoldable pub run_records : Query Obj → List Obj → Reply Obj
  unfolding run_query
  run_records q [] = reply lists.empty
  run_records q (r ∷ rs) = expect (tcl.to_elements q.fields) bad_object >>= λ fs.
      run_query tcl lists (record q { nfields = length fs }) (r ∷ rs)

  -- From the options and the two elements of the record array on.
  unfoldable pub query : Options Obj → Obj → Obj → Reply Obj
  unfolding key_position read_filters read_slice run_records
  query o fields recs = do
    k ← key_position o fields
    fs ← read_filters o fields
    s ← read_slice o fields
    rs ← expect (tcl.to_elements recs) bad_object
    run_records
        (record {
          format = o.format;
          first = o.first;
          filters = fs;
          keyfield_pos = k;
          slice = s;
          fields = fields;
          nfields = 0;
        })
        rs

  -- The elements of the record array: none is an empty result, and two are its fields and records.
  unfoldable pub with_parts : Obj → (Obj → Obj → Reply Obj) → Reply Obj
  with_parts ra k = expect (tcl.to_elements ra) bad_object >>= λ es. elim es [
    | [] ↦ reply lists.empty
    | fields ∷ recs ∷ [] ↦ k fields recs
    | _ ↦ refused invalid_data
  ]

  -- The words of the command, without its name.
  unfoldable pub record_array : List Obj → Reply Obj
  unfolding with_parts query parse_options
  record_array [] = refused invalid_args
  record_array (ra ∷ []) = with_parts ra (λ fields recs. reply ra)
  record_array (w ∷ x ∷ ws) =
      parse_options tcl lists no_options (w ∷ x ∷ ws) >>= λ p. with_parts p.1 (query p.0)
