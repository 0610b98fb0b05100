-- ===== src/RecordArray/Queries.antt =====
-- `Twapi_RecordArrayHelperObjCmd` of twapi/base/recordarray.c as a whole, once its options are read.
use twapi.Base.{ℕ, ◌≡◌, refl, Option, some, List, ◌∷◌, length, map, concat_map}
use twapi.Parseargs.Tcl.{Tcl}
use twapi.RecordArray.Reply.{reply, Lists, IsLists}
use twapi.RecordArray.Options.{Filter, Options}
use twapi.RecordArray.Records.{Slice, Query, result_of, run_query}
use twapi.RecordArray.Command.{key_position, read_filters, read_slice, run_records, query}
use twapi.RecordArray.Selects.{
  Entry, IsTable, InFields, entry_row, chosen, objects_of-some, rows-chosen,
}
use twapi.RecordArray.InRange.{key_position-below, read_filters-below, read_slice-below}

-- The query that the options and the fields are read to.
abbrev pub query_of :
    {Obj : Type 0} → Options Obj → Obj → Option ℕ → List Filter → Option (Slice Obj) → ℕ → Query Obj
query_of o fields k gs s n = record {
  format = o.format;
  first = o.first;
  filters = gs;
  keyfield_pos = k;
  slice = s;
  fields = fields;
  nfields = n;
}

module _ {Obj Vars : Type 0} (tcl : Tcl Obj Vars) (lists : Lists Obj) where
  run_query-chosen :
      (laws : IsLists tcl lists) (q : Query Obj) (fs : List Obj) (t : List (Entry tcl lists))
      → tcl.to_elements q.fields ≡ some fs
      → InFields tcl lists q
      → IsTable tcl lists q.nfields t
      → run_query tcl lists q (map (λ e. e.0) t)
        ≡ reply
            (result_of tcl lists q (concat_map (entry_row tcl lists fs q) (chosen tcl lists q t)))
  unfolding run_query
  run_query-chosen laws q fs t ef v ist =
      rw
        (
          run_query,
          rows-chosen tcl lists laws q fs t ef v ist,
          objects_of-some tcl lists (concat_map (entry_row tcl lists fs q) (chosen tcl lists q t)),
        )
        refl

-- When the options can be read, there is at least one record, and every record is a list with a value
-- for each field, the command selects from the table of the records: it keeps the records whose fields pass all filters, or the first of them
-- with -first, puts the key field before each if a key applies, cuts each down to the slice, and
-- returns the outcome in the format.
pub query-selects :
    {Obj Vars : Type 0} (tcl : Tcl Obj Vars) (lists : Lists Obj) (laws : IsLists tcl lists)
    (o : Options Obj) (fields recs : Obj) (fs : List Obj) (e : Entry tcl lists)
    (t : List (Entry tcl lists)) (k : Option ℕ) (gs : List Filter) (s : Option (Slice Obj))
    → tcl.to_elements fields ≡ some fs
    → tcl.to_elements recs ≡ some (map (λ e. e.0) (e ∷ t))
    → IsTable tcl lists (length fs) (e ∷ t)
    → key_position tcl lists o fields ≡ reply k
    → read_filters tcl lists o fields ≡ reply gs
    → read_slice tcl lists o fields ≡ reply s
    → query tcl lists o fields recs
      ≡ reply (
          result_of tcl lists (query_of o fields k gs s (length fs)) (
            concat_map
              (entry_row tcl lists fs (query_of o fields k gs s (length fs)))
              (chosen tcl lists (query_of o fields k gs s (length fs)) (e ∷ t))))
unfolding query run_records
query-selects tcl lists laws o fields recs fs e t k gs s ef er ist ek eg es =
    rw (query, ek, eg, es, er, run_records, ef)
      (run_query-chosen tcl lists laws (query_of o fields k gs s (length fs)) fs (e ∷ t) ef
        (record {
          filters_below = read_filters-below tcl lists fields fs ef o gs eg;
          key_below = key_position-below tcl lists fields fs ef o k ek;
          slice_below = read_slice-below tcl lists fields fs ef o s es;
        })
        ist)
