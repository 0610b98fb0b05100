-- ===== src/RecordArray/NotAList.antt =====
-- What `Twapi_RecordArrayHelperObjCmd` of twapi/base/recordarray.c does for a record that is not a list,
-- when the records are to be dictionaries.
use twapi.Base.{
  ◌≡◌, refl, inl, inr, false, Option, none, some, List, [], ◌∷◌, ◌++◌, map, map-append,
  Option-cases,
}
use twapi.Parseargs.Tcl.{Tcl}
use twapi.RecordArray.Reply.{reply, null_pointer, Lists}
use twapi.RecordArray.Twine.{twine}
use twapi.RecordArray.Options.{dict}
use twapi.RecordArray.Records.{Query, row, key_of, value_of, is_match, rows, objects_of, run_query}

-- No filters, no key, no slice, not only the first record.
pub record IsPlainDict {Obj : Type 0} (q : Query Obj) : Type 0 where
  pub format : q.format ≡ dict
  pub first : q.first ≡ false
  pub filters : q.filters ≡ []
  pub key : q.keyfield_pos ≡ none
  pub slice : q.slice ≡ none

module _ {Obj Vars : Type 0} (tcl : Tcl Obj Vars) (lists : Lists Obj) where
  rows-twine :
      (q : Query Obj) (rs : List Obj)
      → IsPlainDict q
      → rows tcl lists q rs ≡ reply (map (twine tcl lists q.fields) rs)
  unfolding rows is_match row key_of value_of
  rows-twine q [] p = refl
  rows-twine q (r ∷ rs) p =
      rw
        (
          rows,
          is_match,
          p.filters,
          row,
          key_of,
          p.key,
          value_of,
          p.slice,
          p.format,
          p.first,
          rows-twine q rs p,
        )
        refl

  objects_of-null :
      (os ps : List (Option Obj)) → objects_of tcl lists (os ++ none ∷ ps) ≡ null_pointer
  unfolding objects_of
  objects_of-null [] ps = refl
  objects_of-null (none ∷ os) ps = refl
  objects_of-null (some o ∷ os) ps = rw (objects_of-null os ps) refl

  -- With the format dict and no other option, a null pointer is dereferenced as soon as one of the
  -- records is not a list.
  pub run_query-null :
      (q : Query Obj) (rs : List Obj) (r : Obj) (rs' : List Obj)
      → IsPlainDict q
      → tcl.to_elements r ≡ none
      → run_query tcl lists q (rs ++ r ∷ rs') ≡ null_pointer
  unfolding run_query twine
  run_query-null q rs r rs' p e =
      let null : twine tcl lists q.fields r ≡ none =
        elim (Option-cases (tcl.to_elements q.fields)) [
          | inl e1 ↦ rw (twine, e1) refl
          | inr (fs, e1) ↦ rw (twine, e1, e) refl
        ] in
      rw
        (
          run_query,
          rows-twine q (rs ++ r ∷ rs') p,
          map-append (twine tcl lists q.fields) rs (r ∷ rs'),
          null,
          objects_of-null (map (twine tcl lists q.fields) rs) (map (twine tcl lists q.fields) rs'),
        )
        refl
