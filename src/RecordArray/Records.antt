-- ===== src/RecordArray/Records.antt =====
-- `Twapi_RecordArrayHelperObjCmd` of twapi/base/recordarray.c: the loop over the records, and the result.
use twapi.Base.{
  ℕ, ◌+◌, ◌%◌, ◌^◌, Bool, true, false, not, Option, none, some, List, [], ◌∷◌, ◌++◌, length,
  get_elem?, ltb, leb, ◌==◌, if◌then◌else◌,
}
use twapi.Parseargs.Tcl.{Str, Tcl}
use twapi.RecordArray.Reply.{
  invalid_data, bad_object, Reply, reply, refused, null_pointer, ◌>>=◌, expect, Lists,
}
use twapi.RecordArray.Twine.{twine, twine_objv}
use twapi.RecordArray.Options.{
  Format, recordarray, flat, list, dict, Operator, eq, ne, match, no_match, eq_int, ne_int, lt_int,
  le_int, gt_int, ge_int, string, wide, Filter,
}

-- A `Tcl_WideInt` is given by its bits: with the sign bit flipped, they are in its order.
abbrev pub biased : ℕ → ℕ
biased w = (w + 2 ^ 63) % 2 ^ 64

unfoldable pub compare_wide : Operator → ℕ → ℕ → Bool
compare_wide eq_int v w = v == w
compare_wide ne_int v w = not (v == w)
compare_wide lt_int v w = ltb (biased v) (biased w)
compare_wide le_int v w = leb (biased v) (biased w)
compare_wide gt_int v w = ltb (biased w) (biased v)
compare_wide ge_int v w = leb (biased w) (biased v)
compare_wide eq v w = true
compare_wide ne v w = true
compare_wide match v w = true
compare_wide no_match v w = true

-- The names and the positions of a slice.
pub record Slice (Obj : Type 0) : Type 0 where
  pub names : List Obj
  pub indices : List ℕ

-- What the loop over the records reads.
pub record Query (Obj : Type 0) : Type 0 where
  pub format : Format
  pub first : Bool
  pub filters : List Filter
  pub keyfield_pos : Option ℕ
  pub slice : Option (Slice Obj)
  pub fields : Obj
  pub nfields : ℕ

abbrev pub is_dict : Format → Bool
is_dict recordarray = false
is_dict flat = false
is_dict list = false
is_dict dict = true

abbrev pub has_key : Format → Bool
has_key recordarray = false
has_key flat = false
has_key list = true
has_key dict = true

module _ {Obj Vars : Type 0} (tcl : Tcl Obj Vars) (lists : Lists Obj) where
  -- `filters[j].cmpfn(...)`, and `negate`.
  unfoldable pub compare_string : Operator → Bool → Str → Str → Bool
  compare_string eq nocase v w = if nocase then lists.lstri_equal v w else tcl.lstr_equal v w
  compare_string ne nocase v w = not (if nocase then lists.lstri_equal v w else tcl.lstr_equal v w)
  compare_string match nocase v w = lists.string_match v w nocase
  compare_string no_match nocase v w = not (lists.string_match v w nocase)
  compare_string eq_int nocase v w = true
  compare_string ne_int nocase v w = true
  compare_string lt_int nocase v w = true
  compare_string le_int nocase v w = true
  compare_string gt_int nocase v w = true
  compare_string ge_int nocase v w = true

  -- Does a value pass a filter? A value that is not a number passes no test on numbers.
  unfoldable pub passes : Filter → Obj → Bool
  unfolding compare_wide compare_string
  passes f v = elim f.operand [
    | wide w ↦ elim (tcl.to_wide v) [ none ↦ false | some x ↦ compare_wide f.filter_op x w ]
    | string s ↦ compare_string f.filter_op f.nocase (tcl.to_string v) s
  ]

  -- `ObjListIndex`, which gives a null pointer past the end of the list.
  unfoldable pub value_at : Obj → ℕ → Reply Obj
  value_at r n = expect (lists.list_index r n) bad_object >>= λ v. expect v invalid_data

  -- The loop over the filters.
  unfoldable pub is_match : List Filter → Obj → Reply Bool
  unfolding passes value_at
  is_match [] r = reply true
  is_match (f ∷ fs) r =
      value_at r f.filter_pos >>= λ v. if passes f v then is_match fs r else reply false

  unfoldable pub key_of : Option ℕ → Obj → Reply (List (Option Obj))
  unfolding value_at
  key_of none r = reply []
  key_of (some n) r = value_at r n >>= λ v. reply (some v ∷ [])

  -- `slice_values`; a position past the end of the record would be read outside of it.
  unfoldable pub pick : List ℕ → List Obj → Reply (List Obj)
  pick [] values = reply []
  pick (k ∷ ks) values = elim (get_elem? values k) [
    | none ↦ null_pointer
    | some v ↦ pick ks values >>= λ vs. reply (v ∷ vs)
  ]

  -- The object for a record; none is a null pointer.
  unfoldable pub value_of : Query Obj → Obj → Reply (Option Obj)
  unfolding pick twine
  value_of q r = elim q.slice [
    | none ↦ if is_dict q.format then reply (twine tcl lists q.fields r) else reply (some r)
    | some s ↦ expect (tcl.to_elements r) bad_object >>= λ values.
        if ltb (length values) q.nfields
        then refused invalid_data
        else pick s.indices values >>= λ vs. reply (
            some (
              tcl.from_list
                (if is_dict q.format then twine_objv s.names vs (length s.names) else vs)))
  ]

  -- What a record that matches adds to `output`.
  unfoldable pub row : Query Obj → Obj → Reply (List (Option Obj))
  unfolding key_of value_of
  row q r = key_of q.keyfield_pos r >>= λ k. value_of q r >>= λ v. reply (k ++ v ∷ [])

  -- The loop over the records: `output` at its end.
  unfoldable pub rows : Query Obj → List Obj → Reply (List (Option Obj))
  unfolding is_match row
  rows q [] = reply []
  rows q (r ∷ rs) = is_match q.filters r >>= λ m.
      if m
      then (row q r >>= λ out.
          if q.first then reply out else rows q rs >>= λ more. reply (out ++ more))
      else rows q rs

  -- The result is made from `output`, where a null pointer is dereferenced.
  unfoldable pub objects_of : List (Option Obj) → Reply (List Obj)
  objects_of [] = reply []
  objects_of (none ∷ os) = null_pointer
  objects_of (some o ∷ os) = objects_of os >>= λ more. reply (o ∷ more)

  -- The loop with `Tcl_ListObjAppendList`.
  unfoldable pub append_all : Obj → List Obj → Obj
  append_all l [] = l
  append_all l (o ∷ os) = append_all (lists.append_list l o) os

  unfoldable pub fields_of : Query Obj → Obj
  fields_of q = elim q.slice [ none ↦ q.fields | some s ↦ tcl.from_list s.names ]

  unfoldable pub result_of : Query Obj → List Obj → Obj
  unfolding append_all fields_of
  result_of q os = elim q.format [
    | recordarray ↦ tcl.from_list (fields_of q ∷ tcl.from_list os ∷ [])
    | flat ↦ append_all (tcl.from_list []) os
    | list ↦ tcl.from_list os
    | dict ↦ tcl.from_list os
  ]

  unfoldable pub run_query : Query Obj → List Obj → Reply Obj
  unfolding rows objects_of result_of
  run_query q rs = do out ← rows q rs; os ← objects_of out; reply (result_of q os)
