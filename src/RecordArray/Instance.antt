-- ===== src/RecordArray/Instance.antt =====
-- The commands that `Twapi_RecordObjCmd` of twapi/base/recordarray.c makes: `RecordGetField` and
-- `RecordInstanceObjCmd`.
use twapi.Base.{ℕ, Bool, true, false, List, [], ◌∷◌, length, leb, ◌==◌, if◌then◌else◌}
use twapi.Parseargs.Tcl.{Str, Tcl}
use twapi.RecordArray.Reply.{
  invalid_args, invalid_data, bad_object, Reply, reply, refused, ◌>>=◌, expect, Lists,
}
use twapi.RecordArray.Twine.{twine, to_enum}

-- The table `cmds`: get, set and select.
abbrev pub cmds : List Str
cmds =
    (103 ∷ 101 ∷ 116 ∷ []) ∷ (115 ∷ 101 ∷ 116 ∷ []) ∷ (115 ∷ 101 ∷ 108 ∷ 101 ∷ 99 ∷ 116 ∷ []) ∷ []

module _ {Obj Vars : Type 0} (tcl : Tcl Obj Vars) (lists : Lists Obj) where
  unfoldable pub get_field : Obj → Obj → Obj → Reply Obj
  unfolding to_enum
  get_field fields rec field = do
    k ← to_enum tcl lists fields field
    v ← expect (lists.list_index rec k) bad_object
    expect v invalid_data

  -- The loop over the pairs of a field and a value: `rec` is the record given, `o` the one changed.
  unfoldable pub set_fields : Obj → Obj → Obj → List Obj → Reply Obj
  unfolding to_enum
  set_fields fields rec o [] = reply o
  set_fields fields rec o (field ∷ []) = reply o
  set_fields fields rec o (field ∷ value ∷ more) = to_enum tcl lists fields field >>= λ k.
      expect (tcl.to_elements rec) bad_object >>= λ es.
      if leb (length es) k
      then refused invalid_data
      else set_fields fields rec (lists.list_replace o k value) more

  -- The loop over the fields of `select`.
  unfoldable pub select_fields : Obj → Obj → List Obj → Reply (List Obj)
  unfolding get_field
  select_fields fields rec [] = reply []
  select_fields fields rec (f ∷ fs) = do
    v ← get_field fields rec f
    vs ← select_fields fields rec fs
    reply (v ∷ vs)

  -- The pairs of `set` are complete, and there is one.
  unfoldable pub is_pairs : List Obj → Bool
  is_pairs [] = false
  is_pairs (f ∷ []) = false
  is_pairs (f ∷ v ∷ []) = true
  is_pairs (f ∷ v ∷ more) = is_pairs more

  -- With three words or more after the name of the command.
  unfoldable pub subcommand : ℕ → Obj → Obj → List Obj → Reply Obj
  unfolding get_field set_fields select_fields is_pairs
  subcommand n fields rec args =
      if n == 0
      then elim args [ field ∷ [] ↦ get_field fields rec field | _ ↦ refused invalid_args ]
      else if n == 1
      then (if is_pairs args then set_fields fields rec rec args else refused invalid_args)
      else elim args [
        | fs ∷ [] ↦ expect (tcl.to_elements fs) bad_object >>= λ names.
            select_fields fields rec names >>= λ vs. reply (tcl.from_list vs)
        | _ ↦ refused invalid_args
      ]

  -- The words of `RecordInstanceObjCmd`, without its name.
  unfoldable pub record_instance : Obj → List Obj → Reply Obj
  unfolding twine get_field subcommand
  record_instance fields [] = reply fields
  record_instance fields (rec ∷ []) = expect (tcl.to_elements fields) bad_object >>= λ fs.
      expect (tcl.to_elements rec) bad_object >>= λ es.
      if length fs == length es
      then expect (twine tcl lists fields rec) bad_object
      else refused invalid_data
  record_instance fields (field ∷ rec ∷ []) = get_field fields rec field
  record_instance fields (cmd ∷ rec ∷ arg ∷ args) =
      expect (lists.get_index cmds cmd) bad_object >>= λ n. subcommand n fields rec (arg ∷ args)
