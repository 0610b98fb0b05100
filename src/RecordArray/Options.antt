-- ===== src/RecordArray/Options.antt =====
-- The words of `Twapi_RecordArrayHelperObjCmd` of twapi/base/recordarray.c: its options, and the filters
-- and the slice that they name.
use twapi.Base.{ℕ, Bool, true, false, Option, none, some, List, [], ◌∷◌, ◌==◌, if◌then◌else◌}
use twapi.Parseargs.Tcl.{Str, streq, Tcl}
use twapi.RecordArray.Reply.{invalid_args, bad_object, Reply, reply, refused, ◌>>=◌, expect, Lists}
use twapi.RecordArray.Twine.{to_enum}

pub data Format : Type 0 where
  recordarray flat list dict : Format

pub data Operator : Type 0 where
  eq ne match no_match eq_int ne_int lt_int le_int gt_int ge_int : Operator

pub record Options (Obj : Type 0) : Type 0 where
  pub format : Format
  pub slice : Option Obj
  pub filter : Option Obj
  pub key : Option Obj
  pub first : Bool

abbrev pub no_options : {Obj : Type 0} → Options Obj
no_options = record { format = recordarray; slice = none; filter = none; key = none; first = false }

-- The tables `opts`, `formats` and `filter_ops`.
abbrev pub opts : List Str
opts =
    (45 ∷ 102 ∷ 111 ∷ 114 ∷ 109 ∷ 97 ∷ 116 ∷ [])
    ∷ (45 ∷ 115 ∷ 108 ∷ 105 ∷ 99 ∷ 101 ∷ [])
    ∷ (45 ∷ 102 ∷ 105 ∷ 108 ∷ 116 ∷ 101 ∷ 114 ∷ [])
    ∷ (45 ∷ 107 ∷ 101 ∷ 121 ∷ [])
    ∷ (45 ∷ 102 ∷ 105 ∷ 114 ∷ 115 ∷ 116 ∷ [])
    ∷ []

abbrev pub formats : List Str
formats =
    (114 ∷ 101 ∷ 99 ∷ 111 ∷ 114 ∷ 100 ∷ 97 ∷ 114 ∷ 114 ∷ 97 ∷ 121 ∷ [])
    ∷ (102 ∷ 108 ∷ 97 ∷ 116 ∷ [])
    ∷ (108 ∷ 105 ∷ 115 ∷ 116 ∷ [])
    ∷ (100 ∷ 105 ∷ 99 ∷ 116 ∷ [])
    ∷ []

abbrev pub filter_ops : List Str
filter_ops =
    (101 ∷ 113 ∷ [])
    ∷ (110 ∷ 101 ∷ [])
    ∷ (126 ∷ [])
    ∷ (33 ∷ 126 ∷ [])
    ∷ (61 ∷ 61 ∷ [])
    ∷ (33 ∷ 61 ∷ [])
    ∷ (60 ∷ [])
    ∷ (60 ∷ 61 ∷ [])
    ∷ (62 ∷ [])
    ∷ (62 ∷ 61 ∷ [])
    ∷ []

-- "-nocase"
abbrev pub nocase_word : Str
nocase_word = 45 ∷ 110 ∷ 111 ∷ 99 ∷ 97 ∷ 115 ∷ 101 ∷ []

-- The enums of the positions in the tables.
unfoldable pub format_of : ℕ → Format
format_of n = if n == 1 then flat else if n == 2 then list else if n == 3 then dict else recordarray

unfoldable pub operator_of : ℕ → Operator
operator_of n =
    if n == 0
    then eq
    else if n == 1
    then ne
    else if n == 2
    then match
    else if n == 3
    then no_match
    else if n == 4
    then eq_int
    else if n == 5
    then ne_int
    else if n == 6
    then lt_int
    else if n == 7
    then le_int
    else if n == 8
    then gt_int
    else ge_int

pub data Operand : Type 0 where
  string : Str → Operand
  wide : ℕ → Operand

-- An element of `filters`.
pub record Filter : Type 0 where
  pub filter_op : Operator
  pub filter_pos : ℕ
  pub nocase : Bool
  pub operand : Operand

module _ {Obj Vars : Type 0} (tcl : Tcl Obj Vars) (lists : Lists Obj) where
  -- An option with its value.
  unfoldable pub take_option : ℕ → Obj → Options Obj → Reply (Options Obj)
  unfolding format_of
  take_option n value o =
      if n == 0
      then (expect (lists.get_index formats value) bad_object >>= λ k.
          reply (record o { format = format_of k }))
      else if n == 1
      then reply (record o { slice = some value })
      else if n == 2
      then reply (record o { filter = some value })
      else if n == 3
      then reply (record o { key = some value })
      else reply o

  -- The loop over the words; the last one is the record array. The value of an option comes before it.
  unfoldable pub parse_options : Options Obj → List Obj → Reply (Options Obj × Obj)
  unfolding take_option
  parse_options o [] = refused invalid_args
  parse_options o (ra ∷ []) = reply (o, ra)
  parse_options o (w ∷ ra ∷ []) = expect (lists.get_index opts w) bad_object >>= λ n.
      if n == 4 then reply (record o { first = true }, ra) else refused invalid_args
  parse_options o (w ∷ value ∷ x ∷ ws) = expect (lists.get_index opts w) bad_object >>= λ n.
      if n == 4
      then parse_options (record o { first = true }) (value ∷ x ∷ ws)
      else take_option n value o >>= λ o'. parse_options o' (x ∷ ws)

  unfoldable pub is_int_op : Operator → Bool
  is_int_op eq = false
  is_int_op ne = false
  is_int_op match = false
  is_int_op no_match = false
  is_int_op eq_int = true
  is_int_op ne_int = true
  is_int_op lt_int = true
  is_int_op le_int = true
  is_int_op gt_int = true
  is_int_op ge_int = true

  unfoldable pub operand_of : Operator → Obj → Reply Operand
  unfolding is_int_op
  operand_of op value =
      if is_int_op op
      then (expect (tcl.to_wide value) bad_object >>= λ w. reply (wide w))
      else reply (string (tcl.to_string value))

  unfoldable pub make_filter : Obj → Obj → Obj → Obj → Bool → Reply Filter
  unfolding to_enum operator_of operand_of
  make_filter fields field op value nocase = do
    pos ← to_enum tcl lists fields field
    n ← expect (lists.get_index filter_ops op) bad_object
    operand ← operand_of (operator_of n) value
    reply
        (record { filter_op = operator_of n; filter_pos = pos; nocase = nocase; operand = operand })

  -- The elements of one filter.
  unfoldable pub filter_of : Obj → List Obj → Reply Filter
  unfolding make_filter
  filter_of fields (field ∷ op ∷ value ∷ []) = make_filter fields field op value false
  filter_of fields (field ∷ op ∷ value ∷ flag ∷ []) =
      if streq tcl nocase_word (tcl.to_string flag)
      then make_filter fields field op value true
      else refused invalid_args
  filter_of fields _ = refused invalid_args

  unfoldable pub filters_of : Obj → List Obj → Reply (List Filter)
  unfolding filter_of
  filters_of fields [] = reply []
  filters_of fields (o ∷ os) = do
    es ← expect (tcl.to_elements o) bad_object
    f ← filter_of fields es
    fs ← filters_of fields os
    reply (f ∷ fs)

  -- The positions of the fields of a slice.
  unfoldable pub indices_of : Obj → List Obj → Reply (List ℕ)
  unfolding to_enum
  indices_of fields [] = reply []
  indices_of fields (name ∷ names) = do
    k ← to_enum tcl lists fields name
    ks ← indices_of fields names
    reply (k ∷ ks)
