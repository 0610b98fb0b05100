-- ===== src/RecordArray/Examples.antt =====
-- Record arrays for twapi/base/recordarray.c, and the theorems at them.
use twapi.Base.{
  ℕ, ◌≡◌, ◌≢◌, refl, some, none, false, List, [], ◌∷◌, map, arith, concat_map, ◌==◌, if◌then◌else◌,
  Option,
}
use twapi.Parseargs.Tcl.{first_byte, Tcl}
use twapi.Parseargs.Objects.{Obj, word, number, objs, elements, objects, objects-IsTcl}
use twapi.RecordArray.Reply.{reply, null_pointer}
use twapi.RecordArray.Options.{Format, Options, Filter, wide, eq_int}
use twapi.RecordArray.Records.{Query, Slice, result_of, run_query}
use twapi.RecordArray.Command.{key_position, read_filters, read_slice, query, record_array}
use twapi.RecordArray.Instance.{record_instance}
use twapi.RecordArray.Objects.{lists, lists-IsLists}
use twapi.RecordArray.Selects.{chosen, entry_row}
use twapi.RecordArray.Queries.{query_of, query-selects}
use twapi.RecordArray.NeverNull.{query-ne-null}
use twapi.RecordArray.NotAList.{run_query-null}
use twapi.RecordArray.Fields.{assigned, record_instance-set-get}

abbrev field_a : Obj
field_a = word (97 ∷ [])

abbrev field_b : Obj
field_b = word (98 ∷ [])

abbrev fields : Obj
fields = objects.from_list (field_a ∷ field_b ∷ [])

abbrev entry : ℕ → ℕ → Obj × List Obj
entry a b = (objects.from_list (number a ∷ number b ∷ []), number a ∷ number b ∷ [])

abbrev others : List (Obj × List Obj)
others = entry 3 4 ∷ entry 5 4 ∷ []

abbrev records : Obj
records = objects.from_list (map (λ e. e.0) (entry 1 2 ∷ others))

-- b == 4
abbrev filter_word : Obj
filter_word =
    objects.from_list (objects.from_list (field_b ∷ word (61 ∷ 61 ∷ []) ∷ number 4 ∷ []) ∷ [])

abbrev slice_word : Obj
slice_word = objects.from_list (field_a ∷ [])

-- -format list -slice a -filter {{b == 4}}
abbrev words : List Obj
words =
    word (45 ∷ 102 ∷ 111 ∷ 114 ∷ 109 ∷ 97 ∷ 116 ∷ [])
    ∷ word (108 ∷ 105 ∷ 115 ∷ 116 ∷ [])
    ∷ word (45 ∷ 115 ∷ 108 ∷ 105 ∷ 99 ∷ 101 ∷ [])
    ∷ slice_word
    ∷ word (45 ∷ 102 ∷ 105 ∷ 108 ∷ 116 ∷ 101 ∷ 114 ∷ [])
    ∷ filter_word
    ∷ objects.from_list (fields ∷ records ∷ [])
    ∷ []

selected :
    record_array objects lists words
    ≡ reply (
        objects.from_list
          (objects.from_list (number 3 ∷ []) ∷ objects.from_list (number 5 ∷ []) ∷ []))
unfolding record_array elements objs
selected = refl

abbrev options : Options Obj
options = record {
  format = Format.list;
  slice = some slice_word;
  filter = some filter_word;
  key = some field_b;
  first = false;
}

abbrev b_is_4 : Filter
b_is_4 = record { filter_op = eq_int; filter_pos = 1; nocase = false; operand = wide 4 }

abbrev slice : Slice Obj
slice = record { names = field_a ∷ []; indices = 0 ∷ [] }

elements_of : (os : List Obj) → objects.to_elements (objects.from_list os) ≡ some os
elements_of os = objects-IsTcl.list os

key_is_b : key_position objects lists options fields ≡ reply (some 1)
unfolding key_position elements objs
key_is_b = refl

filters_are : read_filters objects lists options fields ≡ reply (b_is_4 ∷ [])
unfolding read_filters elements objs
filters_are = refl

slice_is : read_slice objects lists options fields ≡ reply (some slice)
unfolding read_slice elements objs
slice_is = refl

abbrev the_query : Query Obj
the_query = query_of options fields (some 1) (b_is_4 ∷ []) (some slice) 2

query-selects_example :
    query objects lists options fields records
    ≡ reply (
        result_of objects lists the_query (
          concat_map
            (entry_row objects lists (field_a ∷ field_b ∷ []) the_query)
            (chosen objects lists the_query (entry 1 2 ∷ others))))
query-selects_example =
    query-selects objects lists lists-IsLists options fields records (field_a ∷ field_b ∷ [])
      (entry 1 2) others (some 1) (b_is_4 ∷ []) (some slice) (elements_of _) (elements_of _)
      (
        (elements_of _, omega arith),
        ((elements_of _, omega arith), ((elements_of _, omega arith), tt)),
      )
      key_is_b filters_are slice_is

query-ne-null_example : query objects lists options fields (word (123 ∷ [])) ≢ null_pointer
query-ne-null_example =
    query-ne-null objects lists options fields (word (123 ∷ [])) (λ h. absurd (cc))

abbrev dict_query : Query Obj
dict_query = record {
  format = Format.dict;
  first = false;
  filters = [];
  keyfield_pos = none;
  slice = none;
  fields = fields;
  nfields = 2;
}

-- A word that starts with a brace is not a list.
abbrev strict_elements : Obj → Option (List Obj)
strict_elements (word s) = if first_byte s == 123 then none else some (word s ∷ [])
strict_elements o = elements o

abbrev strict_objects : Tcl Obj Obj
strict_objects = record objects { to_elements = strict_elements }

run_query-null_example :
    run_query strict_objects lists dict_query
      ((entry 1 2).0 ∷ word (123 ∷ 49 ∷ []) ∷ (entry 3 4).0 ∷ [])
    ≡ null_pointer
run_query-null_example =
    run_query-null strict_objects lists dict_query ((entry 1 2).0 ∷ []) (word (123 ∷ 49 ∷ []))
      ((entry 3 4).0 ∷ [])
      (record { format = refl; first = refl; filters = refl; key = refl; slice = refl }) refl

record_instance-set-get_example :
    record_instance objects lists fields
      (word (103 ∷ 101 ∷ 116 ∷ []) ∷ objects.from_list (number 7 ∷ number 2 ∷ []) ∷ field_a ∷ [])
    ≡ assigned objects lists fields 0 (field_a ∷ number 7 ∷ []) (
        record_instance objects lists fields (
          word (103 ∷ 101 ∷ 116 ∷ [])
          ∷ objects.from_list (number 1 ∷ number 2 ∷ [])
          ∷ field_a
          ∷ []))
unfolding record_instance elements objs
record_instance-set-get_example =
    record_instance-set-get objects lists lists-IsLists fields
      (objects.from_list (number 1 ∷ number 2 ∷ [])) (objects.from_list (number 7 ∷ number 2 ∷ []))
      (word (115 ∷ 101 ∷ 116 ∷ [])) (word (103 ∷ 101 ∷ 116 ∷ [])) field_a field_a (number 7 ∷ [])
      (number 1 ∷ number 2 ∷ []) 0 refl refl refl refl refl
