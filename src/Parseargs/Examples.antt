-- ===== src/Parseargs/Examples.antt =====
-- Option definitions and arguments for twapi/base/parseargs.c, and the theorems at them.
use twapi.Base.{◌≤◌, ◌≡◌, refl, ◌≢◌, ◌↔◌, true, false, none, some, List, [], ◌∷◌, arith, length}
use twapi.Parseargs.Tcl.{done, crashed}
use twapi.Parseargs.Descriptor.{
  opt_int, opt_switch, OptionDescriptor, set_parseargs_opt, update_string,
}
use twapi.Parseargs.Scan.{Switches, no_switches, scan}
use twapi.Parseargs.Values.{collect, result_name}
use twapi.Parseargs.Command.{Parsed, parse_argv, parseargs}
use twapi.Parseargs.Describes.{set_parseargs_opt-update_string}
use twapi.Parseargs.Leftovers.{Stored, parse_argv-maxleftover}
use twapi.Parseargs.Leaves.{Leaves}
use twapi.Parseargs.Left.{ScansTo, WhenDone, parse_argv-Leaves}
use twapi.Parseargs.Types.{Returned, collect-Returned}
use twapi.Parseargs.NeverCrashes.{parseargs-ne-crashed}
use twapi.Parseargs.Objects.{
  Obj, word, number, truth, objs, list_of, elements, position, objects, objects-IsTcl,
}

-- `{{n.int 7 {7 9}} {v}}`
abbrev valid : Obj
valid = objects.from_list (number 7 ∷ number 9 ∷ [])

abbrev optlist : Obj
optlist = objects.from_list (
    objects.from_list (word (110 ∷ 46 ∷ 105 ∷ 110 ∷ 116 ∷ []) ∷ number 7 ∷ valid ∷ [])
    ∷ objects.from_list (word (118 ∷ []) ∷ [])
    ∷ [])

abbrev n_option : OptionDescriptor Obj
n_option = record {
  name = word (110 ∷ 46 ∷ 105 ∷ 110 ∷ 116 ∷ []);
  def_value = some (number 7);
  valid_values = some valid;
  name_len = 1;
  type = opt_int;
  first = 110;
}

abbrev v_option : OptionDescriptor Obj
v_option = record {
  name = word (118 ∷ []);
  def_value = none;
  valid_values = none;
  name_len = 1;
  type = opt_switch;
  first = 118;
}

abbrev options : List (OptionDescriptor Obj)
options = n_option ∷ v_option ∷ []

reads : set_parseargs_opt objects optlist ≡ some options
unfolding set_parseargs_opt elements objs list_of position
reads = refl

set_parseargs_opt-update_string_example :
    set_parseargs_opt objects (update_string objects options) ≡ some options
set_parseargs_opt-update_string_example =
    set_parseargs_opt-update_string objects optlist options objects-IsTcl reads

-- `-v -n 9 file`
abbrev file : Obj
file = word (102 ∷ 105 ∷ 108 ∷ 101 ∷ [])

abbrev arguments : List Obj
arguments = word (45 ∷ 118 ∷ []) ∷ word (45 ∷ 110 ∷ []) ∷ word (57 ∷ []) ∷ file ∷ []

abbrev one_left : Switches
one_left = record no_switches { maxleftover = 1 }

abbrev answer : Parsed Obj Obj
answer = record {
  result = (word (110 ∷ []), word (57 ∷ [])) ∷ (word (118 ∷ []), truth true) ∷ [];
  leftover = file ∷ [];
  vars = objects.from_list (file ∷ []);
}

parses : parse_argv objects (word []) options one_left arguments (word []) ≡ done answer
unfolding parse_argv scan collect result_name elements objs list_of position
parses = refl

parse_argv-Leaves_example :
    (ScansTo objects options false arguments (file ∷ [])
      ↔ Leaves objects options false arguments (file ∷ []))
    × WhenDone
        (λ (p : Parsed Obj Obj).
          Leaves objects options false arguments p.leftover × Stored objects (word []) one_left p)
        (parse_argv objects (word []) options one_left arguments (word []))
parse_argv-Leaves_example =
    parse_argv-Leaves objects (word []) options one_left arguments (word []) (file ∷ [])

parse_argv-maxleftover_example : length (file ∷ []) ≤ 1
parse_argv-maxleftover_example =
    parse_argv-maxleftover objects (word []) options one_left arguments (word []) answer parses refl
      (omega arith) (omega arith)

collects :
    collect objects no_switches options (none ∷ some (truth true) ∷ [])
    ≡ done ((word (110 ∷ []), number 7) ∷ (word (118 ∷ []), truth true) ∷ [])
unfolding collect result_name elements objs list_of position
collects = refl

collect-Returned_example :
    Returned objects no_switches options
      (none ∷ some (truth true) ∷ [])
      ((word (110 ∷ []), number 7) ∷ (word (118 ∷ []), truth true) ∷ [])
collect-Returned_example =
    collect-Returned objects no_switches options (none ∷ some (truth true) ∷ []) _ objects-IsTcl
      refl collects

parseargs-ne-crashed_example :
    parseargs objects (word []) optlist (word (45 ∷ 110 ∷ []) ∷ []) (objects.from_list arguments)
    ≢ crashed
parseargs-ne-crashed_example =
    parseargs-ne-crashed objects (word []) optlist (word (45 ∷ 110 ∷ []) ∷ [])
      (objects.from_list arguments)
