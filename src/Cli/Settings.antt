-- ===== src/Cli/Settings.antt =====
-- secureEye/src/cli/set.py: setting values in the configuration file, which is a list of lines with
-- their line breaks.
pub mod Changed
pub mod Updating
use Prim.Native.String.{◌++◌ as join}
use text.Mathlib.Text.{starts_with, find?}
use secure_eye.Prelude.{
  ◌%◌, String, Bool, true, false, not, ◌&&◌, ◌||◌, Option, none, some, List, [], ◌∷◌, str_eq, leb,
  ◌==◌, if◌then◌else◌, is_some, length,
}
use secure_eye.Python.{Result, err, ok, str, obj, Fields, end, field}
use secure_eye.Cli.{Ending, failed, crashed, Args, report_ok}

abbrev pub Updates : Type 0
Updates = List (String × String)

-- `updates[name] = value` in the dict: a name that is there keeps its place.
put : String → String → Updates → Updates
put name value [] = (name, value) ∷ []
put name value ((n, v) ∷ rest) =
    let later = put name value rest in if str_eq n name then (n, value) ∷ rest else (n, v) ∷ later

-- `dict(zip(arguments[0::2], arguments[1::2], strict=True))`, after `so_far`.
pub pair_up : List String → Updates → Updates
unfolding put
pair_up [] so_far = so_far
pair_up (name ∷ []) so_far = so_far
pair_up (name ∷ value ∷ rest) so_far = pair_up rest (put name value so_far)

breaks_line : String → Bool
breaks_line value = is_some (find? value "\n") || is_some (find? value "\r")

pub any_break : Updates → Bool
unfolding breaks_line
any_break [] = false
any_break ((_, value) ∷ rest) = breaks_line value || any_break rest

-- `option_name`, with the value that is set for it.
unfoldable pub option_of_line : Updates → String → Option (String × String)
option_of_line [] line = none
option_of_line ((name, value) ∷ rest) line =
    let later = option_of_line rest line in
    if starts_with line (join name " ") then some (name, value) else later

-- Whether a line sets the option.
sets : Updates → String → String → Bool
sets updates name line = elim (option_of_line updates line) [
  | none ↦ false
  | some option ↦ str_eq option.0 name
]

any_sets : Updates → String → List String → Bool
unfolding sets
any_sets updates name [] = false
any_sets updates name (line ∷ lines) = sets updates name line || any_sets updates name lines

-- Whether each name of `names` is set by some line.
pub all_found : Updates → Updates → List String → Bool
unfolding any_sets
all_found updates [] lines = true
all_found updates ((name, _) ∷ names) lines =
    any_sets updates name lines && all_found updates names lines

abbrev pub option_line : String × String → String
option_line option = join option.0 (join " = " (join option.1 "\n"))

renew : String → Option (String × String) → String
renew line none = line
renew line (some option) = option_line option

new_lines : Updates → List String → List String
unfolding renew
new_lines updates [] = []
new_lines updates (line ∷ lines) =
    renew line (option_of_line updates line) ∷ new_lines updates lines

fields_of : Updates → Fields
fields_of [] = end
fields_of ((name, value) ∷ rest) = field name (str value) (fields_of rest)

-- The write beside the file and the swap.
write_lines : Args → Updates → Result (Unit {0}) → List String → Ending × List String
unfolding new_lines fields_of
write_lines args updates (err e) lines = (crashed e, lines)
write_lines args updates (ok _) lines =
    (report_ok args (field "updated" (obj (fields_of updates)) end), new_lines updates lines)

update_lines : Args → Updates → Result (Unit {0}) → List String → Ending × List String
unfolding write_lines all_found
update_lines args updates written lines =
    if all_found updates updates lines
    then write_lines args updates written lines
    else (failed "unknown_option", lines)

open_lines :
    Args → Updates → Result (Unit {0}) → Result (Unit {0}) → List String → Ending × List String
unfolding update_lines
open_lines args updates (err e) written lines = (crashed e, lines)
open_lines args updates (ok _) written lines = update_lines args updates written lines

abbrev is_paired : List String → Bool
is_paired arguments = leb 2 (length arguments) && length arguments % 2 == 0

-- `cli/set.py`, with what reading the file and writing it raise.
unfoldable pub set_options :
    Args → Result (Unit {0}) → Result (Unit {0}) → List String → Ending × List String
unfolding open_lines pair_up any_break
set_options args opened written lines =
    if not (is_paired args.arguments)
    then (failed "missing_argument", lines)
    else let updates = pair_up args.arguments [] in
      if any_break updates
      then (failed "invalid_value", lines)
      else open_lines args updates opened written lines
