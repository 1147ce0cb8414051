-- ===== src/Cli/Disable.antt =====
-- secureEye/src/cli/disable.py: the switch that turns the program off, in the lines of the
-- configuration file. `fileinput` with `inplace` sends what is printed to the new file, so a raise in
-- its loop leaves only the lines that were printed before it.
use Prim.Native.String.{◌++◌ as join, len, slice}
use text.Mathlib.Text.{find?}
use secure_eye.Prelude.{
  ℕ, zero, suc, ◌+◌, String, Bool, true, false, ◌||◌, Option, none, some, List, [], ◌∷◌, str_eq,
  if◌then◌else◌,
}
use secure_eye.Python.{type_error, bool, end, field}
use secure_eye.Cli.{Ending, failed, left_with, crashed, Args, report_ok}

-- `line.replace(old, new)` for an `old` that is not empty, each round of which goes past one place where
-- it stands: the length of the line is enough of them.
replace_from : ℕ → String → String → String → String
replace_from zero line old new = line
replace_from (suc n) line old new = elim (find? line old) [
  | none ↦ line
  | some i ↦
      join (slice line 0 i)
        (join new (replace_from n (slice line (i + len old) (len line)) old new))
]

abbrev replace_text : String → String → String → String
replace_text line old new = replace_from (len line) line old new

-- The argument as it is written to the file; `lower` is `str.lower`.
out_value : (String → String) → String → Option String
out_value lower argument =
    if str_eq argument "1" || str_eq (lower argument) "true"
    then some "true"
    else if str_eq argument "0" || str_eq (lower argument) "false"
    then some "false"
    else none

disabled_report : Args → String → Bool → Ending
disabled_report args out changed =
    report_ok args
      (field "disabled" (bool (str_eq out "true")) (field "changed" (bool changed) end))

switch_line : String → String → String → String
switch_line old out line = replace_text line (join "disabled = " old) (join "disabled = " out)

switch_lines : String → String → List String → List String
unfolding switch_line
switch_lines old out [] = []
switch_lines old out (line ∷ lines) = switch_line old out line ∷ switch_lines old out lines

-- The loop over the lines. The fallback of a missing option is `True`, which no text is joined to.
rewrite_lines : Args → String → Option String → List String → Ending × List String
unfolding switch_lines disabled_report
rewrite_lines args out (some old) lines =
    (disabled_report args out true, switch_lines old out lines)
rewrite_lines args out none [] = (disabled_report args out true, [])
rewrite_lines args out none (line ∷ lines) = (crashed type_error, [])

is_already : String → Option String → Bool
is_already out none = false
is_already out (some old) = str_eq out old

switch_to : Args → Option String → List String → Option String → Ending × List String
unfolding rewrite_lines is_already
switch_to args configured lines none = (failed "invalid_value", lines)
switch_to args configured lines (some out) =
    if is_already out configured
    then (if args.as_json then disabled_report args out false else left_with 1, lines)
    else rewrite_lines args out configured lines

disable_with :
    (String → String) → Args → Option String → List String → List String → Ending × List String
unfolding switch_to out_value
disable_with lower args configured lines [] = (failed "missing_argument", lines)
disable_with lower args configured lines (argument ∷ _) =
    switch_to args configured lines (out_value lower argument)

-- `cli/disable.py`, for a configuration whose option `disabled` in `core` is `configured`.
unfoldable pub disable :
    (String → String) → Args → Option String → List String → Ending × List String
unfolding disable_with replace_from
disable lower args configured lines = disable_with lower args configured lines args.arguments
