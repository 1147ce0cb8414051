-- ===== src/Cli.antt =====
-- secureEye/src/cli.py and cli/output.py: how a command is chosen, and how it ends.
pub mod Dispatch
pub mod Models
pub mod Labels
pub mod Settings
pub mod Disable
pub mod FetchModels
pub mod Enroll
mod Tests
use secure_eye.Prelude.{ℕ, String, Bool, ◌||◌, Option, none, some, List, if◌then◌else◌}
use secure_eye.Python.{Exc, Fields}

-- How a command ends: with a report of success, by `fail` with an error code, by `sys.exit`, or by
-- another exception. A success that prints text for people reports nothing.
pub data Ending : Type 0 where
  succeeded : Option Fields → Ending
  failed : String → Ending
  left_with : ℕ → Ending
  crashed : Exc → Ending

-- The parsed arguments, once `--json` has switched `-y` on, and whether the user answers a question by
-- `y` or `Y`.
pub record Args : Type 0 where
  pub arguments : List String
  pub skips_questions : Bool
  pub as_json : Bool
  pub says_yes : Bool

-- `ok(data, lines)`
abbrev pub report_ok : Args → Fields → Ending
report_ok args told = succeeded (if args.as_json then some told else none)

-- A question that may stop the command with 1.
abbrev pub confirm {ℓ} : {S : Type ℓ} → Args → S → Ending × S → Ending × S
confirm args s go_ahead =
    if args.skips_questions || args.says_yes then go_ahead else (left_with 1, s)
