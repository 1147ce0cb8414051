-- ===== src/Rubberstamps.antt =====
-- secureEye/src/rubberstamps/__init__.py: `execute`, which runs the stamps that the configuration
-- names. The pattern match on a rule, the loading of a stamp's module and the stamps themselves are
-- parameters.
pub mod Verdict
pub mod Nod
pub mod Hotkey
mod Tests
use secure_eye.Prelude.{
  String, Bool, not, Option, none, some, List, [], ◌∷◌, str_eq, leb, if◌then◌else◌,
}
use secure_eye.Prelude.Int.{ℤ}
use secure_eye.Python.{
  Exc, system_exit, Result, err, ok, ◌>>=◌, ◌>>◌, is_exception, Float, text_length,
}

-- What a stamp's `run()` returns: only `False` ends the login.
pub data Answer : Type 0 where
  refuses passes : Answer

-- The values of `instance.options`, by their kind.
pub data Setting : Type 0 where
  flag : Bool → Setting
  whole : ℤ → Setting
  real : Float → Setting
  words : String → Setting

abbrev pub Options : Type 0
Options = List (String × Setting)

-- An instance of a stamp's class: the options that `declare_config` leaves, and `run`.
pub record Stamp : Type 0 where
  pub declare_config : Options → Result Options
  pub run : Options → Result Answer

-- The groups of the rule's pattern, the last one split at spaces and each at its `=`, with what the
-- split raises.
pub record Rule : Type 0 where
  pub kind : String
  pub timeout_text : String
  pub failsafe_word : String
  pub settings : List (Result (String × String))

pub record Toolbox : Type 0 where
  pub strip : String → String
  pub parse_rule : String → Option Rule
  pub is_installed : String → Bool
  -- loading the module and making the instance; `none` when it has no class of that name
  pub make : String → Result (Option Stamp)
  -- `float(re.sub("[a-zA-Z]", "", s))`
  pub timeout_of : String → Result Float
  pub int_of : String → Result ℤ
  pub float_of : String → Result Float

option_of : String → Options → Option Setting
option_of key [] = none
option_of key ((k, v) ∷ rest) = if str_eq k key then some v else option_of key rest

-- `options[key] = value` for a key that is there.
set_option : String → Setting → Options → Options
set_option key v [] = []
set_option key v ((k, old) ∷ rest) =
    let rest' = set_option key v rest in if str_eq k key then (k, v) ∷ rest else (k, old) ∷ rest'

module _ (tools : Toolbox) where
  -- The text of a setting as the kind of its default; a Boolean is an `int` too.
  convert : Setting → String → Result Setting
  convert (flag _) text = tools.int_of text >>= λ n. ok (whole n)
  convert (whole _) text = tools.int_of text >>= λ n. ok (whole n)
  convert (real _) text = tools.float_of text >>= λ x. ok (real x)
  convert (words _) text = ok (words text)

  -- The loop over the settings at the end of a rule; a key that was not declared is passed over.
  pub read_settings : List (Result (String × String)) → Options → Result Options
  unfolding option_of set_option convert
  read_settings [] options = ok options
  read_settings (err e ∷ rest) options = err e
  read_settings (ok (key, text) ∷ rest) options = elim (option_of key options) [
    | none ↦ read_settings rest options
    | some default ↦ convert default text >>= λ v. read_settings rest (set_option key v options)
  ]

  abbrev initial_options : Rule → Float → Options
  initial_options r seconds =
      ("timeout", real seconds)
      ∷ ("failsafe", flag (not (str_eq r.failsafe_word "faildeadly")))
      ∷ []

  -- `continue` after an `Exception`, which prints it; anything else goes on up.
  dropped : Exc → Result (Unit {0})
  dropped e = if is_exception e then ok tt else err e

  -- From `result = False` to the end of the turn.
  judge : Result Answer → Result (Unit {0})
  unfolding dropped
  judge (ok refuses) = err (system_exit 15)
  judge (ok passes) = ok tt
  judge (err e) = dropped e

  configured : Rule → Stamp → Result Options → Result (Unit {0})
  unfolding read_settings judge dropped
  configured r stamp (err e) = dropped e
  configured r stamp (ok declared) = do
    options ← read_settings r.settings declared
    judge (stamp.run options)

  with_stamp : Rule → Option Stamp → Result (Unit {0})
  unfolding configured
  with_stamp r none = ok tt
  with_stamp r (some stamp) = do
    seconds ← tools.timeout_of r.timeout_text
    configured r stamp (stamp.declare_config (initial_options r seconds))

  with_rule : Option Rule → Result (Unit {0})
  unfolding with_stamp
  with_rule none = ok tt
  with_rule (some r) =
      if tools.is_installed r.kind then tools.make r.kind >>= with_stamp r else ok tt

  -- One turn of the loop over the rules.
  unfoldable pub apply_rule : String → Result (Unit {0})
  unfolding with_rule
  apply_rule line =
      if leb (text_length (tools.strip line)) 1
      then ok tt
      else with_rule (tools.parse_rule (tools.strip line))

  -- `execute`, which ends by `sys.exit` in every case.
  unfoldable pub execute : List String → Result (Unit {0})
  execute [] = err (system_exit 0)
  execute (line ∷ lines) = do apply_rule line; execute lines
