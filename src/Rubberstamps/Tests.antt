-- ===== src/Rubberstamps/Tests.antt =====
-- A nod that is refused, and one whose stamp is broken.
use secure_eye.Prelude.{
  String, ◌≡◌, refl, ◌≢◌, true, false, Option, none, some, List, [], ◌∷◌, arith, str_eq,
}
use secure_eye.Prelude.Int.{ℤ, pos}
use secure_eye.Python.{value_error, system_exit, Result, err, ok, dyadic, nan}
use secure_eye.Rubberstamps.{
  Answer, flag, whole, real, Stamp, Rule, Toolbox, read_settings, execute, option_of, set_option,
  convert,
}
use secure_eye.Rubberstamps.Hotkey.{no_key, abort_key, confirm_key, Keyboard, run_hotkey}
use secure_eye.Rubberstamps.Nod.{Landmarks, NodOptions, not_nodded, run_nod}
use secure_eye.Rubberstamps.Nod.Still.{run_nod-still}
use secure_eye.Rubberstamps.Verdict.{IsRun, execute-crashed}

nod_rule : String → Option Rule
nod_rule line = some (record {
  kind = "nod";
  timeout_text = "5s";
  failsafe_word = "faildeadly";
  settings = ok ("min_distance", "6") ∷ [];
})

abbrev nod : Result Answer → Stamp
nod answer = record {
  declare_config = λ options. ok (("min_distance", whole (pos 6)) ∷ options);
  run = λ options. answer;
}

abbrev tools : Result Answer → Toolbox
unfolding nod_rule
tools answer = record {
  strip = λ s. s;
  parse_rule = nod_rule;
  is_installed = λ s. str_eq s "nod";
  make = λ s. ok (some (nod answer));
  timeout_of = λ s. ok (dyadic (pos 5) (pos 0));
  int_of = λ s. ok (pos 7);
  float_of = λ s. ok nan;
}

nod-IsRun :
    (answer : Result Answer) → IsRun (tools answer) "nod 5s faildeadly min_distance=6" answer
unfolding read_settings option_of set_option convert nod_rule
nod-IsRun answer = record {
  rule = record {
    kind = "nod";
    timeout_text = "5s";
    failsafe_word = "faildeadly";
    settings = ok ("min_distance", "6") ∷ [];
  };
  stamp = nod answer;
  seconds = dyadic (pos 5) (pos 0);
  declared =
      ("min_distance", whole (pos 6))
      ∷ ("timeout", real (dyadic (pos 5) (pos 0)))
      ∷ ("failsafe", flag false)
      ∷ [];
  options =
      ("min_distance", whole (pos 7))
      ∷ ("timeout", real (dyadic (pos 5) (pos 0)))
      ∷ ("failsafe", flag false)
      ∷ [];
  long = refl;
  parsed = refl;
  installed = refl;
  made = refl;
  timed = refl;
  accepts = refl;
  settled = refl;
  ran = refl;
}

execute-crashed_example :
    execute (tools (err value_error)) ("nod 5s faildeadly min_distance=6" ∷ [])
    ≡ err (system_exit 0)
execute-crashed_example =
    execute-crashed (tools (err value_error)) ("nod 5s faildeadly min_distance=6" ∷ [])
      ((value_error, refl, nod-IsRun (err value_error)), tt)

-- A head that goes down and up again.
abbrev at_height : ℤ → Result (Option Landmarks)
at_height y = ok (some (record { reldist = pos 40; nose_x = pos 100; nose_y = y }))

abbrev nodded : List (Result (Option Landmarks))
nodded = at_height (pos 100) ∷ ok none ∷ at_height (pos 120) ∷ at_height (pos 100) ∷ []

abbrev nod_options : NodOptions
nod_options = record { min_distance = pos 6; min_directions = 2; failsafe = true }

nod_confirms : (run_nod nod_options nodded not_nodded).0 ≡ ok true
unfolding run_nod
nod_confirms = refl

-- A head that goes from side to side.
abbrev at_side : ℤ → Result (Option Landmarks)
at_side x = ok (some (record { reldist = pos 40; nose_x = x; nose_y = pos 100 }))

abbrev shaken : List (Result (Option Landmarks))
shaken = at_side (pos 100) ∷ ok none ∷ at_side (pos 120) ∷ at_side (pos 100) ∷ []

run_nod-still_example : (run_nod nod_options shaken not_nodded).0 ≢ ok true
run_nod-still_example =
    run_nod-still nod_options 6 (pos 100) shaken refl (omega arith) refl
      (refl, (tt, (refl, (refl, tt))))

abbrev keyboard : Keyboard
keyboard = record { installed = true; failsafe = true }

confirmed_first : run_hotkey keyboard (no_key ∷ confirm_key ∷ abort_key ∷ []) ≡ ok true
unfolding run_hotkey
confirmed_first = refl
