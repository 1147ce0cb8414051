-- ===== src/Auth/Session/Tests.antt =====
-- A login that sees a black frame and then the user's face.
use secure_eye.Prelude.{ℕ, ◌≡◌, refl, true, false, none, some, List, [], ◌∷◌, is_some, get_or}
use secure_eye.Prelude.Int.{pos, negsuc}
use secure_eye.Python.{ok, dyadic, nan, eq_num, to_text, to_int, lt_float, eq_float, min_float}
use secure_eye.Auth.Capture.{black, Captured}
use secure_eye.Auth.Pipeline.{best_match, is_match, create, match_face}
use secure_eye.Auth.Pipeline.Tests.{sole, one_face, matcher}
use secure_eye.Auth.Session.{
  too_dark, exit_value, Turn, started, Stamps, run_rubberstamps, scan_faces, turn, run_loop, Setup,
  load_templates, run,
}
use secure_eye.Auth.Session.Login.{IsLogin, run-IsLogin}
use secure_eye.Auth.Session.Statistics.{run_loop-ends}
use secure_eye.Auth.Template.{legacy_model_id, all_finite, parse_vectors, parse, store_value, stack}
use secure_eye.Auth.Template.Tests.{numpy, first}
use secure_eye.Auth.TemplateStore.{json, read_payload, load}

abbrev pub shot : Captured ℕ
shot = record {
  index = 2;
  raw = 1;
  frame = 1;
  gray = 1;
  darkness = dyadic (pos 5) (pos 0);
  state = none;
}

abbrev pub black_shot : Captured ℕ
black_shot = record shot { state = some black }

abbrev quiet : Turn ℕ
quiet = record { cancelled = false; late = false; reading = ok shot; observer_raises = false }

abbrev turns : List (Turn ℕ)
turns = record quiet { reading = ok black_shot } ∷ quiet ∷ []

abbrev over : List (Turn ℕ)
over = record quiet { reading = ok black_shot } ∷ record quiet { late = true } ∷ []

abbrev no_stamps : Stamps
no_stamps = record { enabled = false; execute = ok tt }

-- Names what a run computes with.
abbrev code : Unit {0}
unfolding run_loop turn scan_faces run_rubberstamps match_face sole best_match is_match lt_float
    min_float
code = tt

black_only : (run_loop matcher no_stamps over started).0 ≡ some (ok (exit_value too_dark))
unfolding run_loop code
black_only = refl

run_loop-ends_example : is_some (run_loop matcher no_stamps over started).0 ≡ true
run_loop-ends_example =
    run_loop-ends matcher no_stamps over started 1 (record quiet { late = true }) refl refl

desk : Setup ℕ ℕ
unfolding store_value
desk = record {
  space = ok legacy_model_id;
  model_file = json (store_value (pos 9) (first ∷ []));
  numpy = numpy;
  numerics = record { norms = λ known v. ok (get_or v 0 nan ∷ []); argmin = sole };
  stages = some one_face;
  camera = ok tt;
  certainty = dyadic (pos 7) (negsuc 1);
  stamps = no_stamps;
}

run-IsLogin_example : IsLogin desk "ann" turns
unfolding code
run-IsLogin_example = run-IsLogin desk turns "ann" (
    unfold run desk load read_payload numpy parse parse_vectors eq_num to_int to_text all_finite
      store_value stack create load_templates eq_float code in
    refl)
