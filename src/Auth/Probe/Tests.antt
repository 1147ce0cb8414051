-- ===== src/Auth/Probe/Tests.antt =====
-- A probe that recognises the user in the second of its two frames.
use secure_eye.Prelude.{ℕ, refl, true, false, some, List, [], ◌∷◌, get_or}
use secure_eye.Prelude.Int.{pos, negsuc}
use secure_eye.Python.{ok, dyadic, nan, eq_num, to_text, to_int, lt_float, eq_float, min_float}
use secure_eye.Auth.Pipeline.{best_match, is_match, create, match_face}
use secure_eye.Auth.Pipeline.Tests.{sole, one_face}
use secure_eye.Auth.Probe.{
  completed, ProbeOutcome, ProbeTurn, match_faces, probe_turn, probe_loop, ProbeSetup, run_probe,
}
use secure_eye.Auth.Probe.Outcome.{IsProbed, run_probe-IsProbed}
use secure_eye.Auth.Session.Tests.{shot, black_shot}
use secure_eye.Auth.Template.{legacy_model_id, all_finite, parse_vectors, parse, store_value, stack}
use secure_eye.Auth.Template.Tests.{numpy, first}
use secure_eye.Auth.TemplateStore.{json, read_payload, load}

abbrev in_time : ProbeTurn ℕ
in_time = record {
  over = false;
  cancelled_before = false;
  reading = ok shot;
  cancelled_in_read = false;
  observer_raises = false;
}

abbrev moments : List (ProbeTurn ℕ)
moments = record in_time { reading = ok black_shot } ∷ in_time ∷ record in_time { over = true } ∷ []

abbrev asked : ProbeSetup ℕ ℕ
unfolding store_value
asked = record {
  space = ok legacy_model_id;
  model_file = json (store_value (pos 9) (first ∷ []));
  numpy = numpy;
  numerics = record { norms = λ known v. ok (get_or v 0 nan ∷ []); argmin = sole };
  bundle = one_face;
  camera = ok tt;
  certainty = dyadic (pos 7) (negsuc 1);
  times_ten = λ d. d;
  late_cancel = false;
}

abbrev answer : ProbeOutcome
answer = record {
  result = completed;
  frames = 2;
  matched_frames = 1;
  best_distance = some (dyadic (pos 1) (pos 0));
}

run_probe-IsProbed_example : IsProbed asked moments answer
run_probe-IsProbed_example = run_probe-IsProbed asked moments answer (
    unfold run_probe probe_loop probe_turn match_faces load read_payload numpy parse parse_vectors
      eq_num to_int to_text all_finite store_value stack create eq_float match_face sole best_match
      is_match lt_float min_float in
    refl)
