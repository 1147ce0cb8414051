-- ===== src/Auth/Enrollment/Tests.antt =====
-- An enrolment that sees a black frame and then one face.
use secure_eye.Prelude.{ℕ, refl, false, none, some, List, [], ◌∷◌}
use secure_eye.Prelude.Int.{pos}
use secure_eye.Python.{ok, dyadic}
use secure_eye.Auth.Capture.{black, Captured}
use secure_eye.Auth.Enrollment.{
  success, EnrollTurn, Capture, enroll_turn, search_face, capture, Desk,
}
use secure_eye.Auth.Enrollment.Sole.{IsCaptured, capture-IsCaptured}
use secure_eye.Auth.Pipeline.Tests.{one_face}
use secure_eye.Auth.Template.Tests.{numpy}

abbrev bright : Captured ℕ
bright = record {
  index = 2;
  raw = 1;
  frame = 1;
  gray = 1;
  darkness = dyadic (pos 5) (pos 0);
  state = none;
}

abbrev calm : EnrollTurn ℕ
calm = record {
  cancelled_before = false;
  reading = ok bright;
  cancelled_in_read = false;
  observer_raises = false;
}

abbrev turns : List (EnrollTurn ℕ)
turns = record calm { reading = ok (record bright { state = some black }) } ∷ calm ∷ []

abbrev captured : Capture
captured = record {
  result = success;
  embedding = some (dyadic (pos 1) (pos 0) ∷ []);
  valid_frames = 1;
  dark_tries = 0;
}

capture-IsCaptured_example : IsCaptured one_face turns captured
unfolding capture search_face enroll_turn
capture-IsCaptured_example = capture-IsCaptured one_face turns false captured refl refl

abbrev pub desk : Desk ℕ
desk = record {
  space = ok "dlib-resnet-v1";
  numpy = numpy;
  turns = turns;
  late_cancel = false;
  last_cancel = false;
  now = pos 7;
}
