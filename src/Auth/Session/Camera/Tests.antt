-- ===== src/Auth/Session/Camera/Tests.antt =====
-- A session that is cancelled before its stream exists, and one that is cancelled in its loop.
use secure_eye.Prelude.{◌≡◌, refl, true, false, List, [], ◌∷◌}
use secure_eye.Prelude.Int.{pos}
use secure_eye.Auth.Capture.{Stream, zero_float, release}
use secure_eye.Auth.Session.Camera.{
  unstarted, Step, session_goes_on, option_raises, cancel_sets, cancel_locks, take_step, schedule,
}
use secure_eye.Auth.Session.Camera.LetGo.{schedule-IsSafe}
use secure_eye.Auth.Session.Camera.Releasing.{is_released, IsSafe}

abbrev fresh : Stream
fresh = record {
  dark_threshold = zero_float;
  rotate_mode = pos 0;
  transform = true;
  unscaled = true;
  index = 0;
  released = false;
}

abbrev on : Step
on = session_goes_on fresh

-- `cancel` comes as a whole before the stream is stored.
abbrev early : List Step
early = on ∷ cancel_sets ∷ cancel_locks ∷ on ∷ on ∷ []

-- `cancel` sets the event between the session's test and its reads.
abbrev late_cancel : List Step
late_cancel = on ∷ on ∷ on ∷ on ∷ cancel_sets ∷ cancel_locks ∷ on ∷ on ∷ []

-- The code that the schedules run.
abbrev steps_code : Unit {0}
unfolding schedule take_step release
steps_code = tt

released_early : is_released (schedule early unstarted) ≡ true
unfolding steps_code
released_early = refl

once_late : (schedule late_cancel unstarted).let_go ≡ 1
unfolding steps_code
once_late = refl

-- An exposure that is no number leaves the camera open.
left_open : (schedule (on ∷ on ∷ on ∷ option_raises ∷ on ∷ []) unstarted).let_go ≡ 0
unfolding steps_code
left_open = refl

schedule-IsSafe_example : IsSafe (schedule late_cancel unstarted)
schedule-IsSafe_example = schedule-IsSafe late_cancel
