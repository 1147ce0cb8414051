-- ===== src/Authd/Sessions/Runs.antt =====
-- secureEye/src/authd/manage.py: the sessions that `_camera_session` makes, as Auth.Enrollment and
-- Auth.Probe model them. What the sender does with a report comes back to the session in the turn that
-- makes the report: one that raises cancels the session there.
use secure_eye.Prelude.{ℕ, ◌-◌, ◌≡◌, refl, Bool, true, false, List, [], ◌∷◌, ◌==◌, if◌then◌else◌}
use secure_eye.Python.{Result, err, ok, Float}
use secure_eye.Auth.Enrollment.{EnrollTurn, Desk, EnrollOutcome, enroll_user}
use secure_eye.Auth.Pipeline.{Bundle}
use secure_eye.Auth.TemplateStore.{FileState}
use secure_eye.Authd.Requests.{ManageRequest}
use secure_eye.Authd.Sessions.{Shot, Outcome, enrolled, SessionRun}

has_frame : {A : Type 0} → Result A → Bool
has_frame (ok _) = true
has_frame (err _) = false

-- The turns of an enrolment whose report of the number `count`, from 1, is cancelled by the observer.
unfoldable pub cancel_report :
    {Frame : Type 0} → ℕ → List (EnrollTurn Frame) → List (EnrollTurn Frame)
unfolding has_frame
cancel_report count [] = []
cancel_report count (t ∷ ts) =
    let earlier = cancel_report (count - 1) ts in
    let same = cancel_report count ts in
    if has_frame t.reading
    then (if count == 1 then record t { observer_raises = true } ∷ ts else t ∷ earlier)
    else t ∷ same

cancelled_turns : {Frame : Type 0} → ℕ → Bool → List (EnrollTurn Frame) → List (EnrollTurn Frame)
unfolding cancel_report
cancelled_turns count cut ts = if cut then cancel_report count ts else ts

-- What an enrolment at the daemon meets, besides the turns in its desk.
pub record EnrollScene (Frame Face : Type 0) : Type 0 where
  pub bundle : Bundle Frame Face
  pub desk : Desk Frame
  pub average_darkness : Float
  pub watcher_starts : Result (Unit {0})
  pub reported : List (Shot Frame)
  pub taken_away : Bool

module _ {Frame Face : Type 0} (scene : EnrollScene Frame Face) where
  -- The desk of the session, whose observer may have cancelled it.
  pub desk_of : ℕ → Bool → Desk Frame
  desk_of count cut = record scene.desk { turns = cancelled_turns count cut scene.desk.turns }

  enroll_outcome : Result EnrollOutcome × FileState → Result Outcome × FileState
  enroll_outcome (ok o, f) = (ok (enrolled o scene.average_darkness), f)
  enroll_outcome (err e, f) = (err e, f)

  -- `EnrollSession(...)` and its `run`.
  unfoldable pub enroll_run : ManageRequest → SessionRun Frame
  unfolding enroll_outcome
  enroll_run req = record {
    watcher = scene.watcher_starts;
    shots = scene.reported;
    finish = λ count cut f.
        enroll_outcome (enroll_user scene.bundle (desk_of count cut) req.label req.replace f);
    preempted = scene.taken_away;
  }

  enroll_outcome-file : (q : Result EnrollOutcome × FileState) → (enroll_outcome q).1 ≡ q.1
  unfolding enroll_outcome
  enroll_outcome-file (ok o, f) = refl
  enroll_outcome-file (err e, f) = refl

  -- The file that the session leaves is that of the enrolment.
  pub enroll_run-file :
      (req : ManageRequest) (count : ℕ) (cut : Bool) (f : FileState)
      → ((enroll_run req).finish count cut f).1
        ≡ (enroll_user scene.bundle (desk_of count cut) req.label req.replace f).1
  unfolding enroll_run
  enroll_run-file req count cut f =
      enroll_outcome-file (enroll_user scene.bundle (desk_of count cut) req.label req.replace f)
