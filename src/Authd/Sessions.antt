-- ===== src/Authd/Sessions.antt =====
-- secureEye/src/authd/manage.py: `_camera_session`, which enrolls a face or tries the recognition at
-- the camera, and the frames it shows. A run of `EnrollSession` or `RecognitionProbe`, which
-- Auth.Enrollment and Auth.Probe model, comes in by the frames it reports and by how it ends.
pub mod Answered
pub mod Filed
mod Tests
pub mod Runs
use secure_eye.Prelude.{
  ℕ, ◌+◌, ◌-◌, ◌*◌, max, String, Bool, true, false, not, ◌&&◌, Option, none, some, List, [], ◌∷◌,
  str_eq, ltb, leb, if◌then◌else◌,
}
use secure_eye.Prelude.Int.{pos}
use secure_eye.Python.{
  Result, err, ok, ◌>>=◌, and_then, is_exception, Float, Value, null, int, float, str, Fields, end,
  field, text_length,
}
use secure_eye.Auth.Capture.{FrameState, black}
use secure_eye.Auth.Enrollment.{
  EnrollResult, no_face_found, multiple_faces, too_dark_frames, black_frames, EnrollOutcome,
}
use secure_eye.Auth.Probe.{ProbeResult, completed, no_models, ProbeOutcome}
use secure_eye.Auth.Template.{Template}
use secure_eye.Auth.TemplateStore.{FileState}
use secure_eye.Authd.Framing.{max_event_payload}
use secure_eye.Authd.Messages.{began, shown, Service, send, send_result, message_to}
use secure_eye.Authd.Requests.{Kind, enroll, ManageRequest}

-- `PREVIEW_INTERVAL_S` in milliseconds, and `PREVIEW_MAX_WIDTH`
abbrev pub preview_interval_ms : ℕ
preview_interval_ms = 100

abbrev pub preview_max_width : ℕ
preview_max_width = 320

-- The images' library: the size of a frame, `round(a / b)`, `cv2.resize` to a width and a height,
-- and `cv2.imencode` with the text that `b64encode` makes of its bytes, if it succeeds.
pub record Imaging (Frame : Type 0) : Type 0 where
  pub height : Frame → ℕ
  pub width : Frame → ℕ
  pub round_ratio : ℕ → ℕ → ℕ
  pub resize : ℕ → ℕ → Frame → Result Frame
  pub jpeg : Frame → Result (Option String)

-- One call of the observer: the state and the content of the report, the time, and the frame.
pub record Shot (Frame : Type 0) : Type 0 where
  pub state : FrameState
  pub content : Value
  pub now : ℕ
  pub frame : Frame

-- How a session ends; an enrolment also with its average darkness.
pub data Outcome : Type 0 where
  enrolled : EnrollOutcome → Float → Outcome
  probed : ProbeOutcome → Outcome

-- A session at the camera: what starting its watcher raises, the frames that it reports while it is
-- not cancelled by its observer, how it ends after a number of reports of which the last one may
-- have been cancelled by its observer, and whether a login took the camera away.
pub record SessionRun (Frame : Type 0) : Type 0 where
  pub watcher : Result (Unit {0})
  pub shots : List (Shot Frame)
  pub finish : ℕ → Bool → FileState → Result Outcome × FileState
  pub preempted : Bool

-- What a session is made with: loading the configuration, building the stages and the session, the
-- images' library, and `round` to a number of digits.
pub record Studio (Frame : Type 0) : Type 0 where
  pub prepare : ManageRequest → Result (SessionRun Frame)
  pub imaging : Imaging Frame
  pub round : Float → ℕ → Float

enroll_text : EnrollResult → String
enroll_text EnrollResult.success = "success"
enroll_text no_face_found = "no_face"
enroll_text multiple_faces = "multiple_faces"
enroll_text too_dark_frames = "too_dark"
enroll_text black_frames = "black_frames"
enroll_text EnrollResult.model_mismatch = "model_mismatch"
enroll_text EnrollResult.cancelled = "cancelled"

probe_text : ProbeResult → String
probe_text completed = "completed"
probe_text no_models = "no_models"
probe_text ProbeResult.model_mismatch = "model_mismatch"
probe_text ProbeResult.cancelled = "cancelled"

-- What is told of the template, for a success that has one.
model_fields : EnrollResult → Option Template → Fields
model_fields EnrollResult.success (some t) =
    field "model" (int t.id) (field "label" (str t.label) (field "model_id" (str t.model_id) end))
model_fields _ _ = end

is_black : FrameState → Bool
is_black black = true
is_black _ = false

module _ {Frame : Type 0} (studio : Studio Frame) where
  distance_value : Option Float → Value
  distance_value none = null
  distance_value (some d) = float (studio.round d 3)

  -- `_session_result`
  pub session_result : Outcome → String × Fields
  unfolding enroll_text probe_text model_fields distance_value
  session_result (probed o) = (
    probe_text o.result,
    field "frames" (int (pos o.frames)) (
        field "matched_frames" (int (pos o.matched_frames))
          (field "best_distance" (distance_value o.best_distance) end)),
  )
  session_result (enrolled o darkness) = (
    enroll_text o.result,
    field "valid_frames" (int (pos o.valid_frames)) (
        field "dark_tries" (int (pos o.dark_tries)) (
          field "avg_darkness" (float (studio.round darkness 1))
            (model_fields o.result o.template))),
  )

  downscale : Frame → Result Frame
  downscale f =
      let im = studio.imaging in
      if ltb preview_max_width (im.width f)
      then im.resize preview_max_width
          (max 1 (im.round_ratio (im.height f * preview_max_width) (im.width f))) f
      else ok f

  -- `encode_preview`
  pub encode_preview : Frame → Result (Option String)
  unfolding downscale
  encode_preview f = downscale f >>= λ small. studio.imaging.jpeg small

  -- The preview that is sent if there is room for it, and the time of the last one that was.
  fit_preview : ℕ → ℕ → Option String → Option String × ℕ
  fit_preview now last none = (none, last)
  fit_preview now last (some preview) =
      if leb (text_length preview) (max_event_payload - 2048)
      then (some preview, now)
      else (none, last)

  make_preview : ManageRequest → ℕ → Shot Frame → Result (Option String × ℕ)
  unfolding encode_preview fit_preview is_black
  make_preview req last shot =
      if req.preview && not (is_black shot.state) && leb (last + preview_interval_ms) shot.now
      then (encode_preview shot.frame >>= λ preview. ok (fit_preview shot.now last preview))
      else ok (none, last)

  -- `_FrameSender.__call__`, from the time of the last preview to the next one.
  pub send_frame : ManageRequest → ℕ → Shot Frame → Service → Result ℕ × Service
  unfolding make_preview
  send_frame req last shot s =
      and_then (make_preview req last shot, s)
        λ seen s₁. and_then (send (shown req.id shot.content seen.0) s₁) λ _ s₂. (ok seen.1, s₂)

  -- What follows a report: an `Exception` of the observer cancels the session.
  after_report :
      ℕ
      → Result ℕ × Service
      → (ℕ → Service → Result (ℕ × Bool) × Service)
      → Result (ℕ × Bool) × Service
  after_report count (ok last, s) rest = rest last s
  after_report count (err e, s) rest =
      if is_exception e then (ok (count + 1, true), s) else (err e, s)

  -- The reports of a session, after some: how many there were, and whether its observer cancelled it.
  pub report_all : ManageRequest → List (Shot Frame) → ℕ → ℕ → Service → Result (ℕ × Bool) × Service
  unfolding send_frame after_report
  report_all req [] count last s = (ok (count, false), s)
  report_all req (shot ∷ shots) count last s =
      after_report count (send_frame req last shot s) (report_all req shots (count + 1))

  leave_file : Service → Result Outcome × FileState → Result Outcome × Service
  leave_file s (r, f) = (r, record s { file = f })

  -- With the camera, up to the end of the session's `run`.
  run_session : ManageRequest → SessionRun Frame → Service → Result Outcome × Service
  unfolding report_all leave_file
  run_session req run s = and_then (send (began req.id) s) λ _ s₁.
      and_then (run.watcher, s₁)
        λ _ s₂.
          and_then (report_all req run.shots 0 0 s₂)
            λ seen s₃. leave_file s₃ (run.finish seen.0 seen.1 s₃.file)

  give_camera_back : Result Outcome × Service → Result (Option Outcome) × Service
  give_camera_back (ok o, s) = (ok (some o), record s { camera_held = false })
  give_camera_back (err e, s) = (err e, record s { camera_held = false })

  answer_busy : ManageRequest → Service → Result (Option Outcome) × Service
  answer_busy req s = and_then (send_result (message_to req "busy" none) s) λ _ s₁. (ok none, s₁)

  -- With the lock, where it is needed; no outcome is an answer that was sent already.
  at_camera : ManageRequest → SessionRun Frame → Service → Result (Option Outcome) × Service
  unfolding run_session give_camera_back answer_busy
  at_camera req run s =
      if s.camera_free
      then give_camera_back (run_session req run (record s { camera_held = true }))
      else answer_busy req s

  unlock_models : Result (Option Outcome) × Service → Result (Option Outcome) × Service
  unlock_models (r, s) = (r, record s { lock_held = false })

  with_models :
      Kind → ManageRequest → SessionRun Frame → Service → Result (Option Outcome) × Service
  unfolding at_camera unlock_models
  with_models enroll req run s =
      if s.lock_free
      then unlock_models (at_camera req run (record s { lock_held = true }))
      else answer_busy req s
  with_models _ req run s = at_camera req run s

  named : Bool → String → String
  named preempted result = if str_eq result "cancelled" && preempted then "preempted" else result

  tell : ManageRequest → SessionRun Frame → Option Outcome → Service → Result (Unit {0}) × Service
  unfolding session_result named
  tell req run none s = (ok tt, s)
  tell req run (some o) s =
      let told = session_result o in
      send_result (message_to req (named run.preempted told.0) (some told.1)) s

  -- `_camera_session`
  unfoldable pub camera_session : ManageRequest → Service → Result (Unit {0}) × Service
  unfolding with_models tell
  camera_session req s =
      and_then (studio.prepare req, s)
        λ run s₁. and_then (with_models req.kind req run s₁) λ o s₂. tell req run o s₂
