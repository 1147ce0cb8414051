-- ===== src/Auth/Session.antt =====
-- secureEye/src/auth/session.py: `AuthSession`. A run of the session meets a list of turns of its
-- loop, each with what the clock, the camera and the other threads do in it. What is only shown
-- (status texts, timings, snapshots, the end report, the sum of the darkness) is not modelled.
pub mod Success
pub mod Statistics
pub mod Login
pub mod Camera
pub mod Tests
use secure_eye.Prelude.{
  ℕ, ◌+◌, String, Bool, true, false, ◌||◌, Option, none, some, List, [], ◌∷◌, str_eq, ◌==◌,
  if◌then◌else◌,
}
use secure_eye.Prelude.Int.{pos, negsuc}
use secure_eye.Python.{
  Exc, template_file_not_found, empty_template_store, template_space_mismatch,
  template_schema_error, system_exit, system_exit_other, Result, err, ok, ◌>>=◌, ◌>>◌, and_then,
  Float, dyadic, min_float,
}
use secure_eye.Auth.Capture.{FrameState, black, dark, no_face, multiple, face, match, Captured}
use secure_eye.Auth.Pipeline.{Numerics, Bundle, FaceMatch, Pipeline, create, match_face}
use secure_eye.Auth.Template.{Numpy, TemplateSet}
use secure_eye.Auth.TemplateStore.{FileState, load}
use secure_eye.Authd.Framing.Frames.{frame}

-- `ExitCode`
pub data ExitCode : Type 0 where
  success no_face_model timeout_reached abort too_dark invalid_device rubberstamp : ExitCode
  template_model_mismatch : ExitCode

abbrev pub exit_value : ExitCode → ℕ
exit_value success = 0
exit_value no_face_model = 10
exit_value timeout_reached = 11
exit_value abort = 12
exit_value too_dark = 13
exit_value invalid_device = 14
exit_value rubberstamp = 15
exit_value template_model_mismatch = 16

-- `RuntimeStats`
pub record RuntimeStats : Type 0 where
  pub frames : ℕ
  pub valid_frames : ℕ
  pub dark_tries : ℕ
  pub black_tries : ℕ
  pub lowest_certainty : Float

abbrev pub no_stats : RuntimeStats
no_stats = record {
  frames = 0;
  valid_frames = 0;
  dark_tries = 0;
  black_tries = 0;
  lowest_certainty = dyadic (pos 10) (pos 0);
}

-- One turn of the loop: `cancel()` was called before it, the time is over, what `stream.read()`
-- gives, and whether the observer raises when it is told about the frame.
pub record Turn (Frame : Type 0) : Type 0 where
  pub cancelled : Bool
  pub late : Bool
  pub reading : Result (Captured Frame)
  pub observer_raises : Bool

-- What the loop has changed: the counts, whether the session was cancelled, and the states it
-- reported, the last one first.
pub record Progress : Type 0 where
  pub stats : RuntimeStats
  pub cancel_set : Bool
  pub reports : List FrameState

abbrev pub started : Progress
started = record { stats = no_stats; cancel_set = false; reports = [] }

-- The configuration of the stamps and what `rubberstamps.execute` does.
pub record Stamps : Type 0 where
  pub enabled : Bool
  pub execute : Result (Unit {0})

pub data Next : Type 0 where
  go_on : Next
  leave : ℕ → Next

-- `_report`: an observer that raises cancels the session.
report : FrameState → Bool → Progress → Progress
report state raises p = record p {
  cancel_set = p.cancel_set || raises;
  reports = state ∷ p.reports;
}

-- The counts, as the loop adds to them.
abbrev count_frame : RuntimeStats → RuntimeStats
count_frame st = record st { frames = st.frames + 1 }

abbrev count_black : RuntimeStats → RuntimeStats
count_black st = record st { black_tries = st.black_tries + 1 }

abbrev count_valid : RuntimeStats → RuntimeStats
count_valid st = record st { valid_frames = st.valid_frames + 1 }

abbrev count_dark : RuntimeStats → RuntimeStats
count_dark st = record st { dark_tries = st.dark_tries + 1 }

-- `_run_rubberstamps_if_enabled`: `none` lets the login pass.
after_stamps : Result (Unit {0}) → Result (Option ℕ)
after_stamps (ok _) = ok none
after_stamps (err (system_exit n)) = ok (some n)
after_stamps (err system_exit_other) = ok (some (exit_value rubberstamp))
after_stamps (err e) = err e

pub run_rubberstamps : Stamps → Bool → Result (Option ℕ)
unfolding after_stamps
run_rubberstamps stamps legacy =
    if stamps.enabled
    then if legacy then after_stamps stamps.execute else ok (some (exit_value rubberstamp))
    else ok none

code_of : Option ℕ → Next
code_of none = leave (exit_value success)
code_of (some code) = leave code

-- `_face_state`
face_state {ℓ} : {Face : Type ℓ} → List Face → Bool → FrameState
face_state faces true = match
face_state [] false = no_face
face_state (f ∷ []) false = face
face_state (f ∷ g ∷ fs) false = multiple

module _ {Frame Face : Type 0} (pipeline : Pipeline Frame Face) (stamps : Stamps) where
  lowest : Float → FaceMatch → Float
  lowest so_far m = elim m.row [ pos _ ↦ min_float so_far m.distance | negsuc _ ↦ so_far ]

  -- The loop over the faces, which ends at the first that is accepted.
  pub scan_faces : Frame → List Face → Float → Result (Bool × Float)
  unfolding lowest
  scan_faces picture [] so_far = ok (false, so_far)
  scan_faces picture (f ∷ fs) so_far = do
    m ← match_face pipeline picture f
    if m.accepted then ok (true, lowest so_far m) else scan_faces picture fs (lowest so_far m)

  verdict : Bool → Result Next
  verdict true = run_rubberstamps stamps pipeline.bundle.legacy >>= λ code. ok (code_of code)
  verdict false = ok go_on

  -- From the report on a frame that was scanned.
  finish : Bool → List Face → Progress → Bool × Float → Result Next × Progress
  finish raises faces p (accepted, least) = (
    verdict accepted,
    report (face_state faces accepted) raises
        (record p { stats = record p.stats { lowest_certainty = least } }),
  )

  keep_state : {A : Type 0} → Result A → Progress → Result A × Progress
  keep_state r p = (r, p)

  scan_frame : Bool → Captured Frame → Progress → Result Next × Progress
  unfolding finish keep_state
  scan_frame raises c p = and_then (keep_state (pipeline.bundle.detect c.gray) p) λ faces p1.
      and_then (keep_state (scan_faces c.frame faces p1.stats.lowest_certainty) p1)
        λ found p2. finish raises faces p2 found

  -- What the loop does with the frame it has read.
  handle_frame : Bool → Captured Frame → Option FrameState → Progress → Result Next × Progress
  handle_frame raises c (some black) p =
      (ok go_on, report black raises (record p { stats = count_black p.stats }))
  handle_frame raises c (some dark) p =
      (ok go_on, report dark raises (record p { stats = count_dark (count_valid p.stats) }))
  handle_frame raises c _ p = scan_frame raises c (record p { stats = count_valid p.stats })

  -- The exit code when the time is over.
  late_code : RuntimeStats → ℕ
  late_code st =
      if st.dark_tries == st.valid_frames then exit_value too_dark else exit_value timeout_reached

  read_and_handle : Turn Frame → Progress → Result Next × Progress
  unfolding handle_frame keep_state
  read_and_handle t p =
      and_then (keep_state t.reading p) λ c p1. handle_frame t.observer_raises c c.state p1

  -- The progress after the cancellation was looked at, and after the frame was counted.
  looked : Turn Frame → Progress → Progress
  looked t p = record p { cancel_set = p.cancel_set || t.cancelled }

  counted : Turn Frame → Progress → Progress
  counted t p = record p { stats = count_frame p.stats; cancel_set = p.cancel_set || t.cancelled }

  -- One turn of the loop of `_run_loop`.
  unfoldable pub turn : Turn Frame → Progress → Result Next × Progress
  unfolding looked counted read_and_handle late_code scan_frame report verdict code_of face_state
  turn t p =
      if p.cancel_set || t.cancelled
      then (ok (leave (exit_value timeout_reached)), looked t p)
      else if t.late
      then (ok (leave (late_code (count_frame p.stats))), counted t p)
      else read_and_handle t (counted t p)

  proceed :
      Result Next × Progress
      → (Progress → Option (Result ℕ) × Progress)
      → Option (Result ℕ) × Progress
  proceed (ok go_on, p) rest = rest p
  proceed (ok (leave code), p) rest = (some (ok code), p)
  proceed (err e, p) rest = (some (err e), p)

  -- `while True`: `none` when the turns end before the session does.
  unfoldable pub run_loop : List (Turn Frame) → Progress → Option (Result ℕ) × Progress
  unfolding proceed
  run_loop [] p = (none, p)
  run_loop (t ∷ ts) p = proceed (turn t p) (run_loop ts)

-- What a session finds when it starts: the space of the configured recognizer (`active_model_id`),
-- the user's model file, the stages or the worker's error text, the camera or what opening it
-- raises, the threshold and the stamps.
pub record Setup (Frame Face : Type 0) : Type 0 where
  pub space : Result String
  pub model_file : FileState
  pub numpy : Numpy
  pub numerics : Numerics
  pub stages : Option (Bundle Frame Face)
  pub camera : Result (Unit {0})
  pub certainty : Float
  pub stamps : Stamps

module _ {Frame Face : Type 0} (setup : Setup Frame Face) where
  pub load_templates : Result TemplateSet
  load_templates = do space ← setup.space; load setup.numpy space setup.model_file

  -- The exit code for what `load` raises; other exceptions leave `run`.
  load_code : Exc → Option ℕ
  load_code template_space_mismatch = some (exit_value template_model_mismatch)
  load_code template_file_not_found = some (exit_value no_face_model)
  load_code empty_template_store = some (exit_value no_face_model)
  load_code template_schema_error = some (exit_value no_face_model)
  load_code _ = none

  abbrev ends_with : Result ℕ → Option (Result ℕ) × Progress
  ends_with r = (some r, started)

  with_camera :
      Pipeline Frame Face → List (Turn Frame) → Result (Unit {0}) → Option (Result ℕ) × Progress
  with_camera pipeline turns (ok _) = run_loop pipeline setup.stamps turns started
  with_camera pipeline turns (err e) = ends_with (err e)

  with_pipeline : List (Turn Frame) → Result (Pipeline Frame Face) → Option (Result ℕ) × Progress
  with_pipeline turns (ok pipeline) = with_camera pipeline turns setup.camera
  with_pipeline turns (err _) = ends_with (ok (exit_value template_model_mismatch))

  with_stages :
      TemplateSet → List (Turn Frame) → Option (Bundle Frame Face) → Option (Result ℕ) × Progress
  with_stages templates turns none = ends_with (ok 1)
  with_stages templates turns (some bundle) =
      with_pipeline turns (create setup.numerics bundle templates setup.certainty)

  with_templates : List (Turn Frame) → Result TemplateSet → Option (Result ℕ) × Progress
  with_templates turns (ok templates) = with_stages templates turns setup.stages
  with_templates turns (err e) =
      ends_with (elim (load_code e) [ none ↦ err e | some code ↦ ok code ])

  -- `AuthSession.run`
  unfoldable pub run : String → List (Turn Frame) → Option (Result ℕ) × Progress
  unfolding with_templates load_code with_stages with_pipeline with_camera load_templates
  run user turns =
      if str_eq user ""
      then ends_with (ok (exit_value abort))
      else with_templates turns load_templates
