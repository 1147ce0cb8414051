-- ===== src/Auth/Probe.antt =====
-- secureEye/src/auth/recognition_probe.py: `RecognitionProbe`. As for a login, the frames that a
-- probe meets are a list of turns; the contents of its reports are not modelled.
pub mod Matches
pub mod Outcome
mod Tests
use secure_eye.Prelude.{
  ℕ, ◌+◌, String, Bool, true, false, ◌&&◌, ◌||◌, Option, none, some, List, [], ◌∷◌, if◌then◌else◌,
}
use secure_eye.Prelude.Int.{ℤ, pos, negsuc}
use secure_eye.Python.{
  Exc, template_file_not_found, empty_template_store, template_space_mismatch,
  template_schema_error, interrupt, Result, err, ok, ◌>>=◌, ◌>>◌, Float, min_float,
}
use secure_eye.Auth.Capture.{FrameState, Captured}
use secure_eye.Auth.Pipeline.{Numerics, Bundle, Pipeline, create, match_face}
use secure_eye.Auth.Template.{Numpy, TemplateSet}
use secure_eye.Auth.TemplateStore.{FileState, load}
use secure_eye.Authd.Framing.Frames.{frame}

-- `ProbeResult`
pub data ProbeResult : Type 0 where
  completed no_models model_mismatch cancelled : ProbeResult

-- `ProbeOutcome`
pub record ProbeOutcome : Type 0 where
  pub result : ProbeResult
  pub frames : ℕ
  pub matched_frames : ℕ
  pub best_distance : Option Float

abbrev pub outcome_only : ProbeResult → ProbeOutcome
outcome_only result = record {
  result = result;
  frames = 0;
  matched_frames = 0;
  best_distance = none;
}

-- One turn of the loop of `run`: the time is over, `cancel()` was called, what `stream.read()` gives,
-- whether `cancel()` was called during a read that raised, and whether the observer raises.
pub record ProbeTurn (Frame : Type 0) : Type 0 where
  pub over : Bool
  pub cancelled_before : Bool
  pub reading : Result (Captured Frame)
  pub cancelled_in_read : Bool
  pub observer_raises : Bool

-- The local variables of `run`, and the event that `cancel()` sets.
pub record Tally : Type 0 where
  pub frames : ℕ
  pub matched_frames : ℕ
  pub best : Option Float
  pub cancel_set : Bool

abbrev pub nothing_yet : Tally
nothing_yet = record { frames = 0; matched_frames = 0; best = none; cancel_set = false }

pub data Course : Type 0 where
  more ended : Course

-- `d if best is None else min(best, d)`
pub closest : Option Float → Float → Option Float
closest none d = some d
closest (some b) d = some (min_float b d)

-- The distance of a face that was embedded, which has a row.
with_row : ℤ → Float → Option Float → Option Float
with_row (pos _) d best = closest best d
with_row (negsuc _) d best = best

keep_best : Option Float → Option Float → Option Float
keep_best none best = best
keep_best (some d) best = closest best d

-- A read that raises an `Exception` or a `SystemExit`.
caught : Exc → Bool
caught interrupt = false
caught _ = true

module _ {Frame Face : Type 0} (pipeline : Pipeline Frame Face) where
  -- The loop over the faces of a frame: the nearest distance, and whether one was accepted.
  pub match_faces : Frame → List Face → Option Float → Bool → Result (Option Float × Bool)
  unfolding with_row closest
  match_faces picture [] best accepted = ok (best, accepted)
  match_faces picture (f ∷ fs) best accepted = do
    m ← match_face pipeline picture f
    match_faces picture fs (with_row m.row m.distance best) (accepted || m.accepted)

  observe : Bool → Tally → Tally
  observe raises p = record p { cancel_set = p.cancel_set || raises }

  score : Bool → Option Float × Bool → Tally → Tally
  score raises (frame_best, accepted) p = observe raises (record p {
    matched_frames = if accepted then p.matched_frames + 1 else p.matched_frames;
    best = keep_best frame_best p.best;
  })

  scan_usable : Bool → Captured Frame → Tally → Result (Course × Tally)
  unfolding score observe keep_best
  scan_usable raises c p = do
    faces ← pipeline.bundle.detect c.gray
    found ← match_faces c.frame faces none false
    ok (more, score raises found p)

  -- From the count of a frame that was read.
  take_frame : Bool → Captured Frame → Option FrameState → Tally → Result (Course × Tally)
  unfolding scan_usable observe
  take_frame raises c (some _) p = ok (more, observe raises p)
  take_frame raises c none p = scan_usable raises c p

  abbrev count_read : Tally → Tally
  count_read p = record p { frames = p.frames + 1 }

  after_read : ProbeTurn Frame → Tally → Result (Captured Frame) → Result (Course × Tally)
  unfolding take_frame caught
  after_read t p (ok c) = take_frame t.observer_raises c c.state (count_read p)
  after_read t p (err e) =
      if (p.cancel_set || t.cancelled_in_read) && caught e
      then ok (ended, record p { cancel_set = true })
      else err e

  -- One turn of `while time.time() - started < self.duration_s`.
  unfoldable pub probe_turn : ProbeTurn Frame → Tally → Result (Course × Tally)
  unfolding after_read
  probe_turn t p =
      if t.over
      then ok (ended, p)
      else if p.cancel_set || t.cancelled_before
      then ok (ended, record p { cancel_set = true })
      else after_read t p t.reading

  go_on_from : Course × Tally → (Tally → Result Tally) → Result Tally
  go_on_from (more, p) rest = rest p
  go_on_from (ended, p) rest = ok p

  -- The loop, which ends with the turns at the latest.
  unfoldable pub probe_loop : List (ProbeTurn Frame) → Tally → Result Tally
  unfolding go_on_from
  probe_loop [] p = ok p
  probe_loop (t ∷ ts) p = do seen ← probe_turn t p; go_on_from seen (probe_loop ts)

-- What a probe finds: as a login does, with `* 10` on distances and a cancellation by the end.
pub record ProbeSetup (Frame Face : Type 0) : Type 0 where
  pub space : Result String
  pub model_file : FileState
  pub numpy : Numpy
  pub numerics : Numerics
  pub bundle : Bundle Frame Face
  pub camera : Result (Unit {0})
  pub certainty : Float
  pub times_ten : Float → Float
  pub late_cancel : Bool

module _ {Frame Face : Type 0} (setup : ProbeSetup Frame Face) where
  tenfold : Option Float → Option Float
  tenfold none = none
  tenfold (some d) = some (setup.times_ten d)

  pub conclude_probe : Tally → ProbeOutcome
  unfolding tenfold
  conclude_probe p = record {
    result = if p.cancel_set || setup.late_cancel then cancelled else completed;
    frames = p.frames;
    matched_frames = p.matched_frames;
    best_distance = tenfold p.best;
  }

  probe_with : List (ProbeTurn Frame) → Result (Pipeline Frame Face) → Result ProbeOutcome
  probe_with turns (err _) = ok (outcome_only model_mismatch)
  probe_with turns (ok pipeline) = do
    setup.camera
    p ← probe_loop pipeline turns nothing_yet
    ok (conclude_probe p)

  -- What `load` raises: a `TemplateStoreError` is an outcome.
  probe_templates : List (ProbeTurn Frame) → Result TemplateSet → Result ProbeOutcome
  unfolding probe_with
  probe_templates turns (err template_space_mismatch) = ok (outcome_only model_mismatch)
  probe_templates turns (err template_file_not_found) = ok (outcome_only no_models)
  probe_templates turns (err empty_template_store) = ok (outcome_only no_models)
  probe_templates turns (err template_schema_error) = ok (outcome_only no_models)
  probe_templates turns (err e) = err e
  probe_templates turns (ok templates) =
      probe_with turns (create setup.numerics setup.bundle templates setup.certainty)

  -- `RecognitionProbe.run`
  unfoldable pub run_probe : List (ProbeTurn Frame) → Result ProbeOutcome
  unfolding probe_templates conclude_probe
  run_probe turns =
      probe_templates turns (setup.space >>= λ space. load setup.numpy space setup.model_file)
