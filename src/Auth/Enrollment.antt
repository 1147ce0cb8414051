-- ===== src/Auth/Enrollment.antt =====
-- secureEye/src/auth/enrollment.py: `EnrollSession`. As for a login, the frames it meets are a list
-- of turns; the reports to the observer and the average darkness are not modelled.
pub mod Written
pub mod Sole
pub mod Tests
use secure_eye.Prelude.{
  ℕ, ◌+◌, String, Bool, true, false, not, ◌&&◌, ◌||◌, Option, none, some, List, [], ◌∷◌, str_eq,
  ◌==◌, if◌then◌else◌, take,
}
use secure_eye.Prelude.Int.{ℤ}
use secure_eye.Python.{Exc, other_exception, interrupt, Result, err, ok, ◌>>=◌, ◌>>◌, and_then}
use secure_eye.Auth.Capture.{FrameState, black, dark, Captured}
use secure_eye.Auth.Pipeline.{Bundle}
use secure_eye.Auth.Template.{Row, Template, vector, Numpy}
use secure_eye.Auth.TemplateStore.{FileState, Enrolled, append, replace_space}
use secure_eye.Authd.Framing.Frames.{frame}

-- `MAX_FRAMES`
abbrev pub max_frames : ℕ
max_frames = 60

-- `EnrollResult`
pub data EnrollResult : Type 0 where
  success no_face_found multiple_faces too_dark_frames black_frames model_mismatch cancelled :
      EnrollResult

-- One turn of the loop of `capture`: `cancel()` was called before it, what `stream.read()` gives,
-- whether it was called during a read that raised, and whether the observer raises.
pub record EnrollTurn (Frame : Type 0) : Type 0 where
  pub cancelled_before : Bool
  pub reading : Result (Captured Frame)
  pub cancelled_in_read : Bool
  pub observer_raises : Bool

-- The local variables of `capture`, and the event that `cancel()` sets.
pub record Looking : Type 0 where
  pub valid_frames : ℕ
  pub dark_tries : ℕ
  pub saw_multiple : Bool
  pub cancel_set : Bool

abbrev pub start : Looking
start = record { valid_frames = 0; dark_tries = 0; saw_multiple = false; cancel_set = false }

-- How the loop goes on, or ends.
pub data Sight (Frame Face : Type 0) : Type 0 where
  keep_looking : Sight Frame Face
  stopped : Sight Frame Face
  sole_face : Frame → Face → Sight Frame Face

-- `EnrollOutcome` of a capture.
pub record Capture : Type 0 where
  pub result : EnrollResult
  pub embedding : Option Row
  pub valid_frames : ℕ
  pub dark_tries : ℕ

abbrev pub capture_of : EnrollResult → Option Row → Looking → Capture
capture_of result embedding l = record {
  result = result;
  embedding = embedding;
  valid_frames = l.valid_frames;
  dark_tries = l.dark_tries;
}

abbrev bare : EnrollResult → Capture
bare result = record { result = result; embedding = none; valid_frames = 0; dark_tries = 0 }

observed : Bool → Looking → Looking
observed raises l = record l { cancel_set = l.cancel_set || raises }

-- The result when no frame showed exactly one face.
unfoldable pub failure : Looking → EnrollResult
failure l =
    if l.saw_multiple
    then multiple_faces
    else if l.valid_frames == 0
    then black_frames
    else if l.valid_frames == l.dark_tries
    then too_dark_frames
    else no_face_found

module _ {Frame Face : Type 0} (bundle : Bundle Frame Face) where
  -- What the loop makes of the faces of a usable frame.
  judge_faces : Frame → List Face → Looking → Sight Frame Face × Looking
  judge_faces picture [] l = (keep_looking, l)
  judge_faces picture (f ∷ []) l = (sole_face picture f, l)
  judge_faces picture (f ∷ g ∷ fs) l = (keep_looking, record l { saw_multiple = true })

  usable_frame : Bool → Captured Frame → Looking → Result (Sight Frame Face × Looking)
  unfolding judge_faces observed
  usable_frame raises c l =
      bundle.detect c.gray >>= λ faces. ok (judge_faces c.frame faces (observed raises l))

  look_at :
      Bool → Captured Frame → Option FrameState → Looking → Result (Sight Frame Face × Looking)
  unfolding usable_frame observed
  look_at raises c (some black) l = ok (keep_looking, observed raises l)
  look_at raises c (some dark) l = ok (
    keep_looking,
    observed raises (record l { valid_frames = l.valid_frames + 1; dark_tries = l.dark_tries + 1 }),
  )
  look_at raises c _ l = usable_frame raises c (record l { valid_frames = l.valid_frames + 1 })

  -- A read that raises an `Exception` or a `SystemExit` after the cancellation ends the capture.
  caught : Exc → Bool
  caught interrupt = false
  caught _ = true

  look : EnrollTurn Frame → Looking → Result (Captured Frame) → Result (Sight Frame Face × Looking)
  unfolding look_at caught
  look t l (ok c) = look_at t.observer_raises c c.state l
  look t l (err e) =
      if (l.cancel_set || t.cancelled_in_read) && caught e
      then ok (stopped, record l { cancel_set = true })
      else err e

  -- One turn of the loop.
  unfoldable pub enroll_turn : EnrollTurn Frame → Looking → Result (Sight Frame Face × Looking)
  unfolding look
  enroll_turn t l =
      if l.cancel_set || t.cancelled_before
      then ok (stopped, record l { cancel_set = true })
      else look t l t.reading

  go_further :
      Sight Frame Face × Looking
      → (Looking → Result (Sight Frame Face × Looking))
      → Result (Sight Frame Face × Looking)
  go_further (keep_looking, l) rest = rest l
  go_further (stopped, l) rest = ok (stopped, l)
  go_further (sole_face picture f, l) rest = ok (sole_face picture f, l)

  -- `for _ in range(self.max_frames)`, over at most that many turns.
  unfoldable pub search_face :
      List (EnrollTurn Frame) → Looking → Result (Sight Frame Face × Looking)
  unfolding go_further
  search_face [] l = ok (keep_looking, l)
  search_face (t ∷ ts) l = do seen ← enroll_turn t l; go_further seen (search_face ts)

  -- From the end of the loop; `late_cancel` says that `cancel()` was called by then.
  conclude : Bool → Sight Frame Face × Looking → Result Capture
  conclude late_cancel (stopped, l) = ok (bare cancelled)
  conclude late_cancel (keep_looking, l) =
      if l.cancel_set || late_cancel
      then ok (bare cancelled)
      else ok (capture_of (failure l) none l)
  conclude late_cancel (sole_face picture f, l) =
      if l.cancel_set || late_cancel
      then ok (bare cancelled)
      else (bundle.embed picture f >>= λ row. ok (capture_of success (some row) l))

  -- `capture`, without the wait before the first frame, which `run` does not ask for.
  unfoldable pub capture : List (EnrollTurn Frame) → Bool → Result Capture
  unfolding conclude
  capture turns late_cancel = do
    seen ← search_face (take max_frames turns) start
    conclude late_cancel seen

-- What an enrolment meets: the configured space, numpy, the frames, a cancellation by the end of the
-- capture and one after it, and the clock.
pub record Desk (Frame : Type 0) : Type 0 where
  pub space : Result String
  pub numpy : Numpy
  pub turns : List (EnrollTurn Frame)
  pub late_cancel : Bool
  pub last_cancel : Bool
  pub now : ℤ

-- `EnrollOutcome` of `run`.
pub record EnrollOutcome : Type 0 where
  pub result : EnrollResult
  pub template : Option Template
  pub valid_frames : ℕ
  pub dark_tries : ℕ

abbrev outcome_of : Capture → Option Template → EnrollOutcome
outcome_of c t = record {
  result = c.result;
  template = t;
  valid_frames = c.valid_frames;
  dark_tries = c.dark_tries;
}

abbrev pub is_success : EnrollResult → Bool
is_success success = true
is_success _ = false

module _ {Frame Face : Type 0} (bundle : Bundle Frame Face) (desk : Desk Frame) where
  -- `store(user, model_id=…, label=…, embeddings=…)`
  pub store : Bool → Enrolled → FileState → Result Template × FileState
  store true e f = replace_space desk.numpy e f
  store false e f = append desk.numpy e f

  abbrev enrolled_row : String → String → Row → Enrolled
  enrolled_row space label row = record {
    model_id = space;
    label = label;
    embeddings = vector row;
    created = desk.now;
  }

  store_row : String → String → Bool → Capture → Row → FileState → Result EnrollOutcome × FileState
  store_row space label anew c row f =
      and_then (store anew (enrolled_row space label row) f)
        λ t f₁. (ok (outcome_of c (some t)), f₁)

  -- The `assert`, and the call of the store.
  store_capture :
      String → String → Bool → Capture → Option Row → FileState → Result EnrollOutcome × FileState
  unfolding store_row
  store_capture space label anew c none f = (err other_exception, f)
  store_capture space label anew c (some row) f = store_row space label anew c row f

  with_capture : String → String → Bool → Capture → FileState → Result EnrollOutcome × FileState
  with_capture space label anew c f =
      if not (is_success c.result)
      then (ok (outcome_of c none), f)
      else if desk.last_cancel
      then (ok (outcome_of (bare cancelled) none), f)
      else store_capture space label anew c c.embedding f

  keep_file : {A : Type 0} → Result A → FileState → Result A × FileState
  keep_file r f = (r, f)

  with_space : String → Bool → String → FileState → Result EnrollOutcome × FileState
  unfolding with_capture store_capture keep_file
  with_space label anew space f =
      if str_eq bundle.space space
      then and_then (keep_file (capture bundle desk.turns desk.late_cancel) f)
          (with_capture space label anew)
      else (ok (outcome_of (bare model_mismatch) none), f)

  -- `run`
  unfoldable pub enroll_user : String → Bool → FileState → Result EnrollOutcome × FileState
  unfolding with_space keep_file
  enroll_user label anew f =
      and_then (keep_file desk.space f) λ space f₁. with_space label anew space f₁
