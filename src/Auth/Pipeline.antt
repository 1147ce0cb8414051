-- ===== src/Auth/Pipeline.antt =====
-- secureEye/src/auth/matching.py and secureEye/src/auth/pipeline.py: one face against a user's
-- templates. Frames and faces are what the detector gives; the stages are parameters.
pub mod Accepted
pub mod Tests
use secure_eye.Prelude.{
  ℕ, String, Bool, true, false, ◌&&◌, Option, none, some, List, str_eq, if◌then◌else◌, get_elem?,
}
use secure_eye.Prelude.Int.{ℤ, pos, negsuc}
use secure_eye.Python.{
  value_error, other_exception, Result, err, ok, ◌>>=◌, ◌>>◌, Float, dyadic, infinite, lt_float,
}
use secure_eye.Auth.Template.{Row, TemplateSet}

-- `np.linalg.norm` of the differences to each row, and `np.argmin`.
pub record Numerics : Type 0 where
  pub norms : List Row → Row → Result (List Float)
  pub argmin : List Float → Result ℕ

distance_at : Option Float → ℕ → Result (ℤ × Float)
distance_at none i = err other_exception
distance_at (some d) i = ok (pos i, d)

-- `best_match`
unfoldable pub best_match : Numerics → List Row → Row → Result (ℤ × Float)
unfolding distance_at
best_match np known encoding = do
  distances ← np.norms known encoding
  i ← np.argmin distances
  distance_at (get_elem? distances i) i

-- `is_match`
unfoldable pub is_match : Float → Float → Bool
is_match distance threshold =
    lt_float (dyadic (pos 0) (pos 0)) distance && lt_float distance threshold

-- The stages of a `PipelineBundle`, each of which can raise. `legacy` says that the dlib detector and
-- predictor are there.
pub record Bundle (Frame Face : Type 0) : Type 0 where
  pub space : String
  pub detect : Frame → Result (List Face)
  pub liveness : Option (Frame → Face → Result Bool)
  pub embed : Frame → Face → Result Row
  pub legacy : Bool

-- `FaceMatch`
pub record FaceMatch : Type 0 where
  pub row : ℤ
  pub distance : Float
  pub accepted : Bool
  pub live : Option Bool

-- A face that failed liveness is not embedded.
abbrev refused : FaceMatch
refused = record { row = negsuc 0; distance = infinite false; accepted = false; live = some false }

-- `Pipeline`
pub record Pipeline (Frame Face : Type 0) : Type 0 where
  pub bundle : Bundle Frame Face
  pub templates : TemplateSet
  pub threshold : Float
  pub numerics : Numerics

module _ {Frame Face : Type 0} where
  -- `Pipeline.__init__`
  unfoldable pub create :
      Numerics → Bundle Frame Face → TemplateSet → Float → Result (Pipeline Frame Face)
  create np bundle templates threshold =
      if str_eq templates.model_id bundle.space
      then ok
          (record { bundle = bundle; templates = templates; threshold = threshold; numerics = np })
      else err value_error

  -- The check at the start of `Pipeline.match`; `none` where the bundle has no such stage.
  check_liveness : Bundle Frame Face → Frame → Face → Result (Option Bool)
  check_liveness bundle picture face = elim bundle.liveness [
    | none ↦ ok none
    | some check ↦ check picture face >>= λ passed. ok (some passed)
  ]

  measure : Pipeline Frame Face → Frame → Face → Option Bool → Result FaceMatch
  measure p picture face live = do
    embedding ← p.bundle.embed picture face
    found ← best_match p.numerics p.templates.matrix_rows embedding
    ok (record {
      row = found.0;
      distance = found.1;
      accepted = is_match found.1 p.threshold;
      live = live;
    })

  compare_face : Pipeline Frame Face → Frame → Face → Option Bool → Result FaceMatch
  unfolding measure
  compare_face p picture face (some false) = ok refused
  compare_face p picture face (some true) = measure p picture face (some true)
  compare_face p picture face none = measure p picture face none

  -- `Pipeline.match`
  unfoldable pub match_face : Pipeline Frame Face → Frame → Face → Result FaceMatch
  unfolding compare_face check_liveness
  match_face p picture face = do
    live ← check_liveness p.bundle picture face
    compare_face p picture face live
