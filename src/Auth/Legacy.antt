-- ===== src/Auth/Legacy.antt =====
-- secureEye/src/auth/legacy: the detectors and recognizers of faces over dlib and over MediaPipe, as
-- stages of a login. dlib is a parameter, and its rectangles are given by their sides.
pub mod Ranked
pub mod Embedded
mod Tests
use secure_eye.Prelude.{ℕ, String, Option, none, some, List, [], ◌∷◌, if◌then◌else◌, length}
use secure_eye.Prelude.Int.{ℤ, pos, negsuc, ◌+ℤ◌}
use secure_eye.Python.{Result, ok, ◌>>=◌, ◌>>◌, Float, dyadic, lt_float}
use secure_eye.Auth.Interfaces.{NdArray, Face, Embedding, no_landmarks, new_face, new_embedding}
use secure_eye.Auth.Template.{legacy_model_id}
use secure_eye.Authd.Framing.Frames.{frame}
use secure_eye.Detectors.Mediapipe.{Box, MediaPipe, detect, encode}
use secure_eye.Detectors.Tests.{mp}

-- `LEGACY_MODEL_IDS["mediapipe"]`
abbrev pub mediapipe_model_id : String
mediapipe_model_id = "mediapipe-landmarks-v1"

-- `DLIB_DESCRIPTOR_DIM`
abbrev pub dlib_descriptor_dim : ℕ
dlib_descriptor_dim = 128

-- `MEDIAPIPE_EMBEDDING_DIM`
abbrev pub mediapipe_embedding_dim : ℕ
mediapipe_embedding_dim = 128

-- What a detector of dlib finds: a rectangle, with a confidence if it is the CNN detector.
pub record FoundRect (Rect : Type 0) : Type 0 where
  pub rect : Rect
  pub confidence : Option Float

-- dlib: the sides of a rectangle, a rectangle from its left, top, right and bottom, which are
-- inclusive, the search for faces, the shape in a rectangle of a picture and its descriptor.
pub record DlibBackend (Frame Rect Shape : Type 0) : Type 0 where
  pub left : Rect → ℤ
  pub top : Rect → ℤ
  pub width : Rect → ℤ
  pub height : Rect → ℤ
  pub rectangle : ℤ → ℤ → ℤ → ℤ → Rect
  pub detector : Frame → Result (List (FoundRect Rect))
  pub pose_predictor : Frame → Rect → Result Shape
  pub compute_face_descriptor : Frame → Shape → Result NdArray

-- A face goes before the first one that is not stronger.
insert_face : Face → List Face → List Face
insert_face f [] = f ∷ []
insert_face f (g ∷ gs) =
    let later = insert_face f gs in if lt_float f.score g.score then g ∷ later else f ∷ g ∷ gs

-- `faces.sort(key=lambda face: face.score, reverse=True)`, which keeps the order of equal scores.
unfoldable pub sort_faces : List Face → List Face
unfolding insert_face
sort_faces [] = []
sort_faces (f ∷ fs) = insert_face f (sort_faces fs)

-- The score 1.0 of a face without a confidence.
abbrev pub full_score : Float
full_score = dyadic (pos 1) (pos 0)

module _ {Frame Rect Shape : Type 0} (dlib : DlibBackend Frame Rect Shape) where
  -- `_rect_to_bbox`
  unfoldable pub rect_to_bbox : Rect → ℤ × ℤ × ℤ × ℤ
  rect_to_bbox r = (dlib.left r, dlib.top r, dlib.width r, dlib.height r)

  -- `_bbox_to_rect`
  unfoldable pub bbox_to_rect : ℤ × ℤ × ℤ × ℤ → Rect
  bbox_to_rect (x, y, w, h) = dlib.rectangle x y ((x +ℤ w) +ℤ negsuc 0) ((y +ℤ h) +ℤ negsuc 0)

  score_of : Option Float → Float
  score_of none = full_score
  score_of (some confidence) = confidence

  -- One round of the loop in `detect`.
  pub face_of : FoundRect Rect → Result Face
  unfolding score_of
  face_of found = new_face (rect_to_bbox found.rect) no_landmarks (score_of found.confidence)

  pub faces_of : List (FoundRect Rect) → Result (List Face)
  faces_of [] = ok []
  faces_of (found ∷ rest) = do f ← face_of found; fs ← faces_of rest; ok (f ∷ fs)

  -- `DlibFaceDetector.detect`
  unfoldable pub detect_dlib : Frame → Result (List Face)
  unfolding faces_of face_of
  detect_dlib frame = do found ← dlib.detector frame; faces ← faces_of found; ok (sort_faces faces)

  -- `DlibRecognizer.embed`
  unfoldable pub embed_dlib : Frame → Face → Result Embedding
  embed_dlib frame f = do
    shape ← dlib.pose_predictor frame (bbox_to_rect f.bbox)
    values ← dlib.compute_face_descriptor frame shape
    new_embedding values legacy_model_id dlib_descriptor_dim

module _ {Frame Marks : Type 0} (mp : MediaPipe Frame Marks) where
  box_faces : List Box → Result (List Face)
  box_faces [] = ok []
  box_faces (b ∷ rest) = do
    f ← new_face (pos b.x, pos b.y, pos b.w, pos b.h) no_landmarks full_score
    fs ← box_faces rest
    ok (f ∷ fs)

  -- `MediaPipeFaceDetector.detect`
  unfoldable pub detect_mediapipe : Frame → Result (List Face)
  unfolding box_faces
  detect_mediapipe frame = detect mp frame >>= λ boxes. box_faces boxes

  -- `MediaPipeRecognizer.embed`
  unfoldable pub embed_mediapipe : Frame → Face → Result Embedding
  embed_mediapipe frame f = encode mp frame f.bbox >>= λ values.
      new_embedding (record { shape = length values ∷ []; values = values }) mediapipe_model_id
        mediapipe_embedding_dim
