-- ===== src/Detectors/Mediapipe.antt =====
-- secureEye/src/detectors/mediapipe_detector.py: `MediaPipeDetector`. MediaPipe, NumPy, OpenCV and the
-- network are parameters; a picture comes with its height and width.
pub mod Boxes
pub mod Models
pub mod Sizes
use Prim.Native.String.{◌++◌ as join}
use secure_eye.Prelude.{
  ℕ, ◌+◌, min, String, Bool, ◌&&◌, ◌||◌, Option, none, some, List, [], ◌∷◌, map, str_eq, ltb, leb,
  ◌==◌, if◌then◌else◌, length, replicate, keep,
}
use secure_eye.Prelude.Int.{ℤ, pos, pos_part, sub_ℕ, ltb_ℤ}
use secure_eye.Python.{
  runtime_error, Result, err, ok, ◌>>=◌, ◌>>◌, and_then, stateless, is_exception, Float, dyadic,
  lt_float,
}
use secure_eye.Authd.Framing.Frames.{frame}

-- `FACE_DETECTOR_MODEL_URL`
abbrev pub face_detector_model_url : String
face_detector_model_url =
    "https://storage.googleapis.com/mediapipe-models/face_detector/blaze_face_short_range/float16/latest/blaze_face_short_range.tflite"

-- `FACE_LANDMARKER_MODEL_URL`
abbrev pub face_landmarker_model_url : String
face_landmarker_model_url =
    "https://storage.googleapis.com/mediapipe-models/face_landmarker/face_landmarker/float16/latest/face_landmarker.task"

-- `EMBEDDING_SIZE`
abbrev pub embedding_size : ℕ
embedding_size = 128

-- A bounding box as MediaPipe gives it, after `int`: it may stand out over the picture.
pub record Bounds : Type 0 where
  pub origin_x : ℤ
  pub origin_y : ℤ
  pub width : ℤ
  pub height : ℤ

-- A box `(x, y, w, h)` that `detect` returns.
pub record Box : Type 0 where
  pub x : ℕ
  pub y : ℕ
  pub w : ℕ
  pub h : ℕ

-- The rows `top` up to `bottom` and the columns `left` up to `right` of a picture.
pub record Crop : Type 0 where
  pub top : ℕ
  pub bottom : ℕ
  pub left : ℕ
  pub right : ℕ

-- What NumPy computes for an embedding: the mean, the standard deviation and the norm of an array, a
-- difference and a quotient of two numbers, `num` places from 0 to `stop`, and the interpolation at the
-- places `dst` of what has the values `raw` at the places `src`.
pub record Arrays : Type 0 where
  pub mean : List Float → Float
  pub std : List Float → Float
  pub norm : List Float → Float
  pub minus : Float → Float → Float
  pub over : Float → Float → Float
  pub linspace : ℤ → ℕ → List Float
  pub interp : List Float → List Float → List Float → Result (List Float)

-- The height and the width of a picture, what the detector finds in it (none when it finds nothing),
-- the landmarks of the first face in a part of it if there is one, with their `x`, `y` and `z`.
pub record MediaPipe (Frame Marks : Type 0) : Type 0 where
  pub height_of : Frame → ℕ
  pub width_of : Frame → ℕ
  pub find_faces : Frame → Result (List Bounds)
  pub find_landmarks : Frame → Crop → Result (Option Marks)
  pub points : Marks → List (Float × Float × Float)
  pub numpy : Arrays

abbrev pub min_ℤ : ℤ → ℤ → ℤ
min_ℤ a b = if ltb_ℤ b a then b else a

-- `max(0, min(int(extent), size - from))`
abbrev clamp : ℤ → ℕ → ℕ → ℕ
clamp extent size from = pos_part (min_ℤ extent (sub_ℕ size from))

-- `x`, `y`, `w` and `h` of one detection; `max(0, n)` is `pos_part n`.
unfoldable pub box_of : ℕ → ℕ → Bounds → Box
box_of frame_h frame_w b = record {
  x = pos_part b.origin_x;
  y = pos_part b.origin_y;
  w = clamp b.width frame_w (pos_part b.origin_x);
  h = clamp b.height frame_h (pos_part b.origin_y);
}

-- `w > 0 and h > 0`
abbrev pub has_area : Box → Bool
has_area b = ltb 0 b.w && ltb 0 b.h

-- What `encode` cuts out for a box of any four integers.
unfoldable pub crop_of : ℕ → ℕ → ℤ × ℤ × ℤ × ℤ → Crop
crop_of frame_h frame_w (x, y, w, h) = record {
  top = pos_part y;
  bottom = min frame_h (pos_part y + pos_part h);
  left = pos_part x;
  right = min frame_w (pos_part x + pos_part w);
}

-- `np.zeros((EMBEDDING_SIZE,))`
abbrev pub zero_embedding : List Float
zero_embedding = replicate embedding_size (dyadic (pos 0) (pos 0))

-- `np.array([[lm.x, lm.y, lm.z] for lm in landmarks]).reshape(-1)`
flat : List (Float × Float × Float) → List Float
flat [] = []
flat ((x, y, z) ∷ rest) = x ∷ y ∷ z ∷ flat rest

module _ (np : Arrays) where
  -- `raw - np.mean(raw)`
  centred : List Float → List Float
  centred raw = map (λ x. np.minus x (np.mean raw)) raw

  -- `if size > 0: values = values / size`
  over_size : Float → List Float → List Float
  over_size size values =
      if lt_float (dyadic (pos 0) (pos 0)) size then map (λ x. np.over x size) values else values

  -- The array itself where it has the size of an embedding, or interpolated to that size.
  resized : List Float → Result (List Float)
  resized raw =
      if length raw == embedding_size
      then ok raw
      else np.interp (np.linspace (sub_ℕ (length raw) 1) embedding_size)
          (np.linspace (sub_ℕ (length raw) 1) (length raw)) raw

  -- `_landmarks_to_embedding`
  unfoldable pub landmarks_to_embedding : List (Float × Float × Float) → Result (List Float)
  unfolding flat centred over_size resized
  landmarks_to_embedding landmarks =
      let raw = centred (flat landmarks) in
      resized (over_size (np.std raw) raw) >>= λ embedding.
      ok (over_size (np.norm embedding) embedding)

module _ {Frame Marks : Type 0} (mp : MediaPipe Frame Marks) where
  -- `detect`
  unfoldable pub detect : Frame → Result (List Box)
  unfolding box_of
  detect frame = do
    found ← mp.find_faces frame
    ok (keep has_area (map (box_of (mp.height_of frame) (mp.width_of frame)) found))

  unfoldable pub embed_found : Option Marks → Result (List Float)
  unfolding landmarks_to_embedding
  embed_found none = ok zero_embedding
  embed_found (some marks) = landmarks_to_embedding mp.numpy (mp.points marks)

  -- From the corners of the part that is cut out.
  encode_crop : Frame → Crop → Result (List Float)
  unfolding embed_found
  encode_crop frame c =
      if leb c.right c.left || leb c.bottom c.top
      then ok zero_embedding
      else (mp.find_landmarks frame c >>= embed_found)

  -- `encode`
  unfoldable pub encode : Frame → ℤ × ℤ × ℤ × ℤ → Result (List Float)
  unfolding encode_crop crop_of
  encode frame box = encode_crop frame (crop_of (mp.height_of frame) (mp.width_of frame) box)

-- The files below the home directory, the newest first, and how often a download was started.
pub record ModelCache : Type 0 where
  pub files : List (String × String)
  pub downloads : ℕ

-- The contents of a file.
unfoldable pub file_at : String → List (String × String) → Option String
file_at name [] = none
file_at name ((n, contents) ∷ rest) =
    let later = file_at name rest in if str_eq n name then some contents else later

-- Making the directory, the bytes that a download gives, and what `write_bytes` leaves in the file, none
-- when it could not be opened, with what it raises.
pub record Internet : Type 0 where
  pub make_directory : Result (Unit {0})
  pub download : String → Result String
  pub write_bytes : String → Option String × Result (Unit {0})

module _ (net : Internet) where
  -- `except Exception`: a `RuntimeError` takes the place of the exception.
  as_runtime_error : Result (Unit {0}) → Result (Unit {0})
  as_runtime_error (ok _) = ok tt
  as_runtime_error (err e) = if is_exception e then err runtime_error else err e

  leave_model : String → Option String → ModelCache → ModelCache
  leave_model path none cache = cache
  leave_model path (some contents) cache = record cache { files = (path, contents) ∷ cache.files }

  -- `destination.write_bytes(response.read())`
  write_model : String → Result String → ModelCache → Result (Unit {0}) × ModelCache
  write_model path (err e) cache = (err e, cache)
  write_model path (ok bytes) cache =
      ((net.write_bytes bytes).1, leave_model path (net.write_bytes bytes).0 cache)

  fetch_model : String → String → ModelCache → Result (Unit {0}) × ModelCache
  unfolding as_runtime_error write_model leave_model
  fetch_model url path cache =
      let written =
        write_model path (net.download url) (record cache { downloads = cache.downloads + 1 }) in
      (as_runtime_error written.0, written.1)

  -- `_ensure_model`
  unfoldable pub ensure_model : String → String → ModelCache → Result (Unit {0}) × ModelCache
  unfolding fetch_model
  ensure_model url path cache = elim (file_at path cache.files) [
    | some contents ↦ (ok tt, cache)
    | none ↦ and_then (stateless net.make_directory cache) λ _ c. fetch_model url path c
  ]

  -- The two models that `__init__` needs, below the directory of the cache.
  unfoldable pub ensure_models : String → ModelCache → Result (Unit {0}) × ModelCache
  ensure_models dir cache =
      and_then
        (ensure_model face_detector_model_url (join dir "/blaze_face_short_range.tflite") cache)
        λ _ c. ensure_model face_landmarker_model_url (join dir "/face_landmarker.task") c
