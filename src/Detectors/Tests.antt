-- ===== src/Detectors/Tests.antt =====
-- A face at the edge of a picture, and a download that breaks off.
use secure_eye.Prelude.{ℕ, ◌≡◌, refl, some, [], ◌∷◌, replicate}
use secure_eye.Prelude.Int.{pos, negsuc}
use secure_eye.Python.{os_error, runtime_error, err, ok, nan}
use secure_eye.Detectors.Mediapipe.{
  face_detector_model_url, Arrays, MediaPipe, box_of, crop_of, zero_embedding, detect, encode,
  ModelCache, file_at, Internet, ensure_model, ensure_models,
}
use secure_eye.Detectors.Mediapipe.Models.{IsLeft, ensure_model-partial}

abbrev pub arrays : Arrays
arrays = record {
  mean = λ xs. nan;
  std = λ xs. nan;
  norm = λ xs. nan;
  minus = λ a b. nan;
  over = λ a b. nan;
  linspace = λ stop num. replicate num nan;
  interp = λ dst src raw. ok dst;
}

abbrev pub mp : MediaPipe ℕ ℕ
mp = record {
  height_of = λ frame. 480;
  width_of = λ frame. 640;
  find_faces = λ frame. ok (
      record { origin_x = pos 600; origin_y = negsuc 9; width = pos 100; height = pos 50 }
      ∷ record { origin_x = pos 700; origin_y = pos 0; width = pos 10; height = pos 10 }
      ∷ []);
  find_landmarks = λ frame crop. ok (some 3);
  points = λ marks. (nan, nan, nan) ∷ [];
  numpy = arrays;
}

detected : detect mp 0 ≡ ok (record { x = 600; y = 0; w = 40; h = 50 } ∷ [])
unfolding detect box_of
detected = refl

empty_crop : encode mp 0 (pos 640, pos 0, pos 5, pos 5) ≡ ok zero_embedding
unfolding encode crop_of
empty_crop = refl

abbrev broken_net : Internet
broken_net = record {
  make_directory = ok tt;
  download = λ url. ok "model";
  write_bytes = λ bytes. (some "mo", err os_error);
}

abbrev empty_cache : ModelCache
empty_cache = record { files = []; downloads = 0 }

ensure_model-partial_example :
    IsLeft broken_net face_detector_model_url "m.tflite" "mo"
      (ensure_model broken_net face_detector_model_url "m.tflite" empty_cache)
ensure_model-partial_example =
    ensure_model-partial broken_net face_detector_model_url "m.tflite" "model" "mo" os_error
      empty_cache (unfold file_at in refl) refl refl refl

second_model : (ensure_models broken_net "d" empty_cache).0 ≡ err runtime_error
unfolding ensure_models ensure_model file_at
second_model = refl
