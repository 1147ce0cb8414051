-- ===== src/Detectors/Dlib.antt =====
-- secureEye/src/detectors/dlib_detector.py with the data files' names of secureEye/src/paths_factory.py:
-- `DlibDetector`. dlib is a parameter.
use Prim.Native.String.{◌++◌ as join}
use secure_eye.Prelude.{
  String, ◌≡◌, refl, ap, ◌⊎◌, inl, inr, Bool, true, List, [], ◌∷◌, if◌then◌else◌, Bool-cases, All,
}
use secure_eye.Python.{file_not_found, Result, err, ok, ◌>>=◌, ◌>>◌, require, >>=-eq-ok}
use secure_eye.DlibModels.{is_file}

-- `models`
abbrev pub model_files : List String
model_files =
    "shape_predictor_5_face_landmarks.dat" ∷ "mmod_human_face_detector.dat"
    ∷ "dlib_face_recognition_resnet_model_v1.dat" ∷ []

-- What dlib loads from the files: its two detectors, the predictor of landmarks and the encoder, each
-- of which may raise.
pub record Dlib (Found Mark : Type 0) : Type 0 where
  pub cnn_detector : Result Found
  pub frontal_detector : Result Found
  pub pose_predictor : Result Mark
  pub face_encoder : Result Mark

-- `DlibDetector`
pub record Loaded (Found Mark : Type 0) : Type 0 where
  pub detector : Found
  pub predictor : Mark
  pub encoder : Mark

-- `Path(dlib_data_dir_path()) / name`
abbrev pub data_file : String → String → String
data_file dir name = join dir (join "/" name)

-- The loop over the names: the first file that is missing raises.
unfoldable pub check_files : String → (String → Bool) → List String → Result (Unit {0})
check_files dir is_file [] = ok tt
check_files dir is_file (name ∷ names) =
    require (is_file (data_file dir name)) file_not_found >> check_files dir is_file names

module _ {Found Mark : Type 0} (dlib : Dlib Found Mark) where
  pub load_models : Bool → Result (Loaded Found Mark)
  load_models cnn = do
    detector ← if cnn then dlib.cnn_detector else dlib.frontal_detector
    predictor ← dlib.pose_predictor
    encoder ← dlib.face_encoder
    ok (record { detector = detector; predictor = predictor; encoder = encoder })

  -- `__init__`
  unfoldable pub new_detector : String → (String → Bool) → Bool → Result (Loaded Found Mark)
  unfolding load_models
  new_detector dir is_file cnn = check_files dir is_file model_files >> load_models cnn

-- What the check of the names comes to: all files are there, or one is missing.
pub IsChecked : String → (String → Bool) → List String → Type 0
IsChecked dir is_file names =
    ((check_files dir is_file names ≡ ok tt)
      × All (λ name. is_file (data_file dir name) ≡ true) names)
    ⊎ (check_files dir is_file names ≡ err file_not_found)

pub check_files-IsChecked :
    (dir : String) (is_file : String → Bool) (names : List String) → IsChecked dir is_file names
unfolding check_files IsChecked
check_files-IsChecked dir is_file [] = inl (refl, tt)
check_files-IsChecked dir is_file (name ∷ names) =
    elim (Bool-cases (is_file (data_file dir name))) [
      | inl there ↦ elim (check_files-IsChecked dir is_file names) [
        | inl (clean, all) ↦ inl (rw (there, clean) refl, (there, all))
        | inr raises ↦ inr (rw (there, raises) refl)
      ]
      | inr missing_file ↦ inr (rw missing_file refl)
    ]

-- A detector that was loaded had all three files, whichever detector was asked for.
pub new_detector-All :
    {Found Mark : Type 0} (dlib : Dlib Found Mark) (dir : String) (is_file : String → Bool)
    (cnn : Bool) (loaded : Loaded Found Mark)
    → new_detector dlib dir is_file cnn ≡ ok loaded
    → All (λ name. is_file (data_file dir name) ≡ true) model_files
unfolding new_detector IsChecked
new_detector-All dlib dir is_file cnn loaded h =
    let (_, clean, _) = >>=-eq-ok (check_files dir is_file model_files) _ h in
    elim (check_files-IsChecked dir is_file model_files) [
      | inl (_, all) ↦ all
      | inr raises ↦ absurd (cc (clean, raises))
    ]

check_files-ok :
    (dir : String) (is_file : String → Bool) (names : List String)
    → All (λ name. is_file (data_file dir name) ≡ true) names
    → check_files dir is_file names ≡ ok tt
unfolding check_files
check_files-ok dir is_file [] all = refl
check_files-ok dir is_file (name ∷ names) (there, all) =
    rw (there, check_files-ok dir is_file names all) refl

-- With all three files it comes to loading the models.
pub new_detector-load_models :
    {Found Mark : Type 0} (dlib : Dlib Found Mark) (dir : String) (is_file : String → Bool)
    (cnn : Bool)
    → All (λ name. is_file (data_file dir name) ≡ true) model_files
    → new_detector dlib dir is_file cnn ≡ load_models dlib cnn
unfolding new_detector
new_detector-load_models dlib dir is_file cnn all =
    ap (λ checked. checked >> load_models dlib cnn) (check_files-ok dir is_file model_files all)
