-- ===== src/DlibModels.antt =====
-- secureEye/src/dlib_models.py: downloading the data files of dlib. The download, the decompressor and
-- SHA-256 are parameters; `FetchError` is the `other_exception` here.
pub mod Verified
pub mod Complete
mod Tests
use secure_eye.Prelude.{
  ℕ, ◌+◌, String, Bool, false, ◌||◌, List, [], ◌∷◌, ◌++◌, str_eq, if◌then◌else◌,
}
use secure_eye.Python.{
  other_exception, Result, err, ok, ◌>>=◌, ◌>>◌, and_then, require, is_exception,
}

-- `DataFile`
pub record DataFile : Type 0 where
  pub name : String
  pub sha256 : String

-- `FILES`
abbrev pub data_files : List DataFile
data_files =
    record {
      name = "shape_predictor_5_face_landmarks.dat";
      sha256 = "c4b1e9804792707d3a405c2c16a80a20269e6675021f64a41d30fffafbc41888";
    }
    ∷ record {
      name = "mmod_human_face_detector.dat";
      sha256 = "be467b1a76f482693de3b0f6a1ff91d092319be71523d4d4b0628f6a53fcb87a";
    }
    ∷ record {
      name = "dlib_face_recognition_resnet_model_v1.dat";
      sha256 = "55533b28a95800a551ba546ba62fe69625c7e95a7061c338adffead08719da30";
    }
    ∷ []

-- The directory: its files with their contents, and the number of temporary files left in it.
pub record Directory : Type 0 where
  pub files : List (String × String)
  pub left_over : ℕ

-- What the code takes from outside: making a temporary file, the bytes that a download unpacks to with
-- whether the decompressor saw their end, the digest, and `os.chmod` with `os.replace`.
pub record Net : Type 0 where
  pub mkstemp : DataFile → Result (Unit {0})
  pub unpacked : DataFile → Result (String × Bool)
  pub hexdigest : String → String
  pub installed : DataFile → Result (Unit {0})

pub is_file : String → List (String × String) → Bool
is_file name [] = false
is_file name ((n, _) ∷ rest) = str_eq n name || is_file name rest

-- `missing`
unfoldable pub missing : Directory → List DataFile → List String
unfolding is_file
missing d [] = []
missing d (f ∷ fs) =
    let rest = missing d fs in if is_file f.name d.files then rest else f.name ∷ rest

is_wanted : String → List String → Bool
is_wanted name [] = false
is_wanted name (n ∷ rest) = str_eq n name || is_wanted name rest

drop_file : String → List (String × String) → List (String × String)
drop_file name [] = []
drop_file name ((n, contents) ∷ rest) =
    let others = drop_file name rest in if str_eq n name then others else (n, contents) ∷ others

-- What the `try` of `_download` comes to: the verified contents.
verified : Net → DataFile → Result String
verified net f = do
  got ← net.unpacked f
  require got.1 other_exception
  require (str_eq (net.hexdigest got.0) f.sha256) other_exception
  net.installed f
  ok got.0

-- The `except` clauses: an `Exception` removes the temporary file.
settle_download : DataFile → Result String → Directory → Result (Unit {0}) × Directory
unfolding drop_file
settle_download f (ok contents) d =
    (ok tt, record d { files = (f.name, contents) ∷ drop_file f.name d.files })
settle_download f (err e) d =
    if is_exception e
    then (err other_exception, d)
    else (err e, record d { left_over = d.left_over + 1 })

-- `_download`
unfoldable pub download : Net → DataFile → Directory → Result (Unit {0}) × Directory
unfolding settle_download verified
download net f d = and_then (net.mkstemp f, d) λ _ d₁. settle_download f (verified net f) d₁

-- The loop of `fetch`, with the names that were fetched so far.
fetch_all :
    Net → List String → List DataFile → List String → Directory → Result (List String) × Directory
unfolding is_wanted
fetch_all net wanted [] fetched d = (ok fetched, d)
fetch_all net wanted (f ∷ fs) fetched d =
    if is_wanted f.name wanted
    then (and_then (download net f d) λ _ d₁. fetch_all net wanted fs (fetched ++ (f.name ∷ [])) d₁)
    else fetch_all net wanted fs fetched d

-- `fetch`, in a directory that could be made.
unfoldable pub fetch : Net → Directory → Result (List String) × Directory
unfolding fetch_all
fetch net d = fetch_all net (missing d data_files) data_files [] d
