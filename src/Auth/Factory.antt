-- ===== src/Auth/Factory.antt =====
-- secureEye/src/auth/detector_factory.py: the stages for a configuration and their cache, and
-- `active_model_id` of secureEye/src/auth/template_store.py. The backends are parameters.
pub mod Cache
mod Tests
use Prim.Native.String.{◌++◌ as join_text}
use secure_eye.Prelude.{
  String, Bool, not, ◌&&◌, Option, none, some, List, [], ◌∷◌, str_eq, if◌then◌else◌,
}
use secure_eye.Python.{detector_factory_error, Result, err, ok}
use secure_eye.Auth.Pipeline.{Bundle}
use secure_eye.Auth.Template.{legacy_model_id}

-- What the code reads of the configuration, with its fallbacks, stripped and in lower case.
pub record Config : Type 0 where
  pub detector_backend : String
  pub use_cnn : Bool
  pub pipeline : String
  pub model_id : String

-- `_cache_key`
abbrev pub CacheKey : Type 0
CacheKey = String × Bool

abbrev pub cache_key : Config → CacheKey
cache_key config = (config.detector_backend, config.use_cnn)

pub same_key : CacheKey → CacheKey → Bool
same_key (a, b) (a', b') = str_eq a a' && (if b then b' else not b')

-- The backends, each of which can raise while it is imported or made.
pub record Backends (Frame Face : Type 0) : Type 0 where
  pub dlib : Bool → Result (Bundle Frame Face)
  pub mediapipe : Result (Bundle Frame Face)

-- `_pipeline_cache`
abbrev pub Cache : Type 0 → Type 0 → Type 0
Cache Frame Face = List (CacheKey × Bundle Frame Face)

module _ {Frame Face : Type 0} where
  pub cached : CacheKey → Cache Frame Face → Option (Bundle Frame Face)
  unfolding same_key
  cached key [] = none
  cached key ((k, bundle) ∷ rest) = if same_key k key then some bundle else cached key rest

  -- `_build_pipeline`
  unfoldable pub build_pipeline : Backends Frame Face → Config → Result (Bundle Frame Face)
  build_pipeline backends config =
      if str_eq config.detector_backend "dlib"
      then backends.dlib config.use_cnn
      else if str_eq config.detector_backend "mediapipe"
      then backends.mediapipe
      else err detector_factory_error

  remember :
      CacheKey
      → Cache Frame Face
      → Result (Bundle Frame Face)
      → Result (Bundle Frame Face) × Cache Frame Face
  remember key cache (err e) = (err e, cache)
  remember key cache (ok bundle) = (ok bundle, (key, bundle) ∷ cache)

  use_cached :
      Backends Frame Face
      → Config
      → Cache Frame Face
      → Option (Bundle Frame Face)
      → Result (Bundle Frame Face) × Cache Frame Face
  unfolding remember
  use_cached backends config cache (some bundle) = (ok bundle, cache)
  use_cached backends config cache none =
      remember (cache_key config) cache (build_pipeline backends config)

  -- `create_pipeline`, under the lock.
  unfoldable pub create_pipeline :
      Backends Frame Face
      → Config
      → Cache Frame Face
      → Result (Bundle Frame Face) × Cache Frame Face
  unfolding use_cached cached
  create_pipeline backends config cache =
      use_cached backends config cache (cached (cache_key config) cache)

-- `LEGACY_MODEL_IDS`
legacy_space : String → String
legacy_space backend =
    if str_eq backend "dlib"
    then legacy_model_id
    else if str_eq backend "mediapipe"
    then "mediapipe-landmarks-v1"
    else join_text "legacy-" backend

-- `active_model_id`
unfoldable pub active_model_id : Config → String
unfolding legacy_space
active_model_id config =
    if str_eq config.pipeline "legacy"
    then legacy_space config.detector_backend
    else config.model_id
