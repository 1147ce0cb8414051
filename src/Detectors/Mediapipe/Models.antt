-- ===== src/Detectors/Mediapipe/Models.antt =====
-- secureEye/src/detectors/mediapipe_detector.py: the model files that `_ensure_model` leaves.
use secure_eye.Prelude.{
  ◌+◌, String, ◌≡◌, refl, sym, ap, ◌∙◌, subst, ◌≢◌, none, some, List, ◌∷◌, eq_iff, if_elim, if_true,
}
use secure_eye.Python.{Exc, Result, err, ok, is_exception}
use secure_eye.Detectors.Mediapipe.{
  ModelCache, file_at, Internet, ensure_model, as_runtime_error, leave_model, write_model,
  fetch_model,
}

-- What was written to a file is what is read from it.
file_at-new :
    (path contents : String) (files : List (String × String))
    → file_at path ((path, contents) ∷ files) ≡ some contents
unfolding file_at
file_at-new path contents files = if_true _ ((eq_iff path path).1 refl)

module _ (net : Internet) where
  -- A file that is there is not loaded again.
  pub ensure_model-there :
      (url path contents : String) (cache : ModelCache)
      → file_at path cache.files ≡ some contents
      → ensure_model net url path cache ≡ (ok tt, cache)
  unfolding ensure_model
  ensure_model-there url path contents cache h = rw (ensure_model, h)

  ensure_model-missing :
      (url path : String) (cache : ModelCache)
      → file_at path cache.files ≡ none
      → net.make_directory ≡ ok tt
      → ensure_model net url path cache ≡ fetch_model net url path cache
  unfolding ensure_model
  ensure_model-missing url path cache unfound made = rw (ensure_model, unfound, made)

  as_runtime_error-err : (e : Exc) → as_runtime_error net (err e) ≢ ok tt
  unfolding as_runtime_error
  as_runtime_error-err e =
      if_elim {A = Result (Unit {0})} (λ r. r ≢ ok tt) (is_exception e) (λ _ h. cc) λ _ h. cc

  fetch_model-partial :
      (url path bytes part : String) (e : Exc) (cache : ModelCache)
      → net.download url ≡ ok bytes
      → net.write_bytes bytes ≡ (some part, err e)
      → fetch_model net url path cache ≡ (
        as_runtime_error net (err e),
        record cache { files = (path, part) ∷ cache.files; downloads = cache.downloads + 1 },
      )
  unfolding fetch_model write_model leave_model
  fetch_model-partial url path bytes part e cache got broke =
      let begun : ModelCache = record cache { downloads = cache.downloads + 1 } in
      ap
        (λ r.
          (as_runtime_error net (write_model net path r begun).0, (write_model net path r begun).1))
        got
      ∙ ap (λ w. (as_runtime_error net w.1, leave_model net path w.0 begun)) broke

  -- The call raised, the file holds that part, and the next call returns at once.
  abbrev pub IsLeft : String → String → String → Result (Unit {0}) × ModelCache → Type 0
  IsLeft url path part (outcome, left) =
      (outcome ≢ ok tt)
      × (file_at path left.files ≡ some part)
      × (ensure_model net url path left ≡ (ok tt, left))

  -- When a write fails in the middle, `_ensure_model` raises and leaves the part that was written, and
  -- from then on returns at once: the incomplete file counts as the model.
  pub ensure_model-partial :
      (url path bytes part : String) (e : Exc) (cache : ModelCache)
      → file_at path cache.files ≡ none
      → net.make_directory ≡ ok tt
      → net.download url ≡ ok bytes
      → net.write_bytes bytes ≡ (some part, err e)
      → IsLeft url path part (ensure_model net url path cache)
  ensure_model-partial url path bytes part e cache unfound made got broke =
      let left : ModelCache = record cache {
        files = (path, part) ∷ cache.files;
        downloads = cache.downloads + 1;
      } in
      let outcome : ensure_model net url path cache ≡ (as_runtime_error net (err e), left) =
        ensure_model-missing url path cache unfound made
        ∙ fetch_model-partial url path bytes part e cache got broke in
      let there = file_at-new path part cache.files in
      subst (IsLeft url path part) (sym outcome)
        (as_runtime_error-err e, there, ensure_model-there url path part left there)
