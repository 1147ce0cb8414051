-- ===== src/Auth/ModelStore.antt =====
-- secureEye/src/auth/model_store.py: the deprecated view of the templates in dlib's space.
use secure_eye.Prelude.{String, ◌≢◌, List, map}
use secure_eye.Prelude.Int.{ℤ}
use secure_eye.Python.{
  Exc, protocol_error, empty_template_store, template_space_mismatch, system_exit, Result, err, ok,
}
use secure_eye.Auth.Template.{legacy_model_id, Row, Template, Numpy, TemplateSet}
use secure_eye.Auth.TemplateStore.{FileState, load}

-- One of the `models`.
pub record LegacyModel : Type 0 where
  pub id : ℤ
  pub label : String
  pub time : ℤ
  pub rows : List Row

abbrev pub legacy_model : Template → LegacyModel
legacy_model t = record { id = t.id; label = t.label; time = t.created; rows = t.embeddings }

-- `except TemplateSpaceMismatch`: templates that are all in other spaces count as none.
as_empty_store : Exc → Exc
as_empty_store template_space_mismatch = empty_template_store
as_empty_store e = e

legacy_view : Result TemplateSet → Result (List LegacyModel × List Row)
unfolding as_empty_store
legacy_view (ok s) = ok (map legacy_model s.templates, s.matrix_rows)
legacy_view (err e) = err (as_empty_store e)

-- `load_user_models`
unfoldable pub load_user_models : Numpy → FileState → Result (List LegacyModel × List Row)
unfolding legacy_view
load_user_models np f = legacy_view (load np legacy_model_id f)

as_empty_store-ne : (e : Exc) → as_empty_store e ≢ template_space_mismatch
unfolding as_empty_store
as_empty_store-ne template_space_mismatch = λ h. cc
as_empty_store-ne (protocol_error s) = λ h. cc
as_empty_store-ne (system_exit n) = λ h. cc
as_empty_store-ne _ = λ h. cc

-- A mismatch of the spaces never leaves `load_user_models`, so that its callers see an empty store.
pub load_user_models-ne :
    (np : Numpy) (f : FileState) → load_user_models np f ≢ err template_space_mismatch
unfolding load_user_models legacy_view
load_user_models-ne np f = by_result (load np legacy_model_id f)
  where
    by_result : (r : Result TemplateSet) → legacy_view r ≢ err template_space_mismatch
    by_result (ok s) = λ h. cc
    by_result (err e) = λ h. as_empty_store-ne e (cc)
