-- ===== src/Auth/TemplateStore.antt =====
-- The file operations of secureEye/src/auth/template_store.py on the model file of one user.
-- `FileState` is what reading the file finds; writing then reading JSON gives the value back.
pub mod Operations
pub mod Enrolling
pub mod Refinement
pub mod Atomic
mod Tests
use secure_eye.Prelude.{
  String, Bool, true, not, ◌&&◌, none, some, List, [], ◌∷◌, ◌++◌, str_eq, ◌==◌, if◌then◌else◌,
  length, keep,
}
use secure_eye.Prelude.Int.{ℤ, pos, ltb_ℤ, max_ℤ}
use secure_eye.Python.{
  Exc, template_file_not_found, empty_template_store, template_space_mismatch,
  template_schema_error, file_not_found, connection_error, timeout_error, os_error, Result, err, ok,
  ◌>>=◌, ◌>>◌, and_then, require, Value, obj, get_none, as_plain_int,
}
use secure_eye.Auth.Template.{
  legacy_model_id, Row, Template, width, Array, scalar, vector, matrix, tensor, Numpy, all_finite,
  parse, store_value, next_id, TemplateSet, stack,
}

pub data FileState : Type 0 where
  absent : FileState
  -- no JSON
  garbled : FileState
  -- reading raises an `OSError` or a `UnicodeDecodeError`
  unreadable : Exc → FileState
  json : Value → FileState

-- `_read_payload`
unfoldable pub read_payload : FileState → Result Value
read_payload absent = err template_file_not_found
read_payload garbled = err template_schema_error
read_payload (unreadable e) = err e
read_payload (json v) = ok v

-- `_stored_next_id`: reading errors that are a `TemplateStoreError` or an `OSError` count as 0, a
-- payload that is no object or a mark that is no positive int too.
mark_of : Value → ℤ
mark_of v = elim (as_plain_int v) [ none ↦ pos 0 | some m ↦ if ltb_ℤ (pos 0) m then m else pos 0 ]

mark_in : Value → ℤ
mark_in (obj fs) = mark_of (get_none "next_id" fs)
mark_in _ = pos 0

unfoldable pub stored_next_id : FileState → Result ℤ
unfolding mark_of mark_in
stored_next_id absent = ok (pos 0)
stored_next_id garbled = ok (pos 0)
stored_next_id (unreadable os_error) = ok (pos 0)
stored_next_id (unreadable file_not_found) = ok (pos 0)
stored_next_id (unreadable connection_error) = ok (pos 0)
stored_next_id (unreadable timeout_error) = ok (pos 0)
stored_next_id (unreadable e) = err e
stored_next_id (json v) = ok (mark_in v)

-- `peek_next_id`
unfoldable pub peek_next_id : List Template → FileState → Result ℤ
peek_next_id ts f = do stored ← stored_next_id f; ok (max_ℤ (next_id ts) stored)

-- `load_all`
unfoldable pub load_all : Numpy → FileState → Result (List Template)
load_all np f = do payload ← read_payload f; parse np legacy_model_id payload

pub in_space : String → Template → Bool
in_space space t = str_eq t.model_id space

nonempty_or : Exc → List Template → Result (List Template)
nonempty_or e [] = err e
nonempty_or e (t ∷ ts) = ok (t ∷ ts)

-- `load`
unfoldable pub load : Numpy → String → FileState → Result TemplateSet
unfolding in_space nonempty_or
load np space f = do
  payload ← read_payload f
  templates ← parse np space payload
  matching ← nonempty_or template_space_mismatch (keep (in_space space) templates)
  stack space matching

-- `save`: the file that the write leaves, if nothing raises.
unfoldable pub save : List Template → FileState → Result (Unit {0}) × FileState
save ts f =
    and_then (stored_next_id f, f)
      λ stored f₁. (ok tt, json (store_value (max_ℤ (next_id ts) stored) ts))

-- `delete`
unfoldable pub delete : FileState → Result (Unit {0}) × FileState
delete absent = (err template_file_not_found, absent)
delete _ = (ok tt, absent)

-- `_load_or_empty`
or_empty : Result (List Template) → Result (List Template)
or_empty (err template_file_not_found) = ok []
or_empty (err empty_template_store) = ok []
or_empty r = r

unfoldable pub load_or_empty : Numpy → FileState → Result (List Template)
unfolding or_empty
load_or_empty np f = or_empty (load_all np f)

-- `np.atleast_2d`
pub at_least_2d : Array → Result (List Row)
at_least_2d (scalar x) = ok ((x ∷ []) ∷ [])
at_least_2d (vector row) = ok (row ∷ [])
at_least_2d (matrix rows) = ok rows
at_least_2d tensor = err template_schema_error

all_rows_finite : List Row → Bool
all_rows_finite [] = true
all_rows_finite (r ∷ rs) = all_finite r && all_rows_finite rs

-- What a caller of `append` and `replace_space` gives, with the time of the call for a missing
-- `created`.
pub record Enrolled : Type 0 where
  pub model_id : String
  pub label : String
  pub embeddings : Array
  pub created : ℤ

-- `_build`
unfoldable pub build : ℤ → Enrolled → Result Template
unfolding at_least_2d all_rows_finite
build id e = do
  rows ← at_least_2d e.embeddings
  require (not (length rows == 0) && not (width rows == 0)) template_schema_error
  require (all_rows_finite rows) template_schema_error
  ok (record {
    id = id;
    label = e.label;
    created = e.created;
    model_id = e.model_id;
    embeddings = rows;
  })

-- What `append` and `replace_space` share up to their `save`: the new template, and the list to be
-- written, in which it stands behind those that `kept` leaves of the old ones.
pub add_plan :
    Numpy
    → (List Template → List Template)
    → Enrolled
    → FileState
    → Result (Template × List Template)
add_plan np kept e f = do
  existing ← load_or_empty np f
  id ← peek_next_id existing f
  template ← build id e
  ok (template, kept existing ++ (template ∷ []))

save_plan : Template × List Template → FileState → Result Template × FileState
save_plan (template, ts) f = and_then (save ts f) λ _ f₁. (ok template, f₁)

pub add_template :
    Numpy → (List Template → List Template) → Enrolled → FileState → Result Template × FileState
add_template np kept e f = and_then (add_plan np kept e f, f) save_plan

-- `append`
unfoldable pub append : Numpy → Enrolled → FileState → Result Template × FileState
unfolding add_template add_plan save_plan
append np = add_template np (λ ts. ts)

pub other_space : String → Template → Bool
other_space space t = not (str_eq t.model_id space)

-- `replace_space`
unfoldable pub replace_space : Numpy → Enrolled → FileState → Result Template × FileState
unfolding add_template add_plan save_plan other_space
replace_space np e = add_template np (keep (other_space e.model_id)) e
