-- ===== src/Authd/Manage.antt =====
-- secureEye/src/authd/manage.py: the answers to management requests. The model file is that of the
-- request's user.
pub mod Changes
pub mod Answers
pub mod Once
mod Tests
use secure_eye.Prelude.{
  ℕ, String, Bool, true, false, Option, none, some, List, [], ◌∷◌, leb, ◌==◌, if◌then◌else◌, length,
}
use secure_eye.Prelude.Int.{ℤ, pos, eqb_ℤ}
use secure_eye.Python.{
  protocol_error, template_file_not_found, empty_template_store, template_schema_error, system_exit,
  system_exit_other, Result, err, ok, and_then, is_exception, Value, int, str, arr, obj, Fields,
  end, field, Items, nil, cons, get_none, text_length,
}
use secure_eye.Auth.Template.{Template, Numpy, find}
use secure_eye.Auth.TemplateStore.{FileState, load_all, save, delete, load_or_empty}
use secure_eye.Authd.Access.{UserDb, may_act_for}
use secure_eye.Authd.Messages.{Message, Service, send_result, message_to, try_result}
use secure_eye.Authd.Requests.{
  Kind, models_list, models_clear, enroll, test, ManageRequest, validate_manage_request,
}
use secure_eye.Authd.Sessions.{Studio, camera_session}

abbrev pub Change : Type 0
Change = Result (String × Option Fields) × FileState

unfoldable pub unchanged : String → FileState → Change
unchanged result f = (ok (result, none), f)

clear_models : List Template → FileState → Change
clear_models ts f =
    and_then (delete f)
      λ _ f₁. (ok ("success", some (field "removed" (int (pos (length ts))) end)), f₁)

-- `[t for t in templates if t is not target]` for the target that `find` gives.
unfoldable pub without_found : List Template → ℤ → List Template
without_found [] i = []
without_found (t ∷ ts) i = let rest = without_found ts i in if eqb_ℤ t.id i then ts else t ∷ rest

unfoldable pub save_or_delete : List Template → FileState → Result (Unit {0}) × FileState
save_or_delete [] f = delete f
save_or_delete (t ∷ ts) f = save (t ∷ ts) f

unfoldable pub remove_found : List Template → Template → FileState → Change
unfolding save_or_delete
remove_found ts target f =
    let remaining = without_found ts target.id in
    and_then (save_or_delete remaining f) λ _ f₁. (
      ok (
        "success",
        some (
            field "removed" (int target.id) (field "remaining" (int (pos (length remaining))) end)),
      ),
      f₁,
    )

unfoldable pub find_model : List Template → Option ℤ → Option Template
find_model ts none = none
find_model ts (some i) = find ts i

unfoldable pub remove_target : List Template → FileState → Option Template → Change
unfolding remove_found unchanged
remove_target ts f none = unchanged "model_not_found" f
remove_target ts f (some target) = remove_found ts target f

unfoldable pub remove_model : List Template → Option ℤ → FileState → Change
unfolding remove_target find_model
remove_model ts model f = remove_target ts f (find_model ts model)

-- From the test for `models_clear`; the only other kind here is `models_remove`.
unfoldable pub change_loaded : Kind → Option ℤ → List Template → FileState → Change
unfolding clear_models
change_loaded models_clear model ts f = clear_models ts f
change_loaded _ model ts f = remove_model ts model f

change_broken : Kind → FileState → Change
unfolding clear_models unchanged
change_broken models_clear f = clear_models [] f
change_broken _ f = unchanged "model_file_invalid" f

unfoldable pub after_load : Kind → Option ℤ → FileState → Result (List Template) → Change
unfolding change_loaded change_broken unchanged
after_load kind model f (ok ts) = change_loaded kind model ts f
after_load kind model f (err template_file_not_found) = unchanged "no_models" f
after_load kind model f (err empty_template_store) = unchanged "no_models" f
after_load kind model f (err template_schema_error) = change_broken kind f
after_load kind model f (err e) = (err e, f)

-- `_change_models`
unfoldable pub change_models : Numpy → ManageRequest → FileState → Change
unfolding after_load remove_model
change_models np req f = after_load req.kind req.model f (load_all np f)

model_entries : List Template → Items
model_entries [] = nil
model_entries (t ∷ ts) =
    cons
      (obj (
        field "id" (int t.id) (
          field "label" (str t.label)
            (field "time" (int t.created) (field "model_id" (str t.model_id) end)))))
      (model_entries ts)

listing : ManageRequest → List Template → Message
unfolding model_entries
listing req ts =
    message_to req "success"
      (some (field "user" (str req.username) (field "models" (arr (model_entries ts)) end)))

-- The answer to `models_list`, from what `load_all` gives, with no templates where the file is
-- missing or empty.
list_models : ManageRequest → Result (List Template) → Service → Result (Unit {0}) × Service
unfolding listing
list_models req (ok ts) s = send_result (listing req ts) s
list_models req (err template_schema_error) s =
    send_result (message_to req "model_file_invalid" none) s
list_models req (err e) s = (err e, s)

set_file : Service → Change → Result (String × Option Fields) × Service
set_file s (r, f) = (r, record s { file = f; lock_held = false })

-- With the lock: the change, and the lock is given back.
change_locked : Numpy → ManageRequest → Service → Result (Unit {0}) × Service
unfolding set_file
change_locked np req s =
    and_then (set_file s (change_models np req s.file))
      λ answer s₁. send_result (message_to req answer.0 answer.1) s₁

-- From the test for `models_list`.
answer_kind : Kind → Numpy → ManageRequest → Service → Result (Unit {0}) × Service
unfolding list_models change_locked
answer_kind models_list np req s = list_models req (load_or_empty np s.file) s
answer_kind _ np req s =
    if s.lock_free
    then change_locked np req (record s { lock_held = true })
    else send_result (message_to req "busy" none) s

-- `_models_request`
unfoldable pub models_request : Numpy → ManageRequest → Service → Result (Unit {0}) × Service
unfolding answer_kind
models_request np req s = answer_kind req.kind np req s

-- The `except` clauses of `handle`.
answer_error : ManageRequest → Result (Unit {0}) × Service → Result (Unit {0}) × Service
answer_error req (ok _, s) = (ok tt, s)
answer_error req (err (system_exit n), s) =
    try_result (some req.id) (if n == 14 then "invalid_device" else "internal_error") s
answer_error req (err system_exit_other, s) = try_result (some req.id) "internal_error" s
answer_error req (err e, s) =
    if is_exception e then try_result (some req.id) "internal_error" s else (err e, s)

-- What the code takes from outside: the user database, numpy, the images' library, and what a camera
-- session is and meets.
pub record World (Frame : Type 0) : Type 0 where
  pub users : UserDb
  pub numpy : Numpy
  pub studio : Studio Frame

is_camera : Kind → Bool
is_camera enroll = true
is_camera test = true
is_camera _ = false

allowed : {Frame : Type 0} → World Frame → ℕ → ManageRequest → Service → Result (Unit {0}) × Service
unfolding answer_error is_camera
allowed w uid req s =
    if may_act_for w.users uid req.username
    then answer_error req
        (if is_camera req.kind then camera_session w.studio req s else models_request w.numpy req s)
    else try_result (some req.id) "forbidden" s

-- The id for the answer to a request that is not valid.
raw_id : Value → Option String
raw_id (str s) = if leb (text_length s) 64 then some s else none
raw_id _ = none

after_validation :
    {Frame : Type 0}
    → World Frame
    → ℕ
    → Fields
    → Result ManageRequest
    → Service
    → Result (Unit {0}) × Service
unfolding allowed raw_id
after_validation w uid payload (ok req) s = allowed w uid req s
after_validation w uid payload (err (protocol_error _)) s =
    try_result (raw_id (get_none "request_id" payload)) "invalid_request" s
after_validation w uid payload (err e) s = (err e, s)

-- `handle`
unfoldable pub handle :
    {Frame : Type 0} → World Frame → ℕ → Fields → Service → Result (Unit {0}) × Service
unfolding after_validation
handle w uid payload s = after_validation w uid payload (validate_manage_request payload) s
