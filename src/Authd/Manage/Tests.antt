-- ===== src/Authd/Manage/Tests.antt =====
-- A user removes one of two models, and another user may not.
use secure_eye.Prelude.{
  ℕ, ◌/◌, String, ◌≡◌, refl, true, false, Option, none, some, [], ◌∷◌, str_eq, if◌then◌else◌,
  length,
}
use secure_eye.Prelude.Int.{pos}
use secure_eye.Python.{
  ok, null, bool, int, str, arr, Fields, end, field, nil, eq_num, to_text, to_int,
}
use secure_eye.Auth.Capture.{face}
use secure_eye.Auth.Probe.{completed}
use secure_eye.Auth.Template.{all_finite, parse_vectors, parse, store_value, next_id, find}
use secure_eye.Auth.Template.Tests.{numpy, first, both, both-IsStorable}
use secure_eye.Auth.TemplateStore.{
  FileState, absent, json, read_payload, stored_next_id, load_all, save, delete,
}
use secure_eye.Authd.Access.{may_act_for}
use secure_eye.Authd.Manage.{World, without_found, change_models, handle, Service}
use secure_eye.Authd.Manage.Answers.{IsRefused, handle-forbidden}
use secure_eye.Authd.Manage.Changes.{IsRemoved, change_models-IsRemoved}
use secure_eye.Authd.Manage.Once.{IsHandled, handle-IsHandled}
use secure_eye.Authd.Messages.{send}
use secure_eye.Authd.Requests.{models_remove, ManageRequest, validate_manage_request}
use secure_eye.Authd.Sessions.{probed, SessionRun, Studio, camera_session}

file : FileState
unfolding store_value
file = json (store_value (pos 9) both)

abbrev no_session : SessionRun ℕ
no_session = record {
  watcher = ok tt;
  shots = record { state = face; content = null; now = 200; frame = 0 } ∷ [];
  finish = λ count raised f. (
    ok (
        probed (record {
          result = completed;
          frames = count;
          matched_frames = 0;
          best_distance = none;
        })),
    f,
  );
  preempted = false;
}

abbrev studio : Studio ℕ
studio = record {
  prepare = λ req. ok no_session;
  imaging = record {
    height = λ f. 480;
    width = λ f. 640;
    round_ratio = λ a b. a / b;
    resize = λ h w f. ok f;
    jpeg = λ f. ok (some "AA==");
  };
  round = λ d n. d;
}

abbrev desk : World ℕ
desk = record {
  users = λ name. if str_eq name "ana" then some 1000 else none;
  numpy = numpy;
  studio = studio;
}

abbrev request : ManageRequest
request = record {
  id = "r1";
  kind = models_remove;
  username = "ana";
  model = some (pos 0);
  label = "";
  replace = false;
  preview = false;
  duration_ms = pos 15000;
}

abbrev payload : Fields
payload = field "v" (int (pos 2)) (
    field "type" (str "models_remove") (
      field "request_id" (str "r1")
        (field "username" (str "ana") (field "model" (int (pos 0)) end))))

abbrev found : Service
found = record {
  file = absent;
  sent = [];
  write_faults = [];
  lock_free = true;
  lock_held = false;
  camera_free = true;
  camera_held = false;
}

-- Names what a run computes with.
abbrev code : Unit {0}
unfolding file change_models load_all read_payload numpy parse parse_vectors eq_num to_int to_text
    stored_next_id next_id all_finite save delete store_value find without_found
code = tt

loaded : load_all numpy file ≡ ok both
unfolding code
loaded = refl

asked : find both (pos 0) ≡ some first
unfolding find
asked = refl

abbrev said : String × Option Fields
said = ("success", some (field "removed" (int (pos 0)) (field "remaining" (int (pos 1)) end)))

removed : (change_models numpy request file).0 ≡ ok said
unfolding code
removed = refl

change_models-IsRemoved_example : IsRemoved numpy both (pos 0) (change_models numpy request file).1
change_models-IsRemoved_example =
    change_models-IsRemoved numpy request file both (pos 0) first said loaded both-IsStorable refl
      refl asked removed

accepted : validate_manage_request payload ≡ ok request
unfolding validate_manage_request eq_num
accepted = refl

handle-forbidden_example : IsRefused "forbidden" found (handle desk 1001 payload found).1
unfolding may_act_for
handle-forbidden_example = handle-forbidden desk 1001 payload request found accepted refl

abbrev test_payload : Fields
test_payload = field "v" (int (pos 2)) (
    field "type" (str "test") (
      field "request_id" (str "r1")
        (field "username" (str "ana") (field "preview" (bool true) end))))

handle-IsHandled_example : IsHandled found (handle desk 1000 test_payload found)
handle-IsHandled_example = handle-IsHandled desk 1000 test_payload found refl refl

shown_and_answered : length (handle desk 1000 test_payload found).1.sent ≡ 3
unfolding handle validate_manage_request eq_num may_act_for camera_session send
shown_and_answered = refl

abbrev odd : Fields
odd = field "v" (int (pos 2)) (field "type" (arr nil) end)
