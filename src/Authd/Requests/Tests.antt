-- ===== src/Authd/Requests/Tests.antt =====
-- Requests as clients send them, and the theorems at these.
use secure_eye.Prelude.{◌≡◌, refl, false, none, some}
use secure_eye.Prelude.Int.{pos}
use secure_eye.Python.{
  overflow_error, err, ok, dyadic, infinite, int, float, str, Fields, end, field, eq_num, Builtins,
  to_text, to_int,
}
use secure_eye.Authd.Requests.{
  AuthRequest, validate_auth_request, models_remove, ManageRequest, validate_manage_request,
}
use secure_eye.Authd.Requests.Accepted.{
  IsAuthRequest, IsRefusal, validate_auth_request-IsAuthRequest, validate_auth_request-err,
  IsManageRequest, validate_manage_request-IsManageRequest,
}

abbrev builtins : Builtins
builtins = record { repr = λ _. "?"; int_of_text = λ _. none }

abbrev login : Fields
login =
    field "v" (int (pos 1))
      (field "type" (str "auth_request") (field "id" (str "7") (field "username" (str "ana") end)))

abbrev ana : AuthRequest
ana = record {
  id = "7";
  username = "ana";
  service = "";
  tty = "";
  rhost = "";
  deadline_ms = pos 2500;
}

accepted : validate_auth_request builtins login ≡ ok ana
unfolding validate_auth_request to_int to_text eq_num
accepted = refl

forever : Fields
forever =
    field "v" (int (pos 1))
      (field "type" (str "auth_request") (field "deadline_ms" (float (infinite false)) end))

-- `json.loads` reads `Infinity`, and `int()` of it is no `ValueError`.
overflows : validate_auth_request builtins forever ≡ err overflow_error
unfolding forever validate_auth_request to_int to_text eq_num
overflows = refl

abbrev removal : Fields
removal = field "v" (float (dyadic (pos 1) (pos 1))) (
    field "type" (str "models_remove") (
      field "request_id" (str "r")
        (field "username" (str "ana") (field "model" (int (pos 3)) end))))

abbrev removing : ManageRequest
removing = record {
  id = "r";
  kind = models_remove;
  username = "ana";
  model = some (pos 3);
  label = "";
  replace = false;
  preview = false;
  duration_ms = pos 15000;
}

removal_accepted : validate_manage_request removal ≡ ok removing
unfolding validate_manage_request eq_num
removal_accepted = refl

validate_auth_request-IsAuthRequest_example : IsAuthRequest login ana
validate_auth_request-IsAuthRequest_example =
    validate_auth_request-IsAuthRequest builtins login ana accepted

validate_auth_request-err_example : IsRefusal forever overflow_error
validate_auth_request-err_example =
    validate_auth_request-err builtins forever overflow_error overflows

validate_manage_request-IsManageRequest_example : IsManageRequest removal removing
validate_manage_request-IsManageRequest_example =
    validate_manage_request-IsManageRequest removal removing removal_accepted
