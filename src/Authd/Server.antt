-- ===== src/Authd/Server.antt =====
-- secureEye/src/authd/main.py: `_handle_client`, the answer to one connection. The answer to a
-- management request is a parameter, which Authd.Manage models by itself.
pub mod Replies
mod Tests
use secure_eye.Prelude.{ℕ, ◌+◌, ◌-◌, max, String, Option, none, some, ◌==◌, if◌then◌else◌}
use secure_eye.Prelude.Int.{ℤ, pos, negsuc}
use secure_eye.Python.{
  Result, err, ok, and_then, is_exception, Value, null, int, str, Fields, end, field, get_none,
  eq_num, Builtins,
}
use secure_eye.Authd.Access.{UserDb, may_act_for}
use secure_eye.Authd.Framing.{max_payload, Conn, Codec, read_frame, write_frame}
use secure_eye.Authd.Requests.{proto_version, manage_version, AuthRequest, validate_auth_request}
use secure_eye.Authd.Workers.{internal_error_code, Hiring, run_session}

-- `RESPONSE_MARGIN_MS`
abbrev pub response_margin_ms : ℕ
response_margin_ms = 700

-- `READ_TIMEOUT_S` and `WRITE_TIMEOUT_S`, in milliseconds as the clock of a connection
abbrev pub read_timeout_ms : ℕ
read_timeout_ms = 1000

abbrev pub write_timeout_ms : ℕ
write_timeout_ms = 1000

-- What the daemon serves with: the uid of a peer, the user database, JSON, the built-ins, what
-- `manage.handle` does with the connection, and what a session for a user meets until a time.
pub record Daemon : Type 0 where
  pub peer_uid : Conn → Result ℕ
  pub users : UserDb
  pub codec : Codec
  pub builtins : Builtins
  pub manage : ℕ → Fields → Conn → Result (Unit {0}) × Conn
  pub hire : String → ℕ → Hiring

-- An `auth_response`.
pub record Response : Type 0 where
  pub request_id : Option String
  pub result_code : ℕ
  pub detail : String

request_id_value : Option String → Value
request_id_value none = null
request_id_value (some id) = str id

unfoldable pub response_fields : Response → Fields
unfolding request_id_value
response_fields r = field "v" (int (pos proto_version)) (
    field "type" (str "auth_response") (
      field "request_id" (request_id_value r.request_id)
        (field "result_code" (int (pos r.result_code)) (field "detail" (str r.detail) end))))

-- `int` of the deadline less the margin, at least 0.1 s: `worker_deadline` from now on.
abbrev pub worker_time : ℤ → ℕ
worker_time (pos n) = max 100 (n - response_margin_ms)
worker_time (negsuc n) = 100

abbrev answer_of : AuthRequest → ℕ → Response
answer_of req code = record {
  request_id = some req.id;
  result_code = code;
  detail = if code == 0 then "ok" else "auth_failed";
}

abbrev forbidden_answer : AuthRequest → Response
forbidden_answer req = record {
  request_id = some req.id;
  result_code = internal_error_code;
  detail = "forbidden";
}

abbrev failed_answer : Response
failed_answer = record {
  request_id = none;
  result_code = internal_error_code;
  detail = "auth_failed";
}

module _ (d : Daemon) where
  pub send_response : Response → Conn → Result (Unit {0}) × Conn
  send_response r c = write_frame d.codec (response_fields r) max_payload c

  keep_conn : {A : Type 0} → Result A → Conn → Result A × Conn
  keep_conn r c = (r, c)

  answer_session : AuthRequest → Conn → Result (Unit {0}) × Conn
  unfolding keep_conn
  answer_session req c =
      and_then
        (keep_conn (run_session (d.hire req.username (c.now + worker_time req.deadline_ms))).0 c)
        λ code c₁. send_response (answer_of req code) c₁

  answer_login : ℕ → AuthRequest → Conn → Result (Unit {0}) × Conn
  answer_login uid req c =
      if may_act_for d.users uid req.username
      then answer_session req c
      else send_response (forbidden_answer req) c

  login : ℕ → Fields → Conn → Result (Unit {0}) × Conn
  unfolding answer_login answer_session keep_conn
  login uid payload c =
      and_then (keep_conn (validate_auth_request d.builtins payload) c) (answer_login uid)

  -- From the payload, with the time to write.
  pub answer_payload : ℕ → Fields → Conn → Result (Unit {0}) × Conn
  unfolding login
  answer_payload uid payload c =
      if eq_num (get_none "v" payload) manage_version
      then d.manage uid payload (record c { timeout = some write_timeout_ms })
      else login uid payload (record c { timeout = some write_timeout_ms })

  -- What the `try` guards.
  guarded : Conn → Result (Unit {0}) × Conn
  unfolding keep_conn
  guarded c = and_then (keep_conn (d.peer_uid c) c) λ uid c₁.
      and_then (read_frame d.codec (some (c₁.now + read_timeout_ms)) c₁)
        λ payload c₂. answer_payload uid payload c₂

  -- The second `try`.
  drop_error : Result (Unit {0}) × Conn → Result (Unit {0}) × Conn
  drop_error (ok _, c) = (ok tt, c)
  drop_error (err e, c) = if is_exception e then (ok tt, c) else (err e, c)

  fail_closed : Result (Unit {0}) × Conn → Result (Unit {0}) × Conn
  unfolding drop_error
  fail_closed (ok _, c) = (ok tt, c)
  fail_closed (err e, c) = drop_error (send_response failed_answer c)

  -- `_handle_client`
  unfoldable pub handle_client : Conn → Result (Unit {0}) × Conn
  unfolding fail_closed guarded answer_payload send_response
  handle_client c = fail_closed (guarded c)
