-- ===== src/Authd/Server/Tests.antt =====
-- A login that succeeds, and a client that sends nothing.
use secure_eye.Prelude.{◌≡◌, refl, ◌⊎◌, true, none, some, [], ◌∷◌, str_eq, if◌then◌else◌}
use secure_eye.Prelude.Int.{pos}
use secure_eye.Python.{ok, int, str, obj, Fields, end, field, eq_num, to_text, to_int}
use secure_eye.Authd.Access.{may_act_for}
use secure_eye.Authd.Framing.{
  arrive, closed, Conn, read_exact, pack, unpack, read_frame, sendall, write_frame,
}
use secure_eye.Authd.Requests.{validate_auth_request}
use secure_eye.Authd.Server.{Daemon, response_fields, handle_client}
use secure_eye.Authd.Server.Replies.{IsReplied, IsManaged, handle_client-IsReplied}
use secure_eye.Authd.Workers.{run_session}

abbrev login_body : Fields
login_body =
    field "v" (int (pos 1))
      (field "type" (str "auth_request") (field "id" (str "7") (field "username" (str "ana") end)))

abbrev daemon : Daemon
daemon = record {
  peer_uid = λ c. ok 1000;
  users = λ name. if str_eq name "ana" then some 1000 else none;
  codec = record { dumps = λ fs. 123 ∷ 125 ∷ []; loads = λ body. some (obj login_body) };
  builtins = record { repr = λ _. "?"; int_of_text = λ _. none };
  manage = λ uid payload c. (ok tt, c);
  hire = λ name until. record { granted = true; submitted = ok tt; outcome = some (ok 0) };
}

abbrev client : Conn
client = record {
  feed = arrive 5 (0 ∷ 0 ∷ 0 ∷ 2 ∷ 123 ∷ 125 ∷ []) closed;
  now = 0;
  timeout = none;
  sent = [];
  patience = 1;
}

answered : (handle_client daemon client).1.sent ≡ (0 ∷ 0 ∷ 0 ∷ 2 ∷ 123 ∷ 125 ∷ []) ∷ []
unfolding run_session handle_client read_frame read_exact unpack eq_num validate_auth_request
    may_act_for write_frame pack sendall response_fields to_int to_text
answered = refl

handle_client-IsReplied_example :
    IsManaged daemon client
    ⊎ ((handle_client daemon client).1.sent ≡ client.sent)
    ⊎ IsReplied daemon client (handle_client daemon client).1
handle_client-IsReplied_example = handle_client-IsReplied daemon client
