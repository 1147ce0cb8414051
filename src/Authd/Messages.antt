-- ===== src/Authd/Messages.antt =====
-- secureEye/src/authd/manage.py: what a management request keeps, and the messages to its client.
-- A `result` message.
pub mod Sent
use secure_eye.Prelude.{String, Bool, Option, none, some, List, [], ◌∷◌, ◌++◌, if◌then◌else◌}
use secure_eye.Python.{Exc, Result, err, ok, is_exception, Value, Fields}
use secure_eye.Auth.TemplateStore.{FileState}
use secure_eye.Authd.Requests.{ManageRequest}

pub record Message : Type 0 where
  pub request_id : Option String
  pub result : String
  pub content : Option Fields

-- What is sent to the client: a result, the start of a camera session, or a frame with its report and
-- perhaps a preview.
pub data Event : Type 0 where
  result_of : Message → Event
  began : String → Event
  shown : String → Value → Option String → Event

-- What a request finds and leaves: the user's model file, what was sent, what the next writes raise
-- (nothing once the list is used up), whether the lock on the models and the camera can be had in
-- time, and whether the request holds them.
pub record Service : Type 0 where
  pub file : FileState
  pub sent : List Event
  pub write_faults : List (Option Exc)
  pub lock_free : Bool
  pub lock_held : Bool
  pub camera_free : Bool
  pub camera_held : Bool

unfoldable pub write_with : Event → Service → List (Option Exc) → Result (Unit {0}) × Service
write_with m s [] = (ok tt, record s { sent = s.sent ++ (m ∷ []) })
write_with m s (none ∷ later) =
    (ok tt, record s { sent = s.sent ++ (m ∷ []); write_faults = later })
write_with m s (some e ∷ later) = (err e, record s { write_faults = later })

-- `_send`
unfoldable pub send : Event → Service → Result (Unit {0}) × Service
unfolding write_with
send m s = write_with m s s.write_faults

-- `_result`
abbrev pub send_result : Message → Service → Result (Unit {0}) × Service
send_result m s = send (result_of m) s

abbrev pub message_to : ManageRequest → String → Option Fields → Message
message_to req result content = record {
  request_id = some req.id;
  result = result;
  content = content;
}

unfoldable pub drop_exception : Result (Unit {0}) × Service → Result (Unit {0}) × Service
drop_exception (ok _, s) = (ok tt, s)
drop_exception (err e, s) = if is_exception e then (ok tt, s) else (err e, s)

-- `_try_result`
unfoldable pub try_result : Option String → String → Service → Result (Unit {0}) × Service
unfolding drop_exception
try_result id result s =
    drop_exception (send_result (record { request_id = id; result = result; content = none }) s)
