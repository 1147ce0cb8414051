-- ===== src/Authd/Requests.antt =====
-- The validation half of secureEye/src/authd/protocol.py: `validate_auth_request`,
-- `validate_manage_request` and `_flag`. The errors come in the source's order.
pub mod Accepted
mod Tests
use Prim.Native.String.{◌++◌ as join}
use secure_eye.Prelude.{
  ℕ, String, Bool, false, ◌&&◌, Option, none, some, str_eq, leb, if◌then◌else◌, within,
}
use secure_eye.Prelude.Int.{ℤ, pos, ltb_ℤ, within_ℤ}
use secure_eye.Python.{
  Exc, protocol_error, type_error, value_error, Result, err, ok, ◌>>=◌, ◌>>◌, require, Value, bool,
  int, str, arr, obj, Fields, get_default, get_none, eq_num, eq_text, as_plain_int, text_length,
  Builtins, to_text, to_int,
}

abbrev pub proto_version : ℕ
proto_version = 1

abbrev pub manage_version : ℕ
manage_version = 2

abbrev pub default_deadline_ms : ℕ
default_deadline_ms = 2500

abbrev pub default_test_duration_ms : ℕ
default_test_duration_ms = 15000

pub record AuthRequest : Type 0 where
  pub id : String
  pub username : String
  pub service : String
  pub tty : String
  pub rhost : String
  pub deadline_ms : ℤ

abbrev length_within : ℕ → ℕ → String → Bool
length_within lo hi s = within lo hi (text_length s)

-- A conversion whose `TypeError` or `ValueError` becomes a `ProtocolError`; an `OverflowError` is
-- not caught.
as_deadline : Result ℤ → Result ℤ
as_deadline (err type_error) = err (protocol_error "invalid deadline_ms")
as_deadline (err value_error) = err (protocol_error "invalid deadline_ms")
as_deadline r = r

check_auth_request : AuthRequest → Result AuthRequest
check_auth_request r = do
  require (length_within 1 64 r.id) (protocol_error "invalid id")
  require (length_within 1 64 r.username) (protocol_error "invalid username")
  require
      (leb (text_length r.service) 64
        && leb (text_length r.tty) 128
        && leb (text_length r.rhost) 256)
      (protocol_error "invalid metadata lengths")
  require (within_ℤ (pos 100) (pos 30000) r.deadline_ms) (protocol_error "invalid deadline_ms")
  ok r

auth_header : Fields → Result (Unit {0})
auth_header payload = do
  require (eq_num (get_none "v" payload) proto_version)
      (protocol_error "unsupported protocol version")
  require (eq_text (get_none "type" payload) "auth_request") (protocol_error "invalid message type")
  ok tt

read_deadline : Builtins → Fields → Result ℤ
unfolding as_deadline
read_deadline b payload =
    as_deadline (to_int b (get_default "deadline_ms" (int (pos default_deadline_ms)) payload))

auth_fields : Builtins → Fields → Result AuthRequest
auth_fields b payload = do
  let request_id = get_default "request_id" (get_default "id" (str "") payload) payload
  deadline_ms ← read_deadline b payload
  ok (record {
    id = to_text b request_id;
    username = to_text b (get_default "username" (str "") payload);
    service = to_text b (get_default "service" (str "") payload);
    tty = to_text b (get_default "tty" (str "") payload);
    rhost = to_text b (get_default "rhost" (str "") payload);
    deadline_ms = deadline_ms;
  })

unfoldable pub validate_auth_request : Builtins → Fields → Result AuthRequest
unfolding auth_header read_deadline auth_fields check_auth_request
validate_auth_request b payload = do
  auth_header payload
  r ← auth_fields b payload
  check_auth_request r

-- `MANAGE_TYPES`
pub data Kind : Type 0 where
  models_list models_remove models_clear enroll test : Kind

pub record ManageRequest : Type 0 where
  pub id : String
  pub kind : Kind
  pub username : String
  pub model : Option ℤ
  pub label : String
  pub replace : Bool
  pub preview : Bool
  pub duration_ms : ℤ

kind_of_text : String → Option Kind
kind_of_text s =
    if str_eq s "models_list"
    then some models_list
    else if str_eq s "models_remove"
    then some models_remove
    else if str_eq s "models_clear"
    then some models_clear
    else if str_eq s "enroll"
    then some enroll
    else if str_eq s "test"
    then some test
    else none

-- `kind in MANAGE_TYPES`: an object or a list there cannot be hashed, which raises a `TypeError`.
pub read_kind : Value → Result Kind
unfolding kind_of_text
read_kind (str s) = elim (kind_of_text s) [
  | none ↦ err (protocol_error "invalid message type")
  | some k ↦ ok k
]
read_kind (arr _) = err type_error
read_kind (obj _) = err type_error
read_kind _ = err (protocol_error "invalid message type")

short_text : Value → Exc → Result String
short_text (str s) e = if length_within 1 64 s then ok s else err e
short_text _ e = err e

flag : String → Fields → Result Bool
flag key payload = elim (get_default key (bool false) payload) [
  | bool b ↦ ok b
  | _ ↦ err (protocol_error (join "invalid " key))
]

-- A number that is no Boolean and lies in the range.
read_model : Value → Result ℤ
read_model v = elim (as_plain_int v) [
  | none ↦ err (protocol_error "invalid model")
  | some m ↦ if ltb_ℤ m (pos 0) then err (protocol_error "invalid model") else ok m
]

read_duration : Value → Result ℤ
read_duration v = elim (as_plain_int v) [
  | none ↦ err (protocol_error "invalid duration_ms")
  | some m ↦
      if within_ℤ (pos 1000) (pos 60000) m then ok m else err (protocol_error "invalid duration_ms")
]

-- The fields that the kind of request has beside the common ones.
read_extra : Kind → Fields → ManageRequest → Result ManageRequest
read_extra models_list payload r = ok r
read_extra models_clear payload r = ok r
read_extra models_remove payload r = do
  m ← read_model (get_none "model" payload)
  ok (record r { model = some m })
read_extra enroll payload r = do
  preview ← flag "preview" payload
  label ← short_text (get_none "label" payload) (protocol_error "invalid label")
  replace ← flag "replace" payload
  ok (record r { label = label; replace = replace; preview = preview })
read_extra test payload r = do
  preview ← flag "preview" payload
  d ← read_duration (get_default "duration_ms" (int (pos default_test_duration_ms)) payload)
  ok (record r { preview = preview; duration_ms = d })

manage_common : Fields → Result ManageRequest
manage_common payload = do
  require (eq_num (get_none "v" payload) manage_version)
      (protocol_error "unsupported protocol version")
  kind ← read_kind (get_none "type" payload)
  request_id ← short_text (get_none "request_id" payload) (protocol_error "invalid request_id")
  username ← short_text (get_none "username" payload) (protocol_error "invalid username")
  ok (record {
    id = request_id;
    kind = kind;
    username = username;
    model = none;
    label = "";
    replace = false;
    preview = false;
    duration_ms = pos default_test_duration_ms;
  })

unfoldable pub validate_manage_request : Fields → Result ManageRequest
unfolding manage_common read_kind short_text read_extra read_model read_duration flag
validate_manage_request payload = do r ← manage_common payload; read_extra r.kind payload r
