-- ===== src/Authd/Requests/Accepted.antt =====
-- What a request that was accepted looks like, and what a refused one raises.
use secure_eye.Prelude.{
  ◌≤◌, String, ◌≡◌, refl, sym, ap, ◌∙◌, subst, ◌⊎◌, inl, inr, Bool, true, false, ◌&&◌, some, arith,
  eq_iff, leb,
}
use secure_eye.Prelude.Int.{ℤ, pos, negsuc, ltb_ℤ, within_ℤ}
use secure_eye.Python.{
  Exc, protocol_error, overflow_error, Result, err, ok, ◌>>=◌, ◌>>◌, dyadic, infinite, nan, Value,
  null, bool, int, float, str, arr, obj, Fields, get, get_default, get_none, eq_num, eq_text,
  text_length, Builtins, to_int, >>=-eq-ok,
}
use secure_eye.Auth.Capture.{read}
use secure_eye.Authd.Requests.{
  default_deadline_ms, AuthRequest, validate_auth_request, Kind, models_list, models_remove,
  models_clear, enroll, test, ManageRequest, read_kind, validate_manage_request, length_within,
  as_deadline, check_auth_request, auth_header, read_deadline, auth_fields, short_text, read_model,
  read_duration, read_extra, manage_common,
}

-- The bounds of docs/auth-protocol-v1.md on an accepted login request.
pub record IsAuthRequest (payload : Fields) (r : AuthRequest) : Type 0 where
  pub version : eq_num (get_none "v" payload) 1 ≡ true
  pub kind : get "type" payload ≡ some (str "auth_request")
  pub id_length : (1 ≤ text_length r.id) × (text_length r.id ≤ 64)
  pub username_length : (1 ≤ text_length r.username) × (text_length r.username ≤ 64)
  pub service_length : text_length r.service ≤ 64
  pub tty_length : text_length r.tty ≤ 128
  pub rhost_length : text_length r.rhost ≤ 256
  pub deadline : within_ℤ (pos 100) (pos 30000) r.deadline_ms ≡ true

eq_text-str : (v : Value) (s : String) → eq_text v s ≡ true → v ≡ str s
eq_text-str (str t) s h = ap str ((eq_iff t s).0 h)
eq_text-str null s h = cc
eq_text-str (bool b) s h = cc
eq_text-str (int i) s h = cc
eq_text-str (float f) s h = cc
eq_text-str (arr xs) s h = cc
eq_text-str (obj fs) s h = cc

get_none-str : (key s : String) (fs : Fields) → get_none key fs ≡ str s → get key fs ≡ some (str s)
get_none-str key s fs h = ground arith

-- What `validate_auth_request` may raise: a `ProtocolError`, or the `OverflowError` of `int()` where
-- the payload's deadline is an infinite number.
abbrev pub IsRefusal : Fields → Exc → Type 0
IsRefusal payload e =
    ((why : String) × (e ≡ protocol_error why))
    ⊎ ((e ≡ overflow_error)
        × ((below : Bool) × (get "deadline_ms" payload ≡ some (float (infinite below)))))

abbrev is_protocol_error : Exc → Bool
is_protocol_error (protocol_error _) = true
is_protocol_error _ = false

protocol_error_of :
    (e : Exc) → is_protocol_error e ≡ true → (why : String) × (e ≡ protocol_error why)
protocol_error_of (protocol_error why) h = (why, refl)
protocol_error_of _ h = absurd (cc)

to_int-err :
    (b : Builtins) (v : Value) (e : Exc)
    → as_deadline (to_int b v) ≡ err e
    → (is_protocol_error e ≡ true)
      ⊎ ((e ≡ overflow_error) × ((below : Bool) × (v ≡ float (infinite below))))
unfolding as_deadline to_int
to_int-err b (bool true) e h = absurd (cc)
to_int-err b (bool false) e h = absurd (cc)
to_int-err b (int i) e h = absurd (cc)
to_int-err b (float (dyadic m (pos k))) e h = absurd (cc)
to_int-err b (float (dyadic m (negsuc k))) e h = absurd (cc)
to_int-err b (float (infinite below)) e h = inr (cc, (below, refl))
to_int-err b (float nan) e h = inl (ground arith)
to_int-err b (str s) e h = inl (ground arith)
to_int-err b _ e h = inl (ground arith)

get_default-infinite :
    (fs : Fields) (below : Bool)
    → get_default "deadline_ms" (int (pos default_deadline_ms)) fs ≡ float (infinite below)
    → get "deadline_ms" fs ≡ some (float (infinite below))
get_default-infinite fs below h = ground arith

check_auth_request-ok :
    (a r : AuthRequest)
    → check_auth_request a ≡ ok r
    → (a ≡ r)
      × (length_within 1 64 r.id ≡ true)
      × (length_within 1 64 r.username ≡ true)
      × ((leb (text_length r.service) 64
            && leb (text_length r.tty) 128
            && leb (text_length r.rhost) 256)
          ≡ true)
      × (within_ℤ (pos 100) (pos 30000) r.deadline_ms ≡ true)
unfolding check_auth_request
check_auth_request-ok a r h = ground arith

check_auth_request-err :
    (a : AuthRequest) (e : Exc) → check_auth_request a ≡ err e → is_protocol_error e ≡ true
unfolding check_auth_request
check_auth_request-err a e h = ground arith

auth_header-ok :
    (payload : Fields)
    → auth_header payload ≡ ok tt
    → (eq_num (get_none "v" payload) 1 ≡ true)
      × (eq_text (get_none "type" payload) "auth_request" ≡ true)
unfolding auth_header
auth_header-ok payload h = ground arith

auth_header-err :
    (payload : Fields) (e : Exc) → auth_header payload ≡ err e → is_protocol_error e ≡ true
unfolding auth_header
auth_header-err payload e h = ground arith

read_deadline-err :
    (b : Builtins) (payload : Fields) (e : Exc)
    → read_deadline b payload ≡ err e
    → IsRefusal payload e
unfolding read_deadline
read_deadline-err b payload e h = elim (to_int-err b _ e h) [
  | inl p ↦ inl (protocol_error_of e p)
  | inr (same, given) ↦ inr (same, (given.0, get_default-infinite payload given.0 given.1))
]

auth_fields-err :
    (b : Builtins) (payload : Fields) (e : Exc)
    → auth_fields b payload ≡ err e
    → read_deadline b payload ≡ err e
unfolding auth_fields
auth_fields-err b payload e h = ground arith

validate_auth_request_lem :
    (b : Builtins) (payload : Fields)
    → validate_auth_request b payload
      ≡ (auth_header payload >> (auth_fields b payload >>= check_auth_request))
unfolding validate_auth_request
validate_auth_request_lem b payload = refl

-- A login request that is accepted has version 1, the right type and every length and the deadline
-- within the documented bounds, whatever the payload held.
pub validate_auth_request-IsAuthRequest :
    (b : Builtins) (payload : Fields) (r : AuthRequest)
    → validate_auth_request b payload ≡ ok r
    → IsAuthRequest payload r
validate_auth_request-IsAuthRequest b payload r h =
    let (u, headed, h₁) =
      >>=-eq-ok (auth_header payload) (λ _. auth_fields b payload >>= check_auth_request)
        (sym (validate_auth_request_lem b payload) ∙ h) in
    let (a, read, checked) = >>=-eq-ok (auth_fields b payload) check_auth_request h₁ in
    let (version, kind) = auth_header-ok payload headed in
    let (same, id_ok, user_ok, meta_ok, deadline_ok) = check_auth_request-ok a r checked in
    record {
      version = version;
      kind = get_none-str "type" "auth_request" payload (eq_text-str _ _ kind);
      id_length = ground arith;
      username_length = ground arith;
      service_length = ground arith;
      tty_length = ground arith;
      rhost_length = ground arith;
      deadline = deadline_ok;
    }

-- The statement at which a refused request was refused.
refused_cases :
    (b : Builtins) (payload : Fields) (e : Exc) (head : Result (Unit {0}))
    → auth_header payload ≡ head
    → (fields : Result AuthRequest) → auth_fields b payload ≡ fields
    → (head >> (fields >>= check_auth_request)) ≡ err e
    → IsRefusal payload e
refused_cases b payload e (err e₁) headed fields read_as h =
    let same : e₁ ≡ e = cc (h) in
    inl (protocol_error_of e (auth_header-err payload e (headed ∙ ap err same)))
refused_cases b payload e (ok _) headed (err e₁) read_as h =
    let same : e₁ ≡ e = cc (h) in
    read_deadline-err b payload e (auth_fields-err b payload e (read_as ∙ ap err same))
refused_cases b payload e (ok _) headed (ok a) read_as h =
    inl (protocol_error_of e (check_auth_request-err a e h))

-- A login request that is refused is refused by a `ProtocolError`, or by an `OverflowError` where the
-- payload's `deadline_ms` is an infinite number, whatever else the payload held.
pub validate_auth_request-err :
    (b : Builtins) (payload : Fields) (e : Exc)
    → validate_auth_request b payload ≡ err e
    → IsRefusal payload e
validate_auth_request-err b payload e h =
    refused_cases b payload e (auth_header payload) refl (auth_fields b payload) refl
      (sym (validate_auth_request_lem b payload) ∙ h)

-- The field that a kind of management request is required to have.
abbrev pub HasExtra : Kind → ManageRequest → Type 0
HasExtra models_list r = Unit
HasExtra models_clear r = Unit
HasExtra models_remove r = (m : ℤ) × (r.model ≡ some m) × (ltb_ℤ m (pos 0) ≡ false)
HasExtra enroll r = (1 ≤ text_length r.label) × (text_length r.label ≤ 64)
HasExtra test r = within_ℤ (pos 1000) (pos 60000) r.duration_ms ≡ true

-- The bounds of docs/auth-protocol-v2.md on an accepted management request.
pub record IsManageRequest (payload : Fields) (r : ManageRequest) : Type 0 where
  pub version : eq_num (get_none "v" payload) 2 ≡ true
  pub kind : read_kind (get_none "type" payload) ≡ ok r.kind
  pub id : get "request_id" payload ≡ some (str r.id)
  pub username : get "username" payload ≡ some (str r.username)
  pub id_length : (1 ≤ text_length r.id) × (text_length r.id ≤ 64)
  pub username_length : (1 ≤ text_length r.username) × (text_length r.username ≤ 64)
  pub extra : HasExtra r.kind r

short_text-ok :
    (v : Value) (e : Exc) (s : String)
    → short_text v e ≡ ok s
    → (v ≡ str s) × (1 ≤ text_length s) × (text_length s ≤ 64)
unfolding short_text
short_text-ok (str t) e s h = ground arith
short_text-ok _ e s h = cc

manage_common-ok :
    (payload : Fields) (r : ManageRequest)
    → manage_common payload ≡ ok r
    → (eq_num (get_none "v" payload) 2 ≡ true)
      × (read_kind (get_none "type" payload) ≡ ok r.kind)
      × (short_text (get_none "request_id" payload) (protocol_error "invalid request_id") ≡ ok r.id)
      × (short_text (get_none "username" payload) (protocol_error "invalid username")
          ≡ ok r.username)
unfolding manage_common
manage_common-ok payload r h = ground arith

read_model-ok : (v : Value) (m : ℤ) → read_model v ≡ ok m → ltb_ℤ m (pos 0) ≡ false
unfolding read_model
read_model-ok (int i) m h = ground arith
read_model-ok _ m h = cc

read_duration-ok :
    (v : Value) (m : ℤ) → read_duration v ≡ ok m → within_ℤ (pos 1000) (pos 60000) m ≡ true
unfolding read_duration
read_duration-ok (int i) m h = ground arith
read_duration-ok _ m h = cc

read_extra_enroll :
    (payload : Fields) (a r : ManageRequest)
    → read_extra enroll payload a ≡ ok r
    → (r.id ≡ a.id)
      × (r.username ≡ a.username)
      × (r.kind ≡ a.kind)
      × (short_text (get_none "label" payload) (protocol_error "invalid label") ≡ ok r.label)
unfolding read_extra
read_extra_enroll payload a r h = ground arith

-- Which fields a request of each kind brings, and that the common ones stay.
read_extra-ok :
    (k : Kind) (payload : Fields) (a r : ManageRequest)
    → read_extra k payload a ≡ ok r
    → (r.id ≡ a.id) × (r.username ≡ a.username) × (r.kind ≡ a.kind) × HasExtra k r
unfolding read_extra
read_extra-ok models_list payload a r h = ground arith
read_extra-ok models_clear payload a r h = ground arith
read_extra-ok models_remove payload a r h =
    let (m, known, made) = >>=-eq-ok (read_model (get_none "model" payload)) _ h in
    let same : record a { model = some m } ≡ r = cc in
    let bound = read_model-ok _ m known in rw (← same) (refl, refl, refl, (m, refl, bound))
read_extra-ok enroll payload a r h =
    let (same_id, same_user, same_kind, label) = read_extra_enroll payload a r h in
    let (_, low, high) = short_text-ok _ _ r.label label in
    (same_id, same_user, same_kind, (low, high))
read_extra-ok test payload a r h = grind (arith, read_duration-ok)

validate_manage_request_lem :
    (payload : Fields)
    → validate_manage_request payload ≡ (manage_common payload >>= λ a. read_extra a.kind payload a)
unfolding validate_manage_request
validate_manage_request_lem payload = refl

-- A management request that is accepted has version 2, a known type, its texts within the
-- documented bounds and the field that its type requires, in range.
pub validate_manage_request-IsManageRequest :
    (payload : Fields) (r : ManageRequest)
    → validate_manage_request payload ≡ ok r
    → IsManageRequest payload r
validate_manage_request-IsManageRequest payload r h =
    let (a, common, extra) =
      >>=-eq-ok (manage_common payload) (λ a. read_extra a.kind payload a)
        (sym (validate_manage_request_lem payload) ∙ h) in
    let (version, kind, id, user) = manage_common-ok payload a common in
    let (same_id, same_user, same_kind, has) = read_extra-ok a.kind payload a r extra in
    let (id_text, id_low, id_high) = short_text-ok _ _ _ id in
    let (user_text, user_low, user_high) = short_text-ok _ _ _ user in
    record {
      version = version;
      kind = kind ∙ ap ok (sym same_kind);
      id = get_none-str "request_id" r.id payload (id_text ∙ ap str (sym same_id));
      username = get_none-str "username" r.username payload (user_text ∙ ap str (sym same_user));
      id_length = rw same_id (id_low, id_high);
      username_length = rw same_user (user_low, user_high);
      extra = subst (λ k. HasExtra k r) (sym same_kind) has;
    }
