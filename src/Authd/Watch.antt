-- ===== src/Authd/Watch.antt =====
-- secureEye/src/authd/manage.py: `_watch_client`, which cancels a camera session for its client. The
-- rounds of its loop are a list.
use secure_eye.Prelude.{◌≡◌, refl, ap, Bool, false, ◌||◌, List, [], ◌∷◌, ◌++◌, str_eq}
use secure_eye.Python.{Exc, is_exception, Value, str, Fields, get_none}

-- One round: the session is done, or what `select` and `read_frame` come to (nothing to read, a raise,
-- a message).
pub data Round : Type 0 where
  session_done nothing_read : Round
  read_raised : Exc → Round
  message_read : Fields → Round

is_cancel : Value → Bool
is_cancel (str kind) = str_eq kind "cancel"
is_cancel _ = false

-- Whether the watcher calls `cancel()` on the session.
unfoldable pub watch_client : List Round → Bool
unfolding is_cancel
watch_client [] = false
watch_client (session_done ∷ rounds) = false
watch_client (nothing_read ∷ rounds) = watch_client rounds
watch_client (read_raised e ∷ rounds) = is_exception e
watch_client (message_read message ∷ rounds) =
    let later = watch_client rounds in is_cancel (get_none "type" message) || later

-- A session that is done is not cancelled by what comes after it.
pub watch_client-done :
    (before after others : List Round)
    → watch_client (before ++ (session_done ∷ after))
      ≡ watch_client (before ++ (session_done ∷ others))
unfolding watch_client
watch_client-done [] after others = refl
watch_client-done (session_done ∷ before) after others = refl
watch_client-done (nothing_read ∷ before) after others = watch_client-done before after others
watch_client-done (read_raised e ∷ before) after others = refl
watch_client-done (message_read message ∷ before) after others =
    ap (λ (b : Bool). is_cancel (get_none "type" message) || b)
      (watch_client-done before after others)
