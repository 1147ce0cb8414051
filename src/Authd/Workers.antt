-- ===== src/Authd/Workers.antt =====
-- secureEye/src/authd/main.py: `_run_session`, which hands a login to a worker and waits for it until
-- the deadline, and `serve`, which bounds the connections that are handled at a time.
pub mod Leases
pub mod Slots
mod Tests
use secure_eye.Prelude.{
  ℕ, ◌+◌, ◌-◌, Bool, true, false, not, ◌||◌, Option, none, some, List, [], ◌∷◌, ◌==◌, if◌then◌else◌,
}
use secure_eye.Python.{timeout_error, system_exit, Result, err, ok}
use secure_eye.Auth.Session.{timeout_reached, exit_value}

-- `INTERNAL_ERROR_CODE`
abbrev pub internal_error_code : ℕ
internal_error_code = 99

-- What a call of `_run_session` meets: whether the camera is granted in time, what submitting the
-- session to the pool raises, and what the worker comes to before the deadline, if it ends by then.
pub record Hiring : Type 0 where
  pub granted : Bool
  pub submitted : Result (Unit {0})
  pub outcome : Option (Result ℕ)

-- The session's hold of the camera: whether it has it, whether the worker's end will give it back, and
-- whether the session was cancelled.
pub record Lease : Type 0 where
  pub holds : Bool
  pub back_on_end : Bool
  pub called_off : Bool

abbrev pub no_lease : Lease
no_lease = record { holds = false; back_on_end = false; called_off = false }

abbrev taken : Lease
taken = record { holds = true; back_on_end = false; called_off = false }

-- The wait for the future: a `TimeoutError` of the worker is of the class that a late worker gives.
wait_for : Option (Result ℕ) → Lease → Result ℕ × Lease
wait_for none l = (ok (exit_value timeout_reached), record l { called_off = true })
wait_for (some (ok code)) l = (ok code, l)
wait_for (some (err timeout_error)) l =
    (ok (exit_value timeout_reached), record l { called_off = true })
wait_for (some (err (system_exit code))) l = (ok code, l)
wait_for (some (err _)) l = (ok internal_error_code, l)

submit_session : Hiring → Result (Unit {0}) → Lease → Result ℕ × Lease
unfolding wait_for
submit_session h (err e) l = (err e, record l { holds = false })
submit_session h (ok _) l = wait_for h.outcome (record l { back_on_end = true })

-- `_run_session`
unfoldable pub run_session : Hiring → Result ℕ × Lease
unfolding submit_session
run_session h =
    if h.granted
    then submit_session h h.submitted taken
    else (ok (exit_value timeout_reached), no_lease)

-- The end of the worker, with the callback of its future.
unfoldable pub end_worker : Lease → Lease
end_worker l = if l.back_on_end then record l { holds = false } else l

-- `MAX_CLIENTS`
abbrev pub max_clients : ℕ
max_clients = 8

-- The accept loop and its workers: the free slots, the connections in the hands of a worker, those that
-- were closed at once, the `stop` event, whether the loop is in `accept`, and whether it raised.
pub record Serving : Type 0 where
  pub free : ℕ
  pub handled : List ℕ
  pub turned_away : List ℕ
  pub stop_set : Bool
  pub accepting : Bool
  pub raised : Bool

abbrev pub serving : Serving
serving = record {
  free = max_clients;
  handled = [];
  turned_away = [];
  stop_set = false;
  accepting = true;
  raised = false;
}

-- What happens: `accept` gives a connection, for which a thread can be started or not, or times out, or
-- fails; the signal to stop; the end of the worker of a connection.
pub data ServeEvent : Type 0 where
  connected : ℕ → Bool → ServeEvent
  idle_time broken_socket told_to_stop : ServeEvent
  worker_ended : ℕ → ServeEvent

-- The test of `while not stop.is_set()`.
abbrev test_stop : Serving → Serving
test_stop s = record s { accepting = not s.stop_set }

take_slot : ℕ → Bool → Serving → Serving
take_slot c true s = test_stop (record s { free = s.free - 1; handled = c ∷ s.handled })
take_slot c false s = record s { free = s.free - 1; accepting = false; raised = true }

has_connection : ℕ → List ℕ → Bool
has_connection c [] = false
has_connection c (x ∷ xs) = x == c || has_connection c xs

without_connection : ℕ → List ℕ → List ℕ
without_connection c [] = []
without_connection c (x ∷ xs) =
    let rest = without_connection c xs in if x == c then xs else x ∷ rest

-- A step of the loop, or of the rest of the process.
serve_step : ServeEvent → Serving → Serving
unfolding take_slot
serve_step (connected c starts) s =
    if not s.accepting
    then s
    else if s.free == 0
    then test_stop (record s { turned_away = c ∷ s.turned_away })
    else take_slot c starts s
serve_step idle_time s = if s.accepting then test_stop s else s
serve_step broken_socket s = record s { accepting = false }
serve_step told_to_stop s = record s { stop_set = true }
serve_step (worker_ended c) s =
    if has_connection c s.handled
    then record s { free = s.free + 1; handled = without_connection c s.handled }
    else s

-- `serve`
unfoldable pub serve : List ServeEvent → Serving → Serving
unfolding serve_step has_connection without_connection
serve [] s = s
serve (e ∷ es) s = serve es (serve_step e s)
