-- ===== src/Authd/Camera.antt =====
-- secureEye/src/authd/camera.py: `CameraArbiter`. Each critical section of `acquire` and `release`,
-- between two waits on the condition, is one step of the arbiter's state. A session is known by a
-- number (`is` compares these), and `cancelled` lists the sessions whose `cancel` was called.
pub mod Invariant
mod Tests
use secure_eye.Prelude.{
  ℕ, zero, suc, ◌+◌, ◌-◌, Bool, true, false, ◌||◌, Option, none, some, List, [], ◌∷◌, ◌==◌,
  if◌then◌else◌, is_some, get_elem?,
}

pub data CameraUse : Type 0 where
  auth manage : CameraUse

abbrev pub is_auth : CameraUse → Bool
is_auth auth = true
is_auth manage = false

pub record Arbiter : Type 0 where
  pub holder : Option (CameraUse × ℕ)
  pub auth_waiting : ℕ
  pub cancelled : List ℕ

abbrev pub initial : Arbiter
initial = record { holder = none; auth_waiting = 0; cancelled = [] }

-- `_can_take`
unfoldable pub can_take : CameraUse → Arbiter → Bool
can_take purpose a = if is_some a.holder then false else is_auth purpose || a.auth_waiting == 0

-- `_auth_waiting += 1` when an AUTH request enters.
unfoldable pub enter : CameraUse → Arbiter → Arbiter
enter auth a = record a { auth_waiting = a.auth_waiting + 1 }
enter manage a = a

-- The `finally` clause. `_auth_waiting` is an int: a call without its `enter` would take it below 0,
-- which no path does.
unfoldable pub leave : CameraUse → Arbiter → Arbiter
leave auth a = record a { auth_waiting = a.auth_waiting - 1 }
leave manage a = a

-- The holder's `cancel()`, if an AUTH request finds a MANAGE session there.
preempt : CameraUse → Arbiter → Arbiter
preempt auth a = elim a.holder [
  | none ↦ a
  | some h ↦ elim h.0 [ manage ↦ record a { cancelled = h.1 ∷ a.cancelled } | auth ↦ a ]
]
preempt manage a = a

pub data Attempt : Type 0 where
  granted timed_out waiting : Attempt

-- One turn of the loop of `acquire`, up to the wait: the time that is left is `deadline - now`.
unfoldable pub attempt : CameraUse → ℕ → Bool → Arbiter → Arbiter × Attempt
unfolding can_take preempt leave
attempt purpose session expired a =
    if can_take purpose a
    then (leave purpose (record a { holder = some (purpose, session) }), granted)
    else if expired
    then (leave purpose (preempt purpose a), timed_out)
    else (preempt purpose a, waiting)

-- `release`
unfoldable pub release : ℕ → Arbiter → Arbiter
release session a = elim a.holder [
  | none ↦ a
  | some h ↦ if h.1 == session then record a { holder = none } else a
]

-- `holder()`
unfoldable pub holder_use : Arbiter → Option CameraUse
holder_use a = elim a.holder [ none ↦ none | some h ↦ some h.0 ]

-- The threads round the arbiter: who waits in `acquire`, and, as a history, the sessions that were
-- granted the camera and have not released it since.
pub record World : Type 0 where
  pub arbiter : Arbiter
  pub waiters : List (CameraUse × ℕ)
  pub active : List ℕ

-- What the threads do, in any order: a call of `acquire`, a waiter that wakes up (notified or timed
-- out), a call of `release`.
pub data Event : Type 0 where
  arrive : CameraUse → ℕ → Bool → Event
  wake : ℕ → Bool → Event
  give_back : ℕ → Event

abbrev pub get_waiter : ℕ → List (CameraUse × ℕ) → Option (CameraUse × ℕ)
get_waiter i ws = get_elem? ws i

abbrev pub without : ℕ → List (CameraUse × ℕ) → List (CameraUse × ℕ)
without i [] = []
without zero (x ∷ xs) = xs
without (suc i) (x ∷ xs) = x ∷ without i xs

abbrev pub remove_session : ℕ → List ℕ → List ℕ
remove_session s [] = []
remove_session s (x ∷ xs) = let rest = remove_session s xs in if x == s then rest else x ∷ rest

-- The world after a turn of the loop, for a caller that is (not any more) among `others`.
settle : CameraUse → ℕ → List (CameraUse × ℕ) → World → Arbiter × Attempt → World
settle purpose session others w (a, granted) = record w {
  arbiter = a;
  waiters = others;
  active = session ∷ w.active;
}
settle purpose session others w (a, timed_out) = record w { arbiter = a; waiters = others }
settle purpose session others w (a, waiting) = record w {
  arbiter = a;
  waiters = (purpose, session) ∷ others;
}

unfoldable pub step : Event → World → World
unfolding settle attempt enter release
step (arrive purpose session expired) w =
    settle purpose session w.waiters w (attempt purpose session expired (enter purpose w.arbiter))
step (wake i expired) w = elim (get_waiter i w.waiters) [
  | none ↦ w
  | some (purpose, session) ↦
      settle purpose session (without i w.waiters) w (attempt purpose session expired w.arbiter)
]
step (give_back session) w = record w {
  arbiter = release session w.arbiter;
  active = remove_session session w.active;
}

unfoldable pub run : List Event → World → World
run [] w = w
run (e ∷ es) w = run es (step e w)

abbrev pub idle : World
idle = record { arbiter = initial; waiters = []; active = [] }
