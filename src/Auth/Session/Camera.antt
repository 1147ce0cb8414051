-- ===== src/Auth/Session/Camera.antt =====
-- secureEye/src/auth/session.py with `FrameStream.release` of capture.py: the camera of a session that
-- other threads may cancel. A schedule is a list of the steps that the threads take, where what a lock
-- guards is one step.
pub mod Releasing
pub mod LetGo
mod Tests
use secure_eye.Prelude.{
  ℕ, ◌+◌, ◌-◌, Bool, true, false, Option, none, some, List, [], ◌∷◌, ◌==◌, if◌then◌else◌,
}
use secure_eye.Auth.Capture.{Stream, release}

-- Where `_run_loop` stands: before the stream, after building it, after storing it in `self._stream`,
-- after the test of the event and before the `try`, in the loop, after clearing `self._stream`, after
-- the last release; or left by an exception before the `try`.
pub data Phase : Type 0 where
  starting built stored tested looping detached finished abandoned : Phase

-- The stream, whether `self._stream` refers to it, how often the camera was let go, the event, and the
-- calls of `cancel` that have set the event and not yet taken the lock.
pub record Shared : Type 0 where
  pub phase : Phase
  pub stream : Option Stream
  pub attached : Bool
  pub let_go : ℕ
  pub cancel_event : Bool
  pub pending : ℕ

abbrev pub unstarted : Shared
unstarted = record {
  phase = starting;
  stream = none;
  attached = false;
  let_go = 0;
  cancel_event = false;
  pending = 0;
}

-- A step: the session goes on, which builds the stream that is given if it has none, or leaves the
-- loop; the option of the exposure cannot be read, which raises; a call of `cancel` sets the event; a
-- call of `cancel` takes the lock.
pub data Step : Type 0 where
  session_goes_on : Stream → Step
  option_raises cancel_sets cancel_locks : Step

abbrev pub count_release : Bool × Stream → Shared → Shared
count_release (lets_go, s) h = record h {
  stream = some s;
  let_go = if lets_go then h.let_go + 1 else h.let_go;
}

-- `stream.release()`
pub release_stream : Shared → Shared
release_stream h = elim h.stream [ none ↦ h | some s ↦ count_release (release s) h ]

-- The next step of `_run_loop`.
session_step : Phase → Stream → Shared → Shared
unfolding release_stream
session_step starting s h = record h {
  phase = built;
  stream = some (record s { released = false });
}
session_step built s h = record h { phase = stored; attached = true }
session_step stored s h =
    let on : Shared = record h { phase = tested } in
    if h.cancel_event then release_stream on else on
session_step tested s h = record h { phase = looping }
session_step looping s h = record h { phase = detached; attached = false }
session_step detached s h = release_stream (record h { phase = finished })
session_step finished s h = h
session_step abandoned s h = h

-- `config.getint` raises between the test and the `try`: nothing releases the stream.
abandon : Phase → Shared → Shared
abandon tested h = record h { phase = abandoned }
abandon _ h = h

-- One step of a schedule.
unfoldable pub take_step : Step → Shared → Shared
unfolding session_step abandon release_stream
take_step (session_goes_on s) h = session_step h.phase s h
take_step option_raises h = abandon h.phase h
take_step cancel_sets h = record h { cancel_event = true; pending = h.pending + 1 }
take_step cancel_locks h =
    let rest : Shared = record h { pending = h.pending - 1 } in
    if h.pending == 0 then h else if h.attached then release_stream rest else rest

unfoldable pub schedule : List Step → Shared → Shared
unfolding take_step
schedule [] h = h
schedule (s ∷ ss) h = schedule ss (take_step s h)
