-- ===== src/Auth/Session/Camera/LetGo.antt =====
-- secureEye/src/auth/session.py: that a session lets go of its camera, once, whatever cancels it.
use secure_eye.Prelude.{
  ◌-◌, ◌≡◌, refl, sym, ap, ◌∙◌, subst, inl, inr, true, false, Option, none, some, List, [], ◌∷◌,
  arith, ◌==◌, if◌then◌else◌, is_some, Bool-cases, if_elim, if_true, if_false,
}
use secure_eye.Auth.Capture.{Stream}
use secure_eye.Auth.Session.Camera.{
  Phase, starting, built, stored, tested, looping, detached, finished, abandoned, Shared, unstarted,
  Step, session_goes_on, option_raises, cancel_sets, cancel_locks, release_stream, take_step,
  schedule, session_step, abandon,
}
use secure_eye.Auth.Session.Camera.Releasing.{
  has_stream, is_attached, is_watched, once, IsSafe, release_stream-IsRelease, released-IsSafe,
}

no_stream :
    (o : Option Stream)
    → is_some o ≡ false
    → (elim o [ none ↦ false | some s ↦ s.released ]) ≡ false
no_stream none h = refl
no_stream (some s) h = absurd (cc)

session_step-IsSafe :
    (phase : Phase) (s : Stream) (h : Shared)
    → h.phase ≡ phase
    → IsSafe h
    → IsSafe (session_step phase s h)
unfolding session_step
session_step-IsSafe starting s h at is = record {
  built_once = refl;
  attached_now = is.attached_now ∙ ap is_attached at;
  counted_once = is.counted_once ∙ ap once (no_stream h.stream (is.built_once ∙ ap has_stream at));
  cancelled_loop = λ e. cc;
  released_at_end = λ e. cc;
}
session_step-IsSafe built s h at is = record {
  built_once = is.built_once ∙ ap has_stream at;
  attached_now = refl;
  counted_once = is.counted_once;
  cancelled_loop = λ e. cc;
  released_at_end = λ e. cc;
}
session_step-IsSafe stored s h at is =
    let on : Shared = record h { phase = tested } in
    let now = is.attached_now ∙ ap is_attached at in
    elim (Bool-cases h.cancel_event) [
      | inl set ↦ subst IsSafe (sym (if_true _ set)) (
          released-IsSafe on (release_stream on)
            (release_stream-IsRelease on (is.built_once ∙ ap has_stream at) is.counted_once) refl
            now)
      | inr not_set ↦ subst IsSafe (sym (if_false _ not_set)) (record {
        built_once = is.built_once ∙ ap has_stream at;
        attached_now = now;
        counted_once = is.counted_once;
        cancelled_loop = λ _ set. absurd (cc (set, not_set));
        released_at_end = λ e. cc;
      })
    ]
session_step-IsSafe tested s h at is = record {
  built_once = is.built_once ∙ ap has_stream at;
  attached_now = is.attached_now ∙ ap is_attached at;
  counted_once = is.counted_once;
  cancelled_loop = λ _ set none_left. is.cancelled_loop (ap is_watched at) set none_left;
  released_at_end = λ e. cc;
}
session_step-IsSafe looping s h at is = record {
  built_once = is.built_once ∙ ap has_stream at;
  attached_now = refl;
  counted_once = is.counted_once;
  cancelled_loop = λ e. cc;
  released_at_end = λ e. cc;
}
session_step-IsSafe detached s h at is =
    let ended : Shared = record h { phase = finished } in
    released-IsSafe ended (release_stream ended)
      (release_stream-IsRelease ended (is.built_once ∙ ap has_stream at) is.counted_once) refl
      (is.attached_now ∙ ap is_attached at)
session_step-IsSafe finished s h at is = is
session_step-IsSafe abandoned s h at is = is

abandon-IsSafe :
    (phase : Phase) (h : Shared) → h.phase ≡ phase → IsSafe h → IsSafe (abandon phase h)
unfolding abandon
abandon-IsSafe tested h at is = record {
  built_once = is.built_once ∙ ap has_stream at;
  attached_now = is.attached_now ∙ ap is_attached at;
  counted_once = is.counted_once;
  cancelled_loop = λ _ set none_left. is.cancelled_loop (ap is_watched at) set none_left;
  released_at_end = λ e. cc;
}
abandon-IsSafe _ h at is = is

watched_attached : (phase : Phase) → is_watched phase ≡ true → is_attached phase ≡ true
watched_attached tested e = refl
watched_attached looping e = refl
watched_attached abandoned e = refl
watched_attached _ e = absurd (cc)

-- A call of `cancel` that takes the lock.
locked-IsSafe :
    (h : Shared)
    → IsSafe h
    → (h.pending == 0) ≡ false
    → IsSafe (
        let rest : Shared = record h { pending = h.pending - 1 } in
        if h.attached then release_stream rest else rest)
locked-IsSafe h is some_pending =
    let rest : Shared = record h { pending = h.pending - 1 } in
    elim (Bool-cases h.attached) [
      | inl set ↦
          let now_attached = sym is.attached_now ∙ set in
          subst IsSafe (sym (if_true _ set)) (
            released-IsSafe rest (release_stream rest)
              (release_stream-IsRelease rest (is.built_once ∙ attached_stream h.phase now_attached)
                is.counted_once)
              (attached_stream h.phase now_attached) is.attached_now)
      | inr not_set ↦ subst IsSafe (sym (if_false _ not_set)) (record {
        built_once = is.built_once;
        attached_now = is.attached_now;
        counted_once = is.counted_once;
        cancelled_loop =
            λ e _ _. absurd (cc (not_set, is.attached_now ∙ watched_attached h.phase e));
        released_at_end = is.released_at_end;
      })
    ]
  where
    attached_stream : (phase : Phase) → is_attached phase ≡ true → has_stream phase ≡ true
    attached_stream starting e = absurd (cc)
    attached_stream built e = refl
    attached_stream stored e = refl
    attached_stream tested e = refl
    attached_stream looping e = refl
    attached_stream detached e = refl
    attached_stream finished e = refl
    attached_stream abandoned e = refl

take_step-IsSafe : (step : Step) (h : Shared) → IsSafe h → IsSafe (take_step step h)
unfolding take_step
take_step-IsSafe (session_goes_on s) h is = session_step-IsSafe h.phase s h refl is
take_step-IsSafe option_raises h is = abandon-IsSafe h.phase h refl is
take_step-IsSafe cancel_sets h is = record {
  built_once = is.built_once;
  attached_now = is.attached_now;
  counted_once = is.counted_once;
  cancelled_loop = λ _ _ e. absurd (omega (arith, e));
  released_at_end = is.released_at_end;
}
take_step-IsSafe cancel_locks h is =
    if_elim IsSafe (h.pending == 0) (λ _. is) λ some_pending. locked-IsSafe h is some_pending

schedule_from-IsSafe : (steps : List Step) (h : Shared) → IsSafe h → IsSafe (schedule steps h)
unfolding schedule
schedule_from-IsSafe [] h is = is
schedule_from-IsSafe (s ∷ ss) h is =
    schedule_from-IsSafe ss (take_step s h) (take_step-IsSafe s h is)

unstarted-IsSafe : IsSafe unstarted
unstarted-IsSafe = record {
  built_once = refl;
  attached_now = refl;
  counted_once = refl;
  cancelled_loop = λ e. cc;
  released_at_end = λ e. cc;
}

-- In every schedule of a session with any number of calls of `cancel`: the camera is let go at most
-- once, and has been when the session has finished, that is left the `finally` of its loop, which the
-- session that reading the exposure option ended does not come to. After the test of the event and
-- until `self._stream` is cleared, also where that option ended the session, the camera has been let
-- go as soon as some call of `cancel` was made and none of them is still on its way.
pub schedule-IsSafe : (steps : List Step) → IsSafe (schedule steps unstarted)
schedule-IsSafe steps = schedule_from-IsSafe steps unstarted unstarted-IsSafe
