-- ===== src/Auth/Session/Camera/Releasing.antt =====
-- secureEye/src/auth/session.py: what releasing the stream does for the count of the camera.
use secure_eye.Prelude.{
  ℕ, ◌+◌, ◌≡◌, refl, sym, ap, ◌∙◌, Bool, true, false, Option, none, some, if◌then◌else◌, is_some,
}
use secure_eye.Auth.Capture.{Stream, release}
use secure_eye.Auth.Session.{counted}
use secure_eye.Auth.Session.Camera.{
  Phase, starting, stored, tested, looping, finished, abandoned, Shared, count_release,
  release_stream,
}

abbrev pub is_released : Shared → Bool
is_released h = elim h.stream [ none ↦ false | some s ↦ s.released ]

abbrev pub has_stream : Phase → Bool
has_stream starting = false
has_stream _ = true

abbrev pub is_attached : Phase → Bool
is_attached stored = true
is_attached tested = true
is_attached looping = true
is_attached abandoned = true
is_attached _ = false

-- After the test of the event, and with `self._stream` still set.
abbrev pub is_watched : Phase → Bool
is_watched tested = true
is_watched looping = true
is_watched abandoned = true
is_watched _ = false

abbrev pub once : Bool → ℕ
once b = if b then 1 else 0

-- What holds between the steps.
pub record IsSafe (h : Shared) : Type 0 where
  pub built_once : is_some h.stream ≡ has_stream h.phase
  pub attached_now : h.attached ≡ is_attached h.phase
  pub counted_once : h.let_go ≡ once (is_released h)
  pub cancelled_loop :
      is_watched h.phase ≡ true → h.cancel_event ≡ true → h.pending ≡ 0 → is_released h ≡ true
  pub released_at_end : h.phase ≡ finished → is_released h ≡ true

-- What releasing the stream does.
pub record IsRelease (h k : Shared) : Type 0 where
  pub same_phase : k.phase ≡ h.phase
  pub same_attached : k.attached ≡ h.attached
  pub still_built : is_some k.stream ≡ true
  pub counted_after : k.let_go ≡ 1
  pub released_after : is_released k ≡ true

pub release_stream-IsRelease :
    (h : Shared)
    → is_some h.stream ≡ true
    → h.let_go ≡ once (is_released h)
    → IsRelease h (release_stream h)
unfolding release_stream release
release_stream-IsRelease h some_stream counted = by_stream h.stream refl
  where
    by_flag :
        (s : Stream) (b : Bool)
        → s.released ≡ b
        → h.stream ≡ some s
        → IsRelease h
            (count_release (if b then (false, s) else (true, record s { released = true })) h)
    by_flag s true at is = record {
      same_phase = refl;
      same_attached = refl;
      still_built = refl;
      counted_after =
          counted ∙ ap once (ap (λ o. elim o [ none ↦ false | some k ↦ k.released ]) is ∙ at);
      released_after = at;
    }
    by_flag s false at is = record {
      same_phase = refl;
      same_attached = refl;
      still_built = refl;
      counted_after =
          ap (λ n. n + 1)
            (counted ∙ ap once (ap (λ o. elim o [ none ↦ false | some k ↦ k.released ]) is ∙ at));
      released_after = refl;
    }

    by_stream :
        (o : Option Stream) → h.stream ≡ o → IsRelease h (release_stream (record h { stream = o }))
    by_stream none is = absurd (cc)
    by_stream (some s) is = by_flag s s.released refl is

-- Releasing keeps what holds when only the phase has changed.
pub released-IsSafe :
    (h k : Shared)
    → IsRelease h k
    → has_stream h.phase ≡ true
    → h.attached ≡ is_attached h.phase
    → IsSafe k
released-IsSafe h k is has now = record {
  built_once = is.still_built ∙ sym has ∙ ap has_stream (sym is.same_phase);
  attached_now = is.same_attached ∙ now ∙ ap is_attached (sym is.same_phase);
  counted_once = is.counted_after ∙ ap once (sym is.released_after);
  cancelled_loop = λ _ _ _. is.released_after;
  released_at_end = λ _. is.released_after;
}
