-- ===== src/Recorders/Ffmpeg/Answers.antt =====
-- secureEye/src/recorders/ffmpeg_reader.py: the number that `read` gives its caller to test.
use secure_eye.Prelude.{ℕ, ◌+◌, ◌-◌, ◌≡◌, sym, ap, false, leb, if_elim}
use secure_eye.Python.{Result, ok, stateless, >>=-eq-ok, and_then-last, ok-injective}
use secure_eye.Recorders.Ffmpeg.{
  Picture, no_video, Characters, Tools, Reader, record_video, read_video, picture_of, is_unrecorded,
  record_if, frame_at, take_next, read_later, read_first,
}

module _ {Frame : Type 0} where
  -- A read that returned, returned 0 to test.
  unfoldable pub GivesZero : Result (ℕ × Picture Frame) → Type 0
  GivesZero answer = (got : ℕ × Picture Frame) → answer ≡ ok got → got.0 ≡ 0

module _ {Frame : Type 0} (chars : Characters) (tools : Tools Frame) where
  abbrev Answer : Type 0
  Answer = Result (ℕ × Picture Frame) × Reader Frame

  take_next-GivesZero : (r : Reader Frame) → GivesZero (take_next chars tools r).0
  unfolding take_next GivesZero
  take_next-GivesZero r got h =
      let (_, _, made) = >>=-eq-ok (frame_at chars tools r.video (r.num_frames_read + 1)) _ h in
      ap (λ x. x.0) (sym (ok-injective made))

  read_later-GivesZero : (r : Reader Frame) → GivesZero (read_later chars tools r).0
  unfolding read_later GivesZero
  read_later-GivesZero r got h =
      let (empty, _, h₁) = and_then-last (stateless (is_unrecorded chars tools r.video) r) _ h in
      let (_, _, h₂) = and_then-last (record_if chars tools empty r) _ h₁ in
      let r₂ = (record_if chars tools empty r).1 in
      let due = leb (r₂.numframes - 1) r₂.num_frames_read in
      let (_, _, h₃) = and_then-last (record_if chars tools due r₂) _ h₂ in
      take_next-GivesZero (record_if chars tools due r₂).1 got h₃

  read_first-GivesZero : (r : Reader Frame) → GivesZero (read_first chars tools r).0
  unfolding read_first GivesZero
  read_first-GivesZero r got h =
      let fresh : Reader Frame = record r { init_camera = false; video = no_video } in
      let (_, _, h₁) = and_then-last (record_video chars tools fresh) _ h in
      let (_, _, made) =
        >>=-eq-ok (picture_of chars tools (record_video chars tools fresh).1.video) _ h₁ in
      ap (λ x. x.0) (sym (ok-injective made))

  pub read_video-GivesZero : (r : Reader Frame) → GivesZero (read_video chars tools r).0
  unfolding read_video
  read_video-GivesZero r =
      if_elim {A = Answer} (λ a. GivesZero a.0) r.init_camera (λ _. read_first-GivesZero r)
        λ _. read_later-GivesZero r
