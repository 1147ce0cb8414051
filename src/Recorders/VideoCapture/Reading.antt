-- ===== src/Recorders/VideoCapture/Reading.antt =====
-- secureEye/src/recorders/video_capture.py: which reads of a camera give a picture.
use secure_eye.Prelude.{
  ℕ, zero, suc, ◌≡◌, refl, sym, ap, ◌∙◌, subst, ◌≢◌, inl, inr, Bool, true, false, not, arith, ◌==◌,
  Bool-cases, pair_eq, if_true, if_false,
}
use secure_eye.Python.{Exc, runtime_error, Result, err, ok, require, >>=-eq-ok, ok-injective}
use secure_eye.Recorders.Ffmpeg.{Picture}
use secure_eye.Recorders.Ffmpeg.Answers.{GivesZero, read_video-GivesZero}
use secure_eye.Recorders.Pyv4l2.Answers.{read_device-GivesZero}
use secure_eye.Recorders.VideoCapture.{
  Cameras, CvCapture, Internal, opencv, ffmpeg_reader, pyv4l2_reader, VideoCapture, no_camera,
  is_runtime_error, read_internal, read_frame, as_number, read_opencv, over, gray_of, with_gray,
}
use secure_eye.Recorders.VideoCapture.Settings.{asked}

is_runtime_error-eq : (e : Exc) → is_runtime_error e ≡ true → e ≡ runtime_error
unfolding is_runtime_error
is_runtime_error-eq runtime_error h = refl
is_runtime_error-eq _ h = cc

module _ {Frame : Type 0} (cams : Cameras Frame) where
  -- The gray picture is the converted one, or the picture itself after a `RuntimeError`.
  pub data IsGray (p gray : Picture Frame) : Type 0 where
    converted : cams.to_gray p ≡ ok gray → IsGray p gray
    left_alone : cams.to_gray p ≡ err runtime_error → gray ≡ p → IsGray p gray

  -- Where the pictures come from: OpenCV said that its read succeeded.
  pub record IsShown (internal : Internal Frame) (p gray : Picture Frame) : Type 0 where
    pub source : CvCapture
    pub through_opencv : internal ≡ opencv source
    pub succeeded_read : cams.cv_read source.device source.settings source.reads ≡ (true, p)
    pub is_gray : IsGray p gray

  gray_of-IsGray :
      (p : Picture Frame) {gray : Picture Frame} (r : Result (Picture Frame))
      → cams.to_gray p ≡ r
      → gray_of cams p r ≡ ok gray
      → IsGray p gray
  unfolding gray_of
  gray_of-IsGray p (ok gray) at h = converted (at ∙ h)
  gray_of-IsGray p {gray} (err e) at h = elim (Bool-cases (is_runtime_error e)) [
    | inl is ↦
        left_alone (at ∙ ap err (is_runtime_error-eq e is)) (ok-injective (sym h ∙ if_true _ is))
    | inr is_not ↦ absurd (let raised : err e ≡ ok gray = sym (if_false _ is_not) ∙ h in cc)
  ]

  with_gray-IsGray :
      (ret : ℕ) (p : Picture Frame) {shown : Picture Frame × Picture Frame}
      → with_gray cams (ret, p) ≡ ok shown
      → (ret ≢ 0) × (shown.0 ≡ p) × IsGray p shown.1
  unfolding with_gray
  with_gray-IsGray ret p h =
      let (_, asked, rest) = >>=-eq-ok (require (not (ret == 0)) no_camera) _ h in
      let (gray, at, made) = >>=-eq-ok (gray_of cams p (cams.to_gray p)) _ rest in
      let same = ok-injective made in
      (
        asked_nonzero ret asked,
        ap (λ x. x.0) (sym same),
        subst (IsGray p) (ap (λ x. x.1) same) (gray_of-IsGray p (cams.to_gray p) refl at),
      )
    where
      asked_nonzero : (n : ℕ) → require (not (n == 0)) no_camera ≡ ok tt → n ≢ 0
      asked_nonzero zero e = cc
      asked_nonzero (suc n) e = λ z. omega arith

  got_true : (b : Bool) → as_number cams b ≢ 0 → b ≡ true
  got_true true h = refl
  got_true false h = absurd (h refl)

  read_internal-IsShown :
      (internal : Internal Frame) (ret : ℕ) (p : Picture Frame) {gray : Picture Frame}
      → (read_internal cams internal).0 ≡ ok (ret, p)
      → ret ≢ 0
      → IsGray p gray
      → IsShown internal p gray
  unfolding read_internal over read_opencv GivesZero
  read_internal-IsShown (opencv c) ret p at nonzero is_gray =
      let same = ok-injective at in
      let got = cams.cv_read c.device c.settings c.reads in
      let ret_true = got_true got.0 (subst (λ n. n ≢ 0) (sym (ap (λ x. x.0) same)) nonzero) in
      record {
        source = c;
        through_opencv = refl;
        succeeded_read = pair_eq ret_true ∙ ap (λ q. (true, q)) (ap (λ x. x.1) same);
        is_gray = is_gray;
      }
  read_internal-IsShown (ffmpeg_reader r) ret p at nonzero is_gray =
      absurd (nonzero (read_video-GivesZero cams.characters cams.ffmpeg r (ret, p) at))
  read_internal-IsShown (pyv4l2_reader r) ret p at nonzero is_gray =
      absurd (nonzero (read_device-GivesZero cams.v4l2 r (ret, p) at))

  -- `read_frame` gives pictures only through OpenCV, from a read that OpenCV calls a success, and the
  -- second one is the gray picture, or the same picture if the conversion raised a `RuntimeError`.
  pub read_frame-IsShown :
      (c : VideoCapture Frame) (p gray : Picture Frame)
      → (read_frame cams c).0 ≡ ok (p, gray)
      → IsShown c.internal p gray
  unfolding read_frame
  read_frame-IsShown c p gray h =
      let (got, at, rest) = >>=-eq-ok (read_internal cams c.internal).0 _ h in
      let (nonzero, same, is_gray) = with_gray-IsGray got.0 got.1 rest in
      read_internal-IsShown c.internal got.0 p (at ∙ ap (λ q. ok (got.0, q)) (sym same)) nonzero
        (subst (λ q. IsGray q gray) (sym same) is_gray)
