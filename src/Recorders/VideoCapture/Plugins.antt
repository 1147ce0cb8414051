-- ===== src/Recorders/VideoCapture/Plugins.antt =====
-- secureEye/src/recorders/video_capture.py with ffmpeg_reader.py and pyv4l2_reader.py: what reading
-- comes to with the two plugins.
use secure_eye.Prelude.{
  ℕ, zero, suc, String, ◌≡◌, refl, sym, ◌∙◌, subst, ◌≢◌, ◌⊎◌, inl, inr, Bool, true, false,
  if◌then◌else◌, if_elim,
}
use secure_eye.Prelude.Int.{ℤ, negsuc, eqb_ℤ}
use secure_eye.Python.{Exc, system_exit, Result, err, ok, require, >>=-eq-ok, ok-injective}
use secure_eye.Recorders.Ffmpeg.{Property, frame_width, frame_height, fourcc, Picture}
use secure_eye.Recorders.Pyv4l2.{new_device_reader}
use secure_eye.Recorders.VideoCapture.{
  VideoConfig, Cameras, CvCapture, Internal, opencv, ffmpeg_reader, pyv4l2_reader, VideoCapture,
  no_camera, fallback, mjpeg, set_internal, set_unless, create_reader, read_internal, new_capture,
  read_frame, new_ffmpeg, new_pyv4l2, new_internal, configured_reader, finish_reader, over,
  wake_camera,
}
use secure_eye.Recorders.VideoCapture.Reading.{read_frame-IsShown}

module _ {Frame : Type 0} (cams : Cameras Frame) where
  -- The internal reader is not OpenCV's.
  pub IsPlugin : Internal Frame → Type 0
  IsPlugin internal = (cv : CvCapture) → internal ≢ opencv cv

  read_internal-IsPlugin :
      (internal : Internal Frame) → IsPlugin internal → IsPlugin (read_internal cams internal).1
  unfolding IsPlugin read_internal over
  read_internal-IsPlugin (opencv c) h = absurd (h c refl)
  read_internal-IsPlugin (ffmpeg_reader r) h = λ cv e. cc
  read_internal-IsPlugin (pyv4l2_reader r) h = λ cv e. cc

  set_internal-IsPlugin :
      (property : Property) (n : ℤ) (internal : Internal Frame)
      → IsPlugin internal
      → IsPlugin (set_internal property n internal)
  unfolding IsPlugin set_internal
  set_internal-IsPlugin property n (opencv c) h = absurd (h c refl)
  set_internal-IsPlugin property n (ffmpeg_reader r) h = λ cv e. cc
  set_internal-IsPlugin property n (pyv4l2_reader r) h = λ cv e. cc

  set_unless-IsPlugin :
      (property : Property) (d n : ℤ) (internal : Internal Frame)
      → IsPlugin internal
      → IsPlugin (set_unless property d n internal)
  unfolding set_unless
  set_unless-IsPlugin property d n internal h =
      if_elim IsPlugin (eqb_ℤ n d) (λ _. h) λ _. set_internal-IsPlugin property n internal h

  configured_reader-IsPlugin :
      (config : VideoConfig) (internal : Internal Frame) (forced : Bool) (w h : ℤ)
      → IsPlugin internal
      → IsPlugin (configured_reader cams config internal forced w h).internal
  unfolding configured_reader
  configured_reader-IsPlugin config internal forced w h is =
      set_unless-IsPlugin frame_height (negsuc 0) h _ (
        set_unless-IsPlugin frame_width (negsuc 0) w _
          (if_elim IsPlugin forced (λ _. set_internal-IsPlugin fourcc mjpeg internal is) λ _. is))

  -- The option names one of the two plugins.
  unfoldable pub IsNamed : VideoConfig → Type 0
  IsNamed config =
      (fallback config.recording_plugin "opencv" ≡ ok "ffmpeg")
      ⊎ (fallback config.recording_plugin "opencv" ≡ ok "pyv4l2")

  new_ffmpeg-IsPlugin :
      (config : VideoConfig) {internal : Internal Frame}
      → new_internal cams config "ffmpeg" ≡ ok internal
      → IsPlugin internal
  unfolding new_internal new_ffmpeg IsPlugin
  new_ffmpeg-IsPlugin config h =
      let (_, _, h₁) = >>=-eq-ok (require cams.has_ffmpeg (system_exit 12)) _ h in
      let (path, _, h₂) = >>=-eq-ok config.device_path _ h₁ in
      let (format, _, made) = >>=-eq-ok (fallback config.device_format "v4l2") _ h₂ in
      λ cv e. cc (made, e)

  new_pyv4l2-IsPlugin :
      (config : VideoConfig) {internal : Internal Frame}
      → new_internal cams config "pyv4l2" ≡ ok internal
      → IsPlugin internal
  unfolding new_internal new_pyv4l2 IsPlugin
  new_pyv4l2-IsPlugin config h =
      let (_, _, h₁) = >>=-eq-ok (require cams.has_pyv4l2 (system_exit 13)) _ h in
      let (path, _, h₂) = >>=-eq-ok config.device_path _ h₁ in
      let (format, _, h₃) = >>=-eq-ok (fallback config.device_format "v4l2") _ h₂ in
      let (r, _, made) = >>=-eq-ok (new_device_reader cams.v4l2 path) _ h₃ in λ cv e. cc (made, e)

  named-IsPlugin :
      (config : VideoConfig) {plugin : String} {internal : Internal Frame}
      → IsNamed config
      → fallback config.recording_plugin "opencv" ≡ ok plugin
      → new_internal cams config plugin ≡ ok internal
      → IsPlugin internal
  unfolding IsNamed
  named-IsPlugin config {internal = internal} (inl named) at h =
      new_ffmpeg-IsPlugin config
        (subst (λ p. new_internal cams config p ≡ ok internal) (ok-injective (sym at ∙ named)) h)
  named-IsPlugin config {internal = internal} (inr named) at h =
      new_pyv4l2-IsPlugin config
        (subst (λ p. new_internal cams config p ≡ ok internal) (ok-injective (sym at ∙ named)) h)

  create_reader-IsPlugin :
      (config : VideoConfig) {c : VideoCapture Frame}
      → IsNamed config
      → create_reader cams config ≡ ok c
      → IsPlugin c.internal
  unfolding create_reader finish_reader
  create_reader-IsPlugin config named h =
      let (plugin, at, h₁) = >>=-eq-ok (fallback config.recording_plugin "opencv") _ h in
      let (internal, new, h₂) = >>=-eq-ok (new_internal cams config plugin) _ h₁ in
      let (forced, _, h₃) = >>=-eq-ok (fallback config.force_mjpeg false) _ h₂ in
      let (w, _, h₄) = >>=-eq-ok (fallback config.frame_width_option (negsuc 0)) _ h₃ in
      let (hi, _, made) = >>=-eq-ok (fallback config.frame_height_option (negsuc 0)) _ h₄ in
      subst (λ (k : VideoCapture Frame). IsPlugin k.internal) (ok-injective made)
        (configured_reader-IsPlugin config internal forced w hi
          (named-IsPlugin config named at new))

  new_capture-IsPlugin :
      (config : VideoConfig) {c : VideoCapture Frame}
      → IsNamed config
      → new_capture cams config ≡ ok c
      → IsPlugin c.internal
  unfolding new_capture wake_camera
  new_capture-IsPlugin config named h =
      let (path, _, h₁) = >>=-eq-ok config.device_path _ h in
      let (_, _, h₂) =
        >>=-eq-ok
          (if config.path_exists path then ok false else fallback config.warn_no_device true) _
          h₁ in
      let (_, _, h₃) = >>=-eq-ok (require (config.path_exists path) no_camera) _ h₂ in
      let (c, created, h₄) = >>=-eq-ok (create_reader cams config) _ h₃ in
      let (_, _, made) = >>=-eq-ok (read_internal cams c.internal).0 _ h₄ in
      subst (λ (k : VideoCapture Frame). IsPlugin k.internal) (ok-injective made)
        (read_internal-IsPlugin c.internal (create_reader-IsPlugin config named created))

  -- The capture after that many calls of `read_frame`, whatever they gave.
  pub read_often : ℕ → VideoCapture Frame → VideoCapture Frame
  read_often zero c = c
  read_often (suc n) c = read_often n (read_frame cams c).1

  read_often-IsPlugin :
      (n : ℕ) (c : VideoCapture Frame) → IsPlugin c.internal → IsPlugin (read_often n c).internal
  unfolding read_often read_frame
  read_often-IsPlugin zero c is = is
  read_often-IsPlugin (suc n) c is =
      read_often-IsPlugin n (read_frame cams c).1 (read_internal-IsPlugin c.internal is)

  -- With the plugin `ffmpeg` or `pyv4l2` no call of `read_frame` ever gives a picture: a capture that
  -- was created for one of them raises at every call, however often it is asked.
  pub read_frame-raised :
      (config : VideoConfig) (c : VideoCapture Frame) (n : ℕ)
      → IsNamed config
      → new_capture cams config ≡ ok c
      → (e : Exc) × ((read_frame cams (read_often n c)).0 ≡ err e)
  unfolding IsPlugin
  read_frame-raised config c n named created = raised_by _ refl
    where
      raised_by :
          (r : Result (Picture Frame × Picture Frame))
          → (read_frame cams (read_often n c)).0 ≡ r
          → (e : Exc) × ((read_frame cams (read_often n c)).0 ≡ err e)
      raised_by (err e) at = (e, at)
      raised_by (ok (p, gray)) at =
          let shown = read_frame-IsShown cams (read_often n c) p gray at in
          absurd (
            read_often-IsPlugin n c (new_capture-IsPlugin config named created) shown.source
              shown.through_opencv)
