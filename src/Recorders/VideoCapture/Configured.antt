-- ===== src/Recorders/VideoCapture/Configured.antt =====
-- secureEye/src/recorders/video_capture.py: what a new capture has set on an OpenCV device.
use secure_eye.Prelude.{
  String, ◌≡◌, refl, sym, ap, ◌∙◌, subst, Bool, true, false, List, [], ◌∷◌, str_eq, if◌then◌else◌,
  if_false,
}
use secure_eye.Prelude.Int.{ℤ, pos, negsuc, eqb_ℤ}
use secure_eye.Python.{ok, ◌>>=◌, require, >>=-eq-ok, require-true, ok-injective}
use secure_eye.Recorders.Ffmpeg.{Property, frame_width, frame_height, frame_rate, fourcc}
use secure_eye.Recorders.VideoCapture.{
  VideoConfig, Cameras, CvCapture, opencv, VideoCapture, no_camera, fallback, mjpeg, set_internal,
  set_unless, create_reader, read_internal, new_capture, new_opencv, new_internal,
  configured_reader, finish_reader, read_opencv, over, wake_camera,
}
use secure_eye.Recorders.VideoCapture.Settings.{
  IsConfigured, settings_by, settings_by_lem, set_unless-opencv, set_mjpeg-opencv,
}

abbrev fresh : String → CvCapture
fresh path = record { device = path; settings = []; reads = 0; released = false }

module _ {Frame : Type 0} (cams : Cameras Frame) (config : VideoConfig) where
  -- A capture of an OpenCV device that was read once, to wake it up.
  pub record IsReady (c : VideoCapture Frame) : Type 0 where
    pub path : String
    pub path_option : config.device_path ≡ ok path
    pub found : config.path_exists path ≡ true
    pub cv : CvCapture
    pub through_opencv : c.internal ≡ opencv cv
    pub of_device : cv.device ≡ path
    pub read_once : cv.reads ≡ 1
    pub set_up : IsConfigured config cv.settings

  configured_reader-opencv :
      (path : String) (fps w h : ℤ) (forced : Bool)
      → (configured_reader cams config
          (set_unless frame_rate (pos 0) fps (opencv (fresh path)))
          forced
          w
          h).internal
        ≡ opencv (record (fresh path) {
          settings =
              settings_by
                (eqb_ℤ fps (pos 0))
                forced
                (eqb_ℤ w (negsuc 0))
                (eqb_ℤ h (negsuc 0))
                fps
                w
                h;
        })
  unfolding configured_reader
  configured_reader-opencv path fps w h forced =
      let rated = if eqb_ℤ fps (pos 0) then [] else (frame_rate, fps) ∷ [] in
      let coded = if forced then (fourcc, mjpeg) ∷ rated else rated in
      let wide = if eqb_ℤ w (negsuc 0) then coded else (frame_width, w) ∷ coded in
      ap
        (λ i.
          set_unless frame_height (negsuc 0) h (
            set_unless frame_width (negsuc 0) w
              (if forced then set_internal fourcc mjpeg i else i)))
        (set_unless-opencv frame_rate (pos 0) fps (fresh path))
      ∙ ap (λ i. set_unless frame_height (negsuc 0) h (set_unless frame_width (negsuc 0) w i))
          (set_mjpeg-opencv forced (record (fresh path) { settings = rated }))
      ∙ ap (λ i. set_unless frame_height (negsuc 0) h i)
          (set_unless-opencv frame_width (negsuc 0) w (record (fresh path) { settings = coded }))
      ∙ set_unless-opencv frame_height (negsuc 0) h (record (fresh path) { settings = wide })

  -- The same before the first read.
  record IsCreated (c : VideoCapture Frame) : Type 0 where
    pub path : String
    pub path_option : config.device_path ≡ ok path
    pub settings : List (Property × ℤ)
    pub through_opencv : c.internal ≡ opencv (record (fresh path) { settings = settings })
    pub set_up : IsConfigured config settings

  create_reader-IsCreated :
      {c : VideoCapture Frame}
      → new_opencv cams config >>= finish_reader cams config ≡ ok c
      → IsCreated c
  unfolding new_opencv finish_reader
  create_reader-IsCreated {c} created =
      let (internal, new, k₁) = >>=-eq-ok (new_opencv cams config) _ created in
      let (path, p_at, n₁) = >>=-eq-ok config.device_path _ new in
      let (fps, fps_at, n₂) = >>=-eq-ok (fallback config.device_fps (pos 0)) _ n₁ in
      let (forced, forced_at, k₂) = >>=-eq-ok (fallback config.force_mjpeg false) _ k₁ in
      let (w, w_at, k₃) = >>=-eq-ok (fallback config.frame_width_option (negsuc 0)) _ k₂ in
      let (h, h_at, made) = >>=-eq-ok (fallback config.frame_height_option (negsuc 0)) _ k₃ in
      let (at_fps, at_forced, at_w, at_h) =
        settings_by_lem (eqb_ℤ fps (pos 0)) forced (eqb_ℤ w (negsuc 0)) (eqb_ℤ h (negsuc 0)) fps w
          h in
      record {
        path = path;
        path_option = p_at;
        settings =
            settings_by (eqb_ℤ fps (pos 0)) forced (eqb_ℤ w (negsuc 0)) (eqb_ℤ h (negsuc 0)) fps w
              h;
        through_opencv =
            ap (λ (k : VideoCapture Frame). k.internal) (sym (ok-injective made))
            ∙ ap (λ i. (configured_reader cams config i forced w h).internal)
                (sym (ok-injective n₂))
            ∙ configured_reader-opencv path fps w h forced;
        set_up = record {
          fps = fps;
          fps_option = fps_at;
          fps_set = at_fps;
          forced = forced;
          forced_option = forced_at;
          forced_set = at_forced;
          w = w;
          w_option = w_at;
          w_set = at_w;
          h = h;
          h_option = h_at;
          h_set = at_h;
        };
      }

  new_internal-opencv :
      (plugin : String)
      → str_eq plugin "ffmpeg" ≡ false
      → str_eq plugin "pyv4l2" ≡ false
      → new_internal cams config plugin ≡ new_opencv cams config
  unfolding new_internal
  new_internal-opencv plugin no_ffmpeg no_pyv4l2 = if_false _ no_ffmpeg ∙ if_false _ no_pyv4l2

  read_again :
      (path : String) (settings : List (Property × ℤ))
      → (read_internal cams (opencv (record (fresh path) { settings = settings }))).1
        ≡ opencv (record (fresh path) { settings = settings; reads = 1 })
  unfolding read_internal read_opencv over
  read_again path settings = refl

  wake_camera-IsReady :
      (c₀ c : VideoCapture Frame)
      → IsCreated c₀
      → ((path : String) → config.device_path ≡ ok path → config.path_exists path ≡ true)
      → wake_camera cams c₀ ≡ ok c
      → IsReady c
  unfolding wake_camera
  wake_camera-IsReady c₀ c is exists woken =
      let (_, _, made) = >>=-eq-ok (read_internal cams c₀.internal).0 _ woken in
      record {
        path = is.path;
        path_option = is.path_option;
        found = exists is.path is.path_option;
        cv = record (fresh is.path) { settings = is.settings; reads = 1 };
        through_opencv =
            ap (λ (k : VideoCapture Frame). k.internal) (sym (ok-injective made))
            ∙ ap (λ i. (read_internal cams i).1) is.through_opencv
            ∙ read_again is.path is.settings;
        of_device = refl;
        read_once = refl;
        set_up = is.set_up;
      }

  -- Unless the option names a plugin, a capture that is created is one of the existing device at the
  -- configured path through OpenCV, read once, and set are just the frame rate, the MJPEG format, the
  -- width and the height that the options ask for.
  pub new_capture-IsReady :
      (plugin : String) (c : VideoCapture Frame)
      → fallback config.recording_plugin "opencv" ≡ ok plugin
      → str_eq plugin "ffmpeg" ≡ false
      → str_eq plugin "pyv4l2" ≡ false
      → new_capture cams config ≡ ok c
      → IsReady c
  unfolding new_capture create_reader
  new_capture-IsReady plugin c at no_ffmpeg no_pyv4l2 h =
      let (path, p_at, h₁) = >>=-eq-ok config.device_path _ h in
      let (_, _, h₂) =
        >>=-eq-ok
          (if config.path_exists path then ok false else fallback config.warn_no_device true) _
          h₁ in
      let (_, found, h₃) = >>=-eq-ok (require (config.path_exists path) no_camera) _ h₂ in
      let (c₀, created, h₄) = >>=-eq-ok (create_reader cams config) _ h₃ in
      let (plugin₁, at₁, k₁) = >>=-eq-ok (fallback config.recording_plugin "opencv") _ created in
      let same : plugin ≡ plugin₁ = ok-injective (sym at ∙ at₁) in
      let opened =
        ap (new_internal cams config) (sym same) ∙ new_internal-opencv plugin no_ffmpeg no_pyv4l2 in
      wake_camera-IsReady c₀ c
        (create_reader-IsCreated (ap (λ i. i >>= finish_reader cams config) (sym opened) ∙ k₁))
        (λ path₁ p_at₁.
          subst (λ p. config.path_exists p ≡ true) (ok-injective (sym p_at ∙ p_at₁))
            (require-true (config.path_exists path) no_camera found))
        h₄
