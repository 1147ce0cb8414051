-- ===== src/Recorders/VideoCapture.antt =====
-- secureEye/src/recorders/video_capture.py: `VideoCapture`, over OpenCV or one of the two readers. The
-- options of the section `video` come in as the configuration gives them; OpenCV is a parameter.
pub mod Configured
pub mod Settings
pub mod Reading
pub mod Plugins
use secure_eye.Prelude.{
  ℕ, ◌+◌, String, Bool, true, false, not, Option, none, some, List, [], ◌∷◌, str_eq, ◌==◌,
  if◌then◌else◌,
}
use secure_eye.Prelude.Int.{ℤ, pos, negsuc, eqb_ℤ}
use secure_eye.Python.{Exc, runtime_error, system_exit, Result, err, ok, ◌>>=◌, ◌>>◌, require}
use secure_eye.Auth.TemplateStore.Refinement.{returned}
use secure_eye.Recorders.Ffmpeg.{
  Property, frame_width, frame_height, frame_rate, fourcc, Picture, Characters, Tools, Reader,
  new_reader, set_property, read_video, release_video,
}
use secure_eye.Recorders.Pyv4l2.{
  V4l2, DeviceReader, set_size, new_device_reader, read_device, release_device,
}

-- The options that are read, `none` when one is missing, and whether the device path exists.
pub record VideoConfig : Type 0 where
  pub device_path : Result String
  pub path_exists : String → Bool
  pub warn_no_device : Result (Option Bool)
  pub recording_plugin : Result (Option String)
  pub device_format : Result (Option String)
  pub device_fps : Result (Option ℤ)
  pub force_mjpeg : Result (Option Bool)
  pub frame_width_option : Result (Option ℤ)
  pub frame_height_option : Result (Option ℤ)

-- OpenCV: the read of that number from a device with these settings, and the conversion to gray, which
-- may raise. Then the two other libraries, and whether they can be imported.
pub record Cameras (Frame : Type 0) : Type 0 where
  pub cv_read : String → List (Property × ℤ) → ℕ → Bool × Picture Frame
  pub to_gray : Picture Frame → Result (Picture Frame)
  pub characters : Characters
  pub has_ffmpeg : Bool
  pub ffmpeg : Tools Frame
  pub has_pyv4l2 : Bool
  pub v4l2 : V4l2 Frame

-- `cv2.VideoCapture` of a device: what was set on it, the last setting first, and how often it was read.
pub record CvCapture : Type 0 where
  pub device : String
  pub settings : List (Property × ℤ)
  pub reads : ℕ
  pub released : Bool

-- `self.internal`
pub data Internal (Frame : Type 0) : Type 0 where
  opencv : CvCapture → Internal Frame
  ffmpeg_reader : Reader Frame → Internal Frame
  pyv4l2_reader : DeviceReader → Internal Frame

-- `VideoCapture`
pub record VideoCapture (Frame : Type 0) : Type 0 where
  pub internal : Internal Frame
  pub fw : ℤ
  pub fh : ℤ

-- The exit code when there is no camera.
abbrev pub no_camera : Exc
no_camera = system_exit 14

-- `fallback=`
abbrev pub fallback {ℓ} : {A : Type ℓ} → Result (Option A) → A → Result A
fallback (err e) d = err e
fallback (ok none) d = ok d
fallback (ok (some a)) d = ok a

-- The number that makes OpenCV decode MJPEG.
abbrev pub mjpeg : ℤ
mjpeg = pos 1196444237

-- `internal.set`
unfoldable pub set_internal : {Frame : Type 0} → Property → ℤ → Internal Frame → Internal Frame
set_internal property n (opencv c) = opencv (record c { settings = (property, n) ∷ c.settings })
set_internal property n (ffmpeg_reader r) = ffmpeg_reader (set_property property n r)
set_internal property n (pyv4l2_reader r) = pyv4l2_reader (set_size property n r)

-- `if n != d: internal.set(property, n)`
unfoldable pub set_unless : {Frame : Type 0} → Property → ℤ → ℤ → Internal Frame → Internal Frame
unfolding set_internal
set_unless property d n internal = if eqb_ℤ n d then internal else set_internal property n internal

unfoldable pub is_runtime_error : Exc → Bool
is_runtime_error runtime_error = true
is_runtime_error _ = false

module _ {Frame : Type 0} (cams : Cameras Frame) where
  module _ (config : VideoConfig) where
    new_ffmpeg : Result (Internal Frame)
    new_ffmpeg = do
      require cams.has_ffmpeg (system_exit 12)
      path ← config.device_path
      format ← fallback config.device_format "v4l2"
      ok (ffmpeg_reader (new_reader path format))

    new_pyv4l2 : Result (Internal Frame)
    unfolding new_device_reader
    new_pyv4l2 = do
      require cams.has_pyv4l2 (system_exit 13)
      path ← config.device_path
      format ← fallback config.device_format "v4l2"
      r ← new_device_reader cams.v4l2 path
      ok (pyv4l2_reader r)

    new_opencv : Result (Internal Frame)
    unfolding set_unless
    new_opencv = do
      path ← config.device_path
      fps ← fallback config.device_fps (pos 0)
      ok (
          set_unless frame_rate (pos 0) fps
            (opencv (record { device = path; settings = []; reads = 0; released = false })))

    new_internal : String → Result (Internal Frame)
    unfolding new_ffmpeg new_pyv4l2 new_opencv
    new_internal plugin =
        if str_eq plugin "ffmpeg"
        then new_ffmpeg
        else if str_eq plugin "pyv4l2"
        then new_pyv4l2
        else new_opencv

    -- What `_create_reader` sets on the reader that it has chosen.
    configured_reader : Internal Frame → Bool → ℤ → ℤ → VideoCapture Frame
    unfolding set_unless set_internal
    configured_reader internal forced w h =
        let mjpeg_set = if forced then set_internal fourcc mjpeg internal else internal in
        record {
          internal =
              set_unless frame_height (negsuc 0) h (set_unless frame_width (negsuc 0) w mjpeg_set);
          fw = w;
          fh = h;
        }

    -- `_create_reader` from the reader that it has chosen.
    finish_reader : Internal Frame → Result (VideoCapture Frame)
    unfolding configured_reader
    finish_reader internal = do
      forced ← fallback config.force_mjpeg false
      w ← fallback config.frame_width_option (negsuc 0)
      h ← fallback config.frame_height_option (negsuc 0)
      ok (configured_reader internal forced w h)

    -- `_create_reader`
    unfoldable pub create_reader : Result (VideoCapture Frame)
    unfolding new_internal finish_reader
    create_reader = do
      plugin ← fallback config.recording_plugin "opencv"
      internal ← new_internal plugin
      finish_reader internal

  -- What OpenCV's Boolean counts as.
  abbrev as_number : Bool → ℕ
  as_number returned = if returned then 1 else 0

  read_opencv : CvCapture → Result (ℕ × Picture Frame) × CvCapture
  read_opencv c =
      let got = cams.cv_read c.device c.settings c.reads in
      (ok (as_number got.0, got.1), record c { reads = c.reads + 1 })

  over :
      {S : Type 0}
      → (S → Internal Frame)
      → Result (ℕ × Picture Frame) × S
      → Result (ℕ × Picture Frame) × Internal Frame
  over wrap (got, s) = (got, wrap s)

  -- `internal.read()`; `grab` reads as well.
  unfoldable pub read_internal : Internal Frame → Result (ℕ × Picture Frame) × Internal Frame
  unfolding over read_opencv
  read_internal (opencv c) = over opencv (read_opencv c)
  read_internal (ffmpeg_reader r) = over ffmpeg_reader (read_video cams.characters cams.ffmpeg r)
  read_internal (pyv4l2_reader r) = over pyv4l2_reader (read_device cams.v4l2 r)

  -- The grab that wakes the camera up.
  wake_camera : VideoCapture Frame → Result (VideoCapture Frame)
  wake_camera c = (read_internal c.internal).0 >>= λ _.
      ok (record c { internal = (read_internal c.internal).1 })

  -- `__init__`
  unfoldable pub new_capture : VideoConfig → Result (VideoCapture Frame)
  unfolding wake_camera
  new_capture config = do
    path ← config.device_path
    found ← ok (config.path_exists path)
    warned ← if found then ok false else fallback config.warn_no_device true
    require found no_camera
    c ← create_reader config
    wake_camera c

  -- The gray picture: a `RuntimeError` leaves the picture as it is.
  gray_of : Picture Frame → Result (Picture Frame) → Result (Picture Frame)
  gray_of p (ok gray) = ok gray
  gray_of p (err e) = if is_runtime_error e then ok p else err e

  with_gray : ℕ × Picture Frame → Result (Picture Frame × Picture Frame)
  unfolding gray_of
  with_gray (ret, p) = require (not (ret == 0)) no_camera >>= λ _.
      (gray_of p (cams.to_gray p) >>= λ gray. ok (p, gray))

  -- `read_frame`
  unfoldable pub read_frame :
      VideoCapture Frame → Result (Picture Frame × Picture Frame) × VideoCapture Frame
  unfolding with_gray
  read_frame c = (
    (read_internal c.internal).0 >>= λ got. with_gray got,
    record c { internal = (read_internal c.internal).1 },
  )

-- `release`
unfoldable pub release_capture : {Frame : Type 0} → VideoCapture Frame → VideoCapture Frame
release_capture c = record c {
  internal = elim c.internal [
    | opencv cv ↦ opencv (record cv { released = true })
    | ffmpeg_reader r ↦ ffmpeg_reader (release_video r)
    | pyv4l2_reader r ↦ pyv4l2_reader (release_device r)
  ];
}
