-- ===== src/Recorders/Tests.antt =====
-- A camera through OpenCV, the same one through ffmpeg, and ffmpeg's list of formats.
use secure_eye.Prelude.{
  ℕ, ◌-◌, String, ◌≡◌, refl, inl, true, false, Option, none, some, List, [], ◌∷◌, arith, ◌==◌,
  if◌then◌else◌, within,
}
use secure_eye.Prelude.Int.{pos, negsuc}
use secure_eye.Python.{Exc, attribute_error, err, ok}
use secure_eye.Recorders.Ffmpeg.{
  frame_width, frame_rate, fourcc, number, digits, batch, sole_frame, no_video, recorded,
  Characters, Tools, Reader, new_reader, take_digits, second_number, match_here, find_size, split_x,
  strip_space, int_of_digits, is_digit, probed_sizes, probe, record_video, read_video,
}
use secure_eye.Recorders.Ffmpeg.Digits.{IsTable}
use secure_eye.Recorders.Ffmpeg.Sizes.{IsFound, probed_sizes-IsFound}
use secure_eye.Recorders.VideoCapture.{
  VideoConfig, Cameras, CvCapture, opencv, ffmpeg_reader, VideoCapture, mjpeg, set_internal,
  set_unless, create_reader, read_internal, new_capture, read_frame, release_capture,
}
use secure_eye.Recorders.VideoCapture.Configured.{IsReady, new_capture-IsReady}
use secure_eye.Recorders.VideoCapture.Plugins.{IsNamed, read_often, read_frame-raised}

-- White space is the blank, digits are those of ASCII.
abbrev ascii : Characters
ascii = record {
  is_space = λ c. c == 32;
  decimal = λ c. if within 48 57 c then some (c - 48) else none;
}

-- "e 640x480\n"
abbrev formats : List ℕ
formats = 101 ∷ 32 ∷ 54 ∷ 52 ∷ 48 ∷ 120 ∷ 52 ∷ 56 ∷ 48 ∷ 10 ∷ []

abbrev ten_frames : List ℕ
ten_frames = 0 ∷ 1 ∷ 2 ∷ 3 ∷ 4 ∷ 5 ∷ 6 ∷ 7 ∷ 8 ∷ 9 ∷ []

abbrev tools : Tools ℕ
tools = record {
  list_formats = λ path format. ok (1, formats);
  probe_stream = λ path. ok (number (pos 480), number (pos 640));
  run_input = λ path format n. ok ten_frames;
  reshape = λ bytes w h. ok bytes;
  equals_empty = λ frames. ok false;
}

abbrev cams : Cameras ℕ
cams = record {
  cv_read = λ device settings n. (true, sole_frame n);
  to_gray = λ p. ok (sole_frame 100);
  characters = ascii;
  has_ffmpeg = true;
  ffmpeg = tools;
  has_pyv4l2 = true;
  v4l2 = record {
    open_file = λ name. ok tt;
    ioctl = λ name. ok (true, 480, 640);
    probe_stream = λ name. ok (pos 480, pos 640);
    open_frame = λ name. ok tt;
    get_frame = λ name n. ok [];
    to_bgr = λ bytes. ok 7;
  };
}

abbrev through : Option String → VideoConfig
through plugin = record {
  device_path = ok "/dev/video2";
  path_exists = λ path. true;
  warn_no_device = ok none;
  recording_plugin = ok plugin;
  device_format = ok none;
  device_fps = ok (some (pos 30));
  force_mjpeg = ok (some true);
  frame_width_option = ok (some (pos 640));
  frame_height_option = ok none;
}

abbrev woken_up : CvCapture
woken_up = record {
  device = "/dev/video2";
  settings = (frame_width, pos 640) ∷ (fourcc, mjpeg) ∷ (frame_rate, pos 30) ∷ [];
  reads = 1;
  released = false;
}

abbrev ready : VideoCapture ℕ
ready = record { internal = opencv woken_up; fw = pos 640; fh = negsuc 0 }

-- A reader of ffmpeg after its first read.
abbrev filled : Reader ℕ
filled = record {
  device_path = "/dev/video2";
  device_format = "v4l2";
  numframes = 10;
  video = recorded ten_frames;
  num_frames_read = 0;
  height = pos 640;
  width = pos 480;
  init_camera = false;
}

abbrev size_code : Unit {0}
unfolding probe probed_sizes find_size match_here second_number take_digits split_x strip_space
    int_of_digits is_digit
size_code = tt

swapped : (probe ascii tools (record filled { height = pos 0; width = pos 0 })).1 ≡ filled
unfolding size_code
swapped = refl

fallback_raises :
    (probe ascii (record tools { list_formats = λ path format. ok (0, []) }) filled).0
    ≡ err attribute_error
unfolding size_code
fallback_raises = refl

first_read :
    (read_video ascii tools (new_reader "/dev/video2" "v4l2")) ≡ (ok (0, batch ten_frames), filled)
unfolding size_code read_video record_video
first_read = refl

released_reader :
    (release_capture (record ready { internal = ffmpeg_reader filled })).internal
    ≡ ffmpeg_reader (record filled { video = no_video })
unfolding release_capture
released_reader = refl

new_capture-IsReady_example : IsReady cams (through none) ready
new_capture-IsReady_example =
    new_capture-IsReady cams (through none) "opencv" ready refl refl refl
      (unfold new_capture create_reader read_internal set_internal set_unless in refl)

abbrev with_ffmpeg : VideoCapture ℕ
with_ffmpeg = record {
  internal = ffmpeg_reader (record filled { width = pos 640; height = pos 640 });
  fw = pos 640;
  fh = negsuc 0;
}

read_frame-raised_example :
    (e : Exc) × ((read_frame cams (read_often cams 3 with_ffmpeg)).0 ≡ err e)
read_frame-raised_example =
    read_frame-raised cams (through (some "ffmpeg")) with_ffmpeg 3 (unfold IsNamed in inl refl) (
      unfold new_capture create_reader read_internal set_internal set_unless size_code read_video
        record_video in
      refl)

ascii-IsTable : IsTable ascii
ascii-IsTable = record {
  digit_no_space = λ c h. ground arith;
  x_no_space = refl;
  x_no_digit = refl;
}

abbrev found_text : List ℕ
found_text = 32 ∷ 54 ∷ 52 ∷ 48 ∷ 120 ∷ 52 ∷ 56 ∷ 48 ∷ []

probed_sizes-IsFound_example :
    (is : IsFound ascii ascii-IsTable formats found_text) × (probed_sizes ascii tools filled
      ≡ ok (digits is.one, digits is.two))
probed_sizes-IsFound_example =
    probed_sizes-IsFound ascii ascii-IsTable tools filled formats found_text refl
      (unfold find_size match_here second_number take_digits in refl)
