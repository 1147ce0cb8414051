-- ===== src/Recorders/VideoCapture/Settings.antt =====
-- secureEye/src/recorders/video_capture.py: the settings that the options ask an OpenCV device for.
use secure_eye.Prelude.{
  ◌≡◌, refl, Bool, true, false, Option, none, some, List, [], ◌∷◌, arith, if◌then◌else◌,
}
use secure_eye.Prelude.Int.{ℤ, pos, negsuc, eqb_ℤ}
use secure_eye.Python.{ok}
use secure_eye.Recorders.Ffmpeg.{Property, frame_width, frame_height, frame_rate, fourcc}
use secure_eye.Recorders.VideoCapture.{
  VideoConfig, CvCapture, Internal, opencv, fallback, mjpeg, set_internal, set_unless,
}

is_property : Property → Property → Bool
is_property frame_width frame_width = true
is_property frame_height frame_height = true
is_property frame_rate frame_rate = true
is_property fourcc fourcc = true
is_property _ _ = false

-- The value of a property after these settings, the last one first.
unfoldable pub setting : Property → List (Property × ℤ) → Option ℤ
unfolding is_property
setting property [] = none
setting property ((other, n) ∷ rest) =
    let before = setting property rest in if is_property property other then some n else before

-- What an option asks for: nothing when it has the value that leaves the device alone.
abbrev pub asked : ℤ → ℤ → Option ℤ
asked alone n = if eqb_ℤ n alone then none else some n

-- The settings are those that the options ask for.
pub record IsConfigured (config : VideoConfig) (settings : List (Property × ℤ)) : Type 0 where
  pub fps : ℤ
  pub fps_option : fallback config.device_fps (pos 0) ≡ ok fps
  pub fps_set : setting frame_rate settings ≡ asked (pos 0) fps
  pub forced : Bool
  pub forced_option : fallback config.force_mjpeg false ≡ ok forced
  pub forced_set : setting fourcc settings ≡ (if forced then some mjpeg else none)
  pub w : ℤ
  pub w_option : fallback config.frame_width_option (negsuc 0) ≡ ok w
  pub w_set : setting frame_width settings ≡ asked (negsuc 0) w
  pub h : ℤ
  pub h_option : fallback config.frame_height_option (negsuc 0) ≡ ok h
  pub h_set : setting frame_height settings ≡ asked (negsuc 0) h

-- The settings by the outcomes of the tests, in the order in which the code makes them.
abbrev pub settings_by : Bool → Bool → Bool → Bool → ℤ → ℤ → ℤ → List (Property × ℤ)
settings_by no_fps forced no_w no_h fps w h =
    let started = if no_fps then [] else (frame_rate, fps) ∷ [] in
    let with_mjpeg = if forced then (fourcc, mjpeg) ∷ started else started in
    let with_w = if no_w then with_mjpeg else (frame_width, w) ∷ with_mjpeg in
    if no_h then with_w else (frame_height, h) ∷ with_w

pub settings_by_lem :
    (a b c d : Bool) (fps w h : ℤ)
    → (setting frame_rate (settings_by a b c d fps w h) ≡ (if a then none else some fps))
      × (setting fourcc (settings_by a b c d fps w h) ≡ (if b then some mjpeg else none))
      × (setting frame_width (settings_by a b c d fps w h) ≡ (if c then none else some w))
      × (setting frame_height (settings_by a b c d fps w h) ≡ (if d then none else some h))
unfolding setting is_property
settings_by_lem a b c d fps w h = ground arith

module _ {Frame : Type 0} where
  pub set_unless-opencv :
      (property : Property) (d n : ℤ) (cv : CvCapture)
      → set_unless {Frame = Frame} property d n (opencv cv)
        ≡ opencv (record cv {
          settings = if eqb_ℤ n d then cv.settings else (property, n) ∷ cv.settings;
        })
  unfolding set_unless set_internal
  set_unless-opencv property d n cv = by_test (eqb_ℤ n d)
    where
      by_test :
          (b : Bool)
          → (if◌then◌else◌ {A = Internal Frame} b
              (opencv cv)
              (opencv (record cv { settings = (property, n) ∷ cv.settings })))
            ≡ opencv
                (record cv { settings = if b then cv.settings else (property, n) ∷ cv.settings })
      by_test true = refl
      by_test false = refl

  pub set_mjpeg-opencv :
      (forced : Bool) (cv : CvCapture)
      → if◌then◌else◌ {A = Internal Frame} forced
          (set_internal fourcc mjpeg (opencv cv))
          (opencv cv)
        ≡ opencv
            (record cv { settings = if forced then (fourcc, mjpeg) ∷ cv.settings else cv.settings })
  unfolding set_internal
  set_mjpeg-opencv true cv = refl
  set_mjpeg-opencv false cv = refl
