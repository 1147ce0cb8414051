-- ===== src/Auth/Capture.antt =====
-- secureEye/src/auth/capture.py: what a session sees of the camera, one frame at a time, and
-- `FrameStream.read`. OpenCV is a parameter.
pub mod Reading
mod Tests
use secure_eye.Prelude.{
  ℕ, ◌+◌, ◌%◌, Bool, true, false, ◌||◌, Option, none, some, ◌==◌, if◌then◌else◌,
}
use secure_eye.Prelude.Int.{ℤ, pos, eqb_ℤ}
use secure_eye.Python.{Result, ok, ◌>>=◌, Float, dyadic, lt_float, eq_float}

-- `FrameState`
pub data FrameState : Type 0 where
  black dark no_face multiple face match : FrameState

-- `CapturedFrame`; `state` is `none` when the frame is usable.
pub record Captured (Frame : Type 0) : Type 0 where
  pub index : ℕ
  pub raw : Frame
  pub frame : Frame
  pub gray : Frame
  pub darkness : Float
  pub state : Option FrameState

pub data Turned : Type 0 where
  counterclockwise clockwise : Turned

-- What OpenCV and the camera do: a read (which may raise), the contrast enhancement, the histogram's
-- total and the percentage of its first bin, and the change of a picture's size and orientation.
pub record Vision (Frame : Type 0) : Type 0 where
  pub read_frame : ℕ → Result (Frame × Frame)
  pub enhance : Frame → Frame
  pub histogram_total : Frame → Float
  pub first_bin_percent : Frame → Float
  pub resize : Frame → Frame
  pub rotate : Turned → Frame → Frame

-- `FrameStream`
pub record Stream : Type 0 where
  pub dark_threshold : Float
  pub rotate_mode : ℤ
  pub transform : Bool
  -- the scaling factor is 1
  pub unscaled : Bool
  pub index : ℕ
  pub released : Bool

abbrev pub zero_float : Float
zero_float = dyadic (pos 0) (pos 0)

abbrev pub hundred : Float
hundred = dyadic (pos 100) (pos 0)

-- Which way `apply_rotation_mode` turns the frame of that number.
unfoldable pub rotation : ℤ → ℕ → Option Turned
rotation mode n =
    if eqb_ℤ mode (pos 1)
    then if n % 3 == 1 then some counterclockwise else if n % 3 == 2 then some clockwise else none
    else if eqb_ℤ mode (pos 2)
    then if n % 2 == 0 then some counterclockwise else some clockwise
    else none

module _ {Frame : Type 0} (cv : Vision Frame) where
  -- `darkness_percent`
  unfoldable pub darkness_percent : Frame → Float × Float
  darkness_percent gray =
      if eq_float (cv.histogram_total gray) zero_float
      then (hundred, zero_float)
      else (cv.first_bin_percent gray, cv.histogram_total gray)

  -- `maybe_scale`
  maybe_scale : Bool → Frame × Frame → Frame × Frame
  maybe_scale unscaled pictures =
      if unscaled then pictures else (cv.resize pictures.0, cv.resize pictures.1)

  rotate_both : Turned → Frame × Frame → Frame × Frame
  rotate_both way pictures = (cv.rotate way pictures.0, cv.rotate way pictures.1)

  -- `apply_rotation_mode`
  apply_rotation_mode : Frame × Frame → ℤ → ℕ → Frame × Frame
  unfolding rotate_both rotation
  apply_rotation_mode pictures mode n = elim (rotation mode n) [
    | none ↦ pictures
    | some way ↦ rotate_both way pictures
  ]

  transformed : Stream → Frame × Frame → Frame × Frame
  transformed s pictures =
      if s.transform
      then apply_rotation_mode (maybe_scale s.unscaled pictures) s.rotate_mode s.index
      else pictures

  abbrev unusable : Stream → Frame → Frame → Float → FrameState → Captured Frame
  unusable s raw gray darkness state = record {
    index = s.index;
    raw = raw;
    frame = raw;
    gray = gray;
    darkness = darkness;
    state = some state;
  }

  usable : Stream → Frame → Frame → Float → Captured Frame
  usable s raw gray darkness = record {
    index = s.index;
    raw = raw;
    frame = (transformed s (raw, gray)).0;
    gray = (transformed s (raw, gray)).1;
    darkness = darkness;
    state = none;
  }

  -- What `read` makes of the enhanced picture.
  classify : Stream → Frame → Frame → Float × Float → Captured Frame
  classify s raw gray (darkness, total) =
      if eq_float total zero_float || eq_float darkness hundred
      then unusable s raw gray darkness black
      else if lt_float s.dark_threshold darkness
      then unusable s raw gray darkness dark
      else usable s raw gray darkness

  abbrev next : Stream → Stream
  next s = record s { index = s.index + 1 }

  received : Stream → Frame × Frame → Captured Frame
  received s (raw, gray) =
      classify (next s) raw (cv.enhance gray) (darkness_percent (cv.enhance gray))

  -- `FrameStream.read`
  unfoldable pub read : Stream → Result (Captured Frame) × Stream
  unfolding received classify usable transformed apply_rotation_mode maybe_scale
  read s = (cv.read_frame (s.index + 1) >>= λ pictures. ok (received s pictures), next s)

-- `FrameStream.release`: whether this call lets go of the camera, and errors of that are dropped.
unfoldable pub release : Stream → Bool × Stream
release s = if s.released then (false, s) else (true, record s { released = true })
