-- ===== src/Recorders/Pyv4l2.antt =====
-- secureEye/src/recorders/pyv4l2_reader.py: single frames of a device, read by pyv4l2. The device, the
-- `ioctl`, ffmpeg, OpenCV and NumPy are parameters.
pub mod Answers
use secure_eye.Prelude.{ℕ, ◌+◌, String, Bool, true, false, List, if◌then◌else◌}
use secure_eye.Prelude.Int.{ℤ, pos, eqb_ℤ}
use secure_eye.Python.{other_exception, Result, err, ok, ◌>>=◌, ◌>>◌, and_then, stateless}
use secure_eye.Recorders.Ffmpeg.{Property, frame_width, frame_height, Picture, sole_frame}

-- The sizes that `VIDIOC_G_FMT` fills in or `ffmpeg.probe` reports, the height first; opening the
-- device as a `Frame`; the bytes of the frame of that number; and the picture that OpenCV and NumPy
-- make of the bytes, in the shape [352, 352, 3].
pub record V4l2 (Frame : Type 0) : Type 0 where
  pub open_file : String → Result (Unit {0})
  pub ioctl : String → Result (Bool × ℕ × ℕ)
  pub probe_stream : String → Result (ℤ × ℤ)
  pub open_frame : String → Result (Unit {0})
  pub get_frame : String → ℕ → Result (List ℕ)
  pub to_bgr : List ℕ → Result Frame

-- `self.frame`: the empty text, or a device that is open or closed.
pub data Handle : Type 0 where
  unopened opened shut : Handle

-- `pyv4l2_reader`, with the number of frames taken from the device.
pub record DeviceReader : Type 0 where
  pub device_name : String
  pub height : ℤ
  pub width : ℤ
  pub handle : Handle
  pub taken : ℕ

-- `set`
abbrev pub set_size : Property → ℤ → DeviceReader → DeviceReader
set_size frame_width n r = record r { width = n }
set_size frame_height n r = record r { height = n }
set_size _ n r = r

module _ {Frame : Type 0} (v : V4l2 Frame) where
  sizes_of : DeviceReader → Bool × ℕ × ℕ → Result (ℤ × ℤ)
  sizes_of r (true, h, w) = ok (pos h, pos w)
  sizes_of r (false, _, _) = v.probe_stream r.device_name

  set_unset : ℤ × ℤ → DeviceReader → DeviceReader
  set_unset (h, w) r = record r {
    height = if eqb_ℤ r.height (pos 0) then h else r.height;
    width = if eqb_ℤ r.width (pos 0) then w else r.width;
  }

  -- `probe`
  unfoldable pub probe_device : DeviceReader → Result DeviceReader
  unfolding sizes_of set_unset
  probe_device r = do
    v.open_file r.device_name
    answer ← v.ioctl r.device_name
    sizes ← sizes_of r answer
    ok (set_unset sizes r)

  -- `__init__`
  unfoldable pub new_device_reader : String → Result DeviceReader
  unfolding probe_device
  new_device_reader name =
      probe_device
        (record { device_name = name; height = pos 0; width = pos 0; handle = unopened; taken = 0 })

  -- `record`, when the device is not open.
  open_device : DeviceReader → Result (Unit {0}) × DeviceReader
  open_device r = elim r.handle [
    | unopened ↦
        and_then (stateless (v.open_frame r.device_name) r)
          λ _ r₁. (ok tt, record r₁ { handle = opened })
    | opened ↦ (ok tt, r)
    | shut ↦ (ok tt, r)
  ]

  taken_frame : DeviceReader → Result (List ℕ)
  taken_frame r = elim r.handle [
    | opened ↦ v.get_frame r.device_name r.taken
    | unopened ↦ err other_exception
    | shut ↦ err other_exception
  ]

  take_device_frame : DeviceReader → Result (ℕ × Picture Frame) × DeviceReader
  unfolding taken_frame
  take_device_frame r = (
    taken_frame r >>= λ bytes. (v.to_bgr bytes >>= λ f. ok (0, sole_frame f)),
    record r { taken = r.taken + 1 },
  )

  -- `read`: the first number is the one that callers test.
  unfoldable pub read_device : DeviceReader → Result (ℕ × Picture Frame) × DeviceReader
  unfolding open_device take_device_frame
  read_device r = and_then (open_device r) λ _ r₁. take_device_frame r₁

-- `release`
unfoldable pub release_device : DeviceReader → DeviceReader
release_device r = record r {
  handle = elim r.handle [ unopened ↦ unopened | opened ↦ shut | shut ↦ shut ];
}
