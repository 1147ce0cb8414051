-- ===== src/Recorders/Pyv4l2/Answers.antt =====
-- secureEye/src/recorders/pyv4l2_reader.py: the number that `read` gives its caller to test.
use secure_eye.Prelude.{sym, ap}
use secure_eye.Python.{>>=-eq-ok, and_then-last, ok-injective}
use secure_eye.Recorders.Ffmpeg.Answers.{GivesZero}
use secure_eye.Recorders.Pyv4l2.{
  V4l2, DeviceReader, read_device, open_device, taken_frame, take_device_frame,
}

pub read_device-GivesZero :
    {Frame : Type 0} (v : V4l2 Frame) (r : DeviceReader) → GivesZero (read_device v r).0
unfolding read_device take_device_frame GivesZero
read_device-GivesZero v r got h =
    let (_, _, h₁) = and_then-last (open_device v r) _ h in
    let (bytes, _, h₂) = >>=-eq-ok (taken_frame v (open_device v r).1) _ h₁ in
    let (_, _, made) = >>=-eq-ok (v.to_bgr bytes) _ h₂ in ap (λ x. x.0) (sym (ok-injective made))
