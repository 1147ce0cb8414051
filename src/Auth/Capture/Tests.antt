-- ===== src/Auth/Capture/Tests.antt =====
-- A dark frame of a camera whose pictures are known by numbers.
use secure_eye.Prelude.{ℕ, ◌+◌, ◌≡◌, refl, true, false, none, some}
use secure_eye.Prelude.Int.{pos}
use secure_eye.Python.{ok, dyadic, lt_float, eq_float}
use secure_eye.Auth.Capture.{
  dark, Captured, Vision, Stream, hundred, rotation, darkness_percent, read,
}

abbrev camera : Vision ℕ
camera = record {
  read_frame = λ n. ok (n, n + 100);
  enhance = λ picture. picture + 1;
  histogram_total = λ picture. hundred;
  first_bin_percent = λ picture. dyadic (pos 80) (pos 0);
  resize = λ picture. picture;
  rotate = λ way picture. picture + 1000;
}

abbrev opened : Stream
opened = record {
  dark_threshold = dyadic (pos 60) (pos 0);
  rotate_mode = pos 1;
  transform = true;
  unscaled = true;
  index = 0;
  released = false;
}

abbrev bright : Stream
bright = record opened { dark_threshold = dyadic (pos 90) (pos 0) }

turned :
    (read camera bright).0
    ≡ ok (record {
      index = 1;
      raw = 1;
      frame = 1001;
      gray = 1102;
      darkness = dyadic (pos 80) (pos 0);
      state = none;
    })
unfolding read darkness_percent eq_float lt_float rotation
turned = refl

abbrev seen : Captured ℕ
seen = record {
  index = 1;
  raw = 1;
  frame = 1;
  gray = 102;
  darkness = dyadic (pos 80) (pos 0);
  state = some dark;
}
