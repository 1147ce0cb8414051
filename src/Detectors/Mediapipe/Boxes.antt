-- ===== src/Detectors/Mediapipe/Boxes.antt =====
-- secureEye/src/detectors/mediapipe_detector.py: where the boxes of `detect` lie, and what `encode` cuts
-- out for them.
use secure_eye.Prelude.{
  ℕ, ◌+◌, ◌≤◌, ◌<◌, min, ◌≡◌, subst, Bool, true, false, ◌||◌, List, [], ◌∷◌, map, arith, leb,
  if_elim, if_false, keep, All,
}
use secure_eye.Prelude.Int.{ℤ, pos, negsuc, pos_part}
use secure_eye.Python.{ok, ◌>>=◌, >>=-eq-ok, ok-injective}
use secure_eye.Authd.Framing.Frames.{frame}
use secure_eye.Detectors.Mediapipe.{
  Bounds, Box, Crop, MediaPipe, box_of, has_area, crop_of, detect, embed_found, encode, clamp,
  encode_crop,
}

-- The box has an area and lies inside a picture of that height and width.
pub record IsInside (frame_h frame_w : ℕ) (b : Box) : Type 0 where
  pub wide : 0 < b.w
  pub high : 0 < b.h
  pub in_width : b.x + b.w ≤ frame_w
  pub in_height : b.y + b.h ≤ frame_h

-- A clamped extent that is not 0 stays within the size.
clamp-le :
    (extent : ℤ) (size from : ℕ) → 0 < clamp extent size from → from + clamp extent size from ≤ size
clamp-le (pos n) size from h = ground arith
clamp-le (negsuc n) size from h = ground arith

-- What holds of each element that passes the test holds of those that are kept.
All-keep :
    {A B : Type 0} (P : B → Type 0) (p : B → Bool) (f : A → B) (xs : List A)
    → ((x : A) → p (f x) ≡ true → P (f x))
    → All P (keep p (map f xs))
All-keep P p f [] h = tt
All-keep P p f (x ∷ xs) h =
    if_elim (All P) (p (f x)) (λ kept. (h x kept, All-keep P p f xs h)) λ _. All-keep P p f xs h

box_of-IsInside :
    (frame_h frame_w : ℕ) (b : Bounds)
    → has_area (box_of frame_h frame_w b) ≡ true
    → IsInside frame_h frame_w (box_of frame_h frame_w b)
unfolding box_of
box_of-IsInside frame_h frame_w b h =
    let wide : 0 < clamp b.width frame_w (pos_part b.origin_x) = ground arith in
    let high : 0 < clamp b.height frame_h (pos_part b.origin_y) = ground arith in
    record {
      wide = wide;
      high = high;
      in_width = clamp-le b.width frame_w (pos_part b.origin_x) wide;
      in_height = clamp-le b.height frame_h (pos_part b.origin_y) high;
    }

-- The part that a box covers.
abbrev pub crop_at : Box → Crop
crop_at b = record { top = b.y; bottom = b.y + b.h; left = b.x; right = b.x + b.w }

module _ {Frame Marks : Type 0} (mp : MediaPipe Frame Marks) where
  -- The box lies inside the picture, and `encode` looks for landmarks in just the part that it covers.
  pub record IsCut (frame : Frame) (b : Box) : Type 0 where
    pub inside : IsInside (mp.height_of frame) (mp.width_of frame) b
    pub encoded :
        encode mp frame (pos b.x, pos b.y, pos b.w, pos b.h)
        ≡ mp.find_landmarks frame (crop_at b) >>= embed_found mp

  encode_inside :
      (frame : Frame) (b : Box)
      → IsInside (mp.height_of frame) (mp.width_of frame) b
      → IsCut frame b
  unfolding encode crop_of encode_crop
  encode_inside frame b is =
      let right : min (mp.width_of frame) (b.x + b.w) ≡ b.x + b.w = omega (arith, is.in_width) in
      let bottom : min (mp.height_of frame) (b.y + b.h) ≡ b.y + b.h = omega (arith, is.in_height) in
      let open_crop : leb (b.x + b.w) b.x || leb (b.y + b.h) b.y ≡ false =
        ground (arith, is.wide, is.high) in
      record { inside = is; encoded = rw (right, bottom) (if_false _ open_crop) }

  -- For a picture, the boxes that `detect` gives have an area and lie inside the picture, and for each
  -- of them `encode` looks for landmarks in just the part of the picture that the box covers.
  pub detect-IsInside :
      (frame : Frame) (boxes : List Box) → detect mp frame ≡ ok boxes → All (IsCut frame) boxes
  unfolding detect
  detect-IsInside frame boxes h =
      let (found, _, made) = >>=-eq-ok (mp.find_faces frame) _ h in
      subst (All (IsCut frame)) (ok-injective made) (
        All-keep (IsCut frame) has_area (box_of (mp.height_of frame) (mp.width_of frame)) found
          λ b area. encode_inside frame _ (box_of-IsInside _ _ b area))
