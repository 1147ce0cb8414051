-- ===== src/Auth/Legacy/Tests.antt =====
-- Two faces that dlib finds, and one of MediaPipe's.
use mathlib.Core.List.{Perm}
use secure_eye.Prelude.{
  ℕ, ◌+◌, ◌≡◌, refl, sym, ap, subst, some, List, [], ◌∷◌, map, arith, length, replicate, All,
  length-replicate,
}
use secure_eye.Prelude.Int.{ℤ, pos, negsuc, pos_part, neg_part, sub_ℕ, ◌+ℤ◌}
use secure_eye.Python.{value_error, err, ok, dyadic, nan, ok-injective}
use secure_eye.Auth.Interfaces.{Face, no_landmarks, new_embedding}
use secure_eye.Auth.Legacy.{
  FoundRect, DlibBackend, full_score, rect_to_bbox, bbox_to_rect, detect_dlib, embed_dlib,
  detect_mediapipe,
}
use secure_eye.Auth.Legacy.Embedded.{IsEmbedded, detect_mediapipe-IsEmbedded}
use secure_eye.Auth.Legacy.Ranked.{
  IsRanked, face_at, detect_dlib-IsRanked, IsInclusive, rect_to_bbox-bbox_to_rect,
}
use secure_eye.Detectors.Mediapipe.Sizes.{IsDocumented}
use secure_eye.Detectors.Tests.{arrays, mp}

-- A rectangle by its left, top, right and bottom.
record Sides : Type 0 where
  pub left : ℤ
  pub top : ℤ
  pub right : ℤ
  pub bottom : ℤ

abbrev span : ℤ → ℤ → ℤ
span a b = sub_ℕ (pos_part b + neg_part a + 1) (pos_part a + neg_part b)

abbrev scored : ℕ → ℕ → FoundRect Sides
scored x confidence = record {
  rect = record { left = pos x; top = pos 0; right = pos (x + 9); bottom = pos 9 };
  confidence = some (dyadic (pos confidence) (negsuc 1));
}

abbrev both : List (FoundRect Sides)
both = scored 0 1 ∷ scored 20 3 ∷ []

abbrev dlib : DlibBackend ℕ Sides ℕ
dlib = record {
  left = λ r. r.left;
  top = λ r. r.top;
  width = λ r. span r.left r.right;
  height = λ r. span r.top r.bottom;
  rectangle = λ l t r b. record { left = l; top = t; right = r; bottom = b };
  detector = λ frame. ok both;
  pose_predictor = λ frame r. ok 5;
  compute_face_descriptor =
      λ frame shape. ok (record { shape = 128 ∷ []; values = replicate 128 full_score });
}

abbrev short : DlibBackend ℕ Sides ℕ
short = record dlib {
  compute_face_descriptor = λ frame shape. ok (record { shape = 64 ∷ []; values = [] });
}

span-add : (a b : ℤ) (n : ℕ) → b ≡ a +ℤ pos n → span a b ≡ pos (n + 1)
span-add (pos m) b n h = subst (λ c. span (pos m) c ≡ pos (n + 1)) (sym h) (ground arith)
span-add (negsuc m) b n h = subst (λ c. span (negsuc m) c ≡ pos (n + 1)) (sym h) (ground arith)

dlib-IsInclusive : IsInclusive dlib
dlib-IsInclusive = record {
  left_side = λ l t r b. refl;
  top_side = λ l t r b. refl;
  width_between = λ l t r b n h. span-add l r n h;
  height_between = λ l t r b n h. span-add t b n h;
}

rect_to_bbox-bbox_to_rect_example :
    rect_to_bbox dlib (bbox_to_rect dlib (negsuc 4, pos 7, pos 10, pos 20))
    ≡ (negsuc 4, pos 7, pos 10, pos 20)
rect_to_bbox-bbox_to_rect_example =
    rect_to_bbox-bbox_to_rect dlib (negsuc 4) (pos 7) 9 19 dlib-IsInclusive

detect_dlib-IsRanked_example :
    (faces : List Face) × (detect_dlib dlib 0 ≡ ok faces)
    × Perm faces (map (face_at dlib) both)
    × IsRanked faces
detect_dlib-IsRanked_example = detect_dlib-IsRanked dlib 0 both refl

a_face : Face
a_face = record {
  bbox = (pos 20, pos 0, pos 10, pos 10);
  landmarks = no_landmarks;
  score = full_score;
}

wrong_length : embed_dlib short 0 a_face ≡ err value_error
unfolding embed_dlib new_embedding
wrong_length = refl

arrays-IsDocumented : IsDocumented arrays
arrays-IsDocumented = record {
  places = λ stop num. length-replicate num nan;
  interpolated = λ dst src raw values h. ap length (sym (ok-injective h));
}

detect_mediapipe-IsEmbedded_example :
    (faces : List Face) × (detect_mediapipe mp 0 ≡ ok faces) × All (IsEmbedded mp 0) faces
detect_mediapipe-IsEmbedded_example = detect_mediapipe-IsEmbedded mp 0 _ arrays-IsDocumented refl
