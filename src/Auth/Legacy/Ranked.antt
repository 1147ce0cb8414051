-- ===== src/Auth/Legacy/Ranked.antt =====
-- secureEye/src/auth/legacy/dlib_backend.py: the order of the faces, and the boxes of rectangles.
use mathlib.Core.List.Perm
use mathlib.Core.List.{Perm}
use secure_eye.Prelude.{ℕ, ◌+◌, ◌≡◌, refl, ap, true, false, List, [], ◌∷◌, map, arith, if_elim}
use secure_eye.Prelude.Int.{ℤ, pos, negsuc, ◌+ℤ◌}
use secure_eye.Python.{ok, ◌>>=◌, Float, dyadic, infinite, nan, lt_float}
use secure_eye.Auth.Interfaces.{Face, no_landmarks, new_face}
use secure_eye.Auth.Legacy.{
  FoundRect, DlibBackend, sort_faces, rect_to_bbox, bbox_to_rect, face_of, faces_of, detect_dlib,
  insert_face, score_of,
}
use secure_eye.Authd.Framing.Frames.{frame}

lt_float-asymm : (a b : Float) → lt_float a b ≡ true → lt_float b a ≡ false
unfolding lt_float
lt_float-asymm (dyadic m e) (dyadic n k) h = ground arith
lt_float-asymm (dyadic m e) (infinite true) h = cc
lt_float-asymm (dyadic m e) (infinite false) h = refl
lt_float-asymm (infinite true) (dyadic m e) h = refl
lt_float-asymm (infinite false) (dyadic m e) h = cc
lt_float-asymm (infinite true) (infinite true) h = refl
lt_float-asymm (infinite true) (infinite false) h = refl
lt_float-asymm (infinite false) (infinite true) h = cc
lt_float-asymm (infinite false) (infinite false) h = refl
lt_float-asymm nan b h = cc
lt_float-asymm (dyadic m e) nan h = cc
lt_float-asymm (infinite n) nan h = cc

-- No face is weaker than the one after it.
abbrev pub IsRanked : List Face → Type 0
IsRanked [] = Unit
IsRanked (f ∷ []) = Unit
IsRanked (f ∷ g ∷ gs) = (lt_float f.score g.score ≡ false) × IsRanked (g ∷ gs)

insert_face-perm : (f : Face) (gs : List Face) → Perm (insert_face f gs) (f ∷ gs)
unfolding insert_face
insert_face-perm f [] = Perm.refl (f ∷ [])
insert_face-perm f (g ∷ gs) =
    if_elim (λ l. Perm l (f ∷ g ∷ gs)) (lt_float f.score g.score)
      (λ _. Perm.trans (Perm.cons g (insert_face-perm f gs)) (Perm.swap f g gs))
      λ _. Perm.refl (f ∷ g ∷ gs)

sort_faces-perm : (fs : List Face) → Perm (sort_faces fs) fs
unfolding sort_faces
sort_faces-perm [] = Perm.refl []
sort_faces-perm (f ∷ fs) =
    Perm.trans (insert_face-perm f (sort_faces fs)) (Perm.cons f (sort_faces-perm fs))

-- A stronger face in front of the list stays in front of an insertion.
behind_stronger :
    (f g : Face) (gs : List Face)
    → lt_float f.score g.score ≡ true
    → IsRanked (g ∷ gs)
    → IsRanked (insert_face f gs)
    → IsRanked (g ∷ insert_face f gs)
unfolding insert_face
behind_stronger f g [] weaker h rest = (lt_float-asymm f.score g.score weaker, tt)
behind_stronger f g (k ∷ gs) weaker (h, _) rest =
    if_elim (λ l. IsRanked l → IsRanked (g ∷ l)) (lt_float f.score k.score) (λ _ r. (h, r))
      (λ _ r. (lt_float-asymm f.score g.score weaker, r)) rest

insert_face-IsRanked : (f : Face) (gs : List Face) → IsRanked gs → IsRanked (insert_face f gs)
unfolding insert_face
insert_face-IsRanked f [] h = tt
insert_face-IsRanked f (g ∷ gs) h =
    if_elim IsRanked (lt_float f.score g.score)
      (λ weaker. behind_stronger f g gs weaker h (insert_face-IsRanked f gs (ranked_rest gs h)))
      λ stronger. (stronger, h)
  where
    ranked_rest : (l : List Face) → IsRanked (g ∷ l) → IsRanked l
    ranked_rest [] k = tt
    ranked_rest (x ∷ l) (_, k) = k

sort_faces-IsRanked : (fs : List Face) → IsRanked (sort_faces fs)
unfolding sort_faces
sort_faces-IsRanked [] = tt
sort_faces-IsRanked (f ∷ fs) = insert_face-IsRanked f (sort_faces fs) (sort_faces-IsRanked fs)

module _ {Frame Rect Shape : Type 0} (dlib : DlibBackend Frame Rect Shape) where
  -- The faces of what dlib found, in its order.
  pub face_at : FoundRect Rect → Face
  face_at found = record {
    bbox = rect_to_bbox dlib found.rect;
    landmarks = no_landmarks;
    score = score_of dlib found.confidence;
  }

  faces_of-map : (found : List (FoundRect Rect)) → faces_of dlib found ≡ ok (map face_at found)
  unfolding faces_of face_of new_face face_at
  faces_of-map [] = refl
  faces_of-map (r ∷ rest) = ap (λ a. a >>= λ fs. ok (face_at r ∷ fs)) (faces_of-map rest)

  -- When dlib's detector finds these rectangles, `detect` gives one face for each of them, with its box
  -- and confidence, and no face is weaker than the one after it.
  pub detect_dlib-IsRanked :
      (frame : Frame) (found : List (FoundRect Rect))
      → dlib.detector frame ≡ ok found
      → (faces : List Face) × (detect_dlib dlib frame ≡ ok faces)
        × Perm faces (map face_at found)
        × IsRanked faces
  unfolding detect_dlib
  detect_dlib-IsRanked frame found h =
      let faces = map face_at found in
      (
        sort_faces faces,
        rw (h, faces_of-map found) refl,
        sort_faces-perm faces,
        sort_faces-IsRanked faces,
      )

  -- dlib's rectangles: one that is built from inclusive sides has them, and its width and height count
  -- both ends.
  pub record IsInclusive : Type 0 where
    pub left_side : (l t r b : ℤ) → dlib.left (dlib.rectangle l t r b) ≡ l
    pub top_side : (l t r b : ℤ) → dlib.top (dlib.rectangle l t r b) ≡ t
    pub width_between :
        (l t r b : ℤ) (n : ℕ) → r ≡ l +ℤ pos n → dlib.width (dlib.rectangle l t r b) ≡ pos (n + 1)
    pub height_between :
        (l t r b : ℤ) (n : ℕ) → b ≡ t +ℤ pos n → dlib.height (dlib.rectangle l t r b) ≡ pos (n + 1)

  last_inside : (x : ℤ) (n : ℕ) → (x +ℤ pos (n + 1)) +ℤ negsuc 0 ≡ x +ℤ pos n
  last_inside (pos m) n = ground arith
  last_inside (negsuc m) n = ground arith

  -- A box with an area survives the way to a rectangle of dlib and back.
  pub rect_to_bbox-bbox_to_rect :
      (x y : ℤ) (w h : ℕ)
      → IsInclusive
      → rect_to_bbox dlib (bbox_to_rect dlib (x, y, pos (w + 1), pos (h + 1)))
        ≡ (x, y, pos (w + 1), pos (h + 1))
  unfolding rect_to_bbox bbox_to_rect
  rect_to_bbox-bbox_to_rect x y w h is =
      let right = (x +ℤ pos (w + 1)) +ℤ negsuc 0 in
      let bottom = (y +ℤ pos (h + 1)) +ℤ negsuc 0 in
      λ i. (
        is.left_side x y right bottom i,
        is.top_side x y right bottom i,
        is.width_between x y right bottom w (last_inside x w) i,
        is.height_between x y right bottom h (last_inside y h) i,
      )
