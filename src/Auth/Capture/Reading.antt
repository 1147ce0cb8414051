-- ===== src/Auth/Capture/Reading.antt =====
-- Which frames `read` calls usable, and how they are turned.
use secure_eye.Prelude.{
  ◌+◌, ◌≡◌, refl, sym, ap, ◌∙◌, subst, ◌⊎◌, inl, inr, true, false, ◌||◌, none, some, if_elim,
}
use secure_eye.Python.{ok, Float, lt_float, eq_float, >>=-eq-ok, ok-injective}
use secure_eye.Auth.Capture.{
  black, dark, Captured, Vision, Stream, zero_float, hundred, darkness_percent, read, transformed,
  usable, classify, next, received,
}

module _ {Frame : Type 0} where
  -- The verdict on a frame by its darkness and its histogram's total.
  pub IsJudged : Stream → Captured Frame → Float × Float → Type 0
  IsJudged s c (darkness, total) =
      ((c.state ≡ some black)
        × (c.frame ≡ c.raw)
        × (eq_float total zero_float || eq_float darkness hundred ≡ true))
      ⊎ ((c.state ≡ some dark)
          × (c.frame ≡ c.raw)
          × (eq_float total zero_float || eq_float darkness hundred ≡ false)
          × (lt_float s.dark_threshold darkness ≡ true))
      ⊎ ((c.state ≡ none)
          × (eq_float total zero_float || eq_float darkness hundred ≡ false)
          × (lt_float s.dark_threshold darkness ≡ false))

module _ {Frame : Type 0} (cv : Vision Frame) (s : Stream) where
  -- What `read` returns for a camera frame `raw` with its gray picture, enhanced.
  pub record IsClassified (raw gray : Frame) (c : Captured Frame) : Type 0 where
    pub numbered : c.index ≡ s.index + 1
    pub kept : c.raw ≡ raw
    pub brightness : c.darkness ≡ (darkness_percent cv gray).0
    pub judged : IsJudged s c (darkness_percent cv gray)

  classify-IsClassified :
      (raw gray : Frame)
      → IsClassified raw gray (classify cv (next cv s) raw gray (darkness_percent cv gray))
  unfolding classify usable transformed IsJudged
  classify-IsClassified raw gray =
      let (darkness, total) = darkness_percent cv gray in
      if_elim (IsClassified raw gray) (eq_float total zero_float || eq_float darkness hundred)
        (λ is_black. record {
          numbered = refl;
          kept = refl;
          brightness = refl;
          judged = inl (refl, refl, is_black);
        })
        λ not_black.
          if_elim (IsClassified raw gray) (lt_float s.dark_threshold darkness)
            (λ is_dark. record {
              numbered = refl;
              kept = refl;
              brightness = refl;
              judged = inr (inl (refl, refl, not_black, is_dark));
            })
            λ not_dark. record {
              numbered = refl;
              kept = refl;
              brightness = refl;
              judged = inr (inr (refl, not_black, not_dark));
            }

  -- A frame that is read is numbered on from the last, keeps the camera's picture, and is black,
  -- dark or usable by its histogram and the percentage of its dark pixels; it is handed on as the
  -- camera gave it unless it is usable.
  pub read-IsClassified :
      (raw gray : Frame) (c : Captured Frame)
      → cv.read_frame (s.index + 1) ≡ ok (raw, gray)
      → (read cv s).0 ≡ ok c
      → IsClassified raw (cv.enhance gray) c
  unfolding read received
  read-IsClassified raw gray c h k =
      let (pictures, got, made) = >>=-eq-ok (cv.read_frame (s.index + 1)) _ k in
      let same : pictures ≡ (raw, gray) = ok-injective (sym got ∙ h) in
      subst (IsClassified raw (cv.enhance gray)) (ap (received cv s) (sym same) ∙ ok-injective made)
        (classify-IsClassified raw (cv.enhance gray))
