-- ===== src/Detectors/Mediapipe/Sizes.antt =====
-- secureEye/src/detectors/mediapipe_detector.py: the size of what `_landmarks_to_embedding` gives.
use secure_eye.Prelude.{
  ℕ, suc, ◌≡◌, refl, sym, ap, ◌∙◌, subst, inl, inr, List, [], ◌∷◌, map, arith, ◌==◌, Bool-cases,
  if_elim, if_true, if_false, length,
}
use secure_eye.Prelude.Int.{ℤ, pos, sub_ℕ}
use secure_eye.Python.{ok, Float, dyadic, lt_float, >>=-eq-ok, ok-injective}
use secure_eye.Detectors.Mediapipe.{
  embedding_size, Arrays, landmarks_to_embedding, flat, centred, over_size, resized,
}

-- What NumPy documents: `linspace` gives `num` places, and `interp` a value for each place of `dst`.
pub record IsDocumented (np : Arrays) : Type 0 where
  pub places : (stop : ℤ) (num : ℕ) → length (np.linspace stop num) ≡ num
  pub interpolated :
      (dst src raw values : List Float)
      → np.interp dst src raw ≡ ok values
      → length values ≡ length dst

length-map : {A B : Type 0} (f : A → B) (xs : List A) → length (map f xs) ≡ length xs
length-map f [] = refl
length-map f (x ∷ xs) = ap suc (length-map f xs)

module _ (np : Arrays) where
  length-over_size :
      (size : Float) (values : List Float) → length (over_size np size values) ≡ length values
  unfolding over_size
  length-over_size size values =
      if_elim (λ (l : List Float). length l ≡ length values)
        (lt_float (dyadic (pos 0) (pos 0)) size) (λ _. length-map (λ x. np.over x size) values)
        λ _. refl

  length-resized :
      (raw values : List Float)
      → IsDocumented np
      → resized np raw ≡ ok values
      → length values ≡ embedding_size
  unfolding resized
  length-resized raw values doc h = elim (Bool-cases (length raw == embedding_size)) [
    | inl fits ↦
        let same : raw ≡ values = ok-injective (sym (if_true _ fits) ∙ h) in
        subst (λ (l : List Float). length l ≡ embedding_size) same (ground arith)
    | inr other ↦
        doc.interpolated _ _ raw values (sym (if_false _ other) ∙ h)
        ∙ doc.places (sub_ℕ (length raw) 1) embedding_size
  ]

  -- An embedding has 128 values, however many landmarks there are.
  pub length-landmarks_to_embedding :
      (landmarks : List (Float × Float × Float)) (values : List Float)
      → IsDocumented np
      → landmarks_to_embedding np landmarks ≡ ok values
      → length values ≡ embedding_size
  unfolding landmarks_to_embedding
  length-landmarks_to_embedding landmarks values doc h =
      let raw = centred np (flat landmarks) in
      let (embedding, sized, made) = >>=-eq-ok (resized np (over_size np (np.std raw) raw)) _ h in
      subst (λ (l : List Float). length l ≡ embedding_size) (ok-injective made)
        (length-over_size (np.norm embedding) embedding ∙ length-resized _ embedding doc sized)
