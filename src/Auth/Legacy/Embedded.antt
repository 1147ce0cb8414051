-- ===== src/Auth/Legacy/Embedded.antt =====
-- secureEye/src/auth/legacy/mediapipe_backend.py with detectors/mediapipe_detector.py: a face from its
-- detection to its embedding.
use secure_eye.Prelude.{
  ◌≡◌, refl, sym, ap, ◌∙◌, subst, Option, none, some, List, [], ◌∷◌, map, length, keep, All,
  length-replicate,
}
use secure_eye.Prelude.Int.{pos}
use secure_eye.Python.{Result, err, ok, ◌>>=◌, Float, dyadic, >>=-eq-ok, ok-injective}
use secure_eye.Auth.Interfaces.{Face, Embedding, no_landmarks, new_face, new_embedding}
use secure_eye.Auth.Legacy.{
  mediapipe_model_id, mediapipe_embedding_dim, full_score, detect_mediapipe, embed_mediapipe,
  box_faces,
}
use secure_eye.Authd.Framing.Frames.{frame}
use secure_eye.Detectors.Mediapipe.{
  embedding_size, Bounds, Box, MediaPipe, box_of, has_area, detect, embed_found,
}
use secure_eye.Detectors.Mediapipe.Boxes.{IsInside, crop_at, IsCut, detect-IsInside}
use secure_eye.Detectors.Mediapipe.Sizes.{IsDocumented, length-landmarks_to_embedding}

module _ {Frame Marks : Type 0} (mp : MediaPipe Frame Marks) where
  -- The embedding with these 128 values.
  abbrev pub embedding_of : List Float → Embedding
  embedding_of values = record {
    vector = record { shape = embedding_size ∷ []; values = values };
    model_id = mediapipe_model_id;
    dim = mediapipe_embedding_dim;
  }

  -- The face has the box of a part of the picture, and embedding it looks for landmarks in just that
  -- part and gives an embedding of the values for these, a zero one when there are none.
  pub record IsEmbedded (frame : Frame) (f : Face) : Type 0 where
    pub box : Box
    pub of_box : f.bbox ≡ (pos box.x, pos box.y, pos box.w, pos box.h)
    pub inside : IsInside (mp.height_of frame) (mp.width_of frame) box
    pub embedded :
        embed_mediapipe mp frame f
        ≡ (mp.find_landmarks frame (crop_at box) >>= embed_found mp) >>= λ values.
            ok (embedding_of values)
    pub of_size :
        (e : Embedding)
        → embed_mediapipe mp frame f ≡ ok e
        → length e.vector.values ≡ embedding_size

  length-embed_found :
      (marks : Option Marks) (values : List Float)
      → IsDocumented mp.numpy
      → embed_found mp marks ≡ ok values
      → length values ≡ embedding_size
  unfolding embed_found
  length-embed_found none values doc h =
      ap length (sym (ok-injective h)) ∙ length-replicate embedding_size (dyadic (pos 0) (pos 0))
  length-embed_found (some marks) values doc h =
      length-landmarks_to_embedding mp.numpy (mp.points marks) values doc h

  -- `Embedding(...)` of the values, as `embed` builds it.
  abbrev build_embedding : List Float → Result Embedding
  build_embedding values =
      new_embedding (record { shape = length values ∷ []; values = values }) mediapipe_model_id
        mediapipe_embedding_dim

  build_embedding-length :
      (values : List Float)
      → length values ≡ embedding_size
      → build_embedding values ≡ ok (embedding_of values)
  unfolding new_embedding
  build_embedding-length values h = rw (h) refl

  build_found :
      (marks : Option Marks) (r : Result (List Float))
      → IsDocumented mp.numpy
      → embed_found mp marks ≡ r
      → r >>= build_embedding ≡ r >>= λ values. ok (embedding_of values)
  build_found marks (err e) doc h = refl
  build_found marks (ok values) doc h =
      build_embedding-length values (length-embed_found marks values doc h)

  build_later :
      (found : Result (Option Marks))
      → IsDocumented mp.numpy
      → (found >>= embed_found mp) >>= build_embedding
        ≡ (found >>= embed_found mp) >>= λ values. ok (embedding_of values)
  build_later (err e) doc = refl
  build_later (ok marks) doc = build_found marks (embed_found mp marks) doc refl

  found-length :
      (found : Result (Option Marks)) (e : Embedding)
      → IsDocumented mp.numpy
      → ((found >>= embed_found mp) >>= λ values. ok (embedding_of values)) ≡ ok e
      → length e.vector.values ≡ embedding_size
  found-length found e doc h =
      let (values, embedded, made) = >>=-eq-ok (found >>= embed_found mp) _ h in
      let (marks, _, valued) = >>=-eq-ok found _ embedded in
      subst (λ (x : Embedding). length x.vector.values ≡ embedding_size) (ok-injective made)
        (length-embed_found marks values doc valued)

  face_of_box : Box → Face
  face_of_box b = record {
    bbox = (pos b.x, pos b.y, pos b.w, pos b.h);
    landmarks = no_landmarks;
    score = full_score;
  }

  box_faces-IsEmbedded :
      (frame : Frame) (boxes : List Box)
      → IsDocumented mp.numpy
      → All (IsCut mp frame) boxes
      → (faces : List Face) × (box_faces mp boxes ≡ ok faces) × All (IsEmbedded frame) faces
  unfolding box_faces new_face face_of_box embed_mediapipe
  box_faces-IsEmbedded frame [] h all = ([], refl, tt)
  box_faces-IsEmbedded frame (b ∷ boxes) h (cut, all) =
      let (faces, at, each) = box_faces-IsEmbedded frame boxes h all in
      (
        face_of_box b ∷ faces,
        ap (λ a. a >>= λ fs. ok (face_of_box b ∷ fs)) at,
        (
          record {
            box = b;
            of_box = refl;
            inside = cut.inside;
            embedded =
                ap (λ a. a >>= build_embedding) cut.encoded
                ∙ build_later (mp.find_landmarks frame (crop_at b)) h;
            of_size = λ e made. found-length (mp.find_landmarks frame (crop_at b)) e h (
                sym (
                  ap (λ a. a >>= build_embedding) cut.encoded
                  ∙ build_later (mp.find_landmarks frame (crop_at b)) h)
                ∙ made);
          },
          each,
        ),
      )

  -- For a picture in which MediaPipe's detector raises nothing, `detect` gives faces inside the picture,
  -- each of which `embed` on the same picture turns into an embedding of 128 values in the space of
  -- MediaPipe, unless the search for landmarks or the interpolation raises, provided that NumPy's
  -- `linspace` and `interp` give as many values as they document.
  pub detect_mediapipe-IsEmbedded :
      (frame : Frame) (found : List Bounds)
      → IsDocumented mp.numpy
      → mp.find_faces frame ≡ ok found
      → (faces : List Face) × (detect_mediapipe mp frame ≡ ok faces) × All (IsEmbedded frame) faces
  unfolding detect_mediapipe detect
  detect_mediapipe-IsEmbedded frame found h at =
      let boxes = keep has_area (map (box_of (mp.height_of frame) (mp.width_of frame)) found) in
      let detected : detect mp frame ≡ ok boxes = rw (at) refl in
      let (faces, made, all) =
        box_faces-IsEmbedded frame boxes h (detect-IsInside mp frame boxes detected) in
      (faces, ap (λ a. a >>= box_faces mp) detected ∙ made, all)
