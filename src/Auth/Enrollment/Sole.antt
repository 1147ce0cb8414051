-- ===== src/Auth/Enrollment/Sole.antt =====
-- The face that a successful capture embeds.
use secure_eye.Prelude.{
  ℕ, suc, ◌≡◌, refl, sym, ap, ◌∙◌, ◌≢◌, ◌⊎◌, inl, inr, Bool, ◌||◌, Option, some, List, [], ◌∷◌,
  arith, Bool-cases, if_true, if_false, get_elem?, take,
}
use secure_eye.Python.{Result, err, ok, >>=-eq-ok, ok-injective}
use secure_eye.Auth.Capture.{FrameState, black, dark, Captured}
use secure_eye.Auth.Enrollment.{
  success, max_frames, EnrollTurn, Looking, start, Sight, keep_looking, stopped, sole_face, Capture,
  failure, enroll_turn, search_face, capture, observed, judge_faces, usable_frame, look_at, look,
  go_further, conclude,
}
use secure_eye.Auth.Pipeline.{Bundle}
use secure_eye.Auth.Template.{Row}

-- The face `found` is the only one that the detector finds in the frame, and the frame is usable.
pub record IsSole {Frame Face : Type 0} (bundle : Bundle Frame Face) (t : EnrollTurn Frame)
    (picture : Frame) (found : Face) : Type 0 where
  pub frame_read : Captured Frame
  pub shot : t.reading ≡ ok frame_read
  pub same_picture : frame_read.frame ≡ picture
  pub only : bundle.detect frame_read.gray ≡ ok (found ∷ [])
  pub not_black : frame_read.state ≢ some black
  pub not_dark : frame_read.state ≢ some dark

module _ {Frame Face : Type 0} (bundle : Bundle Frame Face) where
  judge_faces-sole :
      (c : Captured Frame) (faces : List Face) (l l' : Looking) (picture : Frame) (f : Face)
      → judge_faces bundle c.frame faces l ≡ (sole_face picture f, l')
      → (faces ≡ f ∷ []) × (c.frame ≡ picture)
  unfolding judge_faces
  judge_faces-sole c [] l l' picture f h = absurd (cc)
  judge_faces-sole c (g ∷ []) l l' picture f h =
      let same : g ≡ f = cc in (ap (λ x. x ∷ []) same, cc)
  judge_faces-sole c (g ∷ g' ∷ fs) l l' picture f h = absurd (cc)

  usable_frame-IsSole :
      (t : EnrollTurn Frame) (raises : Bool) (c : Captured Frame) (l l' : Looking) (picture : Frame)
      (f : Face)
      → t.reading ≡ ok c
      → c.state ≢ some black
      → c.state ≢ some dark
      → usable_frame bundle raises c l ≡ ok (sole_face picture f, l')
      → IsSole bundle t picture f
  unfolding usable_frame
  usable_frame-IsSole t raises c l l' picture f shot b d h =
      let (faces, detected, h1) = >>=-eq-ok (bundle.detect c.gray) _ h in
      let (one, same) =
        judge_faces-sole c faces (observed raises l) l' picture f (ok-injective h1) in
      record {
        frame_read = c;
        shot = shot;
        same_picture = same;
        only = detected ∙ ap ok one;
        not_black = b;
        not_dark = d;
      }

  look_at-IsSole :
      (t : EnrollTurn Frame) (raises : Bool) (c : Captured Frame) (state : Option FrameState)
      (l l' : Looking) (picture : Frame) (f : Face)
      → t.reading ≡ ok c
      → c.state ≡ state
      → look_at bundle raises c state l ≡ ok (sole_face picture f, l')
      → IsSole bundle t picture f
  unfolding look_at
  look_at-IsSole t raises c (some black) l l' picture f shot same h = absurd (cc)
  look_at-IsSole t raises c (some dark) l l' picture f shot same h = absurd (cc)
  look_at-IsSole t raises c _ l l' picture f shot same h =
      usable_frame-IsSole t raises c _ l' picture f shot (λ e. cc) (λ e. cc) h

  look-IsSole :
      (t : EnrollTurn Frame) (r : Result (Captured Frame)) (l l' : Looking) (picture : Frame)
      (f : Face)
      → t.reading ≡ r
      → look bundle t l r ≡ ok (sole_face picture f, l')
      → IsSole bundle t picture f
  unfolding look
  look-IsSole t (ok c) l l' picture f shot h =
      look_at-IsSole t t.observer_raises c c.state l l' picture f shot refl h
  look-IsSole t (err e) l l' picture f shot h = absurd (ground arith)

  enroll_turn-IsSole :
      (t : EnrollTurn Frame) (l l' : Looking) (picture : Frame) (f : Face)
      → enroll_turn bundle t l ≡ ok (sole_face picture f, l')
      → IsSole bundle t picture f
  unfolding enroll_turn
  enroll_turn-IsSole t l l' picture f h = elim (Bool-cases (l.cancel_set || t.cancelled_before)) [
    | inl stop ↦ absurd (cc (if_true (look bundle t l t.reading) stop))
    | inr run_on ↦ look-IsSole t t.reading l l' picture f refl (sym (if_false _ run_on) ∙ h)
  ]

  go_further-sole :
      (p : Sight Frame Face × Looking) (rest : Looking → Result (Sight Frame Face × Looking))
      (l' : Looking) (picture : Frame) (f : Face)
      → go_further bundle p rest ≡ ok (sole_face picture f, l')
      → (p ≡ (sole_face picture f, l')) ⊎ (rest p.1 ≡ ok (sole_face picture f, l'))
  unfolding go_further
  go_further-sole (keep_looking, l) rest l' picture f h = inr h
  go_further-sole (stopped, l) rest l' picture f h = absurd (cc)
  go_further-sole (sole_face q g, l) rest l' picture f h = inl (ok-injective h)

  search_face-IsSole :
      (turns : List (EnrollTurn Frame)) (l l' : Looking) (picture : Frame) (f : Face)
      → search_face bundle turns l ≡ ok (sole_face picture f, l')
      → (i : ℕ) × (t : EnrollTurn Frame) × (get_elem? turns i ≡ some t) × IsSole bundle t picture f
  unfolding search_face
  search_face-IsSole [] l l' picture f h = absurd (cc)
  search_face-IsSole (t ∷ ts) l l' picture f h =
      let (p, seen, h1) = >>=-eq-ok (enroll_turn bundle t l) _ h in
      elim (go_further-sole p (search_face bundle ts) l' picture f h1) [
        | inl now ↦ (0, t, refl, enroll_turn-IsSole t l l' picture f (seen ∙ ap ok now))
        | inr later ↦
            let (i, t', at_i, sole) = search_face-IsSole ts p.1 l' picture f later in
            (suc i, t', at_i, sole)
      ]

  -- What `capture` embeds when it succeeds.
  pub record IsCaptured (turns : List (EnrollTurn Frame)) (c : Capture) : Type 0 where
    pub place : ℕ
    pub at_turn : EnrollTurn Frame
    pub picture : Frame
    pub found : Face
    pub row : Row
    pub in_turns : get_elem? (take max_frames turns) place ≡ some at_turn
    pub sole : IsSole bundle at_turn picture found
    pub embedded : bundle.embed picture found ≡ ok row
    pub returned : c.embedding ≡ some row

  failure-fails : (l : Looking) → failure l ≢ success
  unfolding failure
  failure-fails l h = ground arith

  conclude-captured :
      (late : Bool) (p : Sight Frame Face × Looking) (c : Capture)
      → conclude bundle late p ≡ ok c
      → c.result ≡ success
      → (picture : Frame) × (f : Face) × (row : Row) × (p ≡ (sole_face picture f, p.1))
        × (bundle.embed picture f ≡ ok row)
        × (c.embedding ≡ some row)
  unfolding conclude
  conclude-captured late (stopped, l) c h good = absurd (cc)
  conclude-captured late (keep_looking, l) c h good = elim (Bool-cases (l.cancel_set || late)) [
    | inl stop ↦ absurd (cc (sym (if_true _ stop) ∙ h))
    | inr run_on ↦ absurd (failure-fails l (cc (sym (if_false _ run_on) ∙ h)))
  ]
  conclude-captured late (sole_face picture f, l) c h good =
      elim (Bool-cases (l.cancel_set || late)) [
        | inl stop ↦ absurd (cc (sym (if_true _ stop) ∙ h))
        | inr run_on ↦
            let (row, embedded, h1) =
              >>=-eq-ok (bundle.embed picture f) _ (sym (if_false _ run_on) ∙ h) in
            (picture, f, row, refl, embedded, cc h1)
      ]

  -- A capture that succeeds embeds the only face of a usable frame, one of the first 60 turns.
  pub capture-IsCaptured :
      (turns : List (EnrollTurn Frame)) (late : Bool) (c : Capture)
      → capture bundle turns late ≡ ok c
      → c.result ≡ success
      → IsCaptured turns c
  unfolding capture
  capture-IsCaptured turns late c h good =
      let (p, searched, h1) = >>=-eq-ok (search_face bundle (take max_frames turns) start) _ h in
      let (picture, f, row, same, embedded, returned) = conclude-captured late p c h1 good in
      let (i, t, at_i, sole) =
        search_face-IsSole (take max_frames turns) start p.1 picture f (searched ∙ ap ok same) in
      record {
        place = i;
        at_turn = t;
        picture = picture;
        found = f;
        row = row;
        in_turns = at_i;
        sole = sole;
        embedded = embedded;
        returned = returned;
      }
