-- ===== src/Auth/Probe/Matches.antt =====
-- What a probe's counts mean.
use secure_eye.Prelude.{
  ℕ, suc, ◌+◌, ◌≤◌, ◌<◌, ◌≡◌, refl, sym, ap, ◌∙◌, subst, ◌⊎◌, inl, inr, Bool, true, false, ◌&&◌,
  ◌||◌, Option, none, some, List, [], ◌∷◌, arith, Bool-cases, if_true, if_false,
}
use secure_eye.Python.{Result, err, ok, Float, >>=-eq-ok, ok-injective}
use secure_eye.Auth.Capture.{FrameState, Captured}
use secure_eye.Auth.Pipeline.{Pipeline, match_face}
use secure_eye.Auth.Probe.{
  ProbeTurn, Tally, nothing_yet, Course, more, ended, match_faces, probe_turn, probe_loop, with_row,
  caught, observe, score, scan_usable, take_frame, count_read, after_read, go_on_from,
}
use secure_eye.Auth.Session.{turn}
use secure_eye.Auth.Session.Success.{HasAccepted}

module _ {Frame Face : Type 0} (pipeline : Pipeline Frame Face) where
  -- The turn read a usable frame in which a face is accepted.
  pub record IsMatch (t : ProbeTurn Frame) : Type 0 where
    pub picture : Captured Frame
    pub faces : List Face
    pub shot : t.reading ≡ ok picture
    pub usable : picture.state ≡ none
    pub detected : pipeline.bundle.detect picture.gray ≡ ok faces
    pub face_accepted : HasAccepted pipeline picture.frame faces

  -- Each of the counted frames is that of a turn of its own that shows a match.
  pub data Backed : List (ProbeTurn Frame) → ℕ → Type 0 where
    no_match : {ts : List (ProbeTurn Frame)} → Backed ts 0
    skips :
        {t : ProbeTurn Frame} {ts : List (ProbeTurn Frame)} {n : ℕ}
        → Backed ts n
        → Backed (t ∷ ts) n
    counts_one :
        {t : ProbeTurn Frame} {ts : List (ProbeTurn Frame)} {n : ℕ}
        → IsMatch t
        → Backed ts n
        → Backed (t ∷ ts) (suc n)

  -- At most as many frames matched as were read, and as many turns show a match.
  pub record IsBacked (turns : List (ProbeTurn Frame)) (frames matched : ℕ) : Type 0 where
    pub fewer : matched ≤ frames
    pub shown : Backed turns matched

  match_faces-HasAccepted :
      (picture : Frame) (faces : List Face) (best : Option Float) (accepted : Bool)
      (r : Option Float × Bool)
      → match_faces pipeline picture faces best accepted ≡ ok r
      → accepted ≡ false
      → r.1 ≡ true
      → HasAccepted pipeline picture faces
  unfolding match_faces
  match_faces-HasAccepted picture [] best accepted r h no_face_yet found = absurd (ground arith)
  match_faces-HasAccepted picture (f ∷ fs) best accepted r h no_face_yet found =
      let (m, matched, h1) = >>=-eq-ok (match_face pipeline picture f) _ h in
      elim (Bool-cases m.accepted) [
        | inl here ↦ record {
          place = 0;
          found = f;
          outcome = m;
          seen = refl;
          matched = matched;
          accepted = here;
        }
        | inr other ↦
            let h =
              match_faces-HasAccepted picture fs (with_row m.row m.distance best)
                (accepted || m.accepted) r h1 (ground arith) found in
            record {
              place = suc h.place;
              found = h.found;
              outcome = h.outcome;
              seen = h.seen;
              matched = h.matched;
              accepted = h.accepted;
            }
      ]

  -- What one turn does to the counts.
  record IsTurn (t : ProbeTurn Frame) (p p' : Tally) : Type 0 where
    still_fewer : p'.matched_frames ≤ p'.frames
    one_more :
        (p'.matched_frames ≡ p.matched_frames)
        ⊎ ((p'.matched_frames ≡ suc p.matched_frames) × IsMatch t)

  scan_usable-IsTurn :
      (t : ProbeTurn Frame) (raises : Bool) (c : Captured Frame) (p : Tally) (r : Course × Tally)
      → t.reading ≡ ok c
      → c.state ≡ none
      → p.matched_frames < p.frames
      → scan_usable pipeline raises c p ≡ ok r
      → IsTurn t p r.1
  unfolding scan_usable score observe
  scan_usable-IsTurn t raises c p r shot usable room h =
      let (faces, detected, h1) = >>=-eq-ok (pipeline.bundle.detect c.gray) _ h in
      let (found, scanned, h2) = >>=-eq-ok (match_faces pipeline c.frame faces none false) _ h1 in
      subst (λ (q : Course × Tally). IsTurn t p q.1) (ok-injective h2)
        (elim (Bool-cases found.1) [
          | inl some_face ↦ record {
            still_fewer = ground arith;
            one_more = inr (
              ground arith,
              record {
                picture = c;
                faces = faces;
                shot = shot;
                usable = usable;
                detected = detected;
                face_accepted =
                    match_faces-HasAccepted c.frame faces none false found scanned refl some_face;
              },
            );
          }
          | inr none_found ↦ record { still_fewer = ground arith; one_more = inl (ground arith) }
        ])

  take_frame-IsTurn :
      (t : ProbeTurn Frame) (raises : Bool) (c : Captured Frame) (state : Option FrameState)
      (p : Tally) (r : Course × Tally)
      → t.reading ≡ ok c
      → c.state ≡ state
      → p.matched_frames < p.frames
      → take_frame pipeline raises c state p ≡ ok r
      → IsTurn t p r.1
  unfolding take_frame observe
  take_frame-IsTurn t raises c (some _) p r shot same room h =
      subst (λ (q : Course × Tally). IsTurn t p q.1) (ok-injective h)
        (record { still_fewer = omega arith; one_more = inl refl })
  take_frame-IsTurn t raises c none p r shot same room h =
      scan_usable-IsTurn t raises c p r shot same room h

  after_read-IsTurn :
      (t : ProbeTurn Frame) (p : Tally) (q : Result (Captured Frame)) (r : Course × Tally)
      → t.reading ≡ q
      → p.matched_frames ≤ p.frames
      → after_read pipeline t p q ≡ ok r
      → IsTurn t p r.1
  unfolding after_read
  after_read-IsTurn t p (ok c) r shot fewer h =
      let seen =
        take_frame-IsTurn t t.observer_raises c c.state (count_read pipeline p) r shot refl
          (omega arith) h in
      record { still_fewer = seen.still_fewer; one_more = seen.one_more }
  after_read-IsTurn t p (err e) r shot fewer h =
      elim (Bool-cases ((p.cancel_set || t.cancelled_in_read) && caught e)) [
        | inl stop ↦
            subst (λ (q : Course × Tally). IsTurn t p q.1) (ok-injective (sym (if_true _ stop) ∙ h))
              (record { still_fewer = fewer; one_more = inl refl })
        | inr raised ↦ absurd (cc (sym (if_false _ raised) ∙ h))
      ]

  probe_turn-IsTurn :
      (t : ProbeTurn Frame) (p : Tally) (r : Course × Tally)
      → p.matched_frames ≤ p.frames
      → probe_turn pipeline t p ≡ ok r
      → IsTurn t p r.1
  unfolding probe_turn
  probe_turn-IsTurn t p r fewer h = elim (Bool-cases t.over) [
    | inl over ↦
        subst (λ (q : Course × Tally). IsTurn t p q.1) (ok-injective (sym (if_true _ over) ∙ h))
          (record { still_fewer = fewer; one_more = inl refl })
    | inr in_time ↦ elim (Bool-cases (p.cancel_set || t.cancelled_before)) [
      | inl stop ↦
          subst (λ (q : Course × Tally). IsTurn t p q.1)
            (ok-injective (sym (if_false _ in_time ∙ if_true _ stop) ∙ h))
            (record { still_fewer = fewer; one_more = inl refl })
      | inr run_on ↦
          after_read-IsTurn t p t.reading r refl fewer
            (sym (if_false _ in_time ∙ if_false _ run_on) ∙ h)
    ]
  ]

  -- A stretch of the loop, from one tally to a later one.
  record IsStretch (turns : List (ProbeTurn Frame)) (p p' : Tally) : Type 0 where
    still_fewer : p'.matched_frames ≤ p'.frames
    gain : ℕ
    gained : p'.matched_frames ≡ p.matched_frames + gain
    shown_by : Backed turns gain

  later_shown :
      (t : ProbeTurn Frame) (ts : List (ProbeTurn Frame)) (p q p' : Tally)
      → IsTurn t p q
      → IsStretch ts q p'
      → IsStretch (t ∷ ts) p p'
  later_shown t ts p q p' turn stretch = elim turn.one_more [
    | inl same ↦ record {
      still_fewer = stretch.still_fewer;
      gain = stretch.gain;
      gained = stretch.gained ∙ ap (λ n. n + stretch.gain) same;
      shown_by = skips stretch.shown_by;
    }
    | inr (one, seen) ↦ record {
      still_fewer = stretch.still_fewer;
      gain = suc stretch.gain;
      gained = omega (arith, one, stretch.gained);
      shown_by = counts_one seen stretch.shown_by;
    }
  ]

  unmoved-IsStretch :
      (ts : List (ProbeTurn Frame)) (p : Tally) → p.matched_frames ≤ p.frames → IsStretch ts p p
  unmoved-IsStretch ts p fewer = record {
    still_fewer = fewer;
    gain = 0;
    gained = omega arith;
    shown_by = no_match;
  }

  after_turn-IsStretch :
      (t : ProbeTurn Frame) (ts : List (ProbeTurn Frame)) (course : Course) (p q p' : Tally)
      → IsTurn t p q
      → go_on_from pipeline (course, q) (probe_loop pipeline ts) ≡ ok p'
      → (probe_loop pipeline ts q ≡ ok p' → IsStretch ts q p')
      → IsStretch (t ∷ ts) p p'
  unfolding go_on_from
  after_turn-IsStretch t ts more p q p' turn h rest = later_shown t ts p q p' turn (rest h)
  after_turn-IsStretch t ts ended p q p' turn h rest =
      subst (λ (x : Tally). IsStretch (t ∷ ts) p x) (ok-injective h)
        (later_shown t ts p q q turn (unmoved-IsStretch ts q turn.still_fewer))

  probe_loop-IsStretch :
      (turns : List (ProbeTurn Frame)) (p p' : Tally)
      → p.matched_frames ≤ p.frames
      → probe_loop pipeline turns p ≡ ok p'
      → IsStretch turns p p'
  unfolding probe_loop
  probe_loop-IsStretch [] p p' fewer h =
      subst (λ (x : Tally). IsStretch [] p x) (ok-injective h) (unmoved-IsStretch [] p fewer)
  probe_loop-IsStretch (t ∷ ts) p p' fewer h =
      let ((course, q), seen, h1) = >>=-eq-ok (probe_turn pipeline t p) _ h in
      let turn = probe_turn-IsTurn t p (course, q) fewer seen in
      after_turn-IsStretch t ts course p q p' turn h1
        (probe_loop-IsStretch ts q p' turn.still_fewer)

  -- From no counts, what the loop counts is backed by its turns.
  pub probe_loop-IsBacked :
      (turns : List (ProbeTurn Frame)) (p : Tally)
      → probe_loop pipeline turns nothing_yet ≡ ok p
      → IsBacked turns p.frames p.matched_frames
  probe_loop-IsBacked turns p h =
      let stretch = probe_loop-IsStretch turns nothing_yet p (omega arith) h in
      record {
        fewer = stretch.still_fewer;
        shown = subst (Backed turns) (omega (arith, stretch.gained)) stretch.shown_by;
      }
