-- ===== src/Auth/Session/Success.antt =====
-- When a session ends with the exit code of a success.
use secure_eye.Prelude.{
  ℕ, suc, ◌≡◌, refl, sym, ap, ◌∙◌, ◌≢◌, ◌⊎◌, inl, inr, Bool, true, false, ◌||◌, Option, none, some,
  List, [], ◌∷◌, arith, Bool-cases, if_false, get_elem?,
}
use secure_eye.Python.{Result, err, ok, Float, >>=-eq-ok, and_then-eq-ok}
use secure_eye.Auth.Capture.{FrameState, black, dark, no_face, multiple, face, match, Captured}
use secure_eye.Auth.Pipeline.{FaceMatch, Pipeline, match_face}
use secure_eye.Auth.Session.{
  Turn, Progress, Stamps, Next, go_on, leave, run_rubberstamps, scan_faces, turn, run_loop, code_of,
  lowest, verdict, finish, keep_state, scan_frame, handle_frame, late_code, read_and_handle,
  counted, proceed,
}

module _ {Frame Face : Type 0} where
  -- A face of the frame was accepted.
  pub record HasAccepted (pipeline : Pipeline Frame Face) (picture : Frame) (faces : List Face)
      : Type 0 where
    pub place : ℕ
    pub found : Face
    pub outcome : FaceMatch
    pub seen : get_elem? faces place ≡ some found
    pub matched : match_face pipeline picture found ≡ ok outcome
    pub accepted : outcome.accepted ≡ true

  -- What the turn that ends the session with success has met: a usable frame with an accepted face,
  -- and stamps that let it pass or end it with 0 themselves.
  pub record IsWinning (pipeline : Pipeline Frame Face) (stamps : Stamps) (t : Turn Frame)
      : Type 0 where
    pub picture : Captured Frame
    pub faces : List Face
    pub shot : t.reading ≡ ok picture
    pub not_black : picture.state ≢ some black
    pub not_dark : picture.state ≢ some dark
    pub detected : pipeline.bundle.detect picture.gray ≡ ok faces
    pub face_accepted : HasAccepted pipeline picture.frame faces
    pub stamped :
        (run_rubberstamps stamps pipeline.bundle.legacy ≡ ok none)
        ⊎ (run_rubberstamps stamps pipeline.bundle.legacy ≡ ok (some 0))
    pub in_time : (t.late ≡ false) × (t.cancelled ≡ false)

module _ {Frame Face : Type 0} (pipeline : Pipeline Frame Face) (stamps : Stamps) where
  later :
      (picture : Frame) (f : Face) (fs : List Face)
      → HasAccepted pipeline picture fs
      → HasAccepted pipeline picture (f ∷ fs)
  later picture f fs h = record {
    place = suc h.place;
    found = h.found;
    outcome = h.outcome;
    seen = h.seen;
    matched = h.matched;
    accepted = h.accepted;
  }

  scan_faces-HasAccepted :
      (picture : Frame) (faces : List Face) (so_far : Float) (r : Bool × Float)
      → scan_faces pipeline stamps picture faces so_far ≡ ok r
      → r.0 ≡ true
      → HasAccepted pipeline picture faces
  unfolding scan_faces
  scan_faces-HasAccepted picture [] so_far r h k = absurd (cc)
  scan_faces-HasAccepted picture (f ∷ fs) so_far r h k =
      let (m, matched, h1) = >>=-eq-ok (match_face pipeline picture f) _ h in
      elim (Bool-cases m.accepted) [
        | inl accepted ↦ record {
          place = 0;
          found = f;
          outcome = m;
          seen = refl;
          matched = matched;
          accepted = accepted;
        }
        | inr other ↦ later picture f fs (
            scan_faces-HasAccepted picture fs (lowest pipeline stamps so_far m) r
              (sym (if_false _ other) ∙ h1) k)
      ]

  verdict-passed :
      (accepted : Bool)
      → verdict pipeline stamps accepted ≡ ok (leave 0)
      → (accepted ≡ true)
        × ((run_rubberstamps stamps pipeline.bundle.legacy ≡ ok none)
            ⊎ (run_rubberstamps stamps pipeline.bundle.legacy ≡ ok (some 0)))
  unfolding verdict code_of
  verdict-passed true h =
      let (code, ran, h1) = >>=-eq-ok (run_rubberstamps stamps pipeline.bundle.legacy) _ h in
      (refl, ground arith)
  verdict-passed false h = absurd (cc)

  scan_frame-IsWinning :
      (t : Turn Frame) (raises : Bool) (c : Captured Frame) (p : Progress)
      → t.reading ≡ ok c
      → (t.late ≡ false) × (t.cancelled ≡ false)
      → c.state ≢ some black
      → c.state ≢ some dark
      → (scan_frame pipeline stamps raises c p).0 ≡ ok (leave 0)
      → IsWinning pipeline stamps t
  unfolding scan_frame finish keep_state
  scan_frame-IsWinning t raises c p shot in_time b d h =
      let (faces, detected, e1) =
        and_then-eq-ok (keep_state pipeline stamps (pipeline.bundle.detect c.gray) p) _ h in
      let h1 = ap (λ q. q.0) (sym e1) ∙ h in
      let (r, scanned, e2) =
        and_then-eq-ok
          (keep_state pipeline stamps
            (scan_faces pipeline stamps c.frame faces p.stats.lowest_certainty) p)
          _ h1 in
      let h2 : verdict pipeline stamps r.0 ≡ ok (leave 0) = ap (λ q. q.0) (sym e2) ∙ h1 in
      let (accepted, stamped) = verdict-passed r.0 h2 in
      record {
        picture = c;
        faces = faces;
        shot = shot;
        not_black = b;
        not_dark = d;
        detected = detected;
        face_accepted =
            scan_faces-HasAccepted c.frame faces p.stats.lowest_certainty r scanned accepted;
        stamped = stamped;
        in_time = in_time;
      }

  handle_frame-IsWinning :
      (t : Turn Frame) (raises : Bool) (c : Captured Frame) (state : Option FrameState)
      (p : Progress)
      → t.reading ≡ ok c
      → (t.late ≡ false) × (t.cancelled ≡ false)
      → c.state ≡ state
      → (handle_frame pipeline stamps raises c state p).0 ≡ ok (leave 0)
      → IsWinning pipeline stamps t
  unfolding handle_frame
  handle_frame-IsWinning t raises c (some black) p shot in_time same h = absurd (cc)
  handle_frame-IsWinning t raises c (some dark) p shot in_time same h = absurd (cc)
  handle_frame-IsWinning t raises c (some no_face) p shot in_time same h =
      scan_frame-IsWinning t raises c _ shot in_time (λ e. cc) (λ e. cc) h
  handle_frame-IsWinning t raises c (some multiple) p shot in_time same h =
      scan_frame-IsWinning t raises c _ shot in_time (λ e. cc) (λ e. cc) h
  handle_frame-IsWinning t raises c (some face) p shot in_time same h =
      scan_frame-IsWinning t raises c _ shot in_time (λ e. cc) (λ e. cc) h
  handle_frame-IsWinning t raises c (some match) p shot in_time same h =
      scan_frame-IsWinning t raises c _ shot in_time (λ e. cc) (λ e. cc) h
  handle_frame-IsWinning t raises c none p shot in_time same h =
      scan_frame-IsWinning t raises c _ shot in_time (λ e. cc) (λ e. cc) h

  read_and_handle-IsWinning :
      (t : Turn Frame) (p : Progress)
      → (t.late ≡ false) × (t.cancelled ≡ false)
      → (read_and_handle pipeline stamps t p).0 ≡ ok (leave 0)
      → IsWinning pipeline stamps t
  unfolding read_and_handle keep_state
  read_and_handle-IsWinning t p in_time h =
      let (c, shot, e) = and_then-eq-ok (keep_state pipeline stamps t.reading p) _ h in
      handle_frame-IsWinning t t.observer_raises c c.state p shot in_time refl
        (ap (λ q. q.0) (sym e) ∙ h)

  or-false : (a b : Bool) → (a || b) ≡ false → b ≡ false
  or-false a b h = ground arith

  turn-reads :
      (t : Turn Frame) (p : Progress)
      → (p.cancel_set || t.cancelled) ≡ false
      → t.late ≡ false
      → turn pipeline stamps t p ≡ read_and_handle pipeline stamps t (counted pipeline stamps t p)
  unfolding turn
  turn-reads t p run_on on_time = if_false _ run_on ∙ if_false _ on_time

  turn-IsWinning :
      (t : Turn Frame) (p : Progress)
      → (turn pipeline stamps t p).0 ≡ ok (leave 0)
      → IsWinning pipeline stamps t
  unfolding turn late_code
  turn-IsWinning t p h = elim (Bool-cases (p.cancel_set || t.cancelled)) [
    | inl stop ↦ absurd (ground arith)
    | inr run_on ↦ elim (Bool-cases t.late) [
      | inl over ↦ absurd (ground arith)
      | inr on_time ↦
          read_and_handle-IsWinning t (counted pipeline stamps t p)
            (on_time, or-false p.cancel_set t.cancelled run_on)
            (ap (λ q. q.0) (sym (turn-reads t p run_on on_time)) ∙ h)
    ]
  ]

  proceed-success :
      (r : Result Next × Progress) (rest : Progress → Option (Result ℕ) × Progress)
      → (proceed pipeline stamps r rest).0 ≡ some (ok 0)
      → (r.0 ≡ ok (leave 0)) ⊎ ((r.0 ≡ ok go_on) × ((rest r.1).0 ≡ some (ok 0)))
  unfolding proceed
  proceed-success (ok go_on, p) rest h = inr (refl, h)
  proceed-success (ok (leave code), p) rest h = inl (ground arith)
  proceed-success (err e, p) rest h = absurd (cc)

  -- A loop that ends with success has, in the turn that ends it, met a usable frame with an accepted
  -- face, and stamps that let it pass.
  pub run_loop-success :
      (turns : List (Turn Frame)) (p : Progress)
      → (run_loop pipeline stamps turns p).0 ≡ some (ok 0)
      → (i : ℕ) × (t : Turn Frame) × (get_elem? turns i ≡ some t) × IsWinning pipeline stamps t
  unfolding run_loop
  run_loop-success [] p h = absurd (cc)
  run_loop-success (t ∷ ts) p h =
      elim (proceed-success (turn pipeline stamps t p) (run_loop pipeline stamps ts) h) [
        | inl now ↦ (0, t, refl, turn-IsWinning t p now)
        | inr (_, then_on) ↦
            let (i, t', at_i, won) = run_loop-success ts (turn pipeline stamps t p).1 then_on in
            (suc i, t', at_i, won)
      ]
