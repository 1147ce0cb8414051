-- ===== src/Auth/Session/Statistics.antt =====
-- The counts that a session keeps, and that it ends.
use secure_eye.Prelude.{
  ℕ, zero, suc, ◌+◌, ◌≤◌, ◌<◌, ◌≡◌, refl, ap, ◌∙◌, inl, inr, Bool, true, ◌||◌, Option, none, some,
  List, [], ◌∷◌, arith, is_some, Bool-cases, if_elim, if_true, if_false, get_elem?,
}
use secure_eye.Python.{Result, err, ok, and_then, and_then-keeps}
use secure_eye.Auth.Capture.{FrameState, black, dark, no_face, multiple, face, match, Captured}
use secure_eye.Auth.Pipeline.{Pipeline}
use secure_eye.Auth.Session.{
  timeout_reached, exit_value, RuntimeStats, Turn, Progress, Stamps, Next, go_on, leave, scan_faces,
  turn, run_loop, report, count_frame, count_valid, finish, keep_state, scan_frame, handle_frame,
  late_code, read_and_handle, looked, counted, proceed,
}

-- Each frame is counted once, as black or as valid, and the dark ones are among the valid ones.
pub record IsCounted (st : RuntimeStats) : Type 0 where
  pub parts : st.valid_frames + st.black_tries ≤ st.frames
  pub dark_within : st.dark_tries ≤ st.valid_frames

module _ {Frame Face : Type 0} (pipeline : Pipeline Frame Face) (stamps : Stamps) where
  -- A frame has been counted that is neither valid nor black yet.
  record IsOpen (st : RuntimeStats) : Type 0 where
    room : st.valid_frames + st.black_tries < st.frames
    dark_fits : st.dark_tries ≤ st.valid_frames

  valid : (p : Progress) → IsOpen p.stats → IsCounted (count_valid p.stats)
  valid p v = record { parts = omega (arith, v.room); dark_within = omega (arith, v.dark_fits) }

  scan_frame-IsCounted :
      (raises : Bool) (c : Captured Frame) (p : Progress)
      → IsCounted p.stats
      → IsCounted (scan_frame pipeline stamps raises c p).1.stats
  unfolding scan_frame finish keep_state report
  scan_frame-IsCounted raises c p v =
      and_then-keeps (λ q. IsCounted q.stats)
        (keep_state pipeline stamps (pipeline.bundle.detect c.gray) p) _ v
        λ faces p1 v1.
          and_then-keeps (λ q. IsCounted q.stats)
            (keep_state pipeline stamps
              (scan_faces pipeline stamps c.frame faces p1.stats.lowest_certainty) p1)
            _ v1 λ r p2 v2. record { parts = v2.parts; dark_within = v2.dark_within }

  handle_frame-IsCounted :
      (raises : Bool) (c : Captured Frame) (state : Option FrameState) (p : Progress)
      → IsOpen p.stats
      → IsCounted (handle_frame pipeline stamps raises c state p).1.stats
  unfolding handle_frame report
  handle_frame-IsCounted raises c (some black) p v = record {
    parts = omega (arith, v.room);
    dark_within = v.dark_fits;
  }
  handle_frame-IsCounted raises c (some dark) p v = record {
    parts = omega (arith, v.room);
    dark_within = omega (arith, v.dark_fits);
  }
  handle_frame-IsCounted raises c (some no_face) p v =
      scan_frame-IsCounted raises c (record p { stats = count_valid p.stats }) (valid p v)
  handle_frame-IsCounted raises c (some multiple) p v =
      scan_frame-IsCounted raises c (record p { stats = count_valid p.stats }) (valid p v)
  handle_frame-IsCounted raises c (some face) p v =
      scan_frame-IsCounted raises c (record p { stats = count_valid p.stats }) (valid p v)
  handle_frame-IsCounted raises c (some match) p v =
      scan_frame-IsCounted raises c (record p { stats = count_valid p.stats }) (valid p v)
  handle_frame-IsCounted raises c none p v =
      scan_frame-IsCounted raises c (record p { stats = count_valid p.stats }) (valid p v)

  open-IsCounted : (p : Progress) → IsOpen p.stats → IsCounted p.stats
  open-IsCounted p v = record { parts = omega (arith, v.room); dark_within = v.dark_fits }

  counted-IsCounted :
      (t : Turn Frame) (p : Progress)
      → IsCounted p.stats
      → IsCounted (counted pipeline stamps t p).stats
  unfolding counted
  counted-IsCounted t p v = record { parts = omega (arith, v.parts); dark_within = v.dark_within }

  handle_reading-IsCounted :
      (raises : Bool) (r : Result (Captured Frame)) (p : Progress)
      → IsOpen p.stats
      → IsCounted
          (and_then
            (keep_state pipeline stamps r p)
            (λ c p1. handle_frame pipeline stamps raises c c.state p1)).1.stats
  unfolding keep_state
  handle_reading-IsCounted raises (ok c) p v = handle_frame-IsCounted raises c c.state p v
  handle_reading-IsCounted raises (err e) p v = open-IsCounted p v

  turn-IsCounted :
      (t : Turn Frame) (p : Progress)
      → IsCounted p.stats
      → IsCounted (turn pipeline stamps t p).1.stats
  unfolding turn counted looked read_and_handle
  turn-IsCounted t p v =
      if_elim {A = Result Next × Progress} (λ q. IsCounted q.1.stats) (p.cancel_set || t.cancelled)
        (λ _. record { parts = v.parts; dark_within = v.dark_within })
        λ _.
          if_elim {A = Result Next × Progress} (λ q. IsCounted q.1.stats) t.late
            (λ _. counted-IsCounted t p v)
            λ _.
              handle_reading-IsCounted t.observer_raises t.reading (counted pipeline stamps t p)
                (record { room = omega (arith, v.parts); dark_fits = v.dark_within })

  proceed-keeps :
      (P : Progress → Type 0) (r : Result Next × Progress)
      (rest : Progress → Option (Result ℕ) × Progress)
      → P r.1
      → ((p : Progress) → P p → P (rest p).1)
      → P (proceed pipeline stamps r rest).1
  unfolding proceed
  proceed-keeps P (ok go_on, p) rest v keeps = keeps p v
  proceed-keeps P (ok (leave code), p) rest v keeps = v
  proceed-keeps P (err e, p) rest v keeps = v

  -- However the loop ends, the valid and the black frames are at most the frames counted, and the
  -- dark ones at most the valid ones.
  pub run_loop-IsCounted :
      (turns : List (Turn Frame)) (p : Progress)
      → IsCounted p.stats
      → IsCounted (run_loop pipeline stamps turns p).1.stats
  unfolding run_loop
  run_loop-IsCounted [] p v = v
  run_loop-IsCounted (t ∷ ts) p v =
      proceed-keeps (λ q. IsCounted q.stats) (turn pipeline stamps t p)
        (run_loop pipeline stamps ts) (turn-IsCounted t p v) λ q w. run_loop-IsCounted ts q w

  proceed-ends :
      (r : Result Next × Progress) (rest : Progress → Option (Result ℕ) × Progress)
      → ((p : Progress) → is_some (rest p).0 ≡ true)
      → is_some (proceed pipeline stamps r rest).0 ≡ true
  unfolding proceed
  proceed-ends (ok go_on, p) rest h = h p
  proceed-ends (ok (leave code), p) rest h = refl
  proceed-ends (err e, p) rest h = refl

  leaves-ends :
      (r : Result Next × Progress) (rest : Progress → Option (Result ℕ) × Progress) (code : ℕ)
      → r.0 ≡ ok (leave code)
      → is_some (proceed pipeline stamps r rest).0 ≡ true
  unfolding proceed
  leaves-ends (ok go_on, p) rest code h = absurd (cc)
  leaves-ends (ok (leave c), p) rest code h = refl
  leaves-ends (err e, p) rest code h = refl

  turn-leaves :
      (t : Turn Frame) (p : Progress)
      → (t.late || t.cancelled) ≡ true
      → (code : ℕ) × ((turn pipeline stamps t p).0 ≡ ok (leave code))
  unfolding turn
  turn-leaves t p h = elim (Bool-cases (p.cancel_set || t.cancelled)) [
    | inl stop ↦
        (exit_value timeout_reached, ap (λ (q : Result Next × Progress). q.0) (if_true _ stop))
    | inr run_on ↦ (
      late_code pipeline stamps (count_frame p.stats),
      ap (λ (q : Result Next × Progress). q.0)
          (if_false _ run_on ∙ if_true {b = t.late} _ (ground arith)),
    )
  ]

  -- The loop ends at the latest in the first turn that finds the time over or the session
  -- cancelled.
  pub run_loop-ends :
      (turns : List (Turn Frame)) (p : Progress) (i : ℕ) (t : Turn Frame)
      → get_elem? turns i ≡ some t
      → (t.late || t.cancelled) ≡ true
      → is_some (run_loop pipeline stamps turns p).0 ≡ true
  unfolding run_loop
  run_loop-ends [] p i t h k = absurd (cc)
  run_loop-ends (t' ∷ ts) p zero t h k =
      let same : t' ≡ t = cc in
      let (code, left) = turn-leaves t' p (rw same k) in
      leaves-ends (turn pipeline stamps t' p) (run_loop pipeline stamps ts) code left
  run_loop-ends (t' ∷ ts) p (suc i) t h k =
      proceed-ends (turn pipeline stamps t' p) (run_loop pipeline stamps ts)
        λ q. run_loop-ends ts q i t h k
