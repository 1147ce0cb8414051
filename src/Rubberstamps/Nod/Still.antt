-- ===== src/Rubberstamps/Nod/Still.antt =====
-- secureEye/src/rubberstamps/nod.py: a head that does not move.
use secure_eye.Prelude.{
  ℕ, ◌≤◌, ◌≡◌, refl, sym, ap, ◌∙◌, ◌≢◌, ◌⊎◌, inl, inr, Bool, true, false, Option, none, some, List,
  [], ◌∷◌, arith, leb, if◌then◌else◌, leb→le, if_elim, if_true, if_false, length, All,
}
use secure_eye.Prelude.Int.{ℤ, pos, negsuc, ◌+ℤ◌, eqb_ℤ}
use secure_eye.Python.{Result, err, ok}
use secure_eye.Rubberstamps.Nod.{
  Landmarks, NodOptions, Axis, NodState, not_nodded, run_nod, minus, is_far, note_movement,
  move_axis, has_enough, judge_axes, see_face, nod_turn, answer_or,
}

minus_self : (a : ℤ) → minus a a ≡ pos 0
minus_self (pos n) = ground arith
minus_self (negsuc n) = ground arith

-- No distance is not far.
is_far_none : (k : ℕ) (reldists : ℤ) → is_far (pos k) (pos 0) reldists ≡ false
unfolding is_far
is_far_none k reldists = ground arith

-- No vertical movement was recorded, and the nose was last seen at this height, if at all.
pub record IsStill (height : ℤ) (s : NodState) : Type 0 where
  pub no_nods : s.axis_y.nods ≡ []
  pub last_seen : (s.axis_y.last_nose ≡ negsuc 0) ⊎ (s.axis_y.last_nose ≡ height)

-- The nose is at this height, where the frame shows one face.
abbrev pub IsLevel : ℤ → Result (Option Landmarks) → Type 0
IsLevel height (err e) = Unit
IsLevel height (ok none) = Unit
IsLevel height (ok (some l)) = l.nose_y ≡ height

module _ (options : NodOptions) (k : ℕ) (dist : options.min_distance ≡ pos k)
    (asks : 1 ≤ options.min_directions) (height : ℤ) where
  move_axis-still :
      (reldists : ℤ) (a : Axis)
      → a.nods ≡ []
      → (a.last_nose ≡ negsuc 0) ⊎ (a.last_nose ≡ height)
      → (move_axis options reldists height a).nods ≡ []
  unfolding move_axis note_movement
  move_axis-still reldists a none_yet last_seen =
      let before = if eqb_ℤ a.last_nose (negsuc 0) then height else a.last_nose in
      let same : before ≡ height = elim last_seen [
        | inl unseen ↦ if_true _ (ap (λ n. eqb_ℤ n (negsuc 0)) unseen)
        | inr there ↦
            if_elim (λ (z : ℤ). z ≡ height) (eqb_ℤ a.last_nose (negsuc 0)) (λ _. refl) λ _. there
      ] in
      let near : is_far options.min_distance (minus height before) reldists ≡ false =
        ap (λ m. is_far m (minus height before) reldists) dist
        ∙ ap (λ d. is_far (pos k) d reldists) (ap (minus height) same ∙ minus_self height)
        ∙ is_far_none k reldists in
      if_false _ near ∙ none_yet

  few : (a : Axis) → a.nods ≡ [] → has_enough options a ≡ true → ⊥
  unfolding has_enough
  few a none_yet enough =
      let empty : leb options.min_directions 0 ≡ true =
        ap (λ (l : List Bool). leb options.min_directions (length l)) (sym none_yet) ∙ enough in
      omega (arith, asks, leb→le _ _ empty)

  judge_axes-IsStill :
      (reldist : ℤ) (x y : Axis) (s : NodState)
      → IsStill height s
      → y.nods ≡ []
      → y.last_nose ≡ height
      → ((judge_axes options reldist x y s).0 ≢ some true)
        × IsStill height (judge_axes options reldist x y s).1
  unfolding judge_axes
  judge_axes-IsStill reldist x y s still none_yet at =
      if_elim (λ (q : Option Bool × NodState). (q.0 ≢ some true) × IsStill height q.1)
        (has_enough options x)
        (λ _. (λ e. cc, record { no_nods = still.no_nods; last_seen = still.last_seen }))
        λ _.
          if_elim (λ (q : Option Bool × NodState). (q.0 ≢ some true) × IsStill height q.1)
            (has_enough options y) (λ enough. absurd (few y none_yet enough))
            λ _. (λ e. cc, record { no_nods = none_yet; last_seen = inr at })

  see_face-IsStill :
      (l : Landmarks) (s : NodState)
      → l.nose_y ≡ height
      → IsStill height s
      → ((see_face options l s).0 ≢ some true) × IsStill height (see_face options l s).1
  unfolding see_face move_axis
  see_face-IsStill l s at still =
      let reldists = s.last_reldist +ℤ l.reldist in
      judge_axes-IsStill l.reldist (move_axis options reldists l.nose_x s.axis_x)
        (move_axis options reldists l.nose_y s.axis_y) s still
        (ap (λ n. (move_axis options reldists n s.axis_y).nods) at
          ∙ move_axis-still reldists s.axis_y still.no_nods still.last_seen)
        at

  answer_or-still :
      (q : Option Bool × NodState) (rest : NodState → Result Bool × NodState)
      → q.0 ≢ some true
      → IsStill height q.1
      → ((s : NodState) → IsStill height s → (rest s).0 ≢ ok true)
      → (answer_or q rest).0 ≢ ok true
  unfolding answer_or
  answer_or-still (none, s) rest no_yes still then_on = then_on s still
  answer_or-still (some true, s) rest no_yes still then_on = absurd (no_yes refl)
  answer_or-still (some false, s) rest no_yes still then_on = λ e. cc

  run_from-still :
      (frames : List (Result (Option Landmarks))) (s : NodState)
      → options.failsafe ≡ true
      → IsStill height s
      → All (IsLevel height) frames
      → (run_nod options frames s).0 ≢ ok true
  unfolding run_nod nod_turn
  run_from-still [] s safe still level = λ e. cc (e, safe)
  run_from-still (err e₁ ∷ frames) s safe still level = λ e. cc
  run_from-still (ok none ∷ frames) s safe still (_, level) =
      answer_or-still (none, s) (run_nod options frames) (λ e. cc) still
        (λ s₁ h. run_from-still frames s₁ safe h level)
  run_from-still (ok (some l) ∷ frames) s safe still (at, level) =
      let (no_yes, later) = see_face-IsStill l s at still in
      answer_or-still (see_face options l s) (run_nod options frames) no_yes later
        (λ s₁ h. run_from-still frames s₁ safe h level)

-- With `failsafe`, at least one movement asked for and a `min_distance` that is not negative, the stamp
-- does not confirm when the nose is at the same height in all frames with one face, however it moves
-- from side to side and however many frames there are.
pub run_nod-still :
    (options : NodOptions) (k : ℕ) (height : ℤ) (frames : List (Result (Option Landmarks)))
    → options.min_distance ≡ pos k
    → 1 ≤ options.min_directions
    → options.failsafe ≡ true
    → All (IsLevel height) frames
    → (run_nod options frames not_nodded).0 ≢ ok true
run_nod-still options k height frames dist asks safe level =
    run_from-still options k dist asks height frames not_nodded safe
      (record { no_nods = refl; last_seen = inl refl }) level
