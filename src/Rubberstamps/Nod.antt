-- ===== src/Rubberstamps/Nod.antt =====
-- secureEye/src/rubberstamps/nod.py: a nod confirms and a shake of the head aborts. The frames that are
-- met before the timeout are a list; a frame with another number of faces than one is `none` in it. The
-- movement over the eye distance is compared exactly, over whole numbers.
pub mod Still
use secure_eye.Prelude.{
  ℕ, Bool, true, false, not, ◌||◌, Option, none, some, List, [], ◌∷◌, leb, if◌then◌else◌, length,
}
use secure_eye.Prelude.Int.{
  ℤ, pos, negsuc, pos_part, neg_part, sub_ℕ, ◌+ℤ◌, scale_ℤ, ltb_ℤ, eqb_ℤ, max_ℤ,
}
use secure_eye.Python.{Result, err, ok}

-- What the landmarks of the only face say: the eye distance and the place of the nose.
pub record Landmarks : Type 0 where
  pub reldist : ℤ
  pub nose_x : ℤ
  pub nose_y : ℤ

-- `self.options`
pub record NodOptions : Type 0 where
  pub min_distance : ℤ
  pub min_directions : ℕ
  pub failsafe : Bool

-- One axis: the last place of the nose, and the recorded movements, the latest first (`true` is one to
-- smaller numbers).
pub record Axis : Type 0 where
  pub last_nose : ℤ
  pub nods : List Bool

pub record NodState : Type 0 where
  pub last_reldist : ℤ
  pub axis_x : Axis
  pub axis_y : Axis

abbrev unmoved : Axis
unmoved = record { last_nose = negsuc 0; nods = [] }

abbrev pub not_nodded : NodState
not_nodded = record { last_reldist = negsuc 0; axis_x = unmoved; axis_y = unmoved }

abbrev minus : ℤ → ℤ → ℤ
minus a b = a +ℤ sub_ℕ (neg_part b) (pos_part b)

-- `movement < -mindist or movement > mindist`, where the movement is `distance * 100` over half the
-- sum of the eye distances, or over 1 if that is more: both sides times that and times 2.
is_far : ℤ → ℤ → ℤ → Bool
is_far mindist distance reldists =
    let span = pos_part (max_ℤ reldists (pos 2)) in
    ltb_ℤ (scale_ℤ 200 distance) (minus (pos 0) (scale_ℤ span mindist))
    || ltb_ℤ (scale_ℤ span mindist) (scale_ℤ 200 distance)

-- `recorded_nods[axis].append(movement < 0)`, if the last one was the other way.
record_nod : Bool → List Bool → List Bool
record_nod back [] = back ∷ []
record_nod true (true ∷ rest) = true ∷ rest
record_nod false (false ∷ rest) = false ∷ rest
record_nod back (last ∷ rest) = back ∷ last ∷ rest

note_movement : NodOptions → ℤ → ℤ → List Bool → List Bool
unfolding is_far record_nod
note_movement options distance reldists recorded =
    if is_far options.min_distance distance reldists
    then record_nod (ltb_ℤ distance (pos 0)) recorded
    else recorded

-- One turn of `for axis in ["x", "y"]`, up to the test for enough nods.
move_axis : NodOptions → ℤ → ℤ → Axis → Axis
unfolding note_movement
move_axis options reldists nose a =
    let before = if eqb_ℤ a.last_nose (negsuc 0) then nose else a.last_nose in
    record { last_nose = nose; nods = note_movement options (minus nose before) reldists a.nods }

has_enough : NodOptions → Axis → Bool
has_enough options a = leb options.min_directions (length a.nods)

-- The tests for enough nods on the axes, with these as they are by then.
judge_axes : NodOptions → ℤ → Axis → Axis → NodState → Option Bool × NodState
unfolding has_enough
judge_axes options reldist x y s =
    if has_enough options x
    then (some false, record s { axis_x = x })
    else if has_enough options y
    then (some true, record { last_reldist = reldist; axis_x = x; axis_y = y })
    else (none, record { last_reldist = reldist; axis_x = x; axis_y = y })

-- The turn of the loop for a frame with one face: the answer, if there is one.
see_face : NodOptions → Landmarks → NodState → Option Bool × NodState
unfolding move_axis judge_axes
see_face options l s =
    let reldists = s.last_reldist +ℤ l.reldist in
    judge_axes options l.reldist (move_axis options reldists l.nose_x s.axis_x)
      (move_axis options reldists l.nose_y s.axis_y) s

nod_turn : NodOptions → Option Landmarks → NodState → Option Bool × NodState
unfolding see_face
nod_turn options none s = (none, s)
nod_turn options (some l) s = see_face options l s

answer_or : Option Bool × NodState → (NodState → Result Bool × NodState) → Result Bool × NodState
answer_or (some b, s) rest = (ok b, s)
answer_or (none, s) rest = rest s

-- `nod.run` from the start of the loop; what reading a frame raises leaves it.
unfoldable pub run_nod :
    NodOptions → List (Result (Option Landmarks)) → NodState → Result Bool × NodState
unfolding nod_turn answer_or
run_nod options [] s = (ok (not options.failsafe), s)
run_nod options (err e ∷ frames) s = (err e, s)
run_nod options (ok seen ∷ frames) s = answer_or (nod_turn options seen s) (run_nod options frames)
