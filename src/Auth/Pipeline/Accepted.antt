-- ===== src/Auth/Pipeline/Accepted.antt =====
-- What an accepted face means.
use secure_eye.Prelude.{
  ℕ, ◌≡◌, sym, ap, ◌∙◌, ◌≢◌, inl, inr, Bool, true, false, Option, none, some, List, arith,
  Bool-cases, get_elem?, All,
}
use secure_eye.Prelude.Int.{ℤ, pos}
use secure_eye.Python.{Result, ok, ◌>>=◌, Float, dyadic, lt_float, >>=-eq-ok, ok-injective}
use secure_eye.Auth.Pipeline.{
  Numerics, best_match, is_match, Bundle, FaceMatch, Pipeline, match_face, distance_at,
  check_liveness, measure, compare_face,
}
use secure_eye.Auth.Template.{Row}

-- What the documentation of `np.argmin` promises of a row of numbers.
unfoldable pub IsLeast : (List Float → Result ℕ) → Type 0
IsLeast argmin =
    (ds : List Float) (i : ℕ) (d : Float)
    → argmin ds ≡ ok i
    → get_elem? ds i ≡ some d
    → All (λ x. lt_float x d ≡ false) ds

-- The bundle's liveness stage, where it has one, let an accepted face pass, and it is nearer than the threshold, but not
-- at distance 0, to a row that no row is nearer than.
pub record IsAccepted {Frame Face : Type 0} (p : Pipeline Frame Face) (picture : Frame)
    (face : Face) (m : FaceMatch) : Type 0 where
  pub checked_live :
      (check : Frame → Face → Result Bool)
      → p.bundle.liveness ≡ some check
      → (check picture face ≡ ok true) × (m.live ≡ some true)
  pub encoding : Row
  pub distances : List Float
  pub index : ℕ
  pub embedded : p.bundle.embed picture face ≡ ok encoding
  pub measured : p.numerics.norms p.templates.matrix_rows encoding ≡ ok distances
  pub at_row : m.row ≡ pos index
  pub found : get_elem? distances index ≡ some m.distance
  pub nearest : All (λ x. lt_float x m.distance ≡ false) distances
  pub close : lt_float m.distance p.threshold ≡ true
  pub apart : lt_float (dyadic (pos 0) (pos 0)) m.distance ≡ true

distance_at-ok :
    (o : Option Float) (i : ℕ) (r : ℤ × Float)
    → distance_at o i ≡ ok r
    → (o ≡ some r.1) × (r.0 ≡ pos i)
unfolding distance_at
distance_at-ok none i r h = absurd (cc)
distance_at-ok (some d) i r h =
    let e : (pos i, d) ≡ r = ok-injective h in (ap (λ q. some q.1) e, ap (λ q. q.0) (sym e))

best_match-ok :
    (np : Numerics) (known : List Row) (v : Row) (r : ℤ × Float)
    → best_match np known v ≡ ok r
    → (ds : List Float) × (i : ℕ) × (np.norms known v ≡ ok ds)
      × (np.argmin ds ≡ ok i)
      × (get_elem? ds i ≡ some r.1)
      × (r.0 ≡ pos i)
unfolding best_match
best_match-ok np known v r h =
    let (ds, normed, h1) = >>=-eq-ok (np.norms known v) _ h in
    let (i, least, h2) = >>=-eq-ok (np.argmin ds) _ h1 in
    let (found, at_row) = distance_at-ok (get_elem? ds i) i r h2 in
    (ds, i, normed, least, found, at_row)

is_match-between :
    (d threshold : Float)
    → is_match d threshold ≡ true
    → (lt_float (dyadic (pos 0) (pos 0)) d ≡ true) × (lt_float d threshold ≡ true)
unfolding is_match
is_match-between d threshold h = (ground arith, ground arith)

module _ {Frame Face : Type 0} where
  -- The stage ran and let the face pass, where the bundle has one.
  check_liveness-ok :
      (b : Bundle Frame Face) (picture : Frame) (face : Face) (live : Option Bool)
      → check_liveness b picture face ≡ ok live
      → live ≢ some false
      → (check : Frame → Face → Result Bool) → b.liveness ≡ some check
      → (check picture face ≡ ok true) × (live ≡ some true)
  unfolding check_liveness
  check_liveness-ok b picture face live h passed check same =
      let ran : (check picture face >>= λ p. ok (some p)) ≡ ok live =
        sym (
          ap
            (λ (o : Option (Frame → Face → Result Bool)). elim o [
              | none ↦ ok none
              | some stage ↦ stage picture face >>= λ p. ok (some p)
            ])
            same)
        ∙ h in
      let (p, checked, made) = >>=-eq-ok (check picture face) _ ran in
      elim (Bool-cases p) [
        | inl passes ↦ (checked ∙ ap ok passes, sym (ok-injective made) ∙ ap some passes)
        | inr fails ↦ absurd (passed (sym (ok-injective made) ∙ ap some fails))
      ]

  measure-IsAccepted :
      (p : Pipeline Frame Face) (picture : Frame) (face : Face) (live : Option Bool) (m : FaceMatch)
      → IsLeast p.numerics.argmin
      → check_liveness p.bundle picture face ≡ ok live
      → live ≢ some false
      → measure p picture face live ≡ ok m
      → m.accepted ≡ true
      → IsAccepted p picture face m
  unfolding measure IsLeast
  measure-IsAccepted p picture face live m least ran checked h acc =
      let (v, embedded, h1) = >>=-eq-ok (p.bundle.embed picture face) _ h in
      let (r, matched, h2) = >>=-eq-ok (best_match p.numerics p.templates.matrix_rows v) _ h1 in
      let (ds, i, normed, at_least, found, at_row) =
        best_match-ok p.numerics p.templates.matrix_rows v r matched in
      let same_row : r.0 ≡ m.row = cc in
      let same : r.1 ≡ m.distance = cc in
      let same_live : live ≡ m.live = cc in
      let found' : get_elem? ds i ≡ some m.distance = found ∙ ap some same in
      let in_range : is_match m.distance p.threshold ≡ true = cc in
      let (apart, close) = is_match-between m.distance p.threshold in_range in
      record {
        checked_live = λ check stage.
            let (passed, told) =
              check_liveness-ok p.bundle picture face live ran checked check stage in
            (passed, sym same_live ∙ told);
        encoding = v;
        distances = ds;
        index = i;
        embedded = embedded;
        measured = normed;
        at_row = sym same_row ∙ at_row;
        found = found';
        nearest = least ds i m.distance at_least found';
        close = close;
        apart = apart;
      }

  compare_face-IsAccepted :
      (p : Pipeline Frame Face) (picture : Frame) (face : Face) (live : Option Bool) (m : FaceMatch)
      → IsLeast p.numerics.argmin
      → check_liveness p.bundle picture face ≡ ok live
      → compare_face p picture face live ≡ ok m
      → m.accepted ≡ true
      → IsAccepted p picture face m
  unfolding compare_face
  compare_face-IsAccepted p picture face (some false) m least ran h acc = absurd (cc)
  compare_face-IsAccepted p picture face (some true) m least ran h acc =
      measure-IsAccepted p picture face (some true) m least ran (λ e. cc) h acc
  compare_face-IsAccepted p picture face none m least ran h acc =
      measure-IsAccepted p picture face none m least ran (λ e. cc) h acc

  -- Where the bundle has a liveness stage, it returned `True` for the picture and an accepted face.
  -- The face lies nearer than the threshold, but not at distance 0, to a row of the user's matrix
  -- that no other row is nearer than, provided that `argmin` finds a least number.
  pub match_face-IsAccepted :
      (p : Pipeline Frame Face) (picture : Frame) (face : Face) (m : FaceMatch)
      → IsLeast p.numerics.argmin
      → match_face p picture face ≡ ok m
      → m.accepted ≡ true
      → IsAccepted p picture face m
  unfolding match_face
  match_face-IsAccepted p picture face m least h acc =
      let (live, checked, h1) = >>=-eq-ok (check_liveness p.bundle picture face) _ h in
      compare_face-IsAccepted p picture face live m least checked h1 acc
