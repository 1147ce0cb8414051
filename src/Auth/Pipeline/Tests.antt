-- ===== src/Auth/Pipeline/Tests.antt =====
-- A pipeline that takes the first number of an encoding for its distance.
use secure_eye.Prelude.{
  ℕ, zero, suc, ◌≡◌, refl, sym, subst, true, false, some, List, [], ◌∷◌, map, arith, get_or,
}
use secure_eye.Prelude.Int.{pos, negsuc}
use secure_eye.Python.{value_error, Result, err, ok, Float, dyadic, infinite, nan, lt_float}
use secure_eye.Auth.Pipeline.{
  Numerics, best_match, is_match, Bundle, FaceMatch, Pipeline, match_face,
}
use secure_eye.Auth.Pipeline.Accepted.{IsLeast, IsAccepted, match_face-IsAccepted}
use secure_eye.Auth.Template.{TemplateSet}

abbrev threshold : Float
threshold = dyadic (pos 7) (negsuc 1)

unfoldable pub sole : List Float → Result ℕ
sole (d ∷ []) = ok 0
sole _ = err value_error

lt_float-irreflexive : (d : Float) → lt_float d d ≡ false
unfolding lt_float
lt_float-irreflexive (dyadic m e) = ground arith
lt_float-irreflexive (infinite true) = refl
lt_float-irreflexive (infinite false) = refl
lt_float-irreflexive nan = refl

some-injective : {a b : Float} → some a ≡ some b → a ≡ b
some-injective h = cc

pub sole-IsLeast : IsLeast sole
unfolding sole IsLeast
sole-IsLeast [] i d h k = absurd (cc)
sole-IsLeast (x ∷ []) zero d h k =
    (subst (λ z. lt_float z d ≡ false) (some-injective (sym k)) (lt_float-irreflexive d), tt)
sole-IsLeast (x ∷ []) (suc i) d h k = absurd (cc)
sole-IsLeast (x ∷ y ∷ ds) i d h k = absurd (cc)

abbrev pub plain : Numerics
plain = record { norms = λ known v. ok (map (λ row. get_or v 0 nan) known); argmin = sole }

abbrev pub one_face : Bundle ℕ ℕ
one_face = record {
  space = "dlib-resnet-v1";
  detect = λ picture. ok (0 ∷ []);
  liveness = some (λ picture face. ok true);
  embed = λ picture face. ok (dyadic (pos 1) (pos 0) ∷ []);
  legacy = true;
}

abbrev pub enrolled_face : TemplateSet
enrolled_face = record {
  model_id = "dlib-resnet-v1";
  templates = [];
  matrix_rows = (dyadic (pos 2) (pos 0) ∷ []) ∷ [];
  owners = 0 ∷ [];
}

abbrev pub matcher : Pipeline ℕ ℕ
matcher = record {
  bundle = one_face;
  templates = enrolled_face;
  threshold = threshold;
  numerics = plain;
}

abbrev winner : FaceMatch
winner = record {
  row = pos 0;
  distance = dyadic (pos 1) (pos 0);
  accepted = true;
  live = some true;
}

match_face-IsAccepted_example : IsAccepted matcher 5 0 winner
unfolding match_face sole best_match is_match lt_float
match_face-IsAccepted_example = match_face-IsAccepted matcher 5 0 winner sole-IsLeast refl refl
