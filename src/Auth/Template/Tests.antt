-- ===== src/Auth/Template/Tests.antt =====
-- Templates of two spaces, and the theorems at these.
use secure_eye.Prelude.{◌≡◌, refl, none, List, [], ◌∷◌, arith, All}
use secure_eye.Prelude.Int.{pos, negsuc}
use secure_eye.Python.{
  type_error, value_error, Result, err, ok, Float, dyadic, float, arr, Items, nil, cons,
}
use secure_eye.Auth.Template.{
  Template, Array, vector, Numpy, all_finite, row_value, TemplateSet, stack,
}
use secure_eye.Auth.Template.RoundTrip.{IsStorable}

abbrev pub one_half : Float
one_half = dyadic (pos 1) (negsuc 0)

-- Reads a list of numbers as NumPy does, and no other value.
row_of : Items → Result Array
row_of nil = ok (vector [])
row_of (cons (float x) items) = elim (row_of items) [
  | ok (vector row) ↦ ok (vector (x ∷ row))
  | ok other ↦ ok other
  | err e ↦ err e
]
row_of _ = err value_error

unfoldable pub numpy : Numpy
unfolding row_of
numpy = record {
  as_array = λ v. elim v [ arr items ↦ row_of items | _ ↦ err type_error ];
  builtins = record { repr = λ _. "?"; int_of_text = λ _. none };
}

abbrev pub first : Template
first = record {
  id = pos 0;
  label = "glasses";
  created = pos 100;
  model_id = "dlib-resnet-v1";
  embeddings = (one_half ∷ one_half ∷ []) ∷ (one_half ∷ one_half ∷ []) ∷ [];
}

abbrev pub second : Template
second = record {
  id = pos 4;
  label = "";
  created = pos 200;
  model_id = "dlib-resnet-v1";
  embeddings = (one_half ∷ one_half ∷ []) ∷ [];
}

abbrev pub both : List Template
both = first ∷ second ∷ []

abbrev set_of_both : TemplateSet
set_of_both = record {
  model_id = "dlib-resnet-v1";
  templates = both;
  matrix_rows =
      (one_half ∷ one_half ∷ []) ∷ (one_half ∷ one_half ∷ []) ∷ (one_half ∷ one_half ∷ []) ∷ [];
  owners = 0 ∷ 0 ∷ 1 ∷ [];
}

pub both-IsStorable : All (IsStorable numpy) both
unfolding numpy all_finite row_value
both-IsStorable = (
  record {
    rows = (
      record { long = refl; wide = omega arith; finite = refl; exact = refl },
      (record { long = refl; wide = omega arith; finite = refl; exact = refl }, tt),
    );
    some_row = omega arith;
    named = refl;
  },
  (
    record {
      rows = (record { long = refl; wide = omega arith; finite = refl; exact = refl }, tt);
      some_row = omega arith;
      named = refl;
    },
    tt,
  ),
)

stacked : stack "dlib-resnet-v1" both ≡ ok set_of_both
unfolding stack
stacked = refl
