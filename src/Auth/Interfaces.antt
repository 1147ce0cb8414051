-- ===== src/Auth/Interfaces.antt =====
-- secureEye/src/auth/interfaces.py: faces and embeddings, and the checks that building one makes. NumPy
-- is a parameter; of an array the code reads the shape and the values.
use secure_eye.Prelude.{
  ℕ, String, ◌≡◌, refl, ap, subst, Bool, true, false, not, List, [], ◌∷◌, arith, str_eq, ltb, ◌==◌,
}
use secure_eye.Prelude.Int.{ℤ, pos}
use secure_eye.Python.{
  value_error, index_error, Result, err, ok, ◌>>=◌, ◌>>◌, require, Float, dyadic, eq_float,
  >>=-eq-ok, require-true, ok-injective,
}

-- A NumPy array.
pub record NdArray : Type 0 where
  pub shape : List ℕ
  pub values : List Float

-- `Face`, its box `(x, y, width, height)` in pixels.
pub record Face : Type 0 where
  pub bbox : ℤ × ℤ × ℤ × ℤ
  pub landmarks : NdArray
  pub score : Float

-- `Embedding`
pub record Embedding : Type 0 where
  pub vector : NdArray
  pub model_id : String
  pub dim : ℕ

-- `_no_landmarks`
abbrev pub no_landmarks : NdArray
no_landmarks = record { shape = 0 ∷ 2 ∷ []; values = [] }

-- The shape is (N, 2).
abbrev pub is_points : List ℕ → Bool
is_points (n ∷ m ∷ []) = m == 2
is_points _ = false

-- `Face(...)` with its `__post_init__`
unfoldable pub new_face : ℤ × ℤ × ℤ × ℤ → NdArray → Float → Result Face
new_face bbox landmarks score =
    require (is_points landmarks.shape) value_error
    >> ok (record { bbox = bbox; landmarks = landmarks; score = score })

-- `has_landmarks`
abbrev pub has_landmarks : Face → Bool
has_landmarks f = elim f.landmarks.shape [ [] ↦ false | n ∷ rest ↦ ltb 0 n ]

abbrev pub is_vector_of : ℕ → List ℕ → Bool
is_vector_of dim (n ∷ []) = n == dim
is_vector_of dim _ = false

-- `Embedding(...)` with its `__post_init__`
unfoldable pub new_embedding : NdArray → String → ℕ → Result Embedding
new_embedding vector model_id dim =
    require (is_vector_of dim vector.shape) value_error
    >> ok (record { vector = vector; model_id = model_id; dim = dim })

-- `ravel`, the norm of a vector, its quotient by a number, and the clipped product of two vectors.
pub record VectorMath : Type 0 where
  pub ravel : NdArray → NdArray
  pub norm : NdArray → Float
  pub divide : NdArray → Float → NdArray
  pub dot : NdArray → NdArray → Result Float

module _ (np : VectorMath) where
  first_size : List ℕ → Result ℕ
  first_size [] = err index_error
  first_size (n ∷ rest) = ok n

  -- `Embedding.normalized`
  unfoldable pub normalized : NdArray → String → Result Embedding
  unfolding first_size
  normalized vector model_id = do
    flat ← ok (np.ravel vector)
    require (not (eq_float (np.norm flat) (dyadic (pos 0) (pos 0)))) value_error
    size ← first_size flat.shape
    new_embedding (np.divide flat (np.norm flat)) model_id size

  -- `Embedding.cosine`
  unfoldable pub cosine : Embedding → Embedding → Result Float
  cosine a b = require (str_eq a.model_id b.model_id) value_error >> np.dot a.vector b.vector

-- An embedding that was built is a vector of its declared length.
pub new_embedding-shape :
    (vector : NdArray) (model_id : String) (size : ℕ) (e : Embedding)
    → new_embedding vector model_id size ≡ ok e
    → (e.vector.shape ≡ e.dim ∷ []) × (e.dim ≡ size) × (e.model_id ≡ model_id)
unfolding new_embedding
new_embedding-shape vector model_id size e h =
    let (_, checked, made) = >>=-eq-ok (require (is_vector_of size vector.shape) value_error) _ h in
    let same = ok-injective made in
    subst
      (λ (b : Embedding). (b.vector.shape ≡ b.dim ∷ []) × (b.dim ≡ size) × (b.model_id ≡ model_id))
      same (is_vector_of-eq vector.shape (require-true _ _ checked), refl, refl)
  where
    is_vector_of-eq : (shape : List ℕ) → is_vector_of size shape ≡ true → shape ≡ size ∷ []
    is_vector_of-eq [] k = absurd (cc)
    is_vector_of-eq (n ∷ []) k =
        let same_size : n ≡ size = ground arith in ap (λ m. m ∷ []) same_size
    is_vector_of-eq (n ∷ m ∷ rest) k = absurd (cc)
