-- ===== src/Auth/Template/RoundTrip.antt =====
-- What is saved is read back.
use secure_eye.Prelude.{
  ℕ, ◌+◌, ◌<◌, String, ◌≡◌, refl, ap, ◌⊎◌, inl, inr, true, false, Option, none, some, List, [], ◌∷◌,
  arith, str_eq, length, All,
}
use secure_eye.Prelude.Int.{ℤ}
use secure_eye.Python.{ok, arr, eq_num, to_text, to_int}
use secure_eye.Auth.Template.{
  Row, Template, dim, vector, Numpy, all_finite, parse_vectors, parse, row_value, serialize,
  store_value, check_vector, parse_rows, as_list, as_dict, dim_agrees, read_model_id,
  parse_template, parse_entries, rows_value, serialize_all,
}

-- A row that the parser accepts after rows of `n` values: NumPy reads its floats back as they are.
pub record IsRow (np : Numpy) (n : ℕ) (row : Row) : Type 0 where
  pub long : length row ≡ n
  pub wide : 0 < n
  pub finite : all_finite row ≡ true
  pub exact : np.as_array (arr (row_value row)) ≡ ok (vector row)

-- What `_build` and the parser establish of a template, with a named space.
pub record IsStorable (np : Numpy) (t : Template) : Type 0 where
  pub rows : All (IsRow np (dim t)) t.embeddings
  pub some_row : 0 < length t.embeddings
  pub named : str_eq t.model_id "" ≡ false

check_vector-IsRow :
    (np : Numpy) (n : ℕ) (expected : Option ℕ) (row : Row)
    → IsRow np n row
    → (expected ≡ none) ⊎ (expected ≡ some n)
    → check_vector expected (vector row) ≡ ok row
unfolding check_vector
check_vector-IsRow np n expected row v (inl e) = ground arith
check_vector-IsRow np n expected row v (inr e) = ground arith

parse_rows-rows_value :
    (np : Numpy) (n : ℕ) (expected : Option ℕ) (rows : List Row)
    → All (IsRow np n) rows
    → (expected ≡ none) ⊎ (expected ≡ some n)
    → parse_rows np expected (rows_value rows) ≡ ok rows
unfolding parse_rows rows_value
parse_rows-rows_value np n expected [] v e = refl
parse_rows-rows_value np n expected (row ∷ rows) (h, hs) e = rw (
  h.exact,
  check_vector-IsRow np n expected row h e,
  parse_rows-rows_value np n (some (length row)) rows hs (inr (ap some h.long)),
)

parse_vectors-rows_value :
    (np : Numpy) (t : Template)
    → IsStorable np t
    → parse_vectors np (rows_value t.embeddings) ≡ ok t.embeddings
unfolding parse_vectors
parse_vectors-rows_value np t v =
    rw (parse_rows-rows_value np (dim t) none t.embeddings v.rows (inl refl)) (ground arith)

parse_template-serialize :
    (np : Numpy) (t : Template) (i : ℕ) (d : String)
    → IsStorable np t
    → parse_template np i (serialize t) d ≡ ok t
unfolding parse_template serialize to_int to_text as_dict as_list dim_agrees read_model_id
parse_template-serialize np t i d v = rw (parse_vectors-rows_value np t v) (ground arith)

parse_entries-serialize_all :
    (np : Numpy) (ts : List Template) (i : ℕ) (d : String)
    → All (IsStorable np) ts
    → parse_entries np d i (serialize_all ts) ≡ ok ts
unfolding parse_entries serialize_all
parse_entries-serialize_all np [] i d v = refl
parse_entries-serialize_all np (t ∷ ts) i d (h, hs) =
    rw (parse_template-serialize np t i d h, parse_entries-serialize_all np ts (i + 1) d hs)

-- The payload that `save` writes is parsed back to the templates that were saved, whatever the
-- default space and the high-water mark, for a list that is not empty of templates with named
-- spaces and rectangular, finite rows.
pub parse-store_value :
    (np : Numpy) (d : String) (next : ℤ) (t : Template) (ts : List Template)
    → All (IsStorable np) (t ∷ ts)
    → parse np d (store_value next (t ∷ ts)) ≡ ok (t ∷ ts)
unfolding parse store_value eq_num
parse-store_value np d next t ts v = parse_entries-serialize_all np (t ∷ ts) 0 d v
