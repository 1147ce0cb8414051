-- ===== src/Auth/Template.antt =====
-- The pure half of secureEye/src/auth/template_store.py: templates, their JSON form and its parser,
-- the stacked matrix with its owners, ids. NumPy's reading of a JSON list is the parameter `Numpy`.
pub mod RoundTrip
pub mod Owners
pub mod Ids
pub mod Tests
use secure_eye.Prelude.{
  ℕ, ◌+◌, String, Bool, true, false, not, ◌&&◌, Option, none, some, List, [], ◌∷◌, ◌++◌, str_eq,
  ◌==◌, if◌then◌else◌, length, get_elem?, replicate, is_empty,
}
use secure_eye.Prelude.Int.{ℤ, pos, negsuc, ◌+ℤ◌, eqb_ℤ, max_ℤ}
use secure_eye.Python.{
  empty_template_store, template_schema_error, other_exception, Result, ok, err, ◌>>=◌, ◌>>◌,
  require, Float, dyadic, Value, null, int, float, str, arr, obj, Items, nil, cons, Fields, end,
  field, get_default, get_none, eq_num, as_int, Builtins, to_text, to_int,
}

abbrev pub store_version : ℕ
store_version = 2

abbrev pub legacy_model_id : String
legacy_model_id = "dlib-resnet-v1"

-- A row of float32 values.
abbrev pub Row : Type 0
Row = List Float

pub record Template : Type 0 where
  pub id : ℤ
  pub label : String
  pub created : ℤ
  pub model_id : String
  pub embeddings : List Row

-- `shape[1]`
abbrev pub width : List Row → ℕ
width [] = 0
width (row ∷ _) = length row

-- `Template.dim`
abbrev pub dim : Template → ℕ
dim t = width t.embeddings

-- A NumPy array of float32.
pub data Array : Type 0 where
  scalar : Float → Array
  vector : Row → Array
  matrix : List Row → Array
  tensor : Array

-- What the code takes from outside: `np.asarray(value, dtype=np.float32)`, which raises what it
-- raises, and Python's conversions.
pub record Numpy : Type 0 where
  pub as_array : Value → Result Array
  pub builtins : Builtins

is_finite : Float → Bool
is_finite (dyadic _ _) = true
is_finite _ = false

unfoldable pub all_finite : Row → Bool
unfolding is_finite
all_finite [] = true
all_finite (x ∷ xs) = is_finite x && all_finite xs

-- The checks on one encoding, and the width that the next ones must have.
check_vector : Option ℕ → Array → Result Row
check_vector expected (vector row) = do
  require (not (length row == 0)) template_schema_error
  require (all_finite row) template_schema_error
  require (elim expected [ none ↦ true | some n ↦ n == length row ]) template_schema_error
  ok row
check_vector expected _ = err template_schema_error

-- The loop of `_parse_vectors`.
parse_rows : Numpy → Option ℕ → Items → Result (List Row)
parse_rows np expected nil = ok []
parse_rows np expected (cons v items) = do
  a ← np.as_array v
  row ← check_vector expected a
  rows ← parse_rows np (some (length row)) items
  ok (row ∷ rows)

unfoldable pub parse_vectors : Numpy → Items → Result (List Row)
unfolding parse_rows check_vector all_finite
parse_vectors np items = do
  rows ← parse_rows np none items
  require (not (is_empty rows)) template_schema_error
  ok rows

as_list : Value → Result Items
as_list (arr items) = ok items
as_list _ = err template_schema_error

as_dict : Value → Result Fields
as_dict (obj fs) = ok fs
as_dict _ = err template_schema_error

-- `isinstance(declared_dim, int) and declared_dim != vectors.shape[1]`
dim_agrees : Value → List Row → Bool
dim_agrees v rows = elim (as_int v) [ none ↦ true | some n ↦ eqb_ℤ n (pos (width rows)) ]

-- `model_id or default_model_id`, after the check that it is a text or missing.
read_model_id : Value → String → Result String
read_model_id null d = ok d
read_model_id (str s) d = ok (if str_eq s "" then d else s)
read_model_id _ d = err template_schema_error

parse_template : Numpy → ℕ → Value → String → Result Template
parse_template np index entry default_model_id = do
  fs ← as_dict entry
  items ← as_list (get_none "data" fs)
  rows ← parse_vectors np items
  require (dim_agrees (get_none "dim" fs) rows) template_schema_error
  model_id ← read_model_id (get_none "model_id" fs) default_model_id
  id ← to_int np.builtins (get_default "id" (int (pos index)) fs)
  created ← to_int np.builtins (get_default "created" (get_default "time" (int (pos 0)) fs) fs)
  ok (record {
    id = id;
    label = to_text np.builtins (get_default "label" (str "") fs);
    created = created;
    model_id = model_id;
    embeddings = rows;
  })

-- The comprehension at the end of `_parse`.
parse_entries : Numpy → String → ℕ → Items → Result (List Template)
parse_entries np d index nil = ok []
parse_entries np d index (cons v items) = do
  t ← parse_template np index v d
  ts ← parse_entries np d (index + 1) items
  ok (t ∷ ts)

-- The entries of a store file: a bare list (legacy) or a versioned object.
entries_of : Value → Result Items
unfolding as_list
entries_of (arr items) = ok items
entries_of (obj fs) = do
  require (eq_num (get_none "version" fs) store_version) template_schema_error
  as_list (get_none "templates" fs)
entries_of _ = err template_schema_error

some_entries : Items → Result Items
some_entries nil = err empty_template_store
some_entries (cons v items) = ok (cons v items)

-- `_parse`
unfoldable pub parse : Numpy → String → Value → Result (List Template)
unfolding parse_entries entries_of some_entries parse_template as_dict dim_agrees read_model_id
parse np default_model_id payload = do
  items ← entries_of payload
  entries ← some_entries items
  parse_entries np default_model_id 0 entries

unfoldable pub row_value : Row → Items
row_value [] = nil
row_value (x ∷ xs) = cons (float x) (row_value xs)

-- `template.embeddings.tolist()`
rows_value : List Row → Items
rows_value [] = nil
rows_value (row ∷ rows) = cons (arr (row_value row)) (rows_value rows)

-- `_serialize`
unfoldable pub serialize : Template → Value
unfolding rows_value row_value
serialize t = obj (
    field "id" (int t.id) (
      field "label" (str t.label) (
        field "created" (int t.created) (
          field "model_id" (str t.model_id)
            (field "dim" (int (pos (dim t))) (field "data" (arr (rows_value t.embeddings)) end))))))

serialize_all : List Template → Items
serialize_all [] = nil
serialize_all (t ∷ ts) = cons (serialize t) (serialize_all ts)

-- The payload that `save` writes.
unfoldable pub store_value : ℤ → List Template → Value
unfolding serialize serialize_all
store_value next templates = obj (
    field "version" (int (pos store_version))
      (field "next_id" (int next) (field "templates" (arr (serialize_all templates)) end)))

-- `max(ids, default=-1)`
max_id : List Template → ℤ
max_id [] = negsuc 0
max_id (t ∷ []) = t.id
max_id (t ∷ u ∷ ts) = max_ℤ t.id (max_id (u ∷ ts))

unfoldable pub next_id : List Template → ℤ
unfolding max_id
next_id ts = max_id ts +ℤ pos 1

unfoldable pub find : List Template → ℤ → Option Template
find [] i = none
find (t ∷ ts) i = if eqb_ℤ t.id i then some t else find ts i

-- A user's templates of one space: the rows of all of them, and for each row the index of its
-- template.
pub record TemplateSet : Type 0 where
  pub model_id : String
  pub templates : List Template
  pub matrix_rows : List Row
  pub owners : List ℕ

-- `TemplateSet.owner_of`; the row is -1 where nothing was matched.
unfoldable pub owner_of : TemplateSet → ℤ → Option Template
owner_of s (negsuc _) = none
owner_of s (pos row) = elim (get_elem? s.owners row) [
  | none ↦ none
  | some i ↦ get_elem? s.templates i
]

same_dims : ℕ → List Template → Bool
same_dims n [] = true
same_dims n (t ∷ ts) = dim t == n && same_dims n ts

pub stack_rows : List Template → List Row
stack_rows [] = []
stack_rows (t ∷ ts) = t.embeddings ++ stack_rows ts

-- `np.repeat(np.arange(len(templates)), counts)`
stack_owners : ℕ → List Template → List ℕ
stack_owners i [] = []
stack_owners i (t ∷ ts) = replicate (length t.embeddings) i ++ stack_owners (i + 1) ts

-- `_stack` of a list that is not empty, with the `TemplateSet` that `load` builds from it.
unfoldable pub stack : String → List Template → Result TemplateSet
unfolding same_dims stack_rows stack_owners
stack model_id [] = err other_exception
stack model_id (t ∷ ts) = do
  require (same_dims (dim t) ts) template_schema_error
  ok (record {
    model_id = model_id;
    templates = t ∷ ts;
    matrix_rows = stack_rows (t ∷ ts);
    owners = stack_owners 0 (t ∷ ts);
  })
