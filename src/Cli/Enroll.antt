-- ===== src/Cli/Enroll.antt =====
-- secureEye/src/cli/enrollment.py, add.py and re_enroll.py: enrolling at the terminal. These commands
-- know no `--json`; what they print is not modelled.
pub mod Entered
use secure_eye.Prelude.{
  ℕ, String, Bool, false, not, ◌||◌, Option, none, some, List, [], ◌∷◌, str_eq, if◌then◌else◌,
}
use secure_eye.Prelude.Int.{ℤ}
use secure_eye.Python.{
  Exc, template_file_not_found, empty_template_store, template_schema_error, detector_factory_error,
  file_not_found, import_error, system_exit, other_exception, Result, err, ok, ◌>>=◌, ◌>>◌, require,
}
use secure_eye.Auth.Enrollment.{EnrollResult, EnrollTurn, capture, store}
use secure_eye.Auth.Pipeline.{Bundle}
use secure_eye.Auth.Template.{Row, Template, vector, Numpy}
use secure_eye.Auth.TemplateStore.{
  FileState, peek_next_id, load_all, Enrolled, append, replace_space,
}
use secure_eye.Authd.Manage.{handle}
use secure_eye.Cli.{Ending, succeeded, left_with, crashed, Args}
use secure_eye.Cli.Labels.{without_commas, take_text}

-- What the commands meet: the configured space, the stages that loading gives, the camera's frames
-- before the user's face, the folder of the models, what the user types for a label, the default
-- label's text, and the clock.
pub record Booth (Frame Face : Type 0) : Type 0 where
  pub space : Result String
  pub stages : Result (Bundle Frame Face)
  pub turns : List (EnrollTurn Frame)
  pub folder : Result (Unit {0})
  pub numpy : Numpy
  pub typed : String
  pub model_number : ℤ → String
  pub now : ℤ

-- `MAX_LABEL_LENGTH`
abbrev pub max_label_length : ℕ
max_label_length = 24

-- `sys.exit(1)`
abbrev pub quit : Exc
quit = system_exit 1

-- The `except` clauses of `load_pipeline`.
loading_error : Exc → Exc
loading_error import_error = quit
loading_error file_not_found = quit
loading_error detector_factory_error = quit
loading_error e = e

on_error : {A : Type 0} → (Exc → Exc) → Result A → Result A
on_error handle (ok a) = ok a
on_error handle (err e) = err (handle e)

-- The `except` clauses round `load_all` in `add` and in `re_enroll`.
or_none : Result (List Template) → Result (List Template)
or_none (err template_file_not_found) = ok []
or_none (err empty_template_store) = ok []
or_none (err template_schema_error) = err quit
or_none r = r

unreadable_error : Exc → Exc
unreadable_error template_file_not_found = quit
unreadable_error empty_template_store = quit
unreadable_error template_schema_error = quit
unreadable_error e = e

-- How a command ends that reports nothing.
ending_from : {A : Type 0} → Result A × FileState → Ending × FileState
ending_from (ok _, f) = (succeeded none, f)
ending_from (err (system_exit code), f) = (left_with code, f)
ending_from (err e, f) = (crashed e, f)

-- Whether a template is of the space.
of_space : String → List Template → Bool
of_space space [] = false
of_space space (t ∷ ts) = str_eq t.model_id space || of_space space ts

-- `ask_label`
unfoldable pub ask_label : Args → String → String → String
ask_label args typed default =
    without_commas (
      if args.skips_questions || str_eq typed "" then default else take_text max_label_length typed)

label_default : List String → String → String
label_default [] default = default
label_default (label ∷ _) default = label

-- The embedding of a success, with the `assert`.
captured_row : EnrollResult → Option Row → Result Row
captured_row EnrollResult.success (some row) = ok row
captured_row EnrollResult.success none = err other_exception
captured_row _ _ = err quit

module _ {Frame Face : Type 0} (b : Booth Frame Face) where
  -- `load_pipeline`
  pub load_pipeline : Result (Bundle Frame Face)
  unfolding loading_error on_error
  load_pipeline = do
    stages ← on_error loading_error b.stages
    expected ← b.space
    require (str_eq stages.space expected) quit
    ok stages

  -- `capture_embedding`; nobody calls `cancel()` on its session.
  pub capture_embedding : Bundle Frame Face → Result Row
  unfolding captured_row
  capture_embedding stages = capture stages b.turns false >>= λ c. captured_row c.result c.embedding

  abbrev entry_of : String → String → Row → Enrolled
  entry_of space label row = record {
    model_id = space;
    label = label;
    embeddings = vector row;
    created = b.now;
  }

  -- `cli/add.py` up to the store.
  add_entry : Args → FileState → Result Enrolled
  unfolding load_pipeline or_none label_default ask_label capture_embedding
  add_entry args f = do
    stages ← load_pipeline
    space ← b.space
    b.folder
    templates ← or_none (load_all b.numpy f)
    id ← peek_next_id templates f
    row ← capture_embedding stages
    ok (
        entry_of space (ask_label args b.typed (label_default args.arguments (b.model_number id)))
          row)

  -- `cli/re_enroll.py` up to the store.
  replacing_entry : Args → FileState → Result Enrolled
  unfolding load_pipeline on_error unreadable_error ask_label capture_embedding of_space
  replacing_entry args f = do
    space ← b.space
    templates ← on_error unreadable_error (load_all b.numpy f)
    require (not (of_space space templates) || args.skips_questions || args.says_yes) quit
    stages ← load_pipeline
    b.folder
    id ← peek_next_id templates f
    row ← capture_embedding stages
    ok (entry_of space (ask_label args b.typed (b.model_number id)) row)

  store_entry :
      (Enrolled → FileState → Result Template × FileState)
      → Result Enrolled
      → FileState
      → Ending × FileState
  unfolding ending_from
  store_entry store (err e) f = ending_from {A = Template} (err e, f)
  store_entry store (ok entry) f = ending_from (store entry f)

  -- `cli/add.py`
  unfoldable pub add : Args → FileState → Ending × FileState
  unfolding store_entry add_entry
  add args f = store_entry (append b.numpy) (add_entry args f) f

  -- `cli/re_enroll.py`
  unfoldable pub re_enroll : Args → FileState → Ending × FileState
  unfolding store_entry replacing_entry
  re_enroll args f = store_entry (replace_space b.numpy) (replacing_entry args f) f
