-- ===== src/Auth/TemplateStore/Tests.antt =====
-- A model file through an enrolment, a re-enrolment and removals.
use secure_eye.Prelude.{◌≡◌, refl, true, List, [], ◌∷◌, ◌++◌, arith}
use secure_eye.Prelude.Int.{pos, ltb_ℤ}
use secure_eye.Python.{template_schema_error, err, ok, eq_num, to_text, to_int}
use secure_eye.Auth.Template.{
  Template, vector, tensor, all_finite, parse_vectors, parse, row_value, store_value, next_id,
}
use secure_eye.Auth.Template.RoundTrip.{IsStorable}
use secure_eye.Auth.Template.Tests.{one_half, numpy, both, both-IsStorable}
use secure_eye.Auth.TemplateStore.{
  FileState, json, read_payload, stored_next_id, peek_next_id, load_all, save, load_or_empty,
  Enrolled, build, append, replace_space,
}
use secure_eye.Auth.TemplateStore.Enrolling.{id_not_reused}
use secure_eye.Auth.TemplateStore.Operations.{Storable, load_all-save}
use secure_eye.Auth.TemplateStore.Refinement.{Command, put_in, put_over, put_all, wipe}

-- A file of the legacy space with the mark 9: ids 5 to 8 were given out and removed.
file : FileState
unfolding store_value
file = json (store_value (pos 9) both)

abbrev enrolled : Enrolled
enrolled = record {
  model_id = "sface-2021dec";
  label = "new";
  embeddings = vector (one_half ∷ []);
  created = pos 300;
}

abbrev third : Template
third = record {
  id = pos 9;
  label = "new";
  created = pos 300;
  model_id = "sface-2021dec";
  embeddings = (one_half ∷ []) ∷ [];
}

third-IsStorable : IsStorable numpy third
unfolding numpy all_finite row_value
third-IsStorable = record {
  rows = (record { long = refl; wide = omega arith; finite = refl; exact = refl }, tt);
  some_row = omega arith;
  named = refl;
}

all-Storable : Storable numpy (both ++ (third ∷ []))
all-Storable = (omega arith, (both-IsStorable.0, (both-IsStorable.1.0, (third-IsStorable, tt))))

-- Names what a run computes with.
abbrev code : Unit {0}
unfolding file load_or_empty load_all read_payload numpy parse parse_vectors eq_num to_int to_text
    peek_next_id stored_next_id next_id build all_finite save store_value
code = tt

loaded : load_or_empty numpy file ≡ ok both
unfolding code
loaded = refl

added : (append numpy enrolled file).0 ≡ ok third
unfolding append code
added = refl

replaced : (replace_space numpy enrolled file).0 ≡ ok third
unfolding replace_space code
replaced = refl

abbrev broken_label : Enrolled
broken_label = record enrolled { embeddings = tensor }

refused : (append numpy broken_label file).0 ≡ err template_schema_error
unfolding append code
refused = refl

refused_again : (replace_space numpy broken_label file).0 ≡ err template_schema_error
unfolding replace_space code
refused_again = refl

load_all-save_example : load_all numpy (save both file).1 ≡ ok both
load_all-save_example =
    load_all-save numpy both file (omega arith, both-IsStorable)
      (unfold save stored_next_id file in refl)

saved : (save both (append numpy enrolled file).1).0 ≡ ok tt
unfolding append code
saved = refl

peeked : peek_next_id both (save both (append numpy enrolled file).1).1 ≡ ok (pos 10)
unfolding append code
peeked = refl

-- The new template is removed again, and the next id is not 9.
id_not_reused_example : ltb_ℤ third.id (pos 10) ≡ true
id_not_reused_example =
    id_not_reused numpy enrolled file both both third (pos 10) loaded all-Storable added saved
      peeked

abbrev commands : List Command
commands = put_in enrolled ∷ put_over broken_label ∷ put_all both ∷ wipe ∷ []
