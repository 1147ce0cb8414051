-- ===== src/Cli/Tests.antt =====
-- A removal by the command line, and the command line itself.
use Prim.Native.String.{◌++◌ as join, count}
use text.Mathlib.TextLemmas.{length-append}
use secure_eye.Prelude.{
  ℕ, zero, suc, ◌+◌, ◌*◌, String, ◌≡◌, refl, sym, ap, ◌∙◌, ◌⊎◌, true, false, none, some, List, [],
  ◌∷◌, arith,
}
use secure_eye.Prelude.Int.{pos, negsuc}
use secure_eye.Python.{type_error, ok, Value, int, eq_num, to_text, to_int}
use secure_eye.Auth.Enrollment.{enroll_turn, search_face, capture}
use secure_eye.Auth.Pipeline.Tests.{one_face}
use secure_eye.Auth.Session.Tests.{shot}
use secure_eye.Auth.Template.{all_finite, parse_vectors, parse, store_value, next_id}
use secure_eye.Auth.Template.Tests.{numpy, both}
use secure_eye.Auth.TemplateStore.{
  FileState, json, read_payload, stored_next_id, peek_next_id, load_all, save, load_or_empty, build,
  append,
}
use secure_eye.Authd.Manage.{change_models}
use secure_eye.Authd.Requests.{models_remove, ManageRequest}
use secure_eye.Cli.{succeeded, crashed, Args}
use secure_eye.Cli.Disable.{disable}
use secure_eye.Cli.Dispatch.{Invocation, is_listed, dispatch, IsAllowed, dispatch-IsAllowed}
use secure_eye.Cli.Enroll.{Booth, ask_label, add}
use secure_eye.Cli.Enroll.Entered.{IsEntered, add-IsEntered}
use secure_eye.Cli.FetchModels.{names_value, fetch_models, new_detector-fetch_models}
use secure_eye.Cli.Labels.{without_commas, take_text}
use secure_eye.Cli.Models.{Office, remove}
use secure_eye.Cli.Models.Same.{ending_of, TellsApart, remove-change_models}
use secure_eye.Cli.Settings.{option_of_line, set_options}
use secure_eye.Cli.Settings.Changed.{IsApplied, set_options-IsApplied}
use secure_eye.Detectors.Dlib.{Dlib, load_models, new_detector}
use secure_eye.DlibModels.{Directory, Net, missing, download, fetch}

-- A text of so many strokes.
strokes : ℕ → String
strokes zero = ""
strokes (suc n) = join "1" (strokes n)

strokes-count : (n : ℕ) → count (strokes n) ≡ n
unfolding strokes
strokes-count zero = refl
strokes-count (suc n) =
    let more = length-append "1" (strokes n) in let rest = strokes-count n in more ∙ (omega arith)

-- A way to write values that tells integers apart.
written : Value → String
unfolding strokes
written (int (pos n)) = strokes (2 * n)
written (int (negsuc n)) = strokes (2 * n + 1)
written _ = "?"

strokes-injective : (m n : ℕ) → strokes m ≡ strokes n → m ≡ n
strokes-injective m n h = sym (strokes-count m) ∙ ap count h ∙ strokes-count n

abbrev home : Office
unfolding written
home = record {
  folder = true;
  numpy = numpy;
  builtins = record { repr = written; int_of_text = λ _. none };
}

home-TellsApart : TellsApart home
unfolding home TellsApart to_text written
home-TellsApart (pos a) (pos b) h = let e = strokes-injective _ _ h in ap pos (omega arith)
home-TellsApart (pos a) (negsuc b) h = let e = strokes-injective _ _ h in absurd (omega arith)
home-TellsApart (negsuc a) (pos b) h = let e = strokes-injective _ _ h in absurd (omega arith)
home-TellsApart (negsuc a) (negsuc b) h = let e = strokes-injective _ _ h in ap negsuc (omega arith)

abbrev typed : Args
typed = record {
  arguments = to_text home.builtins (int (pos 4)) ∷ [];
  skips_questions = true;
  as_json = true;
  says_yes = false;
}

abbrev asked : ManageRequest
asked = record {
  id = "r1";
  kind = models_remove;
  username = "ana";
  model = some (pos 4);
  label = "";
  replace = false;
  preview = false;
  duration_ms = pos 15000;
}

abbrev kept : FileState
unfolding store_value
kept = json (store_value (pos 9) both)

remove-change_models_example :
    ((remove home typed kept).0 ≡ ending_of (change_models numpy asked kept).0)
    × ((remove home typed kept).1 ≡ (change_models numpy asked kept).1)
unfolding home
remove-change_models_example =
    remove-change_models home typed (pos 4) [] asked kept home-TellsApart refl refl refl refl refl
      refl

abbrev called : Invocation
called = record {
  bare = false;
  command = "list";
  user = "ana";
  wants_json = true;
  wants_yes = false;
  euid = 0;
}

dispatch-IsAllowed_example : IsAllowed called true
dispatch-IsAllowed_example =
    dispatch-IsAllowed called "cli.list" true (unfold dispatch is_listed in refl)

abbrev typing : Args
typing = record {
  arguments = "front, door" ∷ [];
  skips_questions = false;
  as_json = false;
  says_yes = false;
}

abbrev booth : Booth ℕ ℕ
booth = record {
  space = ok "dlib-resnet-v1";
  stages = ok one_face;
  turns =
      record {
        cancelled_before = false;
        reading = ok shot;
        cancelled_in_read = false;
        observer_raises = false;
      }
      ∷ [];
  folder = ok tt;
  numpy = numpy;
  typed = "front, door";
  model_number = λ i. "Model";
  now = pos 400;
}

label_cleaned : ask_label typing "front, door" "Model" ≡ "front door"
unfolding ask_label take_text without_commas
label_cleaned = refl

-- The camera shows one face, and the model is added to the two.
model_added : (add booth typing kept).0 ≡ succeeded none
unfolding add capture search_face enroll_turn ask_label take_text without_commas load_all
    read_payload numpy parse parse_vectors eq_num to_int to_text all_finite store_value peek_next_id
    stored_next_id next_id append build save load_or_empty
model_added = refl

add-IsEntered_example :
    ((add booth typing kept).1 ≡ kept) ⊎ IsEntered booth (append numpy) kept (add booth typing kept)
add-IsEntered_example = add-IsEntered booth typing kept

abbrev settings : Args
settings = record {
  arguments = "certainty" ∷ "3" ∷ "dark_threshold" ∷ "60" ∷ [];
  skips_questions = true;
  as_json = true;
  says_yes = false;
}

abbrev config_lines : List String
config_lines =
    "# options\n" ∷ "certainty = 4\n" ∷ "dark_threshold = 50\n" ∷ "certainty_of_all = 1\n" ∷ []

options_set :
    (set_options settings (ok tt) (ok tt) config_lines).1
    ≡ "# options\n" ∷ "certainty = 3\n" ∷ "dark_threshold = 60\n" ∷ "certainty_of_all = 1\n" ∷ []
unfolding set_options option_of_line
options_set = refl

set_options-IsApplied_example :
    ((set_options settings (ok tt) (ok tt) config_lines).1 ≡ config_lines)
    ⊎ IsApplied settings config_lines (set_options settings (ok tt) (ok tt) config_lines).1
set_options-IsApplied_example = set_options-IsApplied settings (ok tt) (ok tt) config_lines

abbrev turn_off : Args
turn_off = record { arguments = "1" ∷ []; skips_questions = true; as_json = true; says_yes = false }

abbrev as_typed : String → String
as_typed s = s

switched_off :
    (disable as_typed turn_off (some "false") ("[core]\n" ∷ "disabled = false\n" ∷ [])).1
    ≡ "[core]\n" ∷ "disabled = true\n" ∷ []
unfolding disable
switched_off = refl

-- A line without spaces round its `=` is read, and not replaced.
not_switched_off :
    (disable as_typed turn_off (some "false") ("[core]\n" ∷ "disabled=false\n" ∷ [])).1
    ≡ "[core]\n" ∷ "disabled=false\n" ∷ []
unfolding disable
not_switched_off = refl

-- Without the option the file is emptied.
emptied : disable as_typed turn_off none ("[core]\n" ∷ []) ≡ (crashed type_error, [])
unfolding disable
emptied = refl

-- A net that gives the contents of each file, whose digest is the one that its entry asks for.
abbrev good_net : Net
good_net = record {
  mkstemp = λ f. ok tt;
  unpacked = λ f. ok (f.sha256, true);
  hexdigest = λ contents. contents;
  installed = λ f. ok tt;
}

abbrev empty_folder : Directory
empty_folder = record { files = []; left_over = 0 }

loaded_dlib : Dlib ℕ ℕ
loaded_dlib = record {
  cnn_detector = ok 1;
  frontal_detector = ok 2;
  pose_predictor = ok 3;
  face_encoder = ok 4;
}

abbrev fetching : Args
fetching = record { arguments = []; skips_questions = false; as_json = true; says_yes = false }

new_detector-fetch_models_example :
    new_detector loaded_dlib "dlib-data" (λ path. true) true ≡ load_models loaded_dlib true
unfolding fetch_models fetch missing download names_value
new_detector-fetch_models_example =
    new_detector-fetch_models loaded_dlib good_net fetching true "dlib-data" empty_folder _
      (λ path. true) (refl, (refl, (refl, tt))) refl
