-- ===== src/Cli/Models.antt =====
-- secureEye/src/cli/remove.py, clear.py and list.py: the commands on the templates of a user. The file
-- is that user's, and its folder is there or not.
pub mod Same
use secure_eye.Prelude.{
  ℕ, String, Bool, true, false, not, Option, none, some, List, [], ◌∷◌, str_eq, ◌==◌, if◌then◌else◌,
  length,
}
use secure_eye.Prelude.Int.{ℤ, pos}
use secure_eye.Python.{
  template_file_not_found, empty_template_store, template_schema_error, Result, err, ok, bool, int,
  str, arr, obj, end, field, Items, nil, cons, Builtins, to_text,
}
use secure_eye.Auth.Template.{Template, Numpy}
use secure_eye.Auth.TemplateStore.{FileState, absent, load_all, save, delete}
use secure_eye.Cli.{Ending, succeeded, failed, left_with, crashed, Args, report_ok, confirm}

-- What a command finds: whether the folder of the models exists, numpy, and the built-ins.
pub record Office : Type 0 where
  pub folder : Bool
  pub numpy : Numpy
  pub builtins : Builtins

id_text : Office → Template → String
id_text d t = to_text d.builtins (int t.id)

-- `next((template for template in templates if str(template.id) == id), None)`
find_named : Office → List Template → String → Option Template
unfolding id_text
find_named d [] id = none
find_named d (t ∷ ts) id =
    let rest = find_named d ts id in if str_eq (id_text d t) id then some t else rest

-- `[template for template in templates if template is not target]`, for the target found so.
without_named : Office → List Template → String → List Template
unfolding id_text
without_named d [] id = []
without_named d (t ∷ ts) id =
    let rest = without_named d ts id in if str_eq (id_text d t) id then ts else t ∷ rest

finish_removal : Args → ℤ → ℕ → Result (Unit {0}) × FileState → Ending × FileState
finish_removal args id remaining (ok _, f) =
    (report_ok args (field "removed" (int id) (field "remaining" (int (pos remaining)) end)), f)
finish_removal args id remaining (err e, f) = (crashed e, f)

-- From the confirmation on.
remove_one : Office → Args → List Template → String → Template → FileState → Ending × FileState
unfolding finish_removal without_named
remove_one d args ts id target f =
    if length ts == 1
    then finish_removal args target.id 0 (delete f)
    else let remaining = without_named d ts id in
      finish_removal args target.id (length remaining) (save remaining f)

remove_found_one :
    Office → Args → List Template → String → FileState → Option Template → Ending × FileState
unfolding remove_one
remove_found_one d args ts id f none = (failed "model_not_found", f)
remove_found_one d args ts id f (some target) = confirm args f (remove_one d args ts id target f)

remove_loaded : Office → Args → String → FileState → Result (List Template) → Ending × FileState
unfolding remove_found_one find_named
remove_loaded d args id f (ok ts) = remove_found_one d args ts id f (find_named d ts id)
remove_loaded d args id f (err template_file_not_found) = (failed "no_models", f)
remove_loaded d args id f (err empty_template_store) = (failed "no_models", f)
remove_loaded d args id f (err template_schema_error) = (failed "model_file_invalid", f)
remove_loaded d args id f (err e) = (crashed e, f)

remove_with : Office → Args → List String → FileState → Ending × FileState
unfolding remove_loaded
remove_with d args [] f = (failed "missing_argument", f)
remove_with d args (id ∷ _) f =
    if not d.folder
    then (failed "models_not_initialized", f)
    else remove_loaded d args id f (load_all d.numpy f)

-- `cli/remove.py`
unfoldable pub remove : Office → Args → FileState → Ending × FileState
unfolding remove_with
remove d args f = remove_with d args args.arguments f

nothing_cleared : Args → FileState → Ending × FileState
nothing_cleared args f =
    (if args.as_json then succeeded (some (field "cleared" (bool false) end)) else left_with 1, f)

clear_file : Args → FileState → Ending × FileState
unfolding nothing_cleared
clear_file args absent = nothing_cleared args absent
clear_file args f = confirm args f (report_ok args (field "cleared" (bool true) end), absent)

-- `cli/clear.py`
unfoldable pub clear : Office → Args → FileState → Ending × FileState
unfolding clear_file nothing_cleared
clear d args f = if not d.folder then nothing_cleared args f else clear_file args f

listed : List Template → Items
listed [] = nil
listed (t ∷ ts) =
    cons
      (obj (
        field "id" (int t.id) (
          field "label" (str t.label) (
            field "time" (int t.created) (
              field "encodings" (int (pos (length t.embeddings)))
                (field "model_id" (str t.model_id) end))))))
      (listed ts)

list_report : Args → String → List Template → Ending
unfolding listed
list_report args user ts =
    report_ok args (field "user" (str user) (field "models" (arr (listed ts)) end))

none_listed : Args → String → Ending
unfolding list_report
none_listed args user = if args.as_json then list_report args user [] else left_with 1

list_loaded : Args → String → Result (List Template) → Ending
unfolding list_report none_listed
list_loaded args user (ok ts) = list_report args user ts
list_loaded args user (err template_file_not_found) = none_listed args user
list_loaded args user (err empty_template_store) = none_listed args user
list_loaded args user (err template_schema_error) = failed "model_file_invalid"
list_loaded args user (err e) = crashed e

-- `cli/list.py`
unfoldable pub list_models_of : Office → Args → String → FileState → Ending
unfolding list_loaded none_listed
list_models_of d args user f =
    if not d.folder then none_listed args user else list_loaded args user (load_all d.numpy f)
