-- ===== src/Cli/Models/Same.antt =====
-- The command line and the daemon remove models alike.
use secure_eye.Prelude.{
  ℕ, suc, String, ◌≡◌, refl, sym, ap, ◌∙◌, subst, inl, inr, true, not, ◌||◌, Option, none, some,
  List, [], ◌∷◌, arith, eq_iff, str_eq, ◌==◌, if◌then◌else◌, Bool-cases, if_true, if_false, length,
}
use secure_eye.Prelude.Int.{ℤ, pos, negsuc, eqb_ℤ}
use secure_eye.Python.{
  template_file_not_found, empty_template_store, template_schema_error, Result, err, ok, and_then,
  int, Fields, end, field, to_text,
}
use secure_eye.Auth.Template.{Template, find}
use secure_eye.Auth.TemplateStore.{FileState, load_all, save, delete}
use secure_eye.Authd.Manage.{
  Change, unchanged, without_found, save_or_delete, remove_found, find_model, remove_target,
  remove_model, change_loaded, after_load, change_models,
}
use secure_eye.Authd.Manage.Changes.{eqb_ℤ-right, find-id, find-congr, without_found-length}
use secure_eye.Authd.Requests.{models_remove, ManageRequest}
use secure_eye.Cli.{Ending, succeeded, failed, crashed, Args}
use secure_eye.Cli.Models.{
  Office, remove, id_text, find_named, without_named, finish_removal, remove_one, remove_found_one,
  remove_loaded, remove_with,
}

-- The end of the command that tells what the daemon would answer.
pub ending_of : Result (String × Option Fields) → Ending
ending_of (ok (code, told)) = if str_eq code "success" then succeeded told else failed code
ending_of (err e) = crashed e

-- `str` tells integers apart.
unfoldable pub TellsApart : Office → Type 0
TellsApart d = (i j : ℤ) → to_text d.builtins (int i) ≡ to_text d.builtins (int j) → i ≡ j

eqb_ℤ-eq : (i j : ℤ) → eqb_ℤ i j ≡ true → i ≡ j
eqb_ℤ-eq (pos a) (pos b) h = ap pos (ground arith)
eqb_ℤ-eq (pos a) (negsuc b) h = absurd (ground arith)
eqb_ℤ-eq (negsuc a) (pos b) h = absurd (ground arith)
eqb_ℤ-eq (negsuc a) (negsuc b) h = ap negsuc (ground arith)

text-eqb_ℤ :
    (d : Office) (i j : ℤ)
    → TellsApart d
    → str_eq (to_text d.builtins (int i)) (to_text d.builtins (int j)) ≡ eqb_ℤ i j
unfolding TellsApart
text-eqb_ℤ d i j apart =
    elim (Bool-cases (str_eq (to_text d.builtins (int i)) (to_text d.builtins (int j)))) [
      | inl same ↦
          let e : i ≡ j = apart i j ((eq_iff _ _).0 same) in
          same ∙ subst (λ (k : ℤ). true ≡ eqb_ℤ i k) e (ground arith)
      | inr other ↦ elim (Bool-cases (eqb_ℤ i j)) [
        | inl e ↦ absurd (
            cc (
              sym other
              ∙ (eq_iff _ _).1 (ap (λ (k : ℤ). to_text d.builtins (int k)) (eqb_ℤ-eq i j e))))
        | inr n ↦ other ∙ sym n
      ]
    ]

find_named-find :
    (d : Office) (ts : List Template) (i : ℤ)
    → TellsApart d
    → find_named d ts (to_text d.builtins (int i)) ≡ find ts i
unfolding find_named find id_text TellsApart
find_named-find d [] i apart = refl
find_named-find d (t ∷ ts) i apart = rw (text-eqb_ℤ d t.id i apart, find_named-find d ts i apart)

without_named-without_found :
    (d : Office) (ts : List Template) (i j : ℤ)
    → TellsApart d
    → eqb_ℤ j i ≡ true
    → without_named d ts (to_text d.builtins (int i)) ≡ without_found ts j
unfolding without_named without_found id_text TellsApart
without_named-without_found d [] i j apart same = refl
without_named-without_found d (t ∷ ts) i j apart same = rw (
  text-eqb_ℤ d t.id i apart,
  eqb_ℤ-right t.id j i same,
  without_named-without_found d ts i j apart same,
)

-- What the daemon's answer to a removal comes to for the command.
told : Change → Ending × FileState
told (r, f) = (ending_of r, f)

finish_removal-told :
    (args : Args) (id : ℤ) (n : ℕ) (q : Result (Unit {0}) × FileState)
    → args.as_json ≡ true
    → finish_removal args id n q
      ≡ told (
          and_then q λ _ f₁. (
            ok ("success", some (field "removed" (int id) (field "remaining" (int (pos n)) end))),
            f₁,
          ))
unfolding finish_removal told ending_of
finish_removal-told args id n (ok _, f) by_json = rw (by_json)
finish_removal-told args id n (err e, f) by_json = refl

remove_one-told :
    (d : Office) (args : Args) (ts : List Template) (id : String) (target : Template)
    (f : FileState) (remaining : List Template)
    → args.as_json ≡ true
    → without_named d ts id ≡ remaining
    → without_found ts target.id ≡ remaining
    → length ts ≡ suc (length remaining)
    → remove_one d args ts id target f ≡ told (remove_found ts target f)
unfolding remove_one remove_found save_or_delete
remove_one-told d args ts id target f [] by_json named found count =
    rw (count, found, finish_removal-told args target.id 0 (delete f) by_json)
remove_one-told d args ts id target f (x ∷ xs) by_json named found count =
    if_false {b = length ts == 1} _ (let n = count in ground arith)
    ∙ rw (
      named,
      found,
      finish_removal-told args target.id (length (x ∷ xs)) (save (x ∷ xs) f) by_json,
    )

found_one-told :
    (d : Office) (args : Args) (ts : List Template) (i : ℤ) (f : FileState) (o : Option Template)
    → TellsApart d
    → args.as_json ≡ true
    → args.skips_questions ≡ true
    → find ts i ≡ o
    → remove_found_one d args ts (to_text d.builtins (int i)) f o ≡ told (remove_target ts f o)
unfolding remove_found_one remove_target unchanged told ending_of
found_one-told d args ts i f none apart by_json asks_nothing same = refl
found_one-told d args ts i f (some target) apart by_json asks_nothing same =
    let eq = find-id ts i target same in
    if_true {b = args.skips_questions || args.says_yes} _ (ground arith)
    ∙ remove_one-told d args ts (to_text d.builtins (int i)) target f (without_found ts target.id)
        by_json (without_named-without_found d ts i target.id apart eq) refl
        (without_found-length ts target.id target (find-congr ts target.id i eq ∙ same))

loaded-told :
    (d : Office) (args : Args) (i : ℤ) (f : FileState) (r : Result (List Template))
    → TellsApart d
    → args.as_json ≡ true
    → args.skips_questions ≡ true
    → remove_loaded d args (to_text d.builtins (int i)) f r
      ≡ told (after_load models_remove (some i) f r)
unfolding remove_loaded after_load unchanged change_loaded remove_model find_model told ending_of
loaded-told d args i f (ok ts) apart by_json asks_nothing =
    ap (remove_found_one d args ts (to_text d.builtins (int i)) f) (find_named-find d ts i apart)
    ∙ found_one-told d args ts i f (find ts i) apart by_json asks_nothing refl
loaded-told d args i f (err template_file_not_found) apart by_json asks_nothing = refl
loaded-told d args i f (err empty_template_store) apart by_json asks_nothing = refl
loaded-told d args i f (err template_schema_error) apart by_json asks_nothing = refl
loaded-told d args i f (err _) apart by_json asks_nothing = refl

-- The `remove` command with `--json` and the daemon's `models_remove` agree on an id that is written as
-- `str` writes it, if the folder of the models exists: they leave the same file, and the command ends
-- with what the daemon answers.
pub remove-change_models :
    (d : Office) (args : Args) (i : ℤ) (rest : List String) (req : ManageRequest) (f : FileState)
    → TellsApart d
    → d.folder ≡ true
    → args.as_json ≡ true
    → args.skips_questions ≡ true
    → args.arguments ≡ to_text d.builtins (int i) ∷ rest
    → req.kind ≡ models_remove
    → req.model ≡ some i
    → ((remove d args f).0 ≡ ending_of (change_models d.numpy req f).0)
      × ((remove d args f).1 ≡ (change_models d.numpy req f).1)
unfolding remove remove_with change_models told
remove-change_models d args i rest req f apart folder by_json asks_nothing argument kind model =
    let same : remove d args f ≡ told (change_models d.numpy req f) =
      ap (λ (l : List String). remove_with d args l f) argument
      ∙ if_false {b = not d.folder} _ (ground arith)
      ∙ loaded-told d args i f (load_all d.numpy f) apart by_json asks_nothing
      ∙ ap (λ k. told (after_load k (some i) f (load_all d.numpy f))) (sym kind)
      ∙ ap (λ m. told (after_load req.kind m f (load_all d.numpy f))) (sym model) in
    (ap (λ (q : Ending × FileState). q.0) same, ap (λ (q : Ending × FileState). q.1) same)
