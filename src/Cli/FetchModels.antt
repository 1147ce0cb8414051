-- ===== src/Cli/FetchModels.antt =====
-- secureEye/src/cli/fetch_models.py: the command that fetches dlib's data files, and what the detector
-- of dlib finds after it. What is printed for people is left out.
use mathlib.Core.Bool.{false≢true}
use secure_eye.Prelude.{
  String, ◌≡◌, refl, ◌∙◌, ◌≢◌, Bool, true, false, Option, List, [], ◌∷◌, if◌then◌else◌, if_elim,
  pair_eq, is_empty, All,
}
use secure_eye.Python.{
  Exc, file_not_found, connection_error, timeout_error, os_error, other_exception, Result, err, ok,
  str, arr, Fields, end, field, Items, nil, cons,
}
use secure_eye.Auth.TemplateStore.Refinement.{returned}
use secure_eye.Cli.{Ending, succeeded, failed, crashed, Args, report_ok}
use secure_eye.Detectors.Dlib.{Dlib, data_file, load_models, new_detector, new_detector-load_models}
use secure_eye.DlibModels.{DataFile, data_files, Directory, Net, is_file, missing, fetch}
use secure_eye.DlibModels.Complete.{IsThere, fetch-All}

-- A list of names for the report.
unfoldable pub names_value : List String → Items
names_value [] = nil
names_value (n ∷ ns) = cons (str n) (names_value ns)

abbrev fetch_report : Args → String → List String → Ending
fetch_report args directory fetched =
    report_ok args
      (field "fetched" (arr (names_value fetched)) (field "directory" (str directory) end))

-- `except (OSError, FetchError)`: a `FetchError` is the `other_exception` here.
is_fetch_error : Exc → Bool
is_fetch_error os_error = true
is_fetch_error file_not_found = true
is_fetch_error connection_error = true
is_fetch_error timeout_error = true
is_fetch_error other_exception = true
is_fetch_error _ = false

fetch_ending : Args → String → Result (List String) → Ending
unfolding is_fetch_error names_value
fetch_ending args directory (ok fetched) = fetch_report args directory fetched
fetch_ending args directory (err e) = if is_fetch_error e then failed "fetch_failed" else crashed e

-- The command.
unfoldable pub fetch_models : Net → Args → String → Directory → Ending × Directory
unfolding fetch_ending names_value
fetch_models net args directory d =
    if is_empty (missing d data_files)
    then (fetch_report args directory [], d)
    else (fetch_ending args directory (fetch net d).0, (fetch net d).1)

empty_missing :
    (d : Directory) (fs : List DataFile)
    → is_empty (missing d fs) ≡ true
    → All (λ (f : DataFile). IsThere f.name d) fs
unfolding missing
empty_missing d [] h = tt
empty_missing d (f ∷ fs) h =
    if_elim {A = List String}
      (λ l. is_empty l ≡ true → All (λ (g : DataFile). IsThere g.name d) (f ∷ fs))
      (is_file f.name d.files) (λ here k. (here, empty_missing d fs k))
      (λ _ (k : false ≡ true). absurd (false≢true k)) h

fetch_ending-ok :
    (args : Args) (directory : String) (r : Result (List String)) (told : Option Fields)
    → fetch_ending args directory r ≡ succeeded told
    → (fetched : List String) × (r ≡ ok fetched)
unfolding fetch_ending
fetch_ending-ok args directory (ok fetched) told h = (fetched, refl)
fetch_ending-ok args directory (err e) told h =
    absurd (if_elim (λ x. x ≢ succeeded told) (is_fetch_error e) (λ _ z. cc) (λ _ z. cc) h)

fetched-All :
    (net : Net) (args : Args) (directory : String) (d : Directory) (told : Option Fields)
    → (fetch_models net args directory d).0 ≡ succeeded told
    → All (λ (f : DataFile). IsThere f.name (fetch_models net args directory d).1) data_files
unfolding fetch_models
fetched-All net args directory d told h =
    if_elim {A = Ending × Directory}
      (λ q. q.0 ≡ succeeded told → All (λ (f : DataFile). IsThere f.name q.1) data_files)
      (is_empty (missing d data_files)) (λ none_missing _. empty_missing d data_files none_missing)
      (λ _ k.
        let (fetched, returned) = fetch_ending-ok args directory (fetch net d).0 told k in
        fetch-All net d (fetch net d).1 fetched (pair_eq returned))
      h

-- When `fetch-models` reports a success, loading dlib's detector from that directory finds its three
-- files there, so that it comes to loading the models themselves.
pub new_detector-fetch_models :
    {Found Mark : Type 0} (dlib : Dlib Found Mark) (net : Net) (args : Args) (cnn : Bool)
    (directory : String) (d : Directory) (told : Option Fields) (there : String → Bool)
    → All
        (λ (f : DataFile).
          there (data_file directory f.name)
          ≡ is_file f.name (fetch_models net args directory d).1.files)
        data_files
    → (fetch_models net args directory d).0 ≡ succeeded told
    → new_detector dlib directory there cnn ≡ load_models dlib cnn
new_detector-fetch_models dlib net args cnn directory d told there same h =
    let all = fetched-All net args directory d told h in
    new_detector-load_models dlib directory there cnn
      (same.0 ∙ all.0, (same.1.0 ∙ all.1.0, (same.1.1.0 ∙ all.1.1.0, tt)))
