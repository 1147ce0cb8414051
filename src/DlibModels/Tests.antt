-- ===== src/DlibModels/Tests.antt =====
-- A fetch into an empty directory, where the first download is cut short.
use secure_eye.Prelude.{String, ◌≡◌, refl, false, []}
use secure_eye.Python.{other_exception, err, ok}
use secure_eye.DlibModels.{Directory, Net, missing, download, fetch}
use secure_eye.DlibModels.Verified.{IsSound, fetch-IsSound}

abbrev cut_short : Net
cut_short = record {
  mkstemp = λ f. ok tt;
  unpacked = λ f. ok ("half", false);
  hexdigest = λ contents. "00";
  installed = λ f. ok tt;
}

abbrev no_files : Directory
no_files = record { files = []; left_over = 0 }

abbrev Nothing : String × String → Type 0
Nothing _ = Unit {0}

nothing_left : (fetch cut_short no_files).0 ≡ err other_exception
unfolding fetch missing download
nothing_left = refl

fetch-IsSound_example : IsSound cut_short Nothing no_files (fetch cut_short no_files)
fetch-IsSound_example = fetch-IsSound cut_short Nothing no_files tt
