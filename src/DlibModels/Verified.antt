-- ===== src/DlibModels/Verified.antt =====
-- What the directory may hold after a download.
use secure_eye.Prelude.{
  ℕ, String, ◌≡◌, refl, sym, ◌∙◌, subst, ◌⊎◌, inl, inr, true, false, some, List, [], ◌∷◌, str_eq,
  Bool-cases, if_elim, if_true, if_false, get_elem?, All, All-map,
}
use secure_eye.Python.{
  Exc, other_exception, Result, err, ok, and_then, require, is_exception, >>=-eq-ok, require-true,
  ok-injective,
}
use secure_eye.DlibModels.{
  DataFile, data_files, Directory, Net, missing, download, fetch, is_wanted, drop_file, verified,
  settle_download, fetch_all,
}

-- A file that is one of the list, with contents of its checksum.
pub record IsVerified (net : Net) (file : String × String) : Type 0 where
  pub place : ℕ
  pub entry : DataFile
  pub in_list : get_elem? data_files place ≡ some entry
  pub named_so : file.0 ≡ entry.name
  pub checked : str_eq (net.hexdigest file.1) entry.sha256 ≡ true

IsListed : DataFile → Type 0
IsListed f = (i : ℕ) × (get_elem? data_files i ≡ some f)

-- Files that were there before, of which only `Old` is known, or that are verified; and what a raise
-- other than an interrupt leaves over.
pub record IsSound (net : Net) (Old : String × String → Type 0) (d : Directory)
    (q : Result (List String) × Directory) : Type 0 where
  pub sound : All (λ (file : String × String). Old file ⊎ IsVerified net file) q.1.files
  pub tidy : (q.1.left_over ≡ d.left_over) ⊎ ((e : Exc) × (q.0 ≡ err e) × (is_exception e ≡ false))

drop_file-keeps :
    (P : String × String → Type 0) (name : String) (files : List (String × String))
    → All P files
    → All P (drop_file name files)
unfolding drop_file
drop_file-keeps P name [] h = tt
drop_file-keeps P name ((n, contents) ∷ rest) (h, hs) =
    if_elim (All P) (str_eq n name) (λ _. drop_file-keeps P name rest hs)
      λ _. (h, drop_file-keeps P name rest hs)

verified-checksum :
    (net : Net) (f : DataFile) (contents : String)
    → verified net f ≡ ok contents
    → str_eq (net.hexdigest contents) f.sha256 ≡ true
unfolding verified
verified-checksum net f contents h =
    let (got, _, h1) = >>=-eq-ok (net.unpacked f) _ h in
    let (_, _, h2) = >>=-eq-ok (require got.1 other_exception) _ h1 in
    let (_, good, h3) =
      >>=-eq-ok (require (str_eq (net.hexdigest got.0) f.sha256) other_exception) _ h2 in
    let (_, _, h4) = >>=-eq-ok (net.installed f) _ h3 in
    subst (λ (c : String). str_eq (net.hexdigest c) f.sha256 ≡ true) (ok-injective h4)
      (require-true (str_eq (net.hexdigest got.0) f.sha256) other_exception good)

module _ (net : Net) (Old : String × String → Type 0) where
  Sound : List (String × String) → Type 0
  Sound = All (λ (file : String × String). Old file ⊎ IsVerified net file)

  -- What a download does.
  IsKept : {A : Type 0} → Directory → Result A × Directory → Type 0
  IsKept d (ok _, d') = Sound d'.files × (d'.left_over ≡ d.left_over)
  IsKept d (err e, d') = Sound d'.files × ((d'.left_over ≡ d.left_over) ⊎ (is_exception e ≡ false))

  settle_download-IsKept :
      (f : DataFile) (r : Result String) (d : Directory)
      → IsListed f
      → Sound d.files
      → verified net f ≡ r
      → IsKept d (settle_download f r d)
  unfolding settle_download IsKept Sound IsListed
  settle_download-IsKept f (ok contents) d (i, listed) h same = (
    (
      inr (record {
        place = i;
        entry = f;
        in_list = listed;
        named_so = refl;
        checked = verified-checksum net f contents same;
      }),
      drop_file-keeps (λ file. Old file ⊎ IsVerified net file) f.name d.files h,
    ),
    refl,
  )
  settle_download-IsKept f (err e) d (i, listed) h same = elim (Bool-cases (is_exception e)) [
    | inl caught ↦ subst (IsKept {A = Unit {0}} d) (sym (if_true _ caught)) (h, inl refl)
    | inr stopping ↦ subst (IsKept {A = Unit {0}} d) (sym (if_false _ stopping)) (h, inr stopping)
  ]

  made-IsKept :
      (f : DataFile) (r : Result (Unit {0})) (d : Directory)
      → IsListed f
      → Sound d.files
      → IsKept d (and_then (r, d) λ _ d₁. settle_download f (verified net f) d₁)
  unfolding IsKept
  made-IsKept f (ok _) d listed h = settle_download-IsKept f (verified net f) d listed h refl
  made-IsKept f (err e) d listed h = (h, inl refl)

  after_download :
      (d : Directory) (q : Result (Unit {0}) × Directory)
      (rest : Directory → Result (List String) × Directory)
      → IsKept d q
      → ((d' : Directory) → Sound d'.files → IsSound net Old d' (rest d'))
      → IsSound net Old d (and_then q λ _ d'. rest d')
  unfolding IsKept Sound
  after_download d (ok _, d') rest (h, same) then_on =
      let s = then_on d' h in
      record {
        sound = s.sound;
        tidy = elim s.tidy [ inl e ↦ inl (e ∙ same) | inr stopping ↦ inr stopping ];
      }
  after_download d (err e, d') rest (h, left) then_on = record {
    sound = h;
    tidy = elim left [ inl same ↦ inl same | inr stopping ↦ inr (e, refl, stopping) ];
  }

  fetch_all-IsSound :
      (wanted : List String) (fs : List DataFile) (fetched : List String) (d : Directory)
      → All IsListed fs
      → Sound d.files
      → IsSound net Old d (fetch_all net wanted fs fetched d)
  unfolding fetch_all download Sound
  fetch_all-IsSound wanted [] fetched d listed h = record { sound = h; tidy = inl refl }
  fetch_all-IsSound wanted (f ∷ fs) fetched d (here, others) h =
      if_elim (IsSound net Old d) (is_wanted f.name wanted)
        (λ _.
          after_download d (download net f d) _ (made-IsKept f (net.mkstemp f) d here h)
            λ d' h'. fetch_all-IsSound wanted fs _ d' others h')
        λ _. fetch_all-IsSound wanted fs fetched d others h

  -- However `fetch` ends, each file of the directory was there before or is one of the data files with
  -- contents of its checksum, and no temporary file is left over unless it was interrupted.
  pub fetch-IsSound : (d : Directory) → All Old d.files → IsSound net Old d (fetch net d)
  unfolding fetch IsListed Sound
  fetch-IsSound d h =
      fetch_all-IsSound (missing d data_files) data_files [] d
        ((0, refl), ((1, refl), ((2, refl), tt))) (All-map d.files h λ x old. inl old)
