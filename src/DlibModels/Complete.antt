-- ===== src/DlibModels/Complete.antt =====
-- secureEye/src/dlib_models.py: that a fetch that returned has all files.
use secure_eye.Prelude.{
  String, ◌≡◌, refl, sym, ap, ◌∙◌, subst, ◌≢◌, ◌⊎◌, inl, inr, Bool, true, false, ◌||◌, List, [],
  ◌∷◌, ◌++◌, eq_iff, str_eq, if_elim, All, All-map,
}
use secure_eye.Python.{Result, err, ok, and_then, is_exception, and_then-eq-ok}
use secure_eye.DlibModels.{
  DataFile, data_files, Directory, Net, is_file, missing, download, fetch, is_wanted, drop_file,
  verified, settle_download, fetch_all,
}

-- The file is in the directory.
abbrev pub IsThere : String → Directory → Type 0
IsThere name d = is_file name d.files ≡ true

or-true : (a b : Bool) → (a ≡ true) ⊎ (b ≡ true) → a || b ≡ true
or-true true b h = refl
or-true false b (inl h) = absurd (cc)
or-true false b (inr h) = h

or-cases : (a b : Bool) → a || b ≡ true → (a ≡ true) ⊎ (b ≡ true)
or-cases true b h = inl refl
or-cases false b h = inr h

-- Replacing a file loses no other name.
replaced_keeps :
    (f n : String) (files : List (String × String))
    → is_file n files ≡ true
    → (str_eq f n ≡ true) ⊎ (is_file n (drop_file f files) ≡ true)
unfolding is_file drop_file
replaced_keeps f n [] h = absurd (cc)
replaced_keeps f n ((m, c) ∷ rest) h = elim (or-cases (str_eq m n) (is_file n rest) h) [
  | inl here ↦
      if_elim (λ (l : List (String × String)). (str_eq f n ≡ true) ⊎ (is_file n l ≡ true))
        (str_eq m f) (λ same. inl (subst (λ x. str_eq x n ≡ true) ((eq_iff m f).0 same) here))
        λ _. inr (or-true _ _ (inl here))
  | inr later ↦
      if_elim (λ (l : List (String × String)). (str_eq f n ≡ true) ⊎ (is_file n l ≡ true))
        (str_eq m f) (λ _. replaced_keeps f n rest later)
        λ _. elim (replaced_keeps f n rest later) [
          | inl named ↦ inl named
          | inr kept ↦ inr (or-true _ _ (inr kept))
        ]
]

module _ (net : Net) where
  -- After a download that returned, its file is there, and so are those that were.
  record IsLoaded (f : DataFile) (d d' : Directory) : Type 0 where
    pub loaded : IsThere f.name d'
    pub kept : (n : String) → IsThere n d → IsThere n d'

  download-IsLoaded :
      (f : DataFile) (d : Directory) {u : Unit {0}}
      → (download net f d).0 ≡ ok u
      → IsLoaded f d (download net f d).1
  unfolding download settle_download is_file
  download-IsLoaded f d h = by_made (net.mkstemp f) h
    where
      by_end :
          (r : Result String) {u : Unit {0}}
          → (settle_download f r d).0 ≡ ok u
          → IsLoaded f d (settle_download f r d).1
      by_end (ok contents) k = record {
        loaded = or-true _ _ (inl ((eq_iff f.name f.name).1 refl));
        kept = λ n there. or-true _ _ (replaced_keeps f.name n d.files there);
      }
      by_end (err e) k = absurd (
          if_elim {A = Result (Unit {0}) × Directory} (λ q. q.0 ≢ ok tt) (is_exception e)
            (λ _ z. cc) (λ _ z. cc) k)

      by_made :
          (r : Result (Unit {0})) {u : Unit {0}}
          → (and_then (r, d) λ _ d₁. settle_download f (verified net f) d₁).0 ≡ ok u
          → IsLoaded f d (and_then (r, d) λ _ d₁. settle_download f (verified net f) d₁).1
      by_made (ok _) k = by_end (verified net f) k
      by_made (err e) k = absurd (cc)

  -- What a fetch that returned has done for these entries.
  record IsFetched (fs : List DataFile) (d d' : Directory) : Type 0 where
    pub fetched_all : All (λ (f : DataFile). IsThere f.name d') fs
    pub kept_all : (n : String) → IsThere n d → IsThere n d'

  abbrev IsDue : List String → Directory → DataFile → Type 0
  IsDue wanted d f = (is_wanted f.name wanted ≡ true) ⊎ IsThere f.name d

  -- The rest of the loop is `rest`, for which the claim is known.
  after_download-IsFetched :
      (wanted : List String) (f : DataFile) (fs : List DataFile) (d : Directory)
      {names : List String} (rest : Directory → Result (List String) × Directory)
      → ((d₁ : Directory)
          → All (IsDue wanted d₁) fs
          → (rest d₁).0 ≡ ok names
          → IsFetched fs d₁ (rest d₁).1)
      → All (IsDue wanted d) fs
      → (and_then (download net f d) λ _ d₁. rest d₁).0 ≡ ok names
      → IsFetched (f ∷ fs) d (and_then (download net f d) λ _ d₁. rest d₁).1
  after_download-IsFetched wanted f fs d rest then_on later k =
      let (_, done, same) = and_then-eq-ok (download net f d) (λ _ d₁. rest d₁) k in
      let one = download-IsLoaded f d done in
      let others =
        then_on (download net f d).1
          (All-map fs later
            λ g is. elim is [ inl w ↦ inl w | inr there ↦ inr (one.kept g.name there) ])
          (ap (λ q. q.0) (sym same) ∙ k) in
      subst (λ (q : Result (List String) × Directory). IsFetched (f ∷ fs) d q.1) (sym same)
        (record {
          fetched_all = (others.kept_all f.name one.loaded, others.fetched_all);
          kept_all = λ n there. others.kept_all n (one.kept n there);
        })

  unwanted-IsFetched :
      (wanted : List String) (f : DataFile) {fs : List DataFile} {d d' : Directory}
      → IsDue wanted d f
      → is_wanted f.name wanted ≡ false
      → IsFetched fs d d'
      → IsFetched (f ∷ fs) d d'
  unwanted-IsFetched wanted f (inl w) unwanted rest = absurd (cc (w, unwanted))
  unwanted-IsFetched wanted f (inr here) unwanted rest = record {
    fetched_all = (rest.kept_all f.name here, rest.fetched_all);
    kept_all = rest.kept_all;
  }

  fetch_all-IsFetched :
      (wanted : List String) (fs : List DataFile) (fetched : List String) (d : Directory)
      {names : List String}
      → All (IsDue wanted d) fs
      → (fetch_all net wanted fs fetched d).0 ≡ ok names
      → IsFetched fs d (fetch_all net wanted fs fetched d).1
  unfolding fetch_all
  fetch_all-IsFetched wanted [] fetched d due h = record {
    fetched_all = tt;
    kept_all = λ n there. there;
  }
  fetch_all-IsFetched wanted (f ∷ fs) fetched d {names} (due, later) h =
      if_elim {A = Result (List String) × Directory}
        (λ q. q.0 ≡ ok names → IsFetched (f ∷ fs) d q.1) (is_wanted f.name wanted)
        (λ _.
          after_download-IsFetched wanted f fs d _
            (λ d₁. fetch_all-IsFetched wanted fs (fetched ++ (f.name ∷ [])) d₁) later)
        (λ unwanted k.
          unwanted-IsFetched wanted f due unwanted
            (fetch_all-IsFetched wanted fs fetched d later k))
        h

  missing-weaken :
      (d : Directory) (f : DataFile) (fs : List DataFile) (n : String)
      → is_wanted n (missing d fs) ≡ true
      → is_wanted n (missing d (f ∷ fs)) ≡ true
  unfolding missing is_wanted
  missing-weaken d f fs n h =
      if_elim (λ l. is_wanted n l ≡ true) (is_file f.name d.files) (λ _. h) λ _. or-true _ _ (inr h)

  missing-IsDue : (d : Directory) (fs : List DataFile) → All (IsDue (missing d fs) d) fs
  unfolding missing is_wanted
  missing-IsDue d [] = tt
  missing-IsDue d (f ∷ fs) = (
    if_elim (λ l. IsDue l d f) (is_file f.name d.files) (λ there. inr there)
        (λ _. inl (or-true _ _ (inl ((eq_iff f.name f.name).1 refl)))),
    All-map fs (missing-IsDue d fs)
        λ g is. elim is [ inl w ↦ inl (missing-weaken d f fs g.name w) | inr there ↦ inr there ],
  )

  -- A fetch that returned leaves a directory that has all data files, with every file that it had.
  pub fetch-All :
      (d d' : Directory) (fetched : List String)
      → fetch net d ≡ (ok fetched, d')
      → All (λ (f : DataFile). IsThere f.name d') data_files
  unfolding fetch
  fetch-All d d' fetched h =
      let is =
        fetch_all-IsFetched (missing d data_files) data_files [] d (missing-IsDue d data_files)
          (ap (λ q. q.0) h) in
      subst (λ k. All (λ (f : DataFile). IsThere f.name k) data_files) (ap (λ q. q.1) h)
        is.fetched_all
