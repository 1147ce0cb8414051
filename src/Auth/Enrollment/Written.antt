-- ===== src/Auth/Enrollment/Written.antt =====
-- When an enrolment writes, and what a captured face is.
use secure_eye.Prelude.{
  String, ◌≡◌, refl, sym, ap, ◌∙◌, ◌⊎◌, inl, inr, Bool, true, false, not, Option, none, some,
  str_eq, if_elim,
}
use secure_eye.Python.{Exc, Result, err, ok, and_then}
use secure_eye.Auth.Enrollment.{
  success, EnrollResult, Capture, capture, Desk, EnrollOutcome, is_success, store, enroll_user,
  outcome_of, store_row, store_capture, with_capture, keep_file, with_space,
}
use secure_eye.Auth.Pipeline.{Bundle}
use secure_eye.Auth.Template.{Row, Template}
use secure_eye.Auth.TemplateStore.{FileState, Enrolled}
use secure_eye.Auth.TemplateStore.Enrolling.{append_fails, replace_space_fails}

module _ {Frame Face : Type 0} (bundle : Bundle Frame Face) (desk : Desk Frame) where
  -- The enrolment succeeded, with the template that the store returned.
  pub record IsStored (anew : Bool) (f : FileState) (p : Result EnrollOutcome × FileState)
      : Type 0 where
    pub outcome : EnrollOutcome
    pub template : Template
    pub entry : Enrolled
    pub returned : p.0 ≡ ok outcome
    pub succeeded : outcome.result ≡ success
    pub given : outcome.template ≡ some template
    pub stored : (store bundle desk anew entry f).0 ≡ ok template
    pub left : p.1 ≡ (store bundle desk anew entry f).1

  abbrev Written : Bool → FileState → Result EnrollOutcome × FileState → Type 0
  Written anew f p = (p.1 ≡ f) ⊎ IsStored anew f p

  store-fails :
      (anew : Bool) (e : Enrolled) (f : FileState) (x : Exc)
      → (store bundle desk anew e f).0 ≡ err x
      → (store bundle desk anew e f).1 ≡ f
  unfolding store
  store-fails true e f x h = replace_space_fails desk.numpy e f x h
  store-fails false e f x h = append_fails desk.numpy e f x h

  Result-cases : {A : Type 0} (r : Result A) → ((x : Exc) × (r ≡ err x)) ⊎ ((a : A) × (r ≡ ok a))
  Result-cases (err x) = inl (x, refl)
  Result-cases (ok a) = inr (a, refl)

  after_store :
      (anew : Bool) (f : FileState) (c : Capture) (entry : Enrolled)
      (p : Result Template × FileState)
      → c.result ≡ success
      → (store bundle desk anew entry f) ≡ p
      → Written anew f (and_then p (λ t f₁. (ok (outcome_of c (some t)), f₁)))
  after_store anew f c entry (err x, f₁) good same = inl (
      ap (λ (q : Result Template × FileState). q.1) (sym same)
      ∙ store-fails anew entry f x (ap (λ (q : Result Template × FileState). q.0) same))
  after_store anew f c entry (ok t, f₁) good same = inr (record {
    outcome = outcome_of c (some t);
    template = t;
    entry = entry;
    returned = refl;
    succeeded = good;
    given = refl;
    stored = ap (λ (q : Result Template × FileState). q.0) same;
    left = ap (λ (q : Result Template × FileState). q.1) (sym same);
  })

  is_success-eq : (r : EnrollResult) → not (is_success r) ≡ false → r ≡ success
  is_success-eq success h = refl
  is_success-eq _ h = absurd (cc)

  with_capture-Written :
      (space label : String) (anew : Bool) (c : Capture) (f : FileState)
      → Written anew f (with_capture bundle desk space label anew c f)
  unfolding with_capture store_capture store_row
  with_capture-Written space label anew c f =
      if_elim (Written anew f) (not (is_success c.result)) (λ _. inl refl)
        λ good.
          if_elim (Written anew f) desk.last_cancel (λ _. inl refl)
            λ _. of_embedding c.embedding (is_success-eq c.result good)
    where
      of_embedding :
          (o : Option Row)
          → c.result ≡ success
          → Written anew f (store_capture bundle desk space label anew c o f)
      of_embedding none good = inl refl
      of_embedding (some row) good = after_store anew f c _ _ good refl

  with_space-Written :
      (label : String) (anew : Bool) (space : String) (f : FileState)
      → Written anew f (with_space bundle desk label anew space f)
  unfolding with_space keep_file
  with_space-Written label anew space f =
      if_elim (Written anew f) (str_eq bundle.space space)
        (λ _. of_capture (capture bundle desk.turns desk.late_cancel)) λ _. inl refl
    where
      of_capture :
          (r : Result Capture)
          → Written anew f
              (and_then (keep_file bundle desk r f) (with_capture bundle desk space label anew))
      of_capture (err x) = inl refl
      of_capture (ok c) = with_capture-Written space label anew c f

  -- An enrolment either leaves the model file as it was, or it reports a success with the template
  -- that the store returned, and the file is what the store left.
  pub enroll_user-Written :
      (label : String) (anew : Bool) (f : FileState)
      → ((enroll_user bundle desk label anew f).1 ≡ f)
        ⊎ IsStored anew f (enroll_user bundle desk label anew f)
  unfolding enroll_user keep_file
  enroll_user-Written label anew f = of_space desk.space
    where
      of_space :
          (r : Result String)
          → Written anew f (
              and_then
                (keep_file bundle desk r f)
                (λ space f₁. with_space bundle desk label anew space f₁))
      of_space (err x) = inl refl
      of_space (ok space) = with_space-Written label anew space f
