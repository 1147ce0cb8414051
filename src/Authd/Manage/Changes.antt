-- ===== src/Authd/Manage/Changes.antt =====
-- What removing a model does to the file.
use secure_eye.Prelude.{
  suc, String, ◌≡◌, refl, sym, ap, ◌∙◌, subst, ◌⊎◌, inl, inr, true, false, Option, some, List, [],
  ◌∷◌, ◌++◌, arith, Bool-cases, if_elim, if_true, if_false, length, All,
}
use secure_eye.Prelude.Int.{ℤ, eqb_ℤ}
use secure_eye.Python.{ok, Fields, and_then-eq-ok}
use secure_eye.Auth.Template.{Template, Numpy, find}
use secure_eye.Auth.Template.RoundTrip.{IsStorable}
use secure_eye.Auth.TemplateStore.{FileState, absent, garbled, unreadable, json, load_all, delete}
use secure_eye.Auth.TemplateStore.Operations.{load_all-save}
use secure_eye.Authd.Manage.{
  Change, without_found, save_or_delete, remove_found, find_model, remove_target, remove_model,
  change_loaded, after_load, change_models,
}
use secure_eye.Authd.Requests.{models_remove, ManageRequest}

pub eqb_ℤ-right : (a b c : ℤ) → eqb_ℤ b c ≡ true → eqb_ℤ a b ≡ eqb_ℤ a c
eqb_ℤ-right a b c h = ground arith

pub find-id : (ts : List Template) (i : ℤ) (t : Template) → find ts i ≡ some t → eqb_ℤ t.id i ≡ true
unfolding find
find-id [] i t h = absurd (cc)
find-id (x ∷ ts) i t h = elim (Bool-cases (eqb_ℤ x.id i)) [
  | inl same ↦
      let e : some x ≡ some t = sym (if_true _ same) ∙ h in
      let e' : x ≡ t = cc in subst (λ z. eqb_ℤ z.id i ≡ true) e' same
  | inr other ↦ find-id ts i t (sym (if_false _ other) ∙ h)
]

pub find-congr : (ts : List Template) (i j : ℤ) → eqb_ℤ i j ≡ true → find ts i ≡ find ts j
unfolding find
find-congr [] i j h = refl
find-congr (x ∷ ts) i j h = rw (eqb_ℤ-right x.id i j h, find-congr ts i j h)

without_found-congr :
    (ts : List Template) (i j : ℤ) → eqb_ℤ i j ≡ true → without_found ts i ≡ without_found ts j
unfolding without_found
without_found-congr [] i j h = refl
without_found-congr (x ∷ ts) i j h = rw (eqb_ℤ-right x.id i j h, without_found-congr ts i j h)

pub without_found-length :
    (ts : List Template) (i : ℤ) (t : Template)
    → find ts i ≡ some t
    → length ts ≡ suc (length (without_found ts i))
unfolding find without_found
without_found-length [] i t h = absurd (cc)
without_found-length (x ∷ ts) i t h = elim (Bool-cases (eqb_ℤ x.id i)) [
  | inl same ↦ ap (λ (l : List Template). suc (length l)) (sym (if_true {x = ts} _ same))
  | inr other ↦
      ap suc (without_found-length ts i t (sym (if_false _ other) ∙ h))
      ∙ ap (λ (l : List Template). suc (length l)) (sym (if_false _ other))
]

without_found-keeps :
    (P : Template → Type 0) (ts : List Template) (i : ℤ) → All P ts → All P (without_found ts i)
unfolding without_found
without_found-keeps P [] i h = tt
without_found-keeps P (x ∷ ts) i (h, hs) =
    if_elim (All P) (eqb_ℤ x.id i) (λ _. hs) λ _. (h, without_found-keeps P ts i hs)

-- What a successful removal leaves: the templates around the first one with the number `i`, in their
-- order, or no file when there are none.
pub record IsRemoved (np : Numpy) (ts : List Template) (i : ℤ) (f : FileState) : Type 0 where
  pub before : List Template
  pub target : Template
  pub after : List Template
  pub held : ts ≡ before ++ (target ∷ after)
  pub named : eqb_ℤ target.id i ≡ true
  pub first : All (λ t. eqb_ℤ t.id i ≡ false) before
  pub left : ((before ++ after ≡ []) × (f ≡ absent)) ⊎ (load_all np f ≡ ok (before ++ after))

without_found-split :
    (ts : List Template) (i : ℤ) (t : Template)
    → find ts i ≡ some t
    → (before : List Template) × (after : List Template) × (ts ≡ before ++ (t ∷ after))
      × (without_found ts i ≡ before ++ after)
      × All (λ x. eqb_ℤ x.id i ≡ false) before
unfolding find without_found
without_found-split [] i t h = absurd (cc)
without_found-split (x ∷ ts) i t h = elim (Bool-cases (eqb_ℤ x.id i)) [
  | inl same ↦
      let e : some x ≡ some t = sym (if_true _ same) ∙ h in
      let e' : x ≡ t = cc in ([], ts, ap (λ z. z ∷ ts) e', if_true _ same, tt)
  | inr other ↦
      let (before, after, held, left, first) =
        without_found-split ts i t (sym (if_false _ other) ∙ h) in
      (
        x ∷ before,
        after,
        ap (λ zs. x ∷ zs) held,
        if_false _ other ∙ ap (λ zs. x ∷ zs) left,
        (other, first),
      )
]

delete-absent : (f : FileState) → (delete f).0 ≡ ok tt → (delete f).1 ≡ absent
unfolding delete
delete-absent absent h = refl
delete-absent garbled h = refl
delete-absent (unreadable e) h = refl
delete-absent (json v) h = refl

save_or_delete-left :
    (np : Numpy) (ts : List Template) (f : FileState)
    → All (IsStorable np) ts
    → (save_or_delete ts f).0 ≡ ok tt
    → ((ts ≡ []) × ((save_or_delete ts f).1 ≡ absent))
      ⊎ (load_all np (save_or_delete ts f).1 ≡ ok ts)
unfolding save_or_delete
save_or_delete-left np [] f v h = inl (refl, delete-absent f h)
save_or_delete-left np (t ∷ ts) f v h = inr (load_all-save np (t ∷ ts) f (omega arith, v) h)

remove_found-IsRemoved :
    (np : Numpy) (ts : List Template) (target : Template) (f : FileState)
    (answer : String × Option Fields) (i : ℤ)
    → find ts i ≡ some target
    → All (IsStorable np) ts
    → (remove_found ts target f).0 ≡ ok answer
    → IsRemoved np ts i (remove_found ts target f).1
unfolding remove_found
remove_found-IsRemoved np ts target f answer i found v h =
    let named = find-id ts i target found in
    let same_left = without_found-congr ts target.id i named in
    let (before, after, held, left, first) = without_found-split ts i target found in
    let (u, done, same) = and_then-eq-ok (save_or_delete (without_found ts target.id) f) _ h in
    let kept : ((without_found ts target.id ≡ []) × ((remove_found ts target f).1 ≡ absent))
        ⊎ (load_all np (remove_found ts target f).1 ≡ ok (without_found ts target.id)) =
      rw (ap (λ (q : Change). q.1) same) (
        save_or_delete-left np (without_found ts target.id) f
          (without_found-keeps (IsStorable np) ts target.id v) done) in
    record {
      before = before;
      target = target;
      after = after;
      held = held;
      named = named;
      first = first;
      left =
          subst
            (λ (l : List Template).
              ((l ≡ []) × ((remove_found ts target f).1 ≡ absent))
              ⊎ (load_all np (remove_found ts target f).1 ≡ ok l))
            (same_left ∙ left) kept;
    }

-- A removal of a model that the file of storable templates holds, when it raises nothing, leaves in
-- the file the templates before and after the first one with that number, in their order, or deletes
-- the file when there are no others.
pub change_models-IsRemoved :
    (np : Numpy) (req : ManageRequest) (f : FileState) (ts : List Template) (i : ℤ)
    (target : Template) (answer : String × Option Fields)
    → load_all np f ≡ ok ts
    → All (IsStorable np) ts
    → req.kind ≡ models_remove
    → req.model ≡ some i
    → find ts i ≡ some target
    → (change_models np req f).0 ≡ ok answer
    → IsRemoved np ts i (change_models np req f).1
unfolding change_models after_load change_loaded remove_model find_model remove_target
change_models-IsRemoved np req f ts i target answer loaded v kind model found h =
    let run : change_models np req f ≡ remove_found ts target f =
      ap (after_load req.kind req.model f) loaded
      ∙ ap (λ k. change_loaded k req.model ts f) kind
      ∙ ap (λ m. remove_model ts m f) model
      ∙ ap (remove_target ts f) found in
    subst (λ (q : Change). IsRemoved np ts i q.1) (sym run)
      (remove_found-IsRemoved np ts target f answer i found v
        (ap (λ (q : Change). q.0) (sym run) ∙ h))
