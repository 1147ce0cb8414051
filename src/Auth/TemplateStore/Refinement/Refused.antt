-- ===== src/Auth/TemplateStore/Refinement/Refused.antt =====
-- secureEye/src/auth/template_store.py: when `append`, `replace_space` and `save` raise.
use secure_eye.Prelude.{◌≡◌, refl, sym, ap, ◌∙◌, List, [], ◌∷◌, ◌++◌}
use secure_eye.Prelude.Int.{ℤ, max_ℤ}
use secure_eye.Python.{Exc, Result, err, ok, ◌>>=◌}
use secure_eye.Auth.Template.{Template, Numpy, next_id}
use secure_eye.Auth.TemplateStore.{
  FileState, stored_next_id, peek_next_id, save, load_or_empty, Enrolled, build, add_plan,
  add_template, save_plan,
}
use secure_eye.Auth.TemplateStore.Refinement.{Holds}

-- `save` raises only where the mark cannot be read.
pub save-returns :
    (ts : List Template) (f : FileState) (m : ℤ) → stored_next_id f ≡ ok m → (save ts f).0 ≡ ok tt
unfolding save
save-returns ts f m known = rw known refl

module _ (np : Numpy) (kept : List Template → List Template) (e : Enrolled) (f : FileState) where
  add_plan-build :
      (ts : List Template) (m : ℤ)
      → load_or_empty np f ≡ ok ts
      → stored_next_id f ≡ ok m
      → add_plan np kept e f ≡ (build (max_ℤ (next_id ts) m) e >>= λ t. ok (t, kept ts ++ (t ∷ [])))
  unfolding add_plan peek_next_id
  add_plan-build ts m loaded known = rw (loaded, known) refl

  planned-returns :
      (t : Template) (ts : List Template) (m : ℤ)
      → stored_next_id f ≡ ok m
      → add_plan np kept e f ≡ ok (t, ts)
      → (add_template np kept e f).0 ≡ ok t
  unfolding add_template save_plan save
  planned-returns t ts m known planned = rw (planned, known) refl

  -- On a file that holds templates a call raises only if no template can be built.
  pub add_template-refused :
      (ts : List Template) (x : Exc)
      → Holds np f ts
      → (add_template np kept e f).0 ≡ err x
      → (id : ℤ) × (y : Exc) × (build id e ≡ err y)
  add_template-refused ts x h refused =
      let (m, known) = h.mark in
      let id = max_ℤ (next_id ts) m in by_build m known id refl (build id e) refl
    where
      by_build :
          (m : ℤ)
          → stored_next_id f ≡ ok m
          → (id : ℤ) → id ≡ max_ℤ (next_id ts) m
          → (r : Result Template) → build id e ≡ r
          → (id : ℤ) × (y : Exc) × (build id e ≡ err y)
      by_build m known id same (err y) made = (id, y, made)
      by_build m known id same (ok t) made =
          let planned : add_plan np kept e f ≡ ok (t, kept ts ++ (t ∷ [])) =
            add_plan-build ts m h.loaded known
            ∙ ap (λ (i : ℤ). build i e >>= λ u. ok (u, kept ts ++ (u ∷ []))) (sym same)
            ∙ ap (λ r. r >>= λ u. ok (u, kept ts ++ (u ∷ []))) made in
          let returns = planned-returns t (kept ts ++ (t ∷ [])) m known planned in
          absurd (cc (returns, refused))
