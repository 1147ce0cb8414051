-- ===== src/Auth/Session/Login.antt =====
-- When `AuthSession.run` returns 0.
use secure_eye.Prelude.{
  ℕ, String, ◌≡◌, refl, sym, ap, ◌∙◌, inl, inr, false, Option, none, some, List, arith, str_eq,
  Bool-cases, if_false, get_elem?,
}
use secure_eye.Python.{Result, err, ok}
use secure_eye.Auth.Pipeline.{Bundle, Pipeline, create}
use secure_eye.Auth.Session.{
  Turn, Progress, started, Setup, load_templates, run, load_code, with_camera, with_pipeline,
  with_stages, with_templates,
}
use secure_eye.Auth.Session.Success.{IsWinning, run_loop-success}
use secure_eye.Auth.Template.{TemplateSet}

-- What a successful login has met: a named user with templates in the recognizer's space, and a turn
-- with an accepted face.
pub record IsLogin {Frame Face : Type 0} (setup : Setup Frame Face) (user : String)
    (turns : List (Turn Frame)) : Type 0 where
  pub named : str_eq user "" ≡ false
  pub templates : TemplateSet
  pub bundle : Bundle Frame Face
  pub pipeline : Pipeline Frame Face
  pub loaded : load_templates setup ≡ ok templates
  pub staged : setup.stages ≡ some bundle
  pub created : create setup.numerics bundle templates setup.certainty ≡ ok pipeline
  pub place : ℕ
  pub last : Turn Frame
  pub at_place : get_elem? turns place ≡ some last
  pub won : IsWinning pipeline setup.stamps last

module _ {Frame Face : Type 0} (setup : Setup Frame Face) (turns : List (Turn Frame)) where
  with_camera-success :
      (pipeline : Pipeline Frame Face) (r : Result (Unit {0}))
      → (with_camera setup pipeline turns r).0 ≡ some (ok 0)
      → (i : ℕ) × (t : Turn Frame) × (get_elem? turns i ≡ some t)
        × IsWinning pipeline setup.stamps t
  unfolding with_camera
  with_camera-success pipeline (ok _) h = run_loop-success pipeline setup.stamps turns started h
  with_camera-success pipeline (err e) h = absurd (cc)

  with_pipeline-success :
      (r : Result (Pipeline Frame Face))
      → (with_pipeline setup turns r).0 ≡ some (ok 0)
      → (pipeline : Pipeline Frame Face) × (r ≡ ok pipeline)
        × ((with_camera setup pipeline turns setup.camera).0 ≡ some (ok 0))
  unfolding with_pipeline
  with_pipeline-success (ok pipeline) h = (pipeline, refl, h)
  with_pipeline-success (err e) h = absurd (ground arith)

  with_stages-success :
      (templates : TemplateSet) (stages : Option (Bundle Frame Face))
      → (with_stages setup templates turns stages).0 ≡ some (ok 0)
      → (bundle : Bundle Frame Face) × (stages ≡ some bundle)
        × ((with_pipeline setup turns (create setup.numerics bundle templates setup.certainty)).0
            ≡ some (ok 0))
  unfolding with_stages
  with_stages-success templates none h = absurd (ground arith)
  with_stages-success templates (some bundle) h = (bundle, refl, h)

  with_templates-success :
      (r : Result TemplateSet)
      → (with_templates setup turns r).0 ≡ some (ok 0)
      → (templates : TemplateSet) × (r ≡ ok templates)
        × ((with_stages setup templates turns setup.stages).0 ≡ some (ok 0))
  unfolding with_templates load_code
  with_templates-success (ok templates) h = (templates, refl, h)
  with_templates-success (err e) h = absurd (ground arith)

  -- A run that returns 0 is one for a named user whose templates were loaded for the space of the
  -- recognizer that made the pipeline, and one of its turns met a usable frame with an accepted
  -- face and stamps that let it pass.
  pub run-IsLogin :
      (user : String) → (run setup user turns).0 ≡ some (ok 0) → IsLogin setup user turns
  unfolding run
  run-IsLogin user h = elim (Bool-cases (str_eq user "")) [
    | inl empty ↦ absurd (ground arith)
    | inr named ↦
        let h1 = ap (λ (q : Option (Result ℕ) × Progress). q.0) (sym (if_false _ named)) ∙ h in
        let (templates, loaded, h2) = with_templates-success (load_templates setup) h1 in
        let (bundle, staged, h3) = with_stages-success templates setup.stages h2 in
        let (pipeline, created, h4) = with_pipeline-success _ h3 in
        let (i, t, at_i, won) = with_camera-success pipeline setup.camera h4 in
        record {
          named = named;
          templates = templates;
          bundle = bundle;
          pipeline = pipeline;
          loaded = loaded;
          staged = staged;
          created = created;
          place = i;
          last = t;
          at_place = at_i;
          won = won;
        }
  ]
