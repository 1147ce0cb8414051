-- ===== src/Auth/Probe/Outcome.antt =====
-- What the outcome of a probe says about its user's templates.
use secure_eye.Prelude.{ℕ, ◌≤◌, ◌≡◌, refl, subst, ◌⊎◌, inl, inr, List, arith}
use secure_eye.Python.{
  template_file_not_found, empty_template_store, template_space_mismatch, template_schema_error,
  Result, err, ok, ◌>>=◌, >>=-eq-ok, ok-injective,
}
use secure_eye.Auth.Pipeline.{Pipeline, create}
use secure_eye.Auth.Probe.{
  ProbeResult, ProbeOutcome, outcome_only, ProbeTurn, nothing_yet, probe_loop, ProbeSetup,
  conclude_probe, run_probe, probe_with, probe_templates,
}
use secure_eye.Auth.Probe.Matches.{Backed, probe_loop-IsBacked}
use secure_eye.Auth.Template.{TemplateSet}
use secure_eye.Auth.TemplateStore.{load}

module _ {Frame Face : Type 0} (setup : ProbeSetup Frame Face) where
  -- As many turns as were counted read a usable frame in which a face matched the user's templates.
  pub record IsRecognised (turns : List (ProbeTurn Frame)) (matched : ℕ) : Type 0 where
    pub templates : TemplateSet
    pub pipeline : Pipeline Frame Face
    pub loaded : (setup.space >>= λ space. load setup.numpy space setup.model_file) ≡ ok templates
    pub made : create setup.numerics setup.bundle templates setup.certainty ≡ ok pipeline
    pub seen : Backed pipeline turns matched

  -- The counts are bounded, and a match is counted only for a recognised user.
  pub record IsProbed (turns : List (ProbeTurn Frame)) (o : ProbeOutcome) : Type 0 where
    pub fewer : o.matched_frames ≤ o.frames
    pub shown : (o.matched_frames ≡ 0) ⊎ IsRecognised turns o.matched_frames

  only-IsProbed :
      (turns : List (ProbeTurn Frame)) (result : ProbeResult) (o : ProbeOutcome)
      → ok (outcome_only result) ≡ ok o
      → IsProbed turns o
  only-IsProbed turns result o h =
      subst (IsProbed turns) (ok-injective h) (record { fewer = omega arith; shown = inl refl })

  probe_with-IsProbed :
      (turns : List (ProbeTurn Frame)) (templates : TemplateSet) (r : Result (Pipeline Frame Face))
      (o : ProbeOutcome)
      → (setup.space >>= λ space. load setup.numpy space setup.model_file) ≡ ok templates
      → create setup.numerics setup.bundle templates setup.certainty ≡ r
      → probe_with setup turns r ≡ ok o
      → IsProbed turns o
  unfolding probe_with conclude_probe
  probe_with-IsProbed turns templates (err _) o loaded made h = only-IsProbed turns _ o h
  probe_with-IsProbed turns templates (ok pipeline) o loaded made h =
      let (_, _, h1) = >>=-eq-ok setup.camera _ h in
      let (p, run, h2) = >>=-eq-ok (probe_loop pipeline turns nothing_yet) _ h1 in
      let backed = probe_loop-IsBacked pipeline turns p run in
      subst (IsProbed turns) (ok-injective h2) (record {
        fewer = backed.fewer;
        shown = inr (record {
          templates = templates;
          pipeline = pipeline;
          loaded = loaded;
          made = made;
          seen = backed.shown;
        });
      })

  probe_templates-IsProbed :
      (turns : List (ProbeTurn Frame)) (r : Result TemplateSet) (o : ProbeOutcome)
      → (setup.space >>= λ space. load setup.numpy space setup.model_file) ≡ r
      → probe_templates setup turns r ≡ ok o
      → IsProbed turns o
  unfolding probe_templates
  probe_templates-IsProbed turns (ok templates) o loaded h =
      probe_with-IsProbed turns templates _ o loaded refl h
  probe_templates-IsProbed turns (err template_space_mismatch) o loaded h =
      only-IsProbed turns _ o h
  probe_templates-IsProbed turns (err template_file_not_found) o loaded h =
      only-IsProbed turns _ o h
  probe_templates-IsProbed turns (err empty_template_store) o loaded h = only-IsProbed turns _ o h
  probe_templates-IsProbed turns (err template_schema_error) o loaded h = only-IsProbed turns _ o h
  probe_templates-IsProbed turns (err _) o loaded h = absurd (cc)

  -- The outcome of a probe that raises nothing counts at most as many matched frames as frames, and
  -- for each frame that it counts as matched a turn of its own read a usable frame in which a face
  -- was accepted by the pipeline over the templates that were loaded for the user.
  pub run_probe-IsProbed :
      (turns : List (ProbeTurn Frame)) (o : ProbeOutcome)
      → run_probe setup turns ≡ ok o
      → IsProbed turns o
  unfolding run_probe
  run_probe-IsProbed turns o h = probe_templates-IsProbed turns _ o refl h
