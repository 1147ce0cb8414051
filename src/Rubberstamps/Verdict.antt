-- ===== src/Rubberstamps/Verdict.antt =====
-- What the stamps decide.
use secure_eye.Prelude.{
  String, ◌≡◌, refl, ap, ◌∙◌, true, false, some, List, [], ◌∷◌, ◌++◌, leb, if_true, if_false, All,
}
use secure_eye.Python.{Exc, system_exit, Result, err, ok, ◌>>=◌, is_exception, Float, text_length}
use secure_eye.Rubberstamps.{
  Answer, refuses, Options, Stamp, Rule, Toolbox, read_settings, apply_rule, execute,
  initial_options, dropped, judge, configured, with_stamp, with_rule,
}

-- The rule names a stamp that is installed and configured, and `run` gives `answer`.
pub record IsRun (tools : Toolbox) (line : String) (answer : Result Answer) : Type 0 where
  pub rule : Rule
  pub stamp : Stamp
  pub seconds : Float
  pub declared : Options
  pub options : Options
  pub long : leb (text_length (tools.strip line)) 1 ≡ false
  pub parsed : tools.parse_rule (tools.strip line) ≡ some rule
  pub installed : tools.is_installed rule.kind ≡ true
  pub made : tools.make rule.kind ≡ ok (some stamp)
  pub timed : tools.timeout_of rule.timeout_text ≡ ok seconds
  pub accepts : stamp.declare_config (initial_options tools rule seconds) ≡ ok declared
  pub settled : read_settings tools rule.settings declared ≡ ok options
  pub ran : stamp.run options ≡ answer

module _ {A B : Type 0} where
  >>=-ok : (m : Result A) (f : A → Result B) (a : A) → m ≡ ok a → m >>= f ≡ f a
  >>=-ok m f a h = ap (λ r. r >>= f) h

module _ (tools : Toolbox) where
  apply_rule-judge :
      (line : String) (answer : Result Answer)
      → IsRun tools line answer
      → apply_rule tools line ≡ judge tools answer
  unfolding apply_rule with_rule with_stamp configured
  apply_rule-judge line answer h =
      if_false _ h.long
      ∙ ap (with_rule tools) h.parsed
      ∙ if_true _ h.installed
      ∙ >>=-ok (tools.make h.rule.kind) _ (some h.stamp) h.made
      ∙ >>=-ok (tools.timeout_of h.rule.timeout_text) _ h.seconds h.timed
      ∙ ap (configured tools h.rule h.stamp) h.accepts
      ∙ >>=-ok (read_settings tools h.rule.settings h.declared) _ h.options h.settled
      ∙ ap (judge tools) h.ran

  execute-append :
      (before : List String) (line : String) (after : List String)
      → All (λ l. apply_rule tools l ≡ ok tt) before
      → execute tools (before ++ (line ∷ after))
        ≡ (apply_rule tools line >>= λ _. execute tools after)
  unfolding execute
  execute-append [] line after h = refl
  execute-append (b ∷ before) line after (h, hs) =
      >>=-ok (apply_rule tools b) _ tt h ∙ execute-append before line after hs

  -- When the rules before it let the login pass, a stamp whose `run` returns `False` ends the login
  -- with the code 15, whatever rules follow.
  pub execute-refused :
      (before : List String) (line : String) (after : List String)
      → All (λ l. apply_rule tools l ≡ ok tt) before
      → IsRun tools line (ok refuses)
      → execute tools (before ++ (line ∷ after)) ≡ err (system_exit 15)
  unfolding judge
  execute-refused before line after h ran =
      execute-append before line after h
      ∙ ap (λ r. r >>= λ _. execute tools after) (apply_rule-judge line (ok refuses) ran)

  judge-dropped : (e : Exc) → is_exception e ≡ true → judge tools (err e) ≡ ok tt
  unfolding judge dropped
  judge-dropped e h = if_true _ h

  -- Rules whose stamps each raise some `Exception` in `run` end with the code 0: the login passes.
  pub execute-crashed :
      (lines : List String)
      → All (λ l. (e : Exc) × (is_exception e ≡ true) × IsRun tools l (err e)) lines
      → execute tools lines ≡ err (system_exit 0)
  unfolding execute
  execute-crashed [] crashed = refl
  execute-crashed (l ∷ lines) ((e, h, r), crashed) =
      >>=-ok (apply_rule tools l) _ tt (apply_rule-judge l (err e) r ∙ judge-dropped e h)
      ∙ execute-crashed lines crashed
