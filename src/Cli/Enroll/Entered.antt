-- ===== src/Cli/Enroll/Entered.antt =====
-- What an enrolment at the terminal leaves.
use secure_eye.Prelude.{
  String, ◌≡◌, refl, sym, ap, ◌∙◌, subst, ◌⊎◌, inl, inr, false, not, ◌||◌, Option, none, some,
  eq_iff, str_eq, pair_eq,
}
use secure_eye.Python.{
  Exc, system_exit, Result, err, ok, require, >>=-eq-ok, require-true, ok-injective,
}
use secure_eye.Auth.Enrollment.{EnrollResult, Capture, capture, store}
use secure_eye.Auth.Pipeline.{Bundle}
use secure_eye.Auth.Template.{Row, Template, vector}
use secure_eye.Auth.TemplateStore.{
  FileState, peek_next_id, load_all, Enrolled, append, replace_space,
}
use secure_eye.Auth.TemplateStore.Enrolling.{append_fails, replace_space_fails}
use secure_eye.Cli.{Ending, succeeded, Args}
use secure_eye.Cli.Enroll.{
  Booth, quit, ask_label, load_pipeline, capture_embedding, add, re_enroll, loading_error, on_error,
  or_none, unreadable_error, ending_from, of_space, captured_row, entry_of, add_entry,
  replacing_entry, store_entry,
}
use secure_eye.Cli.Labels.{has_comma, has_comma-without_commas}

captured_row-success :
    (result : EnrollResult) (embedding : Option Row) (row : Row)
    → captured_row result embedding ≡ ok row
    → (result ≡ EnrollResult.success) × (embedding ≡ some row)
unfolding captured_row
captured_row-success EnrollResult.success (some x) row h = (refl, ap some (ok-injective h))
captured_row-success EnrollResult.success none row h = absurd (cc)
captured_row-success _ _ row h = absurd (cc)

on_error-ok :
    {A : Type 0} (handle : Exc → Exc) (r : Result A) (a : A) → on_error handle r ≡ ok a → r ≡ ok a
unfolding on_error
on_error-ok handle (ok x) a h = h
on_error-ok handle (err e) a h = absurd (cc)

module _ {Frame Face : Type 0} (b : Booth Frame Face) where
  -- The entry is of the configured space, which the stages that were loaded produce, its label has no
  -- comma, and its row is one that a capture with these stages found.
  pub record IsProper (entry : Enrolled) : Type 0 where
    pub stages : Bundle Frame Face
    pub loaded : b.stages ≡ ok stages
    pub same_space : stages.space ≡ entry.model_id
    pub found : Capture
    pub row : Row
    pub in_space : b.space ≡ ok entry.model_id
    pub no_comma : has_comma entry.label ≡ false
    pub captured : capture stages b.turns false ≡ ok found
    pub succeeded_with : (found.result ≡ EnrollResult.success) × (found.embedding ≡ some row)
    pub holds_row : entry.embeddings ≡ vector row

  -- The store returned a template for a proper entry, and left the file.
  pub record IsEntered (store : Enrolled → FileState → Result Template × FileState) (f : FileState)
      (q : Ending × FileState) : Type 0 where
    pub entry : Enrolled
    pub template : Template
    pub proper : IsProper entry
    pub returned : (store entry f).0 ≡ ok template
    pub left : q ≡ (succeeded none, (store entry f).1)

  ask_label-has_comma :
      (args : Args) (typed default : String) → has_comma (ask_label args typed default) ≡ false
  unfolding ask_label
  ask_label-has_comma args typed default = has_comma-without_commas _

  load_pipeline-ok :
      (stages : Bundle Frame Face) (space : String)
      → load_pipeline b ≡ ok stages
      → b.space ≡ ok space
      → (b.stages ≡ ok stages) × (stages.space ≡ space)
  unfolding load_pipeline
  load_pipeline-ok stages space h in_space =
      let (s, held, h1) = >>=-eq-ok (on_error loading_error b.stages) _ h in
      let (expected, known, h2) = >>=-eq-ok b.space _ h1 in
      let (_, same, h3) = >>=-eq-ok (require (str_eq s.space expected) quit) _ h2 in
      let one : s ≡ stages = ok-injective h3 in
      let two : expected ≡ space = ok-injective (sym known ∙ in_space) in
      (
        on_error-ok loading_error b.stages stages (held ∙ ap ok one),
        ap (λ (x : Bundle Frame Face). x.space) (sym one)
            ∙ (eq_iff s.space expected).0 (require-true _ quit same)
            ∙ two,
      )

  entry_of-IsProper :
      (args : Args) (stages : Bundle Frame Face) (space default : String) (row : Row)
      → load_pipeline b ≡ ok stages
      → b.space ≡ ok space
      → capture_embedding b stages ≡ ok row
      → IsProper (entry_of b space (ask_label args b.typed default) row)
  unfolding capture_embedding
  entry_of-IsProper args stages space default row piped in_space h =
      let (c, captured, h1) = >>=-eq-ok (capture stages b.turns false) _ h in
      record {
        stages = stages;
        loaded = (load_pipeline-ok stages space piped in_space).0;
        same_space = (load_pipeline-ok stages space piped in_space).1;
        found = c;
        row = row;
        in_space = in_space;
        no_comma = ask_label-has_comma args b.typed default;
        captured = captured;
        succeeded_with = captured_row-success c.result c.embedding row h1;
        holds_row = refl;
      }

  add_entry-IsProper :
      (args : Args) (f : FileState) (entry : Enrolled)
      → add_entry b args f ≡ ok entry
      → IsProper entry
  unfolding add_entry
  add_entry-IsProper args f entry h =
      let (stages, piped, h1) = >>=-eq-ok (load_pipeline b) _ h in
      let (space, in_space, h2) = >>=-eq-ok b.space _ h1 in
      let (_, _, h3) = >>=-eq-ok b.folder _ h2 in
      let (templates, _, h4) = >>=-eq-ok (or_none (load_all b.numpy f)) _ h3 in
      let (id, _, h5) = >>=-eq-ok (peek_next_id templates f) _ h4 in
      let (row, seen, h6) = >>=-eq-ok (capture_embedding b stages) _ h5 in
      subst IsProper (ok-injective h6)
        (entry_of-IsProper args stages space _ row piped in_space seen)

  replacing_entry-IsProper :
      (args : Args) (f : FileState) (entry : Enrolled)
      → replacing_entry b args f ≡ ok entry
      → IsProper entry
  unfolding replacing_entry
  replacing_entry-IsProper args f entry h =
      let (space, in_space, h1) = >>=-eq-ok b.space _ h in
      let (templates, _, h2) = >>=-eq-ok (on_error unreadable_error (load_all b.numpy f)) _ h1 in
      let (_, _, h3) =
        >>=-eq-ok
          (require (not (of_space space templates) || args.skips_questions || args.says_yes) quit) _
          h2 in
      let (stages, piped, h4) = >>=-eq-ok (load_pipeline b) _ h3 in
      let (_, _, h5) = >>=-eq-ok b.folder _ h4 in
      let (id, _, h6) = >>=-eq-ok (peek_next_id templates f) _ h5 in
      let (row, seen, h7) = >>=-eq-ok (capture_embedding b stages) _ h6 in
      subst IsProper (ok-injective h7)
        (entry_of-IsProper args stages space _ row piped in_space seen)

  ending_from-file : {A : Type 0} (q : Result A × FileState) → (ending_from q).1 ≡ q.1
  unfolding ending_from
  ending_from-file (ok a, f) = refl
  ending_from-file (err (system_exit n), f) = refl
  ending_from-file (err _, f) = refl

  store_entry-IsEntered :
      (store : Enrolled → FileState → Result Template × FileState) (plan : Result Enrolled)
      (f : FileState)
      → ((e : Enrolled) (x : Exc) → (store e f).0 ≡ err x → (store e f).1 ≡ f)
      → ((e : Enrolled) → plan ≡ ok e → IsProper e)
      → ((store_entry b store plan f).1 ≡ f) ⊎ IsEntered store f (store_entry b store plan f)
  unfolding store_entry
  store_entry-IsEntered store (err e) f fails proper =
      inl (ending_from-file {A = Template} (err e, f))
  store_entry-IsEntered store (ok entry) f fails proper = of_result (store entry f).0 refl
    where
      of_result :
          (r : Result Template)
          → (store entry f).0 ≡ r
          → ((ending_from (store entry f)).1 ≡ f) ⊎ IsEntered store f (ending_from (store entry f))
      of_result (err x) h = inl (ending_from-file (store entry f) ∙ fails entry x h)
      of_result (ok t) h = inr (record {
        entry = entry;
        template = t;
        proper = proper entry refl;
        returned = h;
        left = ap (ending_from {A = Template}) (pair_eq h);
      })

  -- `add` leaves the file as it was, or it ends without an exit code after the store's `append`
  -- returned a template for a row that a capture with the loaded stages found, in the configured
  -- space, which is that of these stages, and under a label without commas.
  pub add-IsEntered :
      (args : Args) (f : FileState)
      → ((add b args f).1 ≡ f) ⊎ IsEntered (append b.numpy) f (add b args f)
  unfolding add
  add-IsEntered args f =
      store_entry-IsEntered (append b.numpy) (add_entry b args f) f
        (λ e x h. append_fails b.numpy e f x h) (add_entry-IsProper args f)

  -- The same of `re_enroll` and `replace_space`.
  pub re_enroll-IsEntered :
      (args : Args) (f : FileState)
      → ((re_enroll b args f).1 ≡ f) ⊎ IsEntered (replace_space b.numpy) f (re_enroll b args f)
  unfolding re_enroll
  re_enroll-IsEntered args f =
      store_entry-IsEntered (replace_space b.numpy) (replacing_entry b args f) f
        (λ e x h. replace_space_fails b.numpy e f x h) (replacing_entry-IsProper args f)
