-- ===== src/Authd/Sessions/Filed.antt =====
-- What a camera session does to the model file.
use secure_eye.Prelude.{
  ℕ, ◌+◌, ◌≡◌, refl, sym, ap, ◌∙◌, subst, ◌⊎◌, inl, inr, Bool, true, Option, none, some, List, [],
  ◌∷◌, if_elim,
}
use secure_eye.Python.{Exc, Result, err, ok, and_then, is_exception, and_then-keeps}
use secure_eye.Auth.Enrollment.{enroll_user}
use secure_eye.Auth.Enrollment.Written.{IsStored, enroll_user-Written}
use secure_eye.Auth.TemplateStore.{FileState}
use secure_eye.Authd.Messages.{
  Event, began, shown, Service, write_with, send, send_result, message_to,
}
use secure_eye.Authd.Requests.{
  Kind, models_list, models_remove, models_clear, enroll, test, ManageRequest,
}
use secure_eye.Authd.Sessions.{
  Shot, Outcome, SessionRun, Studio, send_frame, report_all, camera_session, run_session,
  make_preview, after_report, leave_file, give_camera_back, answer_busy, at_camera, unlock_models,
  with_models, tell,
}
use secure_eye.Authd.Sessions.Runs.{EnrollScene, desk_of, enroll_run, enroll_run-file}

write_with-file :
    (e : Event) (s : Service) (faults : List (Option Exc)) → (write_with e s faults).1.file ≡ s.file
unfolding write_with
write_with-file e s [] = refl
write_with-file e s (none ∷ later) = refl
write_with-file e s (some x ∷ later) = refl

send-file : (e : Event) (s : Service) → (send e s).1.file ≡ s.file
unfolding send
send-file e s = write_with-file e s s.write_faults

module _ {Frame : Type 0} (studio : Studio Frame) where
  send_frame-file :
      (req : ManageRequest) (last : ℕ) (shot : Shot Frame) (s : Service)
      → (send_frame studio req last shot s).1.file ≡ s.file
  unfolding send_frame
  send_frame-file req last shot s =
      and_then-keeps (λ (x : Service). x.file ≡ s.file) (make_preview studio req last shot, s) _
        refl
        λ seen s₁ h.
          and_then-keeps (λ (x : Service). x.file ≡ s.file)
            (send (shown req.id shot.content seen.0) s₁) _
            (send-file (shown req.id shot.content seen.0) s₁ ∙ h) λ _ s₂ k. k

  after_report-file :
      (count : ℕ) (q : Result ℕ × Service) (rest : ℕ → Service → Result (ℕ × Bool) × Service)
      → ((last : ℕ) (s : Service) → (rest last s).1.file ≡ s.file)
      → (after_report studio count q rest).1.file ≡ q.1.file
  unfolding after_report
  after_report-file count (ok last, s) rest same = same last s
  after_report-file count (err e, s) rest same =
      if_elim (λ (x : Result (ℕ × Bool) × Service). x.1.file ≡ s.file) (is_exception e) (λ _. refl)
        λ _. refl

  report_all-file :
      (req : ManageRequest) (shots : List (Shot Frame)) (count last : ℕ) (s : Service)
      → (report_all studio req shots count last s).1.file ≡ s.file
  unfolding report_all
  report_all-file req [] count last s = refl
  report_all-file req (shot ∷ shots) count last s =
      after_report-file count (send_frame studio req last shot s) _
        (report_all-file req shots (count + 1))
      ∙ send_frame-file req last shot s

module _ {Frame : Type 0} (studio : Studio Frame) (run : SessionRun Frame) (f : FileState) where
  -- The file is as it was, or as the session's `run` left it.
  unfoldable pub Filed : FileState → Type 0
  Filed g = (g ≡ f) ⊎ ((count : ℕ) × (cut : Bool) × (g ≡ (run.finish count cut f).1))

  and_then-Filed :
      {A B : Type 0} (p : Result A × Service) (rest : A → Service → Result B × Service)
      → p.1.file ≡ f
      → ((a : A) (s : Service) → s.file ≡ f → Filed (rest a s).1.file)
      → Filed (and_then p rest).1.file
  unfolding Filed
  and_then-Filed (ok a, s) rest same kept = kept a s same
  and_then-Filed (err e, s) rest same kept = inl same

  leave_file-Filed :
      (count : ℕ) (cut : Bool) (s : Service)
      → s.file ≡ f
      → Filed (leave_file studio s (run.finish count cut s.file)).1.file
  unfolding leave_file Filed
  leave_file-Filed count cut s same =
      inr (count, cut, ap (λ (g : FileState). (run.finish count cut g).1) same)

  run_session-Filed :
      (req : ManageRequest) (s : Service) → s.file ≡ f → Filed (run_session studio req run s).1.file
  unfolding run_session
  run_session-Filed req s same =
      and_then-Filed (send (began req.id) s) _ (send-file (began req.id) s ∙ same) λ _ s₁ h₁.
        and_then-Filed (run.watcher, s₁) _ h₁
          λ _ s₂ h₂.
            and_then-Filed (report_all studio req run.shots 0 0 s₂) _
              (report_all-file studio req run.shots 0 0 s₂ ∙ h₂)
              λ seen s₃ h₃. leave_file-Filed seen.0 seen.1 s₃ h₃

  give_camera_back-file :
      (q : Result Outcome × Service) → (give_camera_back studio q).1.file ≡ q.1.file
  unfolding give_camera_back
  give_camera_back-file (ok o, s) = refl
  give_camera_back-file (err e, s) = refl

  answer_busy-Filed :
      (req : ManageRequest) (s : Service) → s.file ≡ f → Filed (answer_busy studio req s).1.file
  unfolding answer_busy Filed
  answer_busy-Filed req s same =
      and_then-Filed (send_result (message_to req "busy" none) s) _ (send-file _ s ∙ same)
        λ _ s₁ h. inl h

  at_camera-Filed :
      (req : ManageRequest) (s : Service) → s.file ≡ f → Filed (at_camera studio req run s).1.file
  unfolding at_camera
  at_camera-Filed req s same =
      if_elim (λ (q : Result (Option Outcome) × Service). Filed q.1.file) s.camera_free
        (λ _.
          subst Filed
            (sym (
              give_camera_back-file (run_session studio req run (record s { camera_held = true }))))
            (run_session-Filed req (record s { camera_held = true }) same))
        λ _. answer_busy-Filed req s same

  with_models-Filed :
      (kind : Kind) (req : ManageRequest) (s : Service)
      → s.file ≡ f
      → Filed (with_models studio kind req run s).1.file
  unfolding with_models unlock_models
  with_models-Filed enroll req s same =
      if_elim (λ (q : Result (Option Outcome) × Service). Filed q.1.file) s.lock_free
        (λ _. at_camera-Filed req (record s { lock_held = true }) same)
        λ _. answer_busy-Filed req s same
  with_models-Filed models_list req s same = at_camera-Filed req s same
  with_models-Filed models_remove req s same = at_camera-Filed req s same
  with_models-Filed models_clear req s same = at_camera-Filed req s same
  with_models-Filed test req s same = at_camera-Filed req s same

  tell-file :
      (req : ManageRequest) (o : Option Outcome) (s : Service)
      → (tell studio req run o s).1.file ≡ s.file
  unfolding tell
  tell-file req none s = refl
  tell-file req (some o) s = send-file _ s

  camera_session-Filed :
      (req : ManageRequest) (s : Service)
      → studio.prepare req ≡ ok run
      → s.file ≡ f
      → Filed (camera_session studio req s).1.file
  unfolding camera_session
  camera_session-Filed req s prepared same =
      subst
        (λ (r : Result (SessionRun Frame)).
          Filed
            (and_then (r, s)
              λ run₁ s₁.
                and_then (with_models studio req.kind req run₁ s₁)
                  λ o s₂. tell studio req run₁ o s₂).1.file)
        (sym prepared)
        (and_then-keeps (λ (x : Service). Filed x.file) (with_models studio req.kind req run s)
          (λ o s₂. tell studio req run o s₂) (with_models-Filed req.kind req s same)
          λ o s₂ h. subst Filed (sym (tell-file req o s₂)) h)

-- A camera session whose request enrolls leaves the model file as it was, or its enrolment succeeded
-- with the template that the store returned, and the file is the one that the store left.
pub camera_session-Written :
    {Frame Face : Type 0} (studio : Studio Frame) (scene : EnrollScene Frame Face)
    (req : ManageRequest) (s : Service)
    → studio.prepare req ≡ ok (enroll_run scene req)
    → ((camera_session studio req s).1.file ≡ s.file)
      ⊎ ((count : ℕ) × (cut : Bool) × IsStored scene.bundle
            (desk_of scene count cut)
            req.replace
            s.file
            (enroll_user scene.bundle (desk_of scene count cut) req.label req.replace s.file)
          × ((camera_session studio req s).1.file
              ≡ (enroll_user scene.bundle
                  (desk_of scene count cut)
                  req.label
                  req.replace
                  s.file).1))
unfolding Filed
camera_session-Written studio scene req s prepared =
    elim (camera_session-Filed studio (enroll_run scene req) s.file req s prepared refl) [
      | inl same ↦ inl same
      | inr (count, cut, left) ↦
          let left = left ∙ enroll_run-file scene req count cut s.file in
          elim (enroll_user-Written scene.bundle (desk_of scene count cut) req.label req.replace
            s.file) [ inl same ↦ inl (left ∙ same) | inr stored ↦ inr (count, cut, stored, left) ]
    ]
