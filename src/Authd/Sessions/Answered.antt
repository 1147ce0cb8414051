-- ===== src/Authd/Sessions/Answered.antt =====
-- What a camera session answers, and what it gives back.
use secure_eye.Prelude.{
  ℕ, ◌+◌, ◌≡◌, refl, sym, ◌∙◌, Bool, true, false, Option, none, some, List, [], ◌∷◌, arith, if_elim,
}
use secure_eye.Python.{Result, err, ok, and_then, is_exception}
use secure_eye.Auth.TemplateStore.{FileState}
use secure_eye.Authd.Messages.{result_of, began, shown, Service, send, message_to}
use secure_eye.Authd.Messages.Sent.{
  answers, IsAfter, same-IsAfter, Sends, after-Sends, and_then-Sends, raise-Sends, sent-Sends,
  send-Sends,
}
use secure_eye.Authd.Requests.{
  Kind, models_list, models_remove, models_clear, enroll, test, ManageRequest,
}
use secure_eye.Authd.Sessions.{
  Shot, Outcome, SessionRun, Studio, send_frame, report_all, camera_session, make_preview,
  after_report, leave_file, run_session, give_camera_back, answer_busy, at_camera, unlock_models,
  with_models, tell,
}

module _ {Frame : Type 0} (studio : Studio Frame) where
  send_frame-Sends :
      (req : ManageRequest) (last : ℕ) (shot : Shot Frame) (s : Service)
      → Sends 0 s (send_frame studio req last shot s)
  unfolding send_frame answers
  send_frame-Sends req last shot s =
      and_then-Sends 0 s (make_preview studio req last shot, s) _
        (raise-Sends (make_preview studio req last shot) s)
        λ seen s₁ _.
          sent-Sends 0 s₁ (send (shown req.id shot.content seen.0) s₁) seen.1
            (send-Sends (shown req.id shot.content seen.0) s₁)

  after_report-Sends :
      (count : ℕ) (s : Service) (q : Result ℕ × Service)
      (rest : ℕ → Service → Result (ℕ × Bool) × Service)
      → Sends 0 s q
      → ((last : ℕ) (s' : Service) → Sends 0 s' (rest last s'))
      → Sends 0 s (after_report studio count q rest)
  unfolding Sends after_report
  after_report-Sends count s (ok last, s') rest h then_on =
      after-Sends 0 (rest last s') h (then_on last s')
  after_report-Sends count s (err e, s') rest h then_on =
      if_elim (Sends 0 s) (is_exception e) (λ _. h) λ _. h

  report_all-Sends :
      (req : ManageRequest) (shots : List (Shot Frame)) (count last : ℕ) (s : Service)
      → Sends 0 s (report_all studio req shots count last s)
  unfolding report_all Sends
  report_all-Sends req [] count last s = same-IsAfter s
  report_all-Sends req (shot ∷ shots) count last s =
      after_report-Sends count s (send_frame studio req last shot s) _
        (send_frame-Sends req last shot s) (report_all-Sends req shots (count + 1))

  leave_file-Sends :
      (s : Service) (q : Result Outcome × FileState) → Sends 0 s (leave_file studio s q)
  unfolding leave_file Sends
  leave_file-Sends s (ok o, f) = record {
    same_lock = refl;
    same_camera = refl;
    reliable = λ h. h;
    results = omega arith;
  }
  leave_file-Sends s (err e, f) = record {
    same_lock = refl;
    same_camera = refl;
    reliable = λ h. h;
    results = omega arith;
  }

  run_session-Sends :
      (req : ManageRequest) (run : SessionRun Frame) (s : Service)
      → Sends 0 s (run_session studio req run s)
  unfolding run_session answers
  run_session-Sends req run s =
      and_then-Sends 0 s (send (began req.id) s) _ (send-Sends (began req.id) s) λ _ s₁ _.
        and_then-Sends 0 s₁ (run.watcher, s₁) _ (raise-Sends run.watcher s₁)
          λ _ s₂ _.
            and_then-Sends 0 s₂ (report_all studio req run.shots 0 0 s₂) _
              (report_all-Sends req run.shots 0 0 s₂)
              λ seen s₃ _. leave_file-Sends s₃ (run.finish seen.0 seen.1 s₃.file)

  -- Sends a result if there is no outcome to tell.
  Ends : Service → Result (Option Outcome) × Service → Type 0
  Ends s (ok none, s') = IsAfter 1 s s'
  Ends s (ok (some _), s') = IsAfter 0 s s'
  Ends s (err _, s') = IsAfter 0 s s'

  no_outcome-Ends :
      (s : Service) (q : Result (Unit {0}) × Service)
      → Sends 1 s q
      → Ends s (and_then q λ _ s₁. (ok none, s₁))
  unfolding Sends Ends
  no_outcome-Ends s (ok _, s') h = h
  no_outcome-Ends s (err e, s') h = h

  answer_busy-Ends : (req : ManageRequest) (s : Service) → Ends s (answer_busy studio req s)
  unfolding answer_busy answers
  answer_busy-Ends req s =
      no_outcome-Ends s _ (send-Sends (result_of (message_to req "busy" none)) s)

  give_camera_back-Ends :
      (s : Service) (q : Result Outcome × Service)
      → s.camera_held ≡ false
      → Sends 0 (record s { camera_held = true }) q
      → Ends s (give_camera_back studio q)
  unfolding give_camera_back Ends Sends
  give_camera_back-Ends s (ok o, s') free h = record {
    same_lock = h.same_lock;
    same_camera = sym free;
    reliable = h.reliable;
    results = h.results;
  }
  give_camera_back-Ends s (err e, s') free h = record {
    same_lock = h.same_lock;
    same_camera = sym free;
    reliable = h.reliable;
    results = h.results;
  }

  at_camera-Ends :
      (req : ManageRequest) (run : SessionRun Frame) (s : Service)
      → s.camera_held ≡ false
      → Ends s (at_camera studio req run s)
  unfolding at_camera
  at_camera-Ends req run s free =
      if_elim (Ends s) s.camera_free
        (λ _. give_camera_back-Ends s _ free (run_session-Sends req run _))
        λ _. answer_busy-Ends req s

  unlock_models-Ends :
      (s : Service) (q : Result (Option Outcome) × Service)
      → s.lock_held ≡ false
      → Ends (record s { lock_held = true }) q
      → Ends s (unlock_models studio q)
  unfolding unlock_models Ends
  unlock_models-Ends s (ok none, s') free h = record {
    same_lock = sym free;
    same_camera = h.same_camera;
    reliable = h.reliable;
    results = h.results;
  }
  unlock_models-Ends s (ok (some o), s') free h = record {
    same_lock = sym free;
    same_camera = h.same_camera;
    reliable = h.reliable;
    results = h.results;
  }
  unlock_models-Ends s (err e, s') free h = record {
    same_lock = sym free;
    same_camera = h.same_camera;
    reliable = h.reliable;
    results = h.results;
  }

  with_models-Ends :
      (kind : Kind) (req : ManageRequest) (run : SessionRun Frame) (s : Service)
      → (s.lock_held ≡ false) × (s.camera_held ≡ false)
      → Ends s (with_models studio kind req run s)
  unfolding with_models
  with_models-Ends enroll req run s (unlocked, free) =
      if_elim (Ends s) s.lock_free
        (λ _.
          unlock_models-Ends s _ unlocked
            (at_camera-Ends req run (record s { lock_held = true }) free))
        λ _. answer_busy-Ends req s
  with_models-Ends models_list req run s (unlocked, free) = at_camera-Ends req run s free
  with_models-Ends models_remove req run s (unlocked, free) = at_camera-Ends req run s free
  with_models-Ends models_clear req run s (unlocked, free) = at_camera-Ends req run s free
  with_models-Ends test req run s (unlocked, free) = at_camera-Ends req run s free

  tell-Sends :
      (req : ManageRequest) (run : SessionRun Frame) (s : Service)
      (q : Result (Option Outcome) × Service)
      → Ends s q
      → Sends 1 s (and_then q (tell studio req run))
  unfolding tell Ends Sends answers
  tell-Sends req run s (ok none, s') h = h
  tell-Sends req run s (ok (some o), s') h =
      after-Sends 1 (tell studio req run (some o) s') h (send-Sends _ s')
  tell-Sends req run s (err e, s') h = h

  -- A camera session that raises nothing sends one result, and one that raises sends none; in either
  -- case it gives the lock and the camera back, if the request did not hold them before.
  pub camera_session-Sends :
      (req : ManageRequest) (s : Service)
      → s.lock_held ≡ false
      → s.camera_held ≡ false
      → Sends 1 s (camera_session studio req s)
  unfolding camera_session
  camera_session-Sends req s unlocked free =
      and_then-Sends 1 s (studio.prepare req, s) _ (raise-Sends (studio.prepare req) s)
        λ run s₁ same. tell-Sends req run s₁ _ (
          with_models-Ends req.kind req run s₁ (same.same_lock ∙ unlocked, same.same_camera ∙ free))
