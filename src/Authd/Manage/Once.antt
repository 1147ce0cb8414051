-- ===== src/Authd/Manage/Once.antt =====
-- How many results a request is answered with, and that it keeps no lock.
use secure_eye.Prelude.{
  ℕ, ◌+◌, ◌≤◌, String, ◌≡◌, refl, sym, ◌∙◌, true, false, Option, none, List, [], arith, if_elim,
}
use secure_eye.Python.{
  Exc, protocol_error, template_schema_error, system_exit, system_exit_other, interrupt, Result,
  err, ok, Fields,
}
use secure_eye.Auth.Template.{Template, Numpy}
use secure_eye.Auth.TemplateStore.{load_or_empty}
use secure_eye.Authd.Access.{may_act_for}
use secure_eye.Authd.Manage.{
  World, Change, change_models, models_request, handle, listing, list_models, set_file,
  change_locked, answer_kind, answer_error, is_camera, allowed, after_validation,
}
use secure_eye.Authd.Messages.{result_of, Service, message_to, try_result}
use secure_eye.Authd.Messages.Sent.{
  answers, IsAfter, same-IsAfter, Sends, and_then-Sends, send-Sends, try_result-IsTried,
}
use secure_eye.Authd.Requests.{Kind, models_list, ManageRequest, validate_manage_request}
use secure_eye.Authd.Sessions.Answered.{camera_session-Sends}

list_models-Sends :
    (req : ManageRequest) (r : Result (List Template)) (s : Service)
    → Sends 1 s (list_models req r s)
unfolding list_models Sends answers
list_models-Sends req (ok ts) s = send-Sends (result_of (listing req ts)) s
list_models-Sends req (err template_schema_error) s =
    send-Sends (result_of (message_to req "model_file_invalid" none)) s
list_models-Sends req (err _) s = same-IsAfter s

set_file-Sends :
    (s : Service) (c : Change)
    → s.lock_held ≡ false
    → Sends 0 s (set_file (record s { lock_held = true }) c)
unfolding set_file Sends
set_file-Sends s (ok _, f) unlocked = record {
  same_lock = sym unlocked;
  same_camera = refl;
  reliable = λ h. h;
  results = omega arith;
}
set_file-Sends s (err _, f) unlocked = record {
  same_lock = sym unlocked;
  same_camera = refl;
  reliable = λ h. h;
  results = omega arith;
}

change_locked-Sends :
    (np : Numpy) (req : ManageRequest) (s : Service)
    → s.lock_held ≡ false
    → Sends 1 s (change_locked np req (record s { lock_held = true }))
unfolding change_locked answers
change_locked-Sends np req s unlocked =
    and_then-Sends 1 s _ _ (set_file-Sends s (change_models np req s.file) unlocked)
      λ a s₁ _. send-Sends (result_of (message_to req a.0 a.1)) s₁

answer_kind-Sends :
    (kind : Kind) (np : Numpy) (req : ManageRequest) (s : Service)
    → s.lock_held ≡ false
    → Sends 1 s (answer_kind kind np req s)
unfolding answer_kind answers
answer_kind-Sends models_list np req s unlocked = list_models-Sends req (load_or_empty np s.file) s
answer_kind-Sends _ np req s unlocked =
    if_elim (Sends 1 s) s.lock_free (λ _. change_locked-Sends np req s unlocked)
      λ _. send-Sends (result_of (message_to req "busy" none)) s

models_request-Sends :
    (np : Numpy) (req : ManageRequest) (s : Service)
    → s.lock_held ≡ false
    → Sends 1 s (models_request np req s)
unfolding models_request
models_request-Sends np req s unlocked = answer_kind-Sends req.kind np req s unlocked

-- The request holds nothing afterwards that it did not hold before. It was answered at most once,
-- and once if nothing was raised and the writes succeed.
pub record IsHandled (s : Service) (q : Result (Unit {0}) × Service) : Type 0 where
  pub gave_lock : q.1.lock_held ≡ s.lock_held
  pub gave_camera : q.1.camera_held ≡ s.camera_held
  pub at_most_once : answers q.1.sent ≤ answers s.sent + 1
  pub once : q.0 ≡ ok tt → s.write_faults ≡ [] → answers q.1.sent ≡ answers s.sent + 1

tried-IsHandled :
    (s s' : Service) (id : Option String) (result : String)
    → IsAfter 0 s s'
    → IsHandled s (try_result id result s')
tried-IsHandled s s' id result h =
    let t = try_result-IsTried id result s' in
    record {
      gave_lock = t.kept_lock ∙ h.same_lock;
      gave_camera = t.kept_camera ∙ h.same_camera;
      at_most_once = let a = t.at_most in let b = h.results in omega arith;
      once =
          λ _ faultless. let a = t.tried (h.reliable faultless) in let b = h.results in omega arith;
    }

raised-IsHandled : (s s' : Service) (e : Exc) → IsAfter 0 s s' → IsHandled s (err e, s')
raised-IsHandled s s' e h = record {
  gave_lock = h.same_lock;
  gave_camera = h.same_camera;
  at_most_once = let b = h.results in omega arith;
  once = λ k. absurd (cc);
}

answer_error-IsHandled :
    (req : ManageRequest) (s : Service) (q : Result (Unit {0}) × Service)
    → Sends 1 s q
    → IsHandled s (answer_error req q)
unfolding answer_error Sends
answer_error-IsHandled req s (ok _, s') h = record {
  gave_lock = h.same_lock;
  gave_camera = h.same_camera;
  at_most_once = let b = h.results in omega arith;
  once = λ _ _. h.results;
}
answer_error-IsHandled req s (err (system_exit n), s') h = tried-IsHandled s s' _ _ h
answer_error-IsHandled req s (err system_exit_other, s') h = tried-IsHandled s s' _ _ h
answer_error-IsHandled req s (err interrupt, s') h = raised-IsHandled s s' interrupt h
answer_error-IsHandled req s (err _, s') h = tried-IsHandled s s' _ _ h

module _ {Frame : Type 0} (w : World Frame) (uid : ℕ) (payload : Fields) where
  allowed-IsHandled :
      (req : ManageRequest) (s : Service)
      → s.lock_held ≡ false
      → s.camera_held ≡ false
      → IsHandled s (allowed w uid req s)
  unfolding allowed
  allowed-IsHandled req s unlocked free =
      if_elim (IsHandled s) (may_act_for w.users uid req.username)
        (λ _. answer_error-IsHandled req s _ (
          if_elim (Sends 1 s) (is_camera req.kind)
            (λ _. camera_session-Sends w.studio req s unlocked free)
            λ _. models_request-Sends w.numpy req s unlocked))
        λ _. tried-IsHandled s s _ _ (same-IsAfter s)

  after_validation-IsHandled :
      (r : Result ManageRequest) (s : Service)
      → s.lock_held ≡ false
      → s.camera_held ≡ false
      → IsHandled s (after_validation w uid payload r s)
  unfolding after_validation
  after_validation-IsHandled (ok req) s unlocked free = allowed-IsHandled req s unlocked free
  after_validation-IsHandled (err (protocol_error _)) s unlocked free =
      tried-IsHandled s s _ _ (same-IsAfter s)
  after_validation-IsHandled (err e) s unlocked free = raised-IsHandled s s e (same-IsAfter s)

  -- A request that holds neither the lock on the models nor the camera holds neither after `handle`,
  -- however it ends. It is answered with at most one result, and with exactly one if `handle` raises
  -- nothing and every write succeeds.
  pub handle-IsHandled :
      (s : Service)
      → s.lock_held ≡ false
      → s.camera_held ≡ false
      → IsHandled s (handle w uid payload s)
  unfolding handle
  handle-IsHandled s unlocked free =
      after_validation-IsHandled (validate_manage_request payload) s unlocked free
