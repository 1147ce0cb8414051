-- ===== src/Authd/Manage/Answers.antt =====
-- What `handle` answers, and what it leaves as it was.
use secure_eye.Prelude.{
  ℕ, String, ◌≡◌, refl, sym, ap, ◌∙◌, subst, ◌⊎◌, inl, inr, false, Option, none, some, List, [],
  ◌∷◌, ◌++◌, if_elim, if_false,
}
use secure_eye.Python.{Exc, protocol_error, Result, err, ok, is_exception, Fields, get_none}
use secure_eye.Authd.Access.{may_act_for}
use secure_eye.Authd.Manage.{World, handle, allowed, raw_id, after_validation}
use secure_eye.Authd.Messages.{
  Event, Message, result_of, Service, write_with, send, send_result, drop_exception, try_result,
}
use secure_eye.Authd.Requests.{ManageRequest, validate_manage_request}

-- The request did not touch the file or the lock, and sent at most one message, with that text.
pub record IsRefused (result : String) (s s' : Service) : Type 0 where
  pub same_file : s'.file ≡ s.file
  pub same_lock : s'.lock_held ≡ s.lock_held
  pub answered :
      (s'.sent ≡ s.sent)
      ⊎ ((id : Option String) × (s'.sent
            ≡ s.sent
              ++ (result_of (record { request_id = id; result = result; content = none }) ∷ [])))

-- What sending `m` does to the service.
record IsSent (m : Event) (s s' : Service) : Type 0 where
  kept_file : s'.file ≡ s.file
  kept_lock : s'.lock_held ≡ s.lock_held
  reached : (s'.sent ≡ s.sent) ⊎ (s'.sent ≡ s.sent ++ (m ∷ []))

write_with-IsSent :
    (m : Event) (s : Service) (faults : List (Option Exc)) → IsSent m s (write_with m s faults).1
unfolding write_with
write_with-IsSent m s [] = record { kept_file = refl; kept_lock = refl; reached = inr refl }
write_with-IsSent m s (none ∷ later) = record {
  kept_file = refl;
  kept_lock = refl;
  reached = inr refl;
}
write_with-IsSent m s (some e ∷ later) = record {
  kept_file = refl;
  kept_lock = refl;
  reached = inl refl;
}

send-IsSent : (m : Event) (s : Service) → IsSent m s (send m s).1
unfolding send
send-IsSent m s = write_with-IsSent m s s.write_faults

drop_exception-state : (r : Result (Unit {0}) × Service) → (drop_exception r).1 ≡ r.1
unfolding drop_exception
drop_exception-state (ok _, s) = refl
drop_exception-state (err e, s) =
    if_elim {A = Result (Unit {0}) × Service} (λ q. q.1 ≡ s) (is_exception e) (λ _. refl) λ _. refl

try_result-IsRefused :
    (id : Option String) (result : String) (s : Service)
    → IsRefused result s (try_result id result s).1
unfolding try_result
try_result-IsRefused id result s =
    let m : Message = record { request_id = id; result = result; content = none } in
    let kept : IsSent (result_of m) s (try_result id result s).1 =
      subst (IsSent (result_of m) s) (sym (drop_exception-state (send_result m s)))
        (send-IsSent (result_of m) s) in
    record {
      same_file = kept.kept_file;
      same_lock = kept.kept_lock;
      answered = elim kept.reached [ inl e ↦ inl e | inr e ↦ inr (id, e) ];
    }

-- A client that may not act for the user that its valid request names gets at most the answer
-- `forbidden`; the model file and the lock stay as they were.
pub handle-forbidden :
    {Frame : Type 0} (w : World Frame) (uid : ℕ) (payload : Fields) (req : ManageRequest)
    (s : Service)
    → validate_manage_request payload ≡ ok req
    → may_act_for w.users uid req.username ≡ false
    → IsRefused "forbidden" s (handle w uid payload s).1
unfolding handle after_validation allowed
handle-forbidden w uid payload req s valid refused =
    let run : handle w uid payload s ≡ try_result (some req.id) "forbidden" s =
      ap (λ r. after_validation w uid payload r s) valid ∙ if_false _ refused in
    subst (λ (q : Result (Unit {0}) × Service). IsRefused "forbidden" s q.1) (sym run)
      (try_result-IsRefused (some req.id) "forbidden" s)

-- A request that is not valid changes nothing, and gets at most that answer.
pub handle-invalid :
    {Frame : Type 0} (w : World Frame) (uid : ℕ) (payload : Fields) (why : String) (s : Service)
    → validate_manage_request payload ≡ err (protocol_error why)
    → IsRefused "invalid_request" s (handle w uid payload s).1
unfolding handle after_validation
handle-invalid w uid payload why s invalid =
    subst (λ (q : Result (Unit {0}) × Service). IsRefused "invalid_request" s q.1)
      (sym (ap (λ r. after_validation w uid payload r s) invalid))
      (try_result-IsRefused (raw_id (get_none "request_id" payload)) "invalid_request" s)
