-- ===== src/Authd/Server/Replies.antt =====
-- What a connection is answered.
use secure_eye.Prelude.{
  ℕ, ◌+◌, ◌≡◌, refl, sym, ap, ◌∙◌, subst, ◌≢◌, ◌⊎◌, inl, inr, true, some, [], ◌∷◌, ◌++◌, if_elim,
}
use secure_eye.Python.{Result, err, ok, and_then, is_exception, Fields, get_none, eq_num}
use secure_eye.Auth.Capture.{read}
use secure_eye.Authd.Access.{may_act_for}
use secure_eye.Authd.Framing.{max_payload, Conn, read_frame, write_frame}
use secure_eye.Authd.Framing.Frames.{frame, write_frame_sent}
use secure_eye.Authd.Framing.Sent.{read_frame-sent, write_frame-err}
use secure_eye.Authd.Requests.{manage_version, AuthRequest, validate_auth_request}
use secure_eye.Authd.Server.{
  read_timeout_ms, Daemon, Response, response_fields, worker_time, send_response, answer_payload,
  handle_client, answer_of, forbidden_answer, failed_answer, keep_conn, answer_session,
  answer_login, login, guarded, drop_error, fail_closed,
}
use secure_eye.Authd.Workers.{run_session}

-- A session of a user for whom the client may act has returned the code of the answer.
pub record IsGranted (d : Daemon) (c : Conn) (r : Response) : Type 0 where
  pub uid : ℕ
  pub req : AuthRequest
  pub payload : Fields
  pub until : ℕ
  pub peer : d.peer_uid c ≡ ok uid
  pub request : validate_auth_request d.builtins payload ≡ ok req
  pub allowed : may_act_for d.users uid req.username ≡ true
  pub session_code : (run_session (d.hire req.username until)).0 ≡ ok r.result_code

-- One answer was sent, which says 0 only if a session returned it.
pub record IsReplied (d : Daemon) (c c' : Conn) : Type 0 where
  pub answer : Response
  pub one : c'.sent ≡ c.sent ++ (frame d.codec (response_fields answer) ∷ [])
  pub earned : (answer.result_code ≢ 0) ⊎ IsGranted d c answer

-- The frame that was read is a management request.
pub record IsManaged (d : Daemon) (c : Conn) : Type 0 where
  pub payload : Fields
  pub asked : (read_frame d.codec (some (c.now + read_timeout_ms)) c).0 ≡ ok payload
  pub version : eq_num (get_none "v" payload) manage_version ≡ true

module _ (d : Daemon) (c : Conn) where
  -- What the code in the `try` comes to: an error in it has sent nothing.
  Attempted : Result (Unit {0}) × Conn → Type 0
  Attempted p = IsManaged d c ⊎ (p.1.sent ≡ c.sent) ⊎ ((p.0 ≡ ok tt) × IsReplied d c p.1)

  send_response-cases :
      (r : Response) (c₁ : Conn)
      → (((send_response d r c₁).0 ≡ ok tt)
          × ((send_response d r c₁).1.sent ≡ c₁.sent ++ (frame d.codec (response_fields r) ∷ [])))
        ⊎ ((send_response d r c₁).1.sent ≡ c₁.sent)
  unfolding send_response
  send_response-cases r c₁ =
      of_result (write_frame d.codec (response_fields r) max_payload c₁).0 refl
    where
      of_result :
          (q : Result (Unit {0}))
          → (write_frame d.codec (response_fields r) max_payload c₁).0 ≡ q
          → (((send_response d r c₁).0 ≡ ok tt)
              × ((send_response d r c₁).1.sent
                  ≡ c₁.sent ++ (frame d.codec (response_fields r) ∷ [])))
            ⊎ ((send_response d r c₁).1.sent ≡ c₁.sent)
      of_result (ok _) h =
          inl (h, (write_frame_sent d.codec (response_fields r) max_payload c₁ h).1)
      of_result (err e) h = inr (write_frame-err d.codec (response_fields r) max_payload c₁ e h)

  send_response-Attempted :
      (r : Response) (c₁ : Conn)
      → c₁.sent ≡ c.sent
      → (r.result_code ≢ 0) ⊎ IsGranted d c r
      → Attempted (send_response d r c₁)
  unfolding Attempted
  send_response-Attempted r c₁ same earned = elim (send_response-cases r c₁) [
    | inl (done, sent) ↦ inr (
        inr (
          done,
          record {
            answer = r;
            one = sent ∙ ap (λ l. l ++ (frame d.codec (response_fields r) ∷ [])) same;
            earned = earned;
          },
        ))
    | inr nothing ↦ inr (inl (nothing ∙ same))
  ]

  answer_login-Attempted :
      (uid : ℕ) (payload : Fields) (req : AuthRequest) (c₁ : Conn)
      → d.peer_uid c ≡ ok uid
      → validate_auth_request d.builtins payload ≡ ok req
      → c₁.sent ≡ c.sent
      → Attempted (answer_login d uid req c₁)
  unfolding answer_login answer_session keep_conn Attempted
  answer_login-Attempted uid payload req c₁ peer valid same =
      if_elim Attempted (may_act_for d.users uid req.username)
        (λ may.
          of_session (run_session (d.hire req.username (c₁.now + worker_time req.deadline_ms))).0
            refl may)
        λ _. send_response-Attempted (forbidden_answer req) c₁ same (inl λ e. cc)
    where
      of_session :
          (q : Result ℕ)
          → (run_session (d.hire req.username (c₁.now + worker_time req.deadline_ms))).0 ≡ q
          → may_act_for d.users uid req.username ≡ true
          → Attempted (and_then (q, c₁) (λ code c₂. send_response d (answer_of req code) c₂))
      of_session (err e) h may = inr (inl same)
      of_session (ok code) h may = send_response-Attempted (answer_of req code) c₁ same (
          inr (record {
            uid = uid;
            req = req;
            payload = payload;
            until = c₁.now + worker_time req.deadline_ms;
            peer = peer;
            request = valid;
            allowed = may;
            session_code = h;
          }))

  login-Attempted :
      (uid : ℕ) (payload : Fields) (c₁ : Conn)
      → d.peer_uid c ≡ ok uid
      → c₁.sent ≡ c.sent
      → Attempted (login d uid payload c₁)
  unfolding login keep_conn Attempted
  login-Attempted uid payload c₁ peer same =
      of_request (validate_auth_request d.builtins payload) refl
    where
      of_request :
          (q : Result AuthRequest)
          → validate_auth_request d.builtins payload ≡ q
          → Attempted (and_then (q, c₁) (answer_login d uid))
      of_request (err e) h = inr (inl same)
      of_request (ok req) h = answer_login-Attempted uid payload req c₁ peer h same

  answer_payload-Attempted :
      (uid : ℕ) (payload : Fields) (c₁ : Conn)
      → d.peer_uid c ≡ ok uid
      → (read_frame d.codec (some (c.now + read_timeout_ms)) c).0 ≡ ok payload
      → c₁.sent ≡ c.sent
      → Attempted (answer_payload d uid payload c₁)
  unfolding answer_payload Attempted
  answer_payload-Attempted uid payload c₁ peer read same =
      if_elim Attempted (eq_num (get_none "v" payload) manage_version)
        (λ managed. inl (record { payload = payload; asked = read; version = managed }))
        λ _. login-Attempted uid payload _ peer same

  of_frame :
      (uid : ℕ) (q : Result Fields × Conn)
      → d.peer_uid c ≡ ok uid
      → (read_frame d.codec (some (c.now + read_timeout_ms)) c).0 ≡ q.0
      → q.1.sent ≡ c.sent
      → Attempted (and_then q (answer_payload d uid))
  unfolding Attempted
  of_frame uid (err e, c₁) peer read same = inr (inl same)
  of_frame uid (ok payload, c₁) peer read same =
      answer_payload-Attempted uid payload c₁ peer read same

  guarded-Attempted : Attempted (guarded d c)
  unfolding guarded keep_conn Attempted
  guarded-Attempted = of_peer (d.peer_uid c) refl
    where
      of_peer :
          (q : Result ℕ)
          → d.peer_uid c ≡ q
          → Attempted (
              and_then
                (q, c)
                (λ uid c₁.
                  and_then
                    (read_frame d.codec (some (c₁.now + read_timeout_ms)) c₁)
                    (λ payload c₂. answer_payload d uid payload c₂)))
      of_peer (err e) h = inr (inl refl)
      of_peer (ok uid) h = of_frame uid _ h refl (read_frame-sent d.codec _ c)

  drop_error-conn : (p : Result (Unit {0}) × Conn) → (drop_error d p).1 ≡ p.1
  unfolding drop_error
  drop_error-conn (ok _, c₁) = refl
  drop_error-conn (err e, c₁) =
      if_elim {A = Result (Unit {0}) × Conn} (λ p. p.1 ≡ c₁) (is_exception e) (λ _. refl) λ _. refl

  Answered : Result (Unit {0}) × Conn → Type 0
  Answered p = IsManaged d c ⊎ (p.1.sent ≡ c.sent) ⊎ IsReplied d c p.1

  forget : (p : Result (Unit {0}) × Conn) → Attempted p → Answered p
  unfolding Attempted Answered
  forget p (inl managed) = inl managed
  forget p (inr (inl nothing)) = inr (inl nothing)
  forget p (inr (inr (_, replied))) = inr (inr replied)

  fail_closed-Answered : (p : Result (Unit {0}) × Conn) → Attempted p → Answered (fail_closed d p)
  unfolding fail_closed Attempted Answered
  fail_closed-Answered p (inl managed) = inl managed
  fail_closed-Answered (ok _, c₁) (inr (inl nothing)) = inr (inl nothing)
  fail_closed-Answered (ok _, c₁) (inr (inr (_, replied))) = inr (inr replied)
  fail_closed-Answered (err e, c₁) (inr (inr (h, replied))) = absurd (cc)
  fail_closed-Answered (err e, c₁) (inr (inl nothing)) =
      subst (λ s. IsManaged d c ⊎ (s.sent ≡ c.sent) ⊎ IsReplied d c s)
        (sym (drop_error-conn (send_response d failed_answer c₁)))
        (forget (send_response d failed_answer c₁)
          (send_response-Attempted failed_answer c₁ nothing (inl λ e'. cc)))

  -- Unless the frame is a management request, a connection gets at most one answer, and one with
  -- the code 0 only if a session returned 0 for a valid request of a client that may act for its
  -- user.
  pub handle_client-IsReplied :
      IsManaged d c ⊎ ((handle_client d c).1.sent ≡ c.sent) ⊎ IsReplied d c (handle_client d c).1
  unfolding handle_client Answered
  handle_client-IsReplied = fail_closed-Answered (guarded d c) guarded-Attempted
