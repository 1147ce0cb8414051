-- ===== src/Authd/Workers/Leases.antt =====
-- What `_run_session` does with the camera, and where its code comes from.
use mathlib.Core.Bool.{false≢true}
use secure_eye.Prelude.{
  ℕ, ◌≡◌, refl, sym, ap, ◌∙◌, subst, ◌⊎◌, inl, inr, true, false, Option, none, some, arith,
  Bool-cases, if_true, if_false,
}
use secure_eye.Python.{Exc, timeout_error, system_exit, Result, err, ok, ok-injective}
use secure_eye.Auth.Session.{timeout_reached, exit_value}
use secure_eye.Authd.Workers.{
  Hiring, Lease, run_session, end_worker, taken, wait_for, submit_session,
}

-- The camera comes back, at once or by the end of the worker; an exception leaves only where the pool
-- refused the session; a worker that is left running was called off; one is called off only when it was
-- late or raised a `TimeoutError`, and the code is then that of a timeout; and the code 0 is a worker's.
pub record IsReturned (h : Hiring) (q : Result ℕ × Lease) : Type 0 where
  pub comes_back : (end_worker q.1).holds ≡ false
  pub raises : (e : Exc) → q.0 ≡ err e → h.submitted ≡ err e
  pub left_running : q.1.back_on_end ≡ true → h.outcome ≡ none → q.1.called_off ≡ true
  pub called_off :
      q.1.called_off ≡ true
      → (q.0 ≡ ok (exit_value timeout_reached))
        × ((h.outcome ≡ none) ⊎ (h.outcome ≡ some (err timeout_error)))
  pub earned : q.0 ≡ ok 0 → (h.outcome ≡ some (ok 0)) ⊎ (h.outcome ≡ some (err (system_exit 0)))

waited-IsReturned :
    (h : Hiring) (r : Option (Result ℕ))
    → h.outcome ≡ r
    → IsReturned h (wait_for r (record taken { back_on_end = true }))
unfolding wait_for end_worker
waited-IsReturned h none same = record {
  comes_back = refl;
  raises = λ e k. absurd (cc);
  left_running = λ _ _. refl;
  called_off = λ _. (refl, inl same);
  earned = λ e. absurd (ground arith);
}
waited-IsReturned h (some (ok code)) same = record {
  comes_back = refl;
  raises = λ e k. absurd (cc);
  left_running = λ _ k. absurd (cc);
  called_off = λ k. absurd (false≢true k);
  earned = λ e. inl (same ∙ ap some e);
}
waited-IsReturned h (some (err timeout_error)) same = record {
  comes_back = refl;
  raises = λ e k. absurd (cc);
  left_running = λ _ _. refl;
  called_off = λ _. (refl, inr same);
  earned = λ e. absurd (ground arith);
}
waited-IsReturned h (some (err (system_exit code))) same = record {
  comes_back = refl;
  raises = λ e k. absurd (cc);
  left_running = λ _ k. absurd (cc);
  called_off = λ k. absurd (false≢true k);
  earned = λ e. inr (same ∙ ap (λ n. some (err (system_exit n))) (ok-injective e));
}
waited-IsReturned h (some (err _)) same = record {
  comes_back = refl;
  raises = λ e k. absurd (cc);
  left_running = λ _ k. absurd (cc);
  called_off = λ k. absurd (false≢true k);
  earned = λ e. absurd (ground arith);
}

submitted-IsReturned :
    (h : Hiring) (r : Result (Unit {0})) → h.submitted ≡ r → IsReturned h (submit_session h r taken)
unfolding submit_session end_worker
submitted-IsReturned h (ok _) same = waited-IsReturned h h.outcome refl
submitted-IsReturned h (err e) same = record {
  comes_back = refl;
  raises = λ e₁ k. same ∙ cc;
  left_running = λ k _. absurd (false≢true k);
  called_off = λ k. absurd (false≢true k);
  earned = λ k. absurd (cc);
}

-- After `_run_session` and the end of its worker the session does not hold the camera. Only what the
-- pool raised leaves it. A worker that is left running was called off; a session is called off only
-- when its worker was late or raised a `TimeoutError`, and the code is then that of a timeout. The code
-- 0 comes only from a worker that ended in time with 0, or that left by `sys.exit(0)`.
pub run_session-IsReturned : (h : Hiring) → IsReturned h (run_session h)
unfolding run_session end_worker
run_session-IsReturned h = elim (Bool-cases h.granted) [
  | inl got ↦ subst (IsReturned h) (sym (if_true _ got)) (submitted-IsReturned h h.submitted refl)
  | inr refused ↦ subst (IsReturned h) (sym (if_false _ refused)) (record {
    comes_back = refl;
    raises = λ e k. absurd (cc);
    left_running = λ k _. absurd (false≢true k);
    called_off = λ k. absurd (false≢true k);
    earned = λ e. absurd (ground arith);
  })
]
