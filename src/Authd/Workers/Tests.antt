-- ===== src/Authd/Workers/Tests.antt =====
-- A session that ends by `sys.exit`, and a daemon with a ninth client.
use secure_eye.Prelude.{◌≡◌, refl, true, some, List, [], ◌∷◌, arith}
use secure_eye.Python.{system_exit, err, ok}
use secure_eye.Authd.Workers.{
  Hiring, run_session, serving, ServeEvent, connected, worker_ended, serve,
}
use secure_eye.Authd.Workers.Leases.{IsReturned, run_session-IsReturned}
use secure_eye.Authd.Workers.Slots.{IsBounded, serve-IsBounded}

abbrev by_exit : Hiring
by_exit = record { granted = true; submitted = ok tt; outcome = some (err (system_exit 14)) }

run_session-IsReturned_example : IsReturned by_exit (run_session by_exit)
run_session-IsReturned_example = run_session-IsReturned by_exit

exits_with_code : (run_session by_exit).0 ≡ ok 14
unfolding run_session
exits_with_code = refl

abbrev nine : List ServeEvent
nine =
    connected 1 true
    ∷ connected 2 true
    ∷ connected 3 true
    ∷ connected 4 true
    ∷ connected 5 true
    ∷ connected 6 true
    ∷ connected 7 true
    ∷ connected 8 true
    ∷ connected 9 true
    ∷ worker_ended 3
    ∷ connected 10 true
    ∷ []

serve-IsBounded_example : IsBounded (serve nine serving)
serve-IsBounded_example =
    serve-IsBounded nine serving (record { at_most = omega arith; exact = λ _. refl })

ninth_closed : (serve nine serving).turned_away ≡ 9 ∷ []
unfolding serve
ninth_closed = refl
