-- ===== src/Authd/Camera/Tests.antt =====
-- Two clients and a login at the arbiter.
use secure_eye.Prelude.{◌≡◌, refl, false, some, List, [], ◌∷◌, ◌++◌}
use secure_eye.Authd.Camera.{
  run, auth, manage, holder_use, World, Event, arrive, wake, give_back, step, idle,
}
use secure_eye.Authd.Camera.Invariant.{IsConsistent, run-IsConsistent}

-- A management session holds the camera, another waits, and then a login arrives.
abbrev busy : List Event
busy = arrive manage 1 false ∷ arrive manage 2 false ∷ arrive auth 3 false ∷ []

told_to_stop : (run busy idle).arbiter.cancelled ≡ 1 ∷ []
unfolding run step
told_to_stop = refl

login_first :
    holder_use (run (busy ++ (give_back 1 ∷ wake 1 false ∷ wake 1 false ∷ [])) idle).arbiter
    ≡ some auth
unfolding run step holder_use
login_first = refl

freed : World
unfolding run step
freed = run (busy ++ (give_back 1 ∷ [])) idle

run-IsConsistent_example : IsConsistent (run busy idle)
run-IsConsistent_example =
    run-IsConsistent busy idle (record { counted = refl; exclusive = refl; told = refl })

abbrev alone : World
alone = record idle { waiters = (manage, 5) ∷ [] }
