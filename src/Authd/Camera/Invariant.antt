-- ===== src/Authd/Camera/Invariant.antt =====
-- What holds of the arbiter in every interleaving of its callers.
use secure_eye.Prelude.{
  ℕ, zero, suc, ◌≡◌, ap, inl, inr, Bool, true, false, ◌||◌, Option, none, some, List, [], ◌∷◌,
  arith, ◌==◌, Option-cases, length,
}
use secure_eye.Authd.Camera.{
  CameraUse, auth, manage, Arbiter, World, Event, arrive, wake, give_back, get_waiter, without,
  step, run,
}

abbrev pub count_auth : List (CameraUse × ℕ) → ℕ
count_auth [] = 0
count_auth ((auth, _) ∷ ws) = suc (count_auth ws)
count_auth ((manage, _) ∷ ws) = count_auth ws

abbrev pub contains : ℕ → List ℕ → Bool
contains s [] = false
contains s (x ∷ xs) = x == s || contains s xs

abbrev pub held : Option (CameraUse × ℕ) → List ℕ
held none = []
held (some (_, s)) = s ∷ []

-- Whether a management session that stands in a login's way has been told to stop.
abbrev pub is_told : Arbiter → Bool
is_told a = elim a.holder [
  | none ↦ true
  | some h ↦ elim h.0 [ auth ↦ true | manage ↦ a.auth_waiting == 0 || contains h.1 a.cancelled ]
]

pub record IsConsistent (w : World) : Type 0 where
  pub counted : w.arbiter.auth_waiting ≡ count_auth w.waiters
  pub exclusive : w.active ≡ held w.arbiter.holder
  pub told : is_told w.arbiter ≡ true

count-without_auth :
    (i : ℕ) (ws : List (CameraUse × ℕ)) (s : ℕ)
    → get_waiter i ws ≡ some (auth, s)
    → count_auth ws ≡ suc (count_auth (without i ws))
count-without_auth i [] s h = cc
count-without_auth zero (x ∷ ws) s h = ground arith
count-without_auth (suc i) ((auth, t) ∷ ws) s h = ap suc (count-without_auth i ws s h)
count-without_auth (suc i) ((manage, t) ∷ ws) s h = count-without_auth i ws s h

count-without_manage :
    (i : ℕ) (ws : List (CameraUse × ℕ)) (s : ℕ)
    → get_waiter i ws ≡ some (manage, s)
    → count_auth ws ≡ count_auth (without i ws)
count-without_manage i [] s h = cc
count-without_manage zero (x ∷ ws) s h = ground arith
count-without_manage (suc i) ((auth, t) ∷ ws) s h = ap suc (count-without_manage i ws s h)
count-without_manage (suc i) ((manage, t) ∷ ws) s h = count-without_manage i ws s h

module _ (w : World) (v : IsConsistent w) where
  arrive-IsConsistent :
      (p : CameraUse) (s : ℕ) (expired : Bool) → IsConsistent (step (arrive p s expired) w)
  unfolding step
  arrive-IsConsistent auth s expired = ground arith
  arrive-IsConsistent manage s expired = ground arith

  wake_found :
      (i : ℕ) (expired : Bool) (x : CameraUse × ℕ)
      → get_waiter i w.waiters ≡ some x
      → IsConsistent (step (wake i expired) w)
  unfolding step
  wake_found i expired (auth, s) found = ground (arith, count-without_auth i w.waiters s found)
  wake_found i expired (manage, s) found = ground (arith, count-without_manage i w.waiters s found)

  wake-IsConsistent : (i : ℕ) (expired : Bool) → IsConsistent (step (wake i expired) w)
  unfolding step
  wake-IsConsistent i expired = elim (Option-cases (get_waiter i w.waiters)) [
    | inl nobody ↦ ground arith
    | inr (someone, found) ↦ wake_found i expired someone found
  ]

  give_back-IsConsistent : (s : ℕ) → IsConsistent (step (give_back s) w)
  unfolding step
  give_back-IsConsistent s = ground arith

-- In every interleaving of `acquire`s and `release`s: `_auth_waiting` is the number of login
-- requests that wait, the one session that was granted the camera and has not released it is the
-- holder (so never two at once), and a management session that a login waits for was cancelled.
pub run-IsConsistent : (es : List Event) (w : World) → IsConsistent w → IsConsistent (run es w)
unfolding run
run-IsConsistent [] w v = v
run-IsConsistent (arrive p s expired ∷ es) w v =
    run-IsConsistent es _ (arrive-IsConsistent w v p s expired)
run-IsConsistent (wake i expired ∷ es) w v = run-IsConsistent es _ (wake-IsConsistent w v i expired)
run-IsConsistent (give_back s ∷ es) w v = run-IsConsistent es _ (give_back-IsConsistent w v s)

-- Whether a session was granted the camera by an event.
abbrev pub Granted : CameraUse → ℕ → World → World → Type 0
Granted p s w w' = (w'.active ≡ s ∷ w.active) × (w'.arbiter.holder ≡ some (p, s))

-- A management session is never granted the camera while a login waits or anyone holds it.
pub manage_yields :
    (w : World) (i s : ℕ) (expired : Bool)
    → IsConsistent w
    → get_waiter i w.waiters ≡ some (manage, s)
    → length (step (wake i expired) w).active ≡ suc (length w.active)
    → (count_auth w.waiters ≡ 0) × (w.arbiter.holder ≡ none)
unfolding step
manage_yields w i s expired v found changed = ground arith

-- Once the camera is free, a waiting login that wakes up is granted it, even at its deadline.
pub auth-Granted :
    (w : World) (i s : ℕ) (expired : Bool)
    → get_waiter i w.waiters ≡ some (auth, s)
    → w.arbiter.holder ≡ none
    → Granted auth s w (step (wake i expired) w)
unfolding step
auth-Granted w i s expired found free = ground arith
