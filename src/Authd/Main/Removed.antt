-- ===== src/Authd/Main/Removed.antt =====
-- secureEye/src/authd/main.py: what is left of the socket when the daemon ends.
use secure_eye.Prelude.{
  ℕ, ◌≡◌, refl, sym, ap, ◌∙◌, subst, ◌⊎◌, inl, inr, true, Option, none, some, if_true,
}
use secure_eye.Python.{Exc, Result, err, ok, and_then, is_exception, and_then-last}
use secure_eye.Authd.Main.{
  Process, System, ignore_missing, finally, unlink, prepare_socket, warm_detector, main, removed,
  remove_file, skip_exception, close_socket, clean_up, serve_all,
}

module _ (os : System) where
  -- No socket file is left, or removing it raised something else than that it is missing.
  pub IsGone : Process → Type 0
  IsGone p = (p.socket_file ≡ none) ⊎ ((e : Exc) × (os.may_unlink ≡ err e))

  unlink-IsGone : (p : Process) → IsGone (ignore_missing (unlink os p)).1
  unfolding IsGone ignore_missing unlink removed
  unlink-IsGone p = by_file p.socket_file refl
    where
      by_file :
          (o : Option ℕ)
          → p.socket_file ≡ o
          → IsGone (ignore_missing (unlink os (record p { socket_file = o }))).1
      by_file none at = inl refl
      by_file (some mode) at = by_end os.may_unlink refl
        where
          by_end :
              (r : Result (Unit {0}))
              → os.may_unlink ≡ r
              → IsGone (ignore_missing (removed os r (record p { socket_file = some mode }))).1
          by_end (ok _) ended_so = inl refl
          by_end (err e) ended_so = inr (e, ended_so)

  unlink-closed_socket :
      (p : Process) → (ignore_missing (unlink os p)).1.closed_socket ≡ p.closed_socket
  unfolding ignore_missing unlink removed
  unlink-closed_socket p = by_file p.socket_file
    where
      by_end :
          (r : Result (Unit {0})) (mode : ℕ)
          → (ignore_missing (removed os r (record p { socket_file = some mode }))).1.closed_socket
            ≡ p.closed_socket
      by_end (ok _) mode = refl
      by_end (err e) mode = refl

      by_file :
          (o : Option ℕ)
          → (ignore_missing (unlink os (record p { socket_file = o }))).1.closed_socket
            ≡ p.closed_socket
      by_file none = refl
      by_file (some mode) = by_end os.may_unlink mode

  -- A statement that ends a chain without a change leaves the state of what came before.
  and_then-state :
      {A B : Type 0} {S : Type 0} (q : Result A × S) (f : A → Result B)
      → (and_then q (λ a s. (f a, s))).1 ≡ q.1
  and_then-state (ok a, s) f = refl
  and_then-state (err e, s) f = refl

  finally-state :
      {A : Type 0} (q : Result A × Process) (clean : Process → Result (Unit {0}) × Process)
      → (finally q clean).1 ≡ (clean q.1).1
  finally-state (r, s) clean = and_then-state (clean s) λ _. r

  finally-ok :
      {A : Type 0} {a : A} (q : Result A × Process) (clean : Process → Result (Unit {0}) × Process)
      → (finally q clean).0 ≡ ok a
      → q.0 ≡ ok a
  finally-ok (r, s) clean h = let (_, _, rest) = and_then-last (clean s) _ h in rest

  -- The file is gone, the socket closed, and the code 0 means that `serve` returned.
  pub record IsEnded (q : Result ℕ × Process) : Type 0 where
    pub gone : IsGone q.1
    pub closed_socket : q.1.closed_socket ≡ true
    pub returned : q.0 ≡ ok 0 → (u : Unit {0}) × (os.serve ≡ ok u)

  clean_up-IsGone : (p : Process) → IsGone (clean_up os p).1
  unfolding clean_up
  clean_up-IsGone p =
      subst IsGone (sym (finally-state (close_socket os p) (remove_file os)))
        (unlink-IsGone (close_socket os p).1)

  clean_up-closed_socket : (p : Process) → (clean_up os p).1.closed_socket ≡ true
  unfolding clean_up close_socket
  clean_up-closed_socket p =
      ap (λ (s : Process). s.closed_socket) (finally-state (close_socket os p) (remove_file os))
      ∙ unlink-closed_socket (close_socket os p).1

  warm_detector-ok :
      ((e : Exc) → os.create_pipeline ≡ err e → is_exception e ≡ true) → warm_detector os ≡ ok tt
  unfolding warm_detector skip_exception
  warm_detector-ok harmless = by_end os.create_pipeline refl
    where
      by_end : (r : Result (Unit {0})) → os.create_pipeline ≡ r → skip_exception os r ≡ ok tt
      by_end (ok _) at = refl
      by_end (err e) at = if_true _ (harmless e at)

  -- Once the socket is prepared, and whatever `Exception` the warm-up raised, the daemon ends with the
  -- socket closed and its file gone, however `serve` ends and whether or not closing raises, unless
  -- removing the file is itself refused; and it returns 0 only if `serve` returned.
  pub main-IsEnded :
      (p p₂ : Process)
      → ((e : Exc) → os.create_pipeline ≡ err e → is_exception e ≡ true)
      → prepare_socket os p ≡ (ok tt, p₂)
      → IsEnded (main os p)
  unfolding main serve_all
  main-IsEnded p p₂ harmless prepared =
      let served = finally (serve_all os p₂) (clean_up os) in
      let begun : main os p ≡ and_then served (λ _ p₃. (ok 0, p₃)) =
        rw (main, warm_detector-ok harmless, prepared) refl in
      let same_state : (main os p).1 ≡ (clean_up os (serve_all os p₂).1).1 =
        ap (λ q. q.1) begun
        ∙ and_then-state served (λ _. ok 0)
        ∙ finally-state (serve_all os p₂) (clean_up os) in
      record {
        gone = subst IsGone (sym same_state) (clean_up-IsGone (serve_all os p₂).1);
        closed_socket =
            ap (λ (s : Process). s.closed_socket) same_state
            ∙ clean_up-closed_socket (serve_all os p₂).1;
        returned = λ h.
            let (u, at, _) = and_then-last served _ (ap (λ q. q.0) (sym begun) ∙ h) in
            (u, finally-ok (serve_all os p₂) (clean_up os) at);
      }
