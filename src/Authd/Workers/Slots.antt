-- ===== src/Authd/Workers/Slots.antt =====
-- How many connections are handled at a time.
use secure_eye.Prelude.{
  ℕ, ◌+◌, ◌≤◌, ◌≡◌, sym, ap, ◌∙◌, inl, inr, Bool, true, false, not, List, [], ◌∷◌, arith, ◌==◌,
  Bool-cases, if_elim, if_true, if_false, length,
}
use secure_eye.Authd.Workers.{
  max_clients, Serving, ServeEvent, connected, idle_time, broken_socket, told_to_stop, worker_ended,
  serve, take_slot, has_connection, without_connection, serve_step,
}

-- No more connections are in the hands of workers than there are slots, and unless a thread could not
-- be started every slot is free or taken by one of them.
pub record IsBounded (s : Serving) : Type 0 where
  pub at_most : s.free + length s.handled ≤ max_clients
  pub exact : s.raised ≡ false → s.free + length s.handled ≡ max_clients

without_connection-length :
    (c : ℕ) (cs : List ℕ)
    → has_connection c cs ≡ true
    → length cs ≡ length (without_connection c cs) + 1
unfolding has_connection without_connection
without_connection-length c [] h = absurd (cc)
without_connection-length c (x ∷ xs) h = elim (Bool-cases (x == c)) [
  | inl same ↦ (omega arith) ∙ ap (λ (l : List ℕ). length l + 1) (sym (if_true _ same))
  | inr other ↦
      let less = without_connection-length c xs (ground arith) in
      (omega arith) ∙ ap (λ (l : List ℕ). length l + 1) (sym (if_false _ other))
]

take_slot-IsBounded :
    (c : ℕ) (starts : Bool) (s : Serving)
    → s.free == 0 ≡ false
    → IsBounded s
    → IsBounded (take_slot c starts s)
unfolding take_slot
take_slot-IsBounded c true s room h = record {
  at_most = let a = h.at_most in ground arith;
  exact = λ e. let a = h.exact e in ground arith;
}
take_slot-IsBounded c false s room h = record {
  at_most = let a = h.at_most in ground arith;
  exact = λ e. absurd (cc);
}

serve_step-IsBounded : (e : ServeEvent) (s : Serving) → IsBounded s → IsBounded (serve_step e s)
unfolding serve_step
serve_step-IsBounded (connected c starts) s h =
    if_elim IsBounded (not s.accepting) (λ _. h)
      λ _.
        if_elim IsBounded (s.free == 0) (λ _. record { at_most = h.at_most; exact = h.exact })
          λ room. take_slot-IsBounded c starts s room h
serve_step-IsBounded idle_time s h =
    if_elim IsBounded s.accepting (λ _. record { at_most = h.at_most; exact = h.exact }) λ _. h
serve_step-IsBounded broken_socket s h = record { at_most = h.at_most; exact = h.exact }
serve_step-IsBounded told_to_stop s h = record { at_most = h.at_most; exact = h.exact }
serve_step-IsBounded (worker_ended c) s h =
    if_elim IsBounded (has_connection c s.handled)
      (λ there.
        let l = without_connection-length c s.handled there in
        record {
          at_most = let a = h.at_most in ground arith;
          exact = λ e. let a = h.exact e in ground arith;
        })
      λ _. h

-- From the start of the daemon, whatever happens, at most 8 connections are in the hands of workers,
-- and while the loop has not raised each of the 8 slots is free or taken by one of them.
pub serve-IsBounded : (es : List ServeEvent) (s : Serving) → IsBounded s → IsBounded (serve es s)
unfolding serve
serve-IsBounded [] s h = h
serve-IsBounded (e ∷ es) s h = serve-IsBounded es (serve_step e s) (serve_step-IsBounded e s h)
