-- ===== src/Authd/Messages/Sent.antt =====
-- What a statement of a request's handler does to the messages, the lock and the camera.
use secure_eye.Prelude.{
  ℕ, suc, ◌+◌, ◌≤◌, String, ◌≡◌, refl, ◌∙◌, Option, none, some, List, [], ◌∷◌, ◌++◌, arith, if_elim,
}
use secure_eye.Python.{Exc, Result, err, ok, and_then, is_exception}
use secure_eye.Authd.Messages.{
  Event, Message, result_of, began, shown, Service, write_with, send, drop_exception, try_result,
}

-- The results that were sent.
unfoldable pub answers : List Event → ℕ
answers [] = 0
answers (result_of m ∷ es) = suc (answers es)
answers (_ ∷ es) = answers es

answers-append : (xs ys : List Event) → answers (xs ++ ys) ≡ answers xs + answers ys
unfolding answers
answers-append [] ys = omega arith
answers-append (result_of m ∷ xs) ys = let more = answers-append xs ys in omega arith
answers-append (began id ∷ xs) ys = answers-append xs ys
answers-append (shown id content preview ∷ xs) ys = answers-append xs ys

-- The request holds what it held, writes go on to succeed where they did, and `n` results more were
-- sent.
pub record IsAfter (n : ℕ) (s s' : Service) : Type 0 where
  pub same_lock : s'.lock_held ≡ s.lock_held
  pub same_camera : s'.camera_held ≡ s.camera_held
  pub reliable : s.write_faults ≡ [] → s'.write_faults ≡ []
  pub results : answers s'.sent ≡ answers s.sent + n

pub same-IsAfter : (s : Service) → IsAfter 0 s s
same-IsAfter s = record {
  same_lock = refl;
  same_camera = refl;
  reliable = λ h. h;
  results = omega arith;
}

pub then-IsAfter :
    (n : ℕ) {s s' s'' : Service} → IsAfter 0 s s' → IsAfter n s' s'' → IsAfter n s s''
then-IsAfter n one two = record {
  same_lock = two.same_lock ∙ one.same_lock;
  same_camera = two.same_camera ∙ one.same_camera;
  reliable = λ h. two.reliable (one.reliable h);
  results = let a = one.results in let b = two.results in omega arith;
}

-- A statement that sends `n` results, or none when it raises.
unfoldable pub Sends : {A : Type 0} → ℕ → Service → Result A × Service → Type 0
Sends n s (ok _, s') = IsAfter n s s'
Sends n s (err _, s') = IsAfter 0 s s'

pub after-Sends :
    {A : Type 0} (n : ℕ) {s s' : Service} (q : Result A × Service)
    → IsAfter 0 s s'
    → Sends n s' q
    → Sends n s q
unfolding Sends
after-Sends n (ok a, s'') first rest = then-IsAfter n first rest
after-Sends n (err e, s'') first rest = then-IsAfter 0 first rest

-- A statement that sends no result, and what follows it.
pub and_then-Sends :
    {A B : Type 0} (n : ℕ) (s : Service) (p : Result A × Service)
    (f : A → Service → Result B × Service)
    → Sends 0 s p
    → ((a : A) (s' : Service) → IsAfter 0 s s' → Sends n s' (f a s'))
    → Sends n s (and_then p f)
unfolding Sends
and_then-Sends n s (err e, s') f first rest = first
and_then-Sends n s (ok a, s') f first rest = after-Sends n (f a s') first (rest a s' first)

-- What changes nothing but may raise.
pub raise-Sends : {A : Type 0} (r : Result A) (s : Service) → Sends 0 s (r, s)
unfolding Sends
raise-Sends (ok a) s = same-IsAfter s
raise-Sends (err e) s = same-IsAfter s

-- A result that was sent, and a value.
pub sent-Sends :
    {A B : Type 0} (n : ℕ) (s : Service) (p : Result A × Service) (b : B)
    → Sends n s p
    → Sends n s (and_then p λ _ s'. (ok b, s'))
unfolding Sends
sent-Sends n s (ok a, s') b h = h
sent-Sends n s (err e, s') b h = h

write_with-Sends :
    (e : Event) (s : Service) (faults : List (Option Exc))
    → s.write_faults ≡ faults
    → Sends (answers (e ∷ [])) s (write_with e s faults)
unfolding Sends write_with
write_with-Sends e s [] same = record {
  same_lock = refl;
  same_camera = refl;
  reliable = λ h. h;
  results = answers-append s.sent (e ∷ []);
}
write_with-Sends e s (none ∷ later) same = record {
  same_lock = refl;
  same_camera = refl;
  reliable = λ h. absurd (cc);
  results = answers-append s.sent (e ∷ []);
}
write_with-Sends e s (some x ∷ later) same = record {
  same_lock = refl;
  same_camera = refl;
  reliable = λ h. absurd (cc);
  results = omega arith;
}

pub send-Sends : (e : Event) (s : Service) → Sends (answers (e ∷ [])) s (send e s)
unfolding send
send-Sends e s = write_with-Sends e s s.write_faults refl

-- An error answer is a result at most, and one if the writes succeed.
pub record IsTried (s s' : Service) : Type 0 where
  pub kept_lock : s'.lock_held ≡ s.lock_held
  pub kept_camera : s'.camera_held ≡ s.camera_held
  pub at_most : answers s'.sent ≤ answers s.sent + 1
  pub tried : s.write_faults ≡ [] → answers s'.sent ≡ answers s.sent + 1

write_with-IsTried :
    (m : Message) (s : Service) (faults : List (Option Exc))
    → s.write_faults ≡ faults
    → IsTried s (drop_exception (write_with (result_of m) s faults)).1
unfolding drop_exception write_with answers
write_with-IsTried m s [] same =
    let more = answers-append s.sent (result_of m ∷ []) in
    record { kept_lock = refl; kept_camera = refl; at_most = omega arith; tried = λ _. more }
write_with-IsTried m s (none ∷ later) same =
    let more = answers-append s.sent (result_of m ∷ []) in
    record { kept_lock = refl; kept_camera = refl; at_most = omega arith; tried = λ _. more }
write_with-IsTried m s (some e ∷ later) same =
    if_elim (λ (q : Result (Unit {0}) × Service). IsTried s q.1) (is_exception e) (λ _. unsent)
      λ _. unsent
  where
    unsent : IsTried s (record s { write_faults = later })
    unsent = record {
      kept_lock = refl;
      kept_camera = refl;
      at_most = omega arith;
      tried = λ h. absurd (cc);
    }

pub try_result-IsTried :
    (id : Option String) (result : String) (s : Service) → IsTried s (try_result id result s).1
unfolding try_result send
try_result-IsTried id result s = write_with-IsTried _ s s.write_faults refl
