-- ===== src/Authd/Framing/Sent.antt =====
-- Reading from a connection sends nothing on it, and a write sends one piece or nothing.
use secure_eye.Prelude.{
  ℕ, zero, suc, ◌-◌, ◌≡◌, refl, ◌∙◌, ◌||◌, Option, none, some, List, [], ◌∷◌, arith, ltb, leb,
  if_elim, length,
}
use secure_eye.Python.{Exc, Result, err, ok, Fields, and_then-keeps}
use secure_eye.Authd.Framing.{
  arrive, max_payload, Feed, closed, broken, Conn, expires_before, read_round, read_exact, unpack,
  Codec, read_frame, sendall, write_frame, recv_from, recv, arm, grow, read_loop,
}

abbrev Keeps {ℓ} : {A : Type ℓ} → Conn → Result A × Conn → Type 0
Keeps c p = p.1.sent ≡ c.sent

recv_from-sent : (f : Feed) (n : ℕ) (c : Conn) → (recv_from f n c).1.sent ≡ c.sent
unfolding recv_from
recv_from-sent closed n c = refl
recv_from-sent (broken e) n c = refl
recv_from-sent (arrive t bytes rest) n c =
    if_elim {A = Result (List ℕ) × Conn} (λ p. p.1.sent ≡ c.sent) (expires_before c t) (λ _. refl)
      λ _. refl

grow-sent : (got : List ℕ) (p : Result (List ℕ) × Conn) → (grow got p).1.sent ≡ p.1.sent
unfolding grow
grow-sent got (err e, c) = refl
grow-sent got (ok [], c) = refl
grow-sent got (ok (b ∷ chunk), c) = refl

arm-sent : (deadline : Option ℕ) (c : Conn) → (arm deadline c).1.sent ≡ c.sent
unfolding arm
arm-sent none c = refl
arm-sent (some d) c =
    if_elim {A = Result (Unit {0}) × Conn} (λ p. p.1.sent ≡ c.sent) (leb d c.now) (λ _. refl)
      λ _. refl

read_round-sent :
    (size : ℕ) (deadline : Option ℕ) (got : List ℕ) (c : Conn)
    → (read_round size deadline got c).1.sent ≡ c.sent
unfolding read_round recv
read_round-sent size deadline got c =
    and_then-keeps (λ s. s.sent ≡ c.sent) (arm deadline c) _ (arm-sent deadline c)
      λ _ armed kept. grow-sent got _ ∙ recv_from-sent armed.feed (size - length got) armed ∙ kept

read_loop-sent :
    (fuel size : ℕ) (deadline : Option ℕ) (got : List ℕ) (c : Conn)
    → (read_loop fuel size deadline got c).1.sent ≡ c.sent
unfolding read_loop
read_loop-sent zero size deadline got c = refl
read_loop-sent (suc fuel) size deadline got c =
    if_elim {A = Result (List ℕ) × Conn} (λ p. p.1.sent ≡ c.sent) (ltb (length got) size)
      (λ _.
        and_then-keeps (λ s. s.sent ≡ c.sent) (read_round size deadline got c) _
          (read_round-sent size deadline got c)
          λ got' s kept. read_loop-sent fuel size deadline got' s ∙ kept)
      λ _. refl

read_exact-sent :
    (size : ℕ) (deadline : Option ℕ) (c : Conn) → (read_exact size deadline c).1.sent ≡ c.sent
unfolding read_exact
read_exact-sent size deadline c = read_loop-sent size size deadline [] c

-- `read_frame` sends nothing.
pub read_frame-sent :
    (k : Codec) (deadline : Option ℕ) (c : Conn) → (read_frame k deadline c).1.sent ≡ c.sent
unfolding read_frame
read_frame-sent k deadline c =
    and_then-keeps (λ s. s.sent ≡ c.sent) (read_exact 4 deadline c) _ (read_exact-sent 4 deadline c)
      λ header c₁ kept.
        and_then-keeps (λ s. s.sent ≡ c.sent) (unpack header, c₁) _ kept
          λ size c₂ kept₂.
            if_elim {A = Result Fields × Conn} (λ p. p.1.sent ≡ c.sent)
              (ltb size 1 || ltb max_payload size) (λ _. kept₂)
              λ _.
                and_then-keeps (λ s. s.sent ≡ c.sent) (read_exact size deadline c₂) _
                  (read_exact-sent size deadline c₂ ∙ kept₂) λ body c₃ kept₃. kept₃

-- A `write_frame` that raises has sent nothing.
pub write_frame-err :
    (k : Codec) (payload : Fields) (limit : ℕ) (c : Conn) (e : Exc)
    → (write_frame k payload limit c).0 ≡ err e
    → (write_frame k payload limit c).1.sent ≡ c.sent
unfolding write_frame sendall
write_frame-err k payload limit c e h = ground arith
