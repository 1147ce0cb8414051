-- ===== src/Authd/Framing/Tests.antt =====
-- Runs of the framing code, and its theorems at concrete data.
use secure_eye.Prelude.{◌≤◌, max, ◌≡◌, refl, none, some, [], ◌∷◌, arith}
use secure_eye.Python.{protocol_error, timeout_error, err, ok, obj, end}
use secure_eye.Authd.Framing.{read_frame, arrive, closed, Conn, read_exact, Codec, write_frame}
use secure_eye.Authd.Framing.Deadline.{read_exact_deadline}
use secure_eye.Authd.Framing.Exact.{bytes_of}
use secure_eye.Authd.Framing.Frames.{read_frame-write_frame}

abbrev codec : Codec
codec = record { dumps = λ _. b'{' ∷ b'}' ∷ []; loads = λ _. some (obj end) }

abbrev reader : Conn
reader = record {
  feed = arrive 1 (0 ∷ 0 ∷ []) (arrive 2 (0 ∷ 2 ∷ b'{' ∷ []) (arrive 3 (b'}' ∷ 9 ∷ []) closed));
  now = 0;
  timeout = none;
  sent = [];
  patience = 1;
}

abbrev trickle : Conn
trickle = record reader { feed = arrive 4 (1 ∷ []) (arrive 30 (2 ∷ []) closed) }

three_bytes : (read_exact 3 (some 10) reader).0 ≡ ok (0 ∷ 0 ∷ 0 ∷ [])
unfolding read_exact
three_bytes = refl

trickle_times_out : (read_exact 2 (some 10) trickle).0 ≡ err timeout_error
unfolding read_exact
trickle_times_out = refl

bad_length :
    (read_frame codec (some 10) (record reader { feed = arrive 1 (0 ∷ 0 ∷ 16 ∷ 1 ∷ []) closed })).0
    ≡ err (protocol_error "invalid frame length")
unfolding read_frame read_exact
bad_length = refl

read_exact_deadline_example : (read_exact 2 (some 10) trickle).1.now ≤ max 0 10
read_exact_deadline_example = read_exact_deadline 2 10 trickle

read_frame-write_frame_example :
    ((read_frame codec (some 10) reader).0 ≡ ok end)
    × (bytes_of (read_frame codec (some 10) reader).1.feed ≡ 9 ∷ [])
read_frame-write_frame_example =
    read_frame-write_frame codec end reader reader 10 (0 ∷ 0 ∷ 0 ∷ 2 ∷ b'{' ∷ b'}' ∷ []) (9 ∷ [])
      (omega arith) refl (unfold write_frame in refl) (unfold write_frame in refl) (omega arith)
      refl
