-- ===== src/Authd/Framing.antt =====
-- The framing half of secureEye/src/authd/protocol.py: `read_exact`, `read_frame`, `write_frame`.
-- The peer is a feed of arrivals with their times; JSON text is the parameter `Codec`.
pub mod Exact
pub mod Frames
pub mod Sent
pub mod Deadline
mod Tests
use secure_eye.Prelude.{
  ℕ, zero, suc, ◌+◌, ◌-◌, ◌*◌, ◌/◌, ◌%◌, max, Bool, false, ◌||◌, Option, none, some, List, [], ◌∷◌,
  ◌++◌, ltb, leb, if◌then◌else◌, length, take, drop,
}
use secure_eye.Python.{
  Exc, protocol_error, connection_error, timeout_error, os_error, other_exception, Result, err, ok,
  and_then, Value, obj, Fields,
}

abbrev pub max_payload : ℕ
max_payload = 4096

abbrev pub max_event_payload : ℕ
max_event_payload = 65536

-- What the peer does next: bytes that arrive at a time, an end of file or a broken connection.
-- A silent peer is one whose next bytes arrive late.
pub data Feed : Type 0 where
  closed : Feed
  broken : Exc → Feed
  arrive : ℕ → List ℕ → Feed → Feed

-- A connected socket with the clock of the thread that uses it. `patience` counts the writes that
-- the peer still takes before `sendall` raises. `sent` holds the writes that were sent as a whole: a
-- `sendall` that raises may have sent a part of its bytes, which is not recorded.
pub record Conn : Type 0 where
  pub feed : Feed
  pub now : ℕ
  pub timeout : Option ℕ
  pub sent : List (List ℕ)
  pub patience : ℕ

-- Whether the socket's timeout passes before the time `t`.
abbrev pub expires_before : Conn → ℕ → Bool
expires_before c t = elim c.timeout [ none ↦ false | some d ↦ ltb (c.now + d) t ]

abbrev pub after_timeout : Conn → ℕ
after_timeout c = elim c.timeout [ none ↦ c.now | some d ↦ c.now + d ]

recv_from : Feed → ℕ → Conn → Result (List ℕ) × Conn
recv_from closed n c = (ok [], c)
recv_from (broken e) n c = (err e, c)
recv_from (arrive t bytes rest) n c =
    if expires_before c t then (err timeout_error, record c { now = after_timeout c }) else (
      ok (take n bytes),
      record c {
        now = max c.now t;
        feed = if leb (length bytes) n then rest else arrive t (drop n bytes) rest;
      },
    )

-- `conn.recv(n)`
recv : ℕ → Conn → Result (List ℕ) × Conn
unfolding recv_from
recv n c = recv_from c.feed n c

-- `conn.settimeout(remaining)` under a deadline, or the error once it has passed.
arm : Option ℕ → Conn → Result (Unit {0}) × Conn
arm none c = (ok tt, c)
arm (some deadline) c =
    if leb deadline c.now
    then (err timeout_error, c)
    else (ok tt, record c { timeout = some (deadline - c.now) })

grow : List ℕ → Result (List ℕ) × Conn → Result (List ℕ) × Conn
grow got (err e, c) = (err e, c)
grow got (ok [], c) = (err connection_error, c)
grow got (ok (b ∷ chunk), c) = (ok (got ++ (b ∷ chunk)), c)

-- One round of the `while` loop of `read_exact`.
pub read_round : ℕ → Option ℕ → List ℕ → Conn → Result (List ℕ) × Conn
unfolding arm recv grow
read_round size deadline got c =
    and_then (arm deadline c) λ _ armed. grow got (recv (size - length got) armed)

-- Each round adds at least a byte, so the bytes that are missing bound the rounds.
read_loop : ℕ → ℕ → Option ℕ → List ℕ → Conn → Result (List ℕ) × Conn
read_loop zero size deadline got c = (ok got, c)
read_loop (suc fuel) size deadline got c =
    if ltb (length got) size
    then and_then (read_round size deadline got c) (read_loop fuel size deadline)
    else (ok got, c)

unfoldable pub read_exact : ℕ → Option ℕ → Conn → Result (List ℕ) × Conn
unfolding read_loop read_round
read_exact size deadline c = read_loop size size deadline [] c

-- `struct.pack("!I", n)`, big-endian.
unfoldable pub pack : ℕ → List ℕ
pack n = (n / 16777216 % 256) ∷ (n / 65536 % 256) ∷ (n / 256 % 256) ∷ (n % 256) ∷ []

-- `struct.unpack("!I", header)` of four bytes.
unfoldable pub unpack : List ℕ → Result ℕ
unpack (a ∷ b ∷ c ∷ d ∷ []) = ok (a * 16777216 + b * 65536 + c * 256 + d)
unpack _ = err other_exception

-- JSON text: `json.dumps(...).encode("utf-8")` of an object, and `json.loads(body.decode("utf-8"))`
-- (`none` if either step raises).
pub record Codec : Type 0 where
  pub dumps : Fields → List ℕ
  pub loads : List ℕ → Option Value

as_object : Value → Result Fields
as_object (obj fs) = ok fs
as_object _ = err (protocol_error "payload must be object")

decode_body : Codec → List ℕ → Result Fields
unfolding as_object
decode_body k body = elim (k.loads body) [
  | none ↦ err (protocol_error "invalid utf8/json")
  | some v ↦ as_object v
]

unfoldable pub read_frame : Codec → Option ℕ → Conn → Result Fields × Conn
unfolding decode_body unpack
read_frame k deadline c = and_then (read_exact 4 deadline c) λ header c₁.
    and_then (unpack header, c₁)
      λ size c₂.
        if ltb size 1 || ltb max_payload size
        then (err (protocol_error "invalid frame length"), c₂)
        else and_then (read_exact size deadline c₂) λ body c₃. (decode_body k body, c₃)

-- `conn.sendall(bytes)`
unfoldable pub sendall : List ℕ → Conn → Result (Unit {0}) × Conn
sendall bytes c = elim c.patience [
  | zero ↦ (err os_error, c)
  | suc n ↦ (ok tt, record c { sent = c.sent ++ (bytes ∷ []); patience = n })
]

unfoldable pub write_frame : Codec → Fields → ℕ → Conn → Result (Unit {0}) × Conn
unfolding pack sendall
write_frame k payload limit c =
    let bytes = k.dumps payload in
    if ltb limit (length bytes)
    then (err (protocol_error "response payload too large"), c)
    else sendall (pack (length bytes) ++ bytes) c
