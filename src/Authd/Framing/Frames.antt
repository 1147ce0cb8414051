-- ===== src/Authd/Framing/Frames.antt =====
-- `read_frame` and `write_frame` against each other, and the errors of a bad frame.
use secure_eye.Prelude.{
  ℕ, ◌≤◌, ◌<◌, ◌≡◌, refl, sym, ap, ◌∙◌, ◌||◌, Option, some, List, [], ◌∷◌, ◌++◌, arith, ltb,
  if_elim, length, get_or, append_assoc, append-cancel_left,
}
use secure_eye.Python.{ok, obj, Fields}
use secure_eye.Authd.Framing.{
  max_payload, Conn, read_exact, pack, unpack, Codec, read_frame, write_frame, decode_body,
}
use secure_eye.Authd.Framing.Deadline.{IsReading, read_exact_piece}
use secure_eye.Authd.Framing.Exact.{bytes_of}

unpack-pack : (n : ℕ) → n < 4294967296 → unpack (pack n) ≡ ok n
unfolding unpack pack
unpack-pack n h = ap ok (omega arith)

-- What a peer that reads a frame of this payload is sent.
abbrev pub frame : Codec → Fields → List ℕ
frame k payload = pack (length (k.dumps payload)) ++ k.dumps payload

-- A `write_frame` that returns has sent one piece, the length and the text, within the limit.
pub write_frame_sent :
    (k : Codec) (payload : Fields) (limit : ℕ) (w : Conn)
    → (write_frame k payload limit w).0 ≡ ok tt
    → (length (k.dumps payload) ≤ limit)
      × ((write_frame k payload limit w).1.sent ≡ w.sent ++ (frame k payload ∷ []))
unfolding write_frame
write_frame_sent k payload limit w h = ground arith

-- The statements of `read_frame` in a run in which both reads return.
read_frame_steps :
    (k : Codec) (d : Option ℕ) (size : ℕ) (header body : List ℕ) (c c₁ c₂ : Conn)
    → read_exact 4 d c ≡ (ok header, c₁)
    → unpack header ≡ ok size
    → 1 ≤ size
    → size ≤ max_payload
    → read_exact size d c₁ ≡ (ok body, c₂)
    → read_frame k d c ≡ (decode_body k body, c₂)
unfolding read_frame
read_frame_steps k d size header body c c₁ c₂ first count low high second =
    rw (first, count)
      (if_elim (λ r. r ≡ (decode_body k body, c₂)) (ltb size 1 || ltb max_payload size)
        (λ bad. absurd (ground arith)) (λ good. rw second))

-- A frame of acceptable size is read whole, and what follows it is left.
read_frame_body :
    (k : Codec) (deadline : ℕ) (c : Conn) (body later : List ℕ)
    → IsReading deadline c
    → 1 ≤ length body
    → length body ≤ max_payload
    → bytes_of c.feed ≡ (pack (length body) ++ body) ++ later
    → (c' : Conn) × (read_frame k (some deadline) c ≡ (decode_body k body, c'))
      × (bytes_of c'.feed ≡ later)
read_frame_body k deadline c body later r low high pending =
    let (c₁, first, r₁, left₁) =
      read_exact_piece deadline 4 c (pack (length body)) (body ++ later) r (unfold pack in refl)
        (pending ∙ append_assoc (pack (length body)) body later) in
    let (c₂, second, r₂, left₂) =
      read_exact_piece deadline (length body) c₁ body later r₁ refl left₁ in
    (
      c₂,
      read_frame_steps k (some deadline) (length body) _ body c c₁ c₂ first
          (unpack-pack (length body) (omega arith)) low high second,
      left₂,
    )

-- What one side writes, the other reads: if `write_frame` returns and the bytes that it sent reach
-- a reader in any pieces, each before the deadline, `read_frame` gives the payload back and leaves
-- what follows the frame. The JSON text of the payload is not empty and reads back as the payload.
pub read_frame-write_frame :
    (k : Codec) (payload : Fields) (w c : Conn) (deadline : ℕ) (piece later : List ℕ)
    → 1 ≤ length (k.dumps payload)
    → k.loads (k.dumps payload) ≡ some (obj payload)
    → (write_frame k payload max_payload w).0 ≡ ok tt
    → (write_frame k payload max_payload w).1.sent ≡ w.sent ++ (piece ∷ [])
    → IsReading deadline c
    → bytes_of c.feed ≡ piece ++ later
    → ((read_frame k (some deadline) c).0 ≡ ok payload)
      × (bytes_of (read_frame k (some deadline) c).1.feed ≡ later)
unfolding decode_body
read_frame-write_frame k payload w c deadline piece later some_text reads written same r pending =
    let (fits, sent) = write_frame_sent k payload max_payload w written in
    let framed : piece ≡ frame k payload =
      ap (λ l. get_or l 0 []) (append-cancel_left w.sent (piece ∷ []) _ (sym same ∙ sent)) in
    let (c', done, left) =
      read_frame_body k deadline c (k.dumps payload) later r some_text fits
        (pending ∙ ap (λ l. l ++ later) framed) in
    (rw (done, reads, decode_body), rw done left)
