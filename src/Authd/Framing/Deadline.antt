-- ===== src/Authd/Framing/Deadline.antt =====
-- How long `read_exact` can take, and when it succeeds.
use secure_eye.Prelude.{
  ℕ, zero, suc, ◌+◌, ◌-◌, ◌≤◌, ◌<◌, max, ◌≡◌, refl, sym, ap, ◌∙◌, inl, inr, some, List, [], ◌∷◌,
  ◌++◌, arith, ltb, leb, Bool-cases, leb→le, if_elim, pair_eq, length, take, length-append,
  length-drop, take_prefix, append-cancel_left,
}
use secure_eye.Python.{Result, ok, err, and_then}
use secure_eye.Authd.Framing.{
  Feed, closed, broken, arrive, Conn, read_round, read_exact, recv_from, grow, read_loop,
}
use secure_eye.Authd.Framing.Exact.{bytes_of, Grows, read_round-Grows, read_exact_bytes}

-- The clock of the thread stands at `latest` or before.
abbrev EndsBy {ℓ} : {A : Type ℓ} → ℕ → Result A × Conn → Type 0
EndsBy latest p = p.1.now ≤ latest

recv_from-EndsBy :
    (f : Feed) (n : ℕ) (c : Conn) (d latest : ℕ)
    → c.timeout ≡ some d
    → c.now + d ≤ latest
    → EndsBy latest (recv_from f n c)
unfolding recv_from
recv_from-EndsBy closed n c d latest armed fits = ground arith
recv_from-EndsBy (broken e) n c d latest armed fits = ground arith
recv_from-EndsBy (arrive t bytes rest) n c d latest armed fits = ground arith

grow-now : (got : List ℕ) (p : Result (List ℕ) × Conn) → (grow got p).1.now ≡ p.1.now
unfolding grow
grow-now got (err e, c) = refl
grow-now got (ok [], c) = refl
grow-now got (ok (b ∷ chunk), c) = refl

read_round-EndsBy :
    (size deadline latest : ℕ) (got : List ℕ) (c : Conn)
    → deadline ≤ latest
    → c.now ≤ latest
    → EndsBy latest (read_round size (some deadline) got c)
unfolding read_round
read_round-EndsBy size deadline latest got c d n = elim (Bool-cases (leb deadline c.now)) [
  | inl late ↦ rw late n
  | inr live ↦ rw live (
      rw grow-now (
        recv_from-EndsBy c.feed _ (record c { timeout = some (deadline - c.now) })
          (deadline - c.now) latest refl (ground arith)))
]

and_then-EndsBy {ℓ κ} :
    {A : Type ℓ} {B : Type κ} (latest : ℕ) (p : Result A × Conn) (f : A → Conn → Result B × Conn)
    → EndsBy latest p
    → ((a : A) (c : Conn) → c.now ≤ latest → EndsBy latest (f a c))
    → EndsBy latest (and_then p f)
and_then-EndsBy latest (ok a, c) f h k = k a c h
and_then-EndsBy latest (err e, c) f h k = h

read_loop-EndsBy :
    (fuel size deadline latest : ℕ) (got : List ℕ) (c : Conn)
    → deadline ≤ latest
    → c.now ≤ latest
    → EndsBy latest (read_loop fuel size (some deadline) got c)
unfolding read_loop
read_loop-EndsBy zero size deadline latest got c d n = n
read_loop-EndsBy (suc fuel) size deadline latest got c d n =
    if_elim (EndsBy latest) (ltb (length got) size)
      (λ more.
        and_then-EndsBy latest _ _ (read_round-EndsBy size deadline latest got c d n)
          λ got' c' n'. read_loop-EndsBy fuel size deadline latest got' c' d n')
      (λ full. n)

-- Under a deadline `read_exact` is over when the deadline is, whatever the peer sends and however
-- slowly, unless the deadline had passed before the call: then no time passes.
pub read_exact_deadline :
    (size deadline : ℕ) (c : Conn) → (read_exact size (some deadline) c).1.now ≤ max c.now deadline
unfolding read_exact
read_exact_deadline size deadline c =
    read_loop-EndsBy size size deadline (max c.now deadline) [] c (omega arith) (omega arith)

-- Every piece that the peer sends holds a byte and arrives before the deadline.
abbrev pub IsPrompt : ℕ → Feed → Type 0
IsPrompt deadline closed = Unit
IsPrompt deadline (broken _) = Unit
IsPrompt deadline (arrive t bytes rest) =
    (t < deadline) × (0 < length bytes) × IsPrompt deadline rest

-- A reader that is ahead of its deadline, over a prompt peer.
pub record IsReading (deadline : ℕ) (c : Conn) : Type 0 where
  pub early : c.now < deadline
  pub prompt : IsPrompt deadline c.feed

-- A result that keeps the reader going.
abbrev Goes : ℕ → Result (List ℕ) × Conn → Type 0
Goes deadline (err e, c) = ⊥
Goes deadline (ok got, c) = IsReading deadline c

grow_recv-Goes :
    (f : Feed) (n : ℕ) (got : List ℕ) (c : Conn) (deadline : ℕ)
    → 0 < n
    → IsPrompt deadline f
    → c.now < deadline
    → c.timeout ≡ some (deadline - c.now)
    → 0 < length (bytes_of f)
    → Goes deadline (grow got (recv_from f n c))
unfolding grow recv_from
grow_recv-Goes closed n got c d room p early armed more = elim more [ ]
grow_recv-Goes (broken e) n got c d room p early armed more = elim more [ ]
grow_recv-Goes (arrive t bytes rest) zero got c d room p early armed more = elim room [ ]
grow_recv-Goes (arrive t [] rest) (suc n) got c d room p early armed more =
    absurd (omega (arith, p.1))
grow_recv-Goes (arrive t (b ∷ bytes) rest) (suc n) got c d room p early armed more =
    ground (arith, length-drop n bytes)

read_round-Goes :
    (size deadline : ℕ) (got : List ℕ) (c : Conn)
    → length got < size
    → IsReading deadline c
    → 0 < length (bytes_of c.feed)
    → Goes deadline (read_round size (some deadline) got c)
unfolding read_round
read_round-Goes size deadline got c room r more = elim (Bool-cases (leb deadline c.now)) [
  | inl late ↦ absurd (omega (arith, leb→le deadline c.now late, r.early))
  | inr live ↦
      rw (live, Goes)
        (grow_recv-Goes c.feed (size - length got) got
          (record c { timeout = some (deadline - c.now) }) deadline (omega arith) r.prompt r.early
          refl more)
]

read_on-Goes :
    (size deadline : ℕ) (got pending : List ℕ) (p : Result (List ℕ) × Conn)
    (rest : List ℕ → Conn → Result (List ℕ) × Conn)
    → Goes deadline p
    → Grows size got pending p
    → ((got' : List ℕ) (c : Conn)
        → IsReading deadline c
        → length got < length got'
        → length got' ≤ size
        → length got' + length (bytes_of c.feed) ≡ length got + length pending
        → Goes deadline (rest got' c))
    → Goes deadline (and_then p rest)
read_on-Goes size deadline got pending (err e, c) rest s g ih = s
read_on-Goes size deadline got pending (ok got', c) rest s (kept, more, fits) ih =
    ih got' c s more fits (
      omega
        (arith, ap length kept, length-append got' (bytes_of c.feed), length-append got pending))

read_loop-Goes :
    (fuel size deadline : ℕ) (got : List ℕ) (c : Conn)
    → IsReading deadline c
    → length got ≤ size
    → size ≤ length got + length (bytes_of c.feed)
    → Goes deadline (read_loop fuel size (some deadline) got c)
unfolding read_loop
read_loop-Goes zero size deadline got c r le enough = r
read_loop-Goes (suc fuel) size deadline got c r le enough =
    if_elim (Goes deadline) (ltb (length got) size)
      (λ more.
        read_on-Goes size deadline got (bytes_of c.feed) _ _
          (read_round-Goes size deadline got c (ground arith) r (ground arith))
          (read_round-Grows size (some deadline) got c (ground arith))
          λ got' c' r' longer fits total.
            read_loop-Goes fuel size deadline got' c' r' fits (omega arith))
      (λ full. r)

Goes-ok :
    (deadline : ℕ) (p : Result (List ℕ) × Conn)
    → Goes deadline p
    → (got : List ℕ) × (p.0 ≡ ok got) × IsReading deadline p.1
Goes-ok deadline (err e, c) g = absurd g
Goes-ok deadline (ok got, c) g = (got, refl, g)

first_bytes :
    (size : ℕ) (got later total : List ℕ)
    → length got ≡ size
    → got ++ later ≡ total
    → take size total ≡ got
first_bytes size got later total long kept = rw (← kept, ← long) (take_prefix got later)

-- A peer that sends at least `size` bytes, each piece before the deadline, is read: the call
-- returns, with the first `size` bytes, and the reader is still ahead of the deadline.
pub read_exact_prompt :
    (size deadline : ℕ) (c : Conn)
    → IsReading deadline c
    → size ≤ length (bytes_of c.feed)
    → ((read_exact size (some deadline) c).0 ≡ ok (take size (bytes_of c.feed)))
      × IsReading deadline (read_exact size (some deadline) c).1
read_exact_prompt size deadline c r enough =
    let (got, returned, going) =
      Goes-ok deadline (read_exact size (some deadline) c) (
        unfold read_exact in
        read_loop-Goes size size deadline [] c r (omega arith) (omega arith)) in
    let (long, kept) = read_exact_bytes size (some deadline) c got returned in
    (rw returned (ap ok (sym (first_bytes size got _ _ long kept))), going)

-- The same, with what is read and what is left named.
pub read_exact_piece :
    (deadline size : ℕ) (c : Conn) (first later : List ℕ)
    → IsReading deadline c
    → length first ≡ size
    → bytes_of c.feed ≡ first ++ later
    → (c' : Conn) × (read_exact size (some deadline) c ≡ (ok first, c'))
      × IsReading deadline c'
      × (bytes_of c'.feed ≡ later)
read_exact_piece deadline size c first later r long pending =
    let enough : size ≤ length (bytes_of c.feed) =
      omega (arith, long, ap length pending, length-append first later) in
    let (returned, going) = read_exact_prompt size deadline c r enough in
    let same : (read_exact size (some deadline) c).0 ≡ ok first =
      returned ∙ ap ok (first_bytes size first later _ long (sym pending)) in
    (
      (read_exact size (some deadline) c).1,
      pair_eq same,
      going,
      append-cancel_left first _ _
          ((read_exact_bytes size (some deadline) c first same).1 ∙ pending),
    )
