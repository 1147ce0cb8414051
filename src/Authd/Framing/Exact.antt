-- ===== src/Authd/Framing/Exact.antt =====
-- `read_exact`: which bytes it returns, and how long it waits.
use secure_eye.Prelude.{
  ℕ, zero, suc, ◌+◌, ◌-◌, ◌≤◌, ◌<◌, ◌≡◌, refl, ap, ◌∙◌, subst, inl, inr, Option, none, some, List,
  [], ◌∷◌, ◌++◌, arith, ltb, Bool-cases, if_elim, length, take, drop, length-append,
  take-append-drop, take_of_le, length-take-le, append_assoc,
}
use secure_eye.Python.{Result, ok, err, and_then}
use secure_eye.Authd.Framing.{
  Feed, closed, broken, arrive, Conn, expires_before, read_round, read_exact, recv_from, recv, arm,
  grow, read_loop,
}

-- Every byte that the peer will still send.
abbrev pub bytes_of : Feed → List ℕ
bytes_of closed = []
bytes_of (broken _) = []
bytes_of (arrive _ bytes rest) = bytes ++ bytes_of rest

-- What a received chunk is to the bytes that were pending.
abbrev Takes : ℕ → List ℕ → Result (List ℕ) × Conn → Type 0
Takes most pending (err e, c) = Unit
Takes most pending (ok chunk, c) = (chunk ++ bytes_of c.feed ≡ pending) × (length chunk ≤ most)

-- What a round that succeeded has made of `got`.
abbrev pub Grows : ℕ → List ℕ → List ℕ → Result (List ℕ) × Conn → Type 0
Grows size got pending (err e, c) = Unit
Grows size got pending (ok got', c) =
    (got' ++ bytes_of c.feed ≡ got ++ pending) × (length got < length got') × (length got' ≤ size)

recv_from-Takes :
    (f : Feed) (n : ℕ) (c : Conn) → c.feed ≡ f → Takes n (bytes_of f) (recv_from f n c)
unfolding recv_from
recv_from-Takes closed n c same = ground arith
recv_from-Takes (broken e) n c same = tt
recv_from-Takes (arrive t bytes rest) n c same = elim (Bool-cases (expires_before c t)) [
  | inl late ↦ rw late tt
  | inr live ↦ rw live (
      ground (
        arith,
        take-append-drop n bytes,
        take_of_le n bytes,
        length-take-le n bytes,
        append_assoc (take n bytes) (drop n bytes) (bytes_of rest),
      ))
]

grow-Grows :
    (size : ℕ) (got pending : List ℕ) (p : Result (List ℕ) × Conn)
    → length got < size
    → Takes (size - length got) pending p
    → Grows size got pending (grow got p)
unfolding grow
grow-Grows size got pending (err e, c) room t = tt
grow-Grows size got pending (ok [], c) room t = tt
grow-Grows size got pending (ok (b ∷ chunk), c) room t = (
  append_assoc got (b ∷ chunk) (bytes_of c.feed) ∙ ap (λ l. got ++ l) t.0,
  omega (arith, length-append got (b ∷ chunk)),
  omega (arith, length-append got (b ∷ chunk), t.1),
)

arm-feed : (deadline : Option ℕ) (c : Conn) → (arm deadline c).1.feed ≡ c.feed
unfolding arm
arm-feed none c = refl
arm-feed (some d) c = ground arith

pub read_round-Grows :
    (size : ℕ) (deadline : Option ℕ) (got : List ℕ) (c : Conn)
    → length got < size
    → Grows size got (bytes_of c.feed) (read_round size deadline got c)
unfolding read_round
read_round-Grows size deadline got c room = go (arm deadline c) (arm-feed deadline c)
  where
    go :
        (p : Result (Unit {0}) × Conn)
        → p.1.feed ≡ c.feed
        → Grows size got
            (bytes_of c.feed)
            (and_then p λ _ armed. grow got (recv (size - length got) armed))
    go (err e, a) same = tt
    go (ok _, a) same =
        rw (← same) (grow-Grows size got (bytes_of a.feed) _ room (recv_from-Takes a.feed _ a refl))

-- What the whole loop has made of `got`.
abbrev ReadsOnto : ℕ → List ℕ → Result (List ℕ) × Conn → Type 0
ReadsOnto size total (err e, c) = Unit
ReadsOnto size total (ok all, c) = (all ++ bytes_of c.feed ≡ total) × (length all ≡ size)

read_on-ReadsOnto :
    (size : ℕ) (got pending : List ℕ) (p : Result (List ℕ) × Conn)
    (rest : List ℕ → Conn → Result (List ℕ) × Conn)
    → Grows size got pending p
    → ((got' : List ℕ) (c : Conn)
        → length got < length got'
        → length got' ≤ size
        → ReadsOnto size (got' ++ bytes_of c.feed) (rest got' c))
    → ReadsOnto size (got ++ pending) (and_then p rest)
read_on-ReadsOnto size got pending (err e, c) rest g ih = tt
read_on-ReadsOnto size got pending (ok got', c) rest (kept, more, fits) ih =
    subst (λ l. ReadsOnto size l (rest got' c)) kept (ih got' c more fits)

read_loop-ReadsOnto :
    (fuel size : ℕ) (deadline : Option ℕ) (got : List ℕ) (c : Conn)
    → length got ≤ size
    → size ≤ length got + fuel
    → ReadsOnto size (got ++ bytes_of c.feed) (read_loop fuel size deadline got c)
unfolding read_loop
read_loop-ReadsOnto zero size deadline got c le enough = (refl, omega arith)
read_loop-ReadsOnto (suc fuel) size deadline got c le enough =
    if_elim (ReadsOnto size (got ++ bytes_of c.feed)) (ltb (length got) size)
      (λ more.
        read_on-ReadsOnto size got (bytes_of c.feed) (read_round size deadline got c) _
          (read_round-Grows size deadline got c (ground arith))
          λ got' c' longer fits. read_loop-ReadsOnto fuel size deadline got' c' fits (omega arith))
      (λ full. (refl, ground arith))

ReadsOnto-ok :
    (size : ℕ) (total : List ℕ) (p : Result (List ℕ) × Conn) {all : List ℕ}
    → ReadsOnto size total p
    → p.0 ≡ ok all
    → (length all ≡ size) × (all ++ bytes_of p.1.feed ≡ total)
ReadsOnto-ok size total (err e, c) r h = ground arith
ReadsOnto-ok size total (ok got, c) r h = ground arith

-- However the peer's bytes are cut into pieces, a `read_exact` that returns has taken exactly the
-- first `size` of them, in order, and left the others to be read.
pub read_exact_bytes :
    (size : ℕ) (deadline : Option ℕ) (c : Conn) (got : List ℕ)
    → (read_exact size deadline c).0 ≡ ok got
    → (length got ≡ size) × (got ++ bytes_of (read_exact size deadline c).1.feed ≡ bytes_of c.feed)
unfolding read_exact
read_exact_bytes size deadline c got h =
    ReadsOnto-ok size (bytes_of c.feed) _
      (read_loop-ReadsOnto size size deadline [] c (omega arith) (omega arith)) h
