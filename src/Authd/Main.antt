-- ===== src/Authd/Main.antt =====
-- secureEye/src/authd/main.py: the life of the daemon round `serve`: the warm-up, the socket file and its
-- removal. The operating system and the accept loop are parameters; the signal handlers only set `stop`.
pub mod Removed
mod Tests
use secure_eye.Prelude.{ℕ, Bool, true, false, Option, none, some, if◌then◌else◌}
use secure_eye.Python.{
  Exc, file_not_found, Result, err, ok, ◌>>◌, and_then, stateless, is_exception,
}

-- The socket file, with its mode if it is there, and the socket.
pub record Process : Type 0 where
  pub socket_file : Option ℕ
  pub listening : Bool
  pub closed_socket : Bool

-- What the calls do: building the detector, making the directory, removing the file when it is there,
-- the socket, binding it, which makes the file with this mode, `chmod`, `listen`, how `serve` ends and
-- what it leaves of the file, and closing the socket.
pub record System : Type 0 where
  pub create_pipeline : Result (Unit {0})
  pub makedirs : Result (Unit {0})
  pub may_unlink : Result (Unit {0})
  pub new_socket : Result (Unit {0})
  pub bind : Result ℕ
  pub chmod : Result (Unit {0})
  pub listen : Result (Unit {0})
  pub serve : Result (Unit {0})
  pub file_after : Option ℕ → Option ℕ
  pub close : Result (Unit {0})

-- The mode that lets anyone connect, 0o666.
abbrev pub open_mode : ℕ
open_mode = 438

is_missing : Exc → Bool
is_missing file_not_found = true
is_missing _ = false

-- `except FileNotFoundError: pass`
unfoldable pub ignore_missing : Result (Unit {0}) × Process → Result (Unit {0}) × Process
unfolding is_missing
ignore_missing (ok _, p) = (ok tt, p)
ignore_missing (err e, p) = (if is_missing e then ok tt else err e, p)

-- `finally`: what the clean-up raises takes the place of how the block ended.
abbrev pub finally {ℓ} :
    {A : Type 0} {S : Type ℓ} → Result A × S → (S → Result (Unit {0}) × S) → Result A × S
finally (outcome, s) clean_up = and_then (clean_up s) λ _ s₁. (outcome, s₁)

module _ (os : System) where
  removed : Result (Unit {0}) → Process → Result (Unit {0}) × Process
  removed (ok _) p = (ok tt, record p { socket_file = none })
  removed (err e) p = (err e, p)

  -- `os.unlink`
  unfoldable pub unlink : Process → Result (Unit {0}) × Process
  unfolding removed
  unlink p = elim p.socket_file [
    | none ↦ (err file_not_found, p)
    | some mode ↦ removed os.may_unlink p
  ]

  -- The `try` round `os.unlink`.
  abbrev remove_file : Process → Result (Unit {0}) × Process
  remove_file p = ignore_missing (unlink p)

  -- `_prepare_socket`
  unfoldable pub prepare_socket : Process → Result (Unit {0}) × Process
  prepare_socket p = and_then (stateless os.makedirs p) λ _ p₁. and_then (remove_file p₁) λ _ p₂.
      and_then (stateless (os.new_socket >> os.bind) p₂) λ mode p₃.
        and_then (stateless os.chmod (record p₃ { socket_file = some mode })) λ _ p₄.
          and_then (stateless os.listen (record p₄ { socket_file = some open_mode }))
            λ _ p₅. (ok tt, record p₅ { listening = true })

  skip_exception : Result (Unit {0}) → Result (Unit {0})
  skip_exception (ok _) = ok tt
  skip_exception (err e) = if is_exception e then ok tt else err e

  -- `_warm_detector`
  unfoldable pub warm_detector : Result (Unit {0})
  unfolding skip_exception
  warm_detector = skip_exception os.create_pipeline

  close_socket : Process → Result (Unit {0}) × Process
  close_socket p = (os.close, record p { listening = false; closed_socket = true })

  -- The outer `finally`.
  clean_up : Process → Result (Unit {0}) × Process
  unfolding close_socket
  clean_up p = finally (close_socket p) remove_file

  serve_all : Process → Result (Unit {0}) × Process
  serve_all p = (os.serve, record p { socket_file = os.file_after p.socket_file })

  -- `main`
  unfoldable pub main : Process → Result ℕ × Process
  unfolding clean_up serve_all
  main p = and_then (stateless warm_detector p) λ _ p₁.
      and_then (prepare_socket p₁)
        λ _ p₂. and_then (finally (serve_all p₂) clean_up) λ _ p₃. (ok 0, p₃)
