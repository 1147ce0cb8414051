-- ===== src/Auth/TemplateStore/Atomic.antt =====
-- secureEye/src/auth/template_store.py: `_write_json`, step by step. Any step can raise, and the
-- process can be killed between two steps; `os.replace` is one step, as the system call is.
mod Tests
use secure_eye.Prelude.{
  ℕ, zero, suc, ◌≡◌, refl, ◌⊎◌, inl, inr, Bool, true, false, Option, none, some, List, [], ◌∷◌,
  arith, take, All,
}
use secure_eye.Python.{Exc, Result, ok, err, Value}
use secure_eye.Auth.TemplateStore.{FileState, garbled, json}

pub data WriteStep : Type 0 where
  make_parent make_temporary dump flush sync change_mode stat_parent change_owner replace :
      WriteStep

-- The model file, and the temporary file beside it, which is garbled until the dump is done.
pub record Folder : Type 0 where
  pub target : FileState
  pub temporary : Option FileState

unfoldable pub perform : Value → WriteStep → Folder → Folder
perform payload make_temporary d = record d { temporary = some garbled }
perform payload dump d = record d { temporary = some (json payload) }
perform payload replace d = elim d.temporary [
  | none ↦ d
  | some f ↦ record { target = f; temporary = none }
]
perform payload _ d = d

-- What the `try` guards; root gives the file to the owner of the directory.
unfoldable pub guarded_steps : Bool → List WriteStep
guarded_steps true = dump ∷ flush ∷ sync ∷ change_mode ∷ stat_parent ∷ change_owner ∷ replace ∷ []
guarded_steps false = dump ∷ flush ∷ sync ∷ change_mode ∷ replace ∷ []

unfoldable pub all_steps : Bool → List WriteStep
unfolding guarded_steps
all_steps root = make_parent ∷ make_temporary ∷ guarded_steps root

-- The steps up to the first that raises; that one changes nothing.
unfoldable pub perform_all :
    (WriteStep → Option Exc) → Value → List WriteStep → Folder → Result (Unit {0}) × Folder
perform_all fault payload [] d = (ok tt, d)
perform_all fault payload (s ∷ rest) d =
    let next = perform_all fault payload rest (perform payload s d) in
    elim (fault s) [ none ↦ next | some e ↦ (err e, d) ]

-- `tmp_path.unlink(missing_ok=True)`
unlink : Folder → Folder
unlink d = record d { temporary = none }

cleaned : Result (Unit {0}) × Folder → Result (Unit {0}) × Folder
cleaned (ok _, d) = (ok tt, d)
cleaned (err e, d) = (err e, unlink d)

guard_rest :
    (WriteStep → Option Exc)
    → Bool
    → Value
    → Result (Unit {0}) × Folder
    → Result (Unit {0}) × Folder
guard_rest fault root payload (ok _, d) = cleaned (perform_all fault payload (guarded_steps root) d)
guard_rest fault root payload (err e, d) = (err e, d)

-- `_write_json`; `fault` says what each step raises.
unfoldable pub write_json :
    (WriteStep → Option Exc) → Bool → Value → Folder → Result (Unit {0}) × Folder
unfolding guard_rest cleaned unlink guarded_steps perform_all perform
write_json fault root payload d =
    guard_rest fault root payload (perform_all fault payload (make_parent ∷ make_temporary ∷ []) d)

-- The folder of a process that is killed after `n` steps.
unfoldable pub killed_after : ℕ → Bool → Value → Folder → Folder
unfolding all_steps perform_all perform guarded_steps
killed_after n root payload d = (perform_all (λ _. none) payload (take n (all_steps root)) d).1

-- The model file is whole, and so is the temporary file if there is one.
record IsWhole (old : FileState) (payload : Value) (d : Folder) : Type 0 where
  target_whole : (d.target ≡ old) ⊎ (d.target ≡ json payload)
  temporary_whole : (d.temporary ≡ none) ⊎ (d.temporary ≡ some (json payload))

creates : WriteStep → Bool
creates make_temporary = true
creates _ = false

perform-IsWhole :
    (old : FileState) (payload : Value) (s : WriteStep) (d : Folder)
    → creates s ≡ false
    → IsWhole old payload d
    → IsWhole old payload (perform payload s d)
unfolding perform creates
perform-IsWhole old payload s d h w = ground arith

perform_all-IsWhole :
    (old : FileState) (payload : Value) (steps : List WriteStep) (d : Folder)
    → All (λ s. creates s ≡ false) steps
    → IsWhole old payload d
    → IsWhole old payload (perform_all (λ _. none) payload steps d).1
unfolding perform_all
perform_all-IsWhole old payload [] d h w = w
perform_all-IsWhole old payload (s ∷ rest) d (h, hs) w =
    perform_all-IsWhole old payload rest (perform payload s d) hs
      (perform-IsWhole old payload s d h w)

module _ {A : Type 0} (P : A → Type 0) where
  All-take : (n : ℕ) (xs : List A) → All P xs → All P (take n xs)
  All-take zero xs h = tt
  All-take (suc n) [] h = tt
  All-take (suc n) (x ∷ xs) (p, h) = (p, All-take n xs h)

after_dump : Bool → List WriteStep
after_dump true = flush ∷ sync ∷ change_mode ∷ stat_parent ∷ change_owner ∷ replace ∷ []
after_dump false = flush ∷ sync ∷ change_mode ∷ replace ∷ []

after_dump-keeps : (root : Bool) → All (λ s. creates s ≡ false) (after_dump root)
unfolding creates after_dump
after_dump-keeps true = (refl, (refl, (refl, (refl, (refl, (refl, tt))))))
after_dump-keeps false = (refl, (refl, (refl, (refl, tt))))

guarded_steps-after_dump : (root : Bool) → guarded_steps root ≡ dump ∷ after_dump root
unfolding guarded_steps after_dump
guarded_steps-after_dump true = refl
guarded_steps-after_dump false = refl

module _ (root : Bool) (payload : Value) (d : Folder) where
  -- A process that is killed after any number of steps leaves the model file as it was, or with the
  -- whole new payload.
  pub killed_after-target :
      (n : ℕ)
      → ((killed_after n root payload d).target ≡ d.target)
        ⊎ ((killed_after n root payload d).target ≡ json payload)
  unfolding killed_after perform_all all_steps perform
  killed_after-target zero = inl refl
  killed_after-target (suc zero) = inl refl
  killed_after-target (suc (suc zero)) = inl refl
  killed_after-target (suc (suc (suc n))) =
      rw (guarded_steps-after_dump root, killed_after)
        (perform_all-IsWhole d.target payload (take n (after_dump root))
          (record d { temporary = some (json payload) })
          (All-take _ n (after_dump root) (after_dump-keeps root))
          (record { target_whole = inl refl; temporary_whole = inr refl })).target_whole

  -- When no step raises, the model file holds the new payload and no temporary file is left.
  pub write_json-ok :
      (fault : WriteStep → Option Exc)
      → (write_json fault root payload d).0 ≡ ok tt
      → (write_json fault root payload d).1 ≡ record { target = json payload; temporary = none }
  unfolding write_json
  write_json-ok fault h = ground arith

  -- When a step raises, the model file is as it was, and no temporary file is left that was not
  -- there.
  pub write_json-err :
      (fault : WriteStep → Option Exc) (e : Exc)
      → (write_json fault root payload d).0 ≡ err e
      → d.temporary ≡ none
      → (write_json fault root payload d).1 ≡ d
  unfolding write_json
  write_json-err fault e h k = ground arith
