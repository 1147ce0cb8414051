-- ===== src/Rubberstamps/Hotkey.antt =====
-- secureEye/src/rubberstamps/hotkey.py: a key confirms or aborts. The list holds what `pressed_key` says
-- in each turn of the countdown, which the timeout gives the length of.
use secure_eye.Prelude.{
  ◌≡◌, refl, sym, ap, ◌∙◌, Bool, true, false, not, Option, none, some, List, [], ◌∷◌, if◌then◌else◌,
}
use secure_eye.Python.{system_exit, Result, err, ok}

-- `pressed_key`
pub data PressedKey : Type 0 where
  no_key abort_key confirm_key : PressedKey

-- What the stamp meets: whether the keyboard module is there, and the option.
pub record Keyboard : Type 0 where
  pub installed : Bool
  pub failsafe : Bool

key_answer : PressedKey → Bool → Bool
key_answer no_key later = later
key_answer abort_key later = false
key_answer confirm_key later = true

-- `while time_left > 0`
wait_for_key : Keyboard → List PressedKey → Bool
unfolding key_answer
wait_for_key k [] = not k.failsafe
wait_for_key k (pressed ∷ ticks) = let later = wait_for_key k ticks in key_answer pressed later

-- `hotkey.run`
unfoldable pub run_hotkey : Keyboard → List PressedKey → Result Bool
unfolding wait_for_key
run_hotkey k ticks = if k.installed then ok (wait_for_key k ticks) else err (system_exit 1)

-- The first key that is seen in the countdown.
abbrev pub first_key : List PressedKey → Option PressedKey
first_key [] = none
first_key (no_key ∷ ticks) = first_key ticks
first_key (pressed ∷ ticks) = some pressed

confirms : Keyboard → Option PressedKey → Bool
confirms k none = not k.failsafe
confirms k (some confirm_key) = true
confirms k (some _) = false

wait_for_key-confirms :
    (k : Keyboard) (ticks : List PressedKey) → wait_for_key k ticks ≡ confirms k (first_key ticks)
unfolding wait_for_key key_answer confirms
wait_for_key-confirms k [] = refl
wait_for_key-confirms k (no_key ∷ ticks) = wait_for_key-confirms k ticks
wait_for_key-confirms k (abort_key ∷ ticks) = refl
wait_for_key-confirms k (confirm_key ∷ ticks) = refl

-- Only the first key that is seen decides, whatever comes after it.
pub run_hotkey-first :
    (k : Keyboard) (ticks others : List PressedKey)
    → first_key ticks ≡ first_key others
    → run_hotkey k ticks ≡ run_hotkey k others
unfolding run_hotkey
run_hotkey-first k ticks others same =
    ap (λ (b : Bool). if k.installed then ok b else err (system_exit 1))
      (wait_for_key-confirms k ticks ∙ ap (confirms k) same ∙ sym (wait_for_key-confirms k others))
