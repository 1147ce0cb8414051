-- ===== src/Cli/Labels.antt =====
-- secureEye/src/cli/enrollment.py: the text of a label.
use Prim.Native.String.{String, ◌∷◌, []}
use Prim.Native.Char.{Char, code}
use secure_eye.Prelude.{
  ℕ, zero, suc, ◌≡◌, refl, ap, ◌∙◌, inl, inr, Bool, false, ◌||◌, ◌==◌, if◌then◌else◌, Bool-cases,
  if_true, if_false,
}

abbrev is_comma : Char → Bool
is_comma c = code c == 44

-- `"," in label`
unfoldable pub has_comma : String → Bool
has_comma [] = false
has_comma (c ∷ s) = is_comma c || has_comma s

-- `label.replace(",", "")`
unfoldable pub without_commas : String → String
without_commas [] = []
without_commas (c ∷ s) = let rest = without_commas s in if is_comma c then rest else c ∷ rest

-- `label_in[:n]`
unfoldable pub take_text : ℕ → String → String
take_text zero s = []
take_text (suc n) [] = []
take_text (suc n) (c ∷ s) = c ∷ take_text n s

pub has_comma-without_commas : (s : String) → has_comma (without_commas s) ≡ false
unfolding has_comma without_commas
has_comma-without_commas [] = refl
has_comma-without_commas (c ∷ s) =
    let rest = has_comma-without_commas s in
    elim (Bool-cases (is_comma c)) [
      | inl comma ↦ ap has_comma (if_true _ comma) ∙ rest
      | inr other ↦
          ap has_comma (if_false _ other) ∙ ap (λ b. b || has_comma (without_commas s)) other ∙ rest
    ]
