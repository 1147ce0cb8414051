-- ===== src/Recorders/Ffmpeg/Digits.antt =====
-- secureEye/src/recorders/ffmpeg_reader.py: the digits of a size, and the text round them.
use secure_eye.Prelude.{
  ℕ, zero, suc, ◌≤◌, ◌≡◌, refl, ap, ◌∙◌, inl, inr, true, false, none, List, [], ◌∷◌, ◌++◌, arith,
  leb, ◌==◌, is_some, Bool-cases, leb→le, if_elim, if_true, if_false, length, All,
}
use secure_eye.Recorders.Ffmpeg.{Characters, letter_x, take_digits, split_x, strip_space}

-- What the tables of characters say of decimal digits, white space and the letter x.
pub record IsTable (chars : Characters) : Type 0 where
  pub digit_no_space : (c : ℕ) → is_some (chars.decimal c) ≡ true → chars.is_space c ≡ false
  pub x_no_space : chars.is_space letter_x ≡ false
  pub x_no_digit : chars.decimal letter_x ≡ none

module _ (chars : Characters) (table : IsTable chars) where
  -- A text of decimal digits.
  abbrev pub IsDecimal : List ℕ → Type 0
  IsDecimal cs = All (λ c. is_some (chars.decimal c) ≡ true) cs

  pub digit-no_x : (c : ℕ) → is_some (chars.decimal c) ≡ true → (c == letter_x) ≡ false
  digit-no_x c h = elim (Bool-cases (c == letter_x)) [
    | inl is_x ↦ let same : c ≡ letter_x = ground arith in absurd (cc (h, table.x_no_digit, same))
    | inr not_x ↦ not_x
  ]

  pub space-no_x : (c : ℕ) → chars.is_space c ≡ true → (c == letter_x) ≡ false
  space-no_x c h = elim (Bool-cases (c == letter_x)) [
    | inl is_x ↦ let same : c ≡ letter_x = ground arith in absurd (cc (h, table.x_no_space, same))
    | inr not_x ↦ not_x
  ]

  pub split_x-digits :
      (one rest : List ℕ) → IsDecimal one → split_x chars (one ++ (letter_x ∷ rest)) ≡ (one, rest)
  unfolding split_x
  split_x-digits [] rest h = refl
  split_x-digits (c ∷ one) rest (h, hs) =
      if_false _ (digit-no_x c h)
      ∙ ap (λ (p : List ℕ × List ℕ). (c ∷ p.0, p.1)) (split_x-digits one rest hs)

  pub split_x-match :
      (space : ℕ) (one rest : List ℕ)
      → chars.is_space space ≡ true
      → IsDecimal one
      → split_x chars (space ∷ (one ++ (letter_x ∷ rest))) ≡ (space ∷ one, rest)
  unfolding split_x
  split_x-match space one rest is_space h =
      if_false _ (space-no_x space is_space)
      ∙ ap (λ (p : List ℕ × List ℕ). (space ∷ p.0, p.1)) (split_x-digits one rest h)

  pub strip_space-digits : (cs : List ℕ) → IsDecimal cs → strip_space chars cs ≡ cs
  unfolding strip_space
  strip_space-digits [] h = refl
  strip_space-digits (c ∷ cs) (h, hs) = if_false _ (table.digit_no_space c h)

  pub strip_space-match :
      (space : ℕ) (cs : List ℕ)
      → chars.is_space space ≡ true
      → IsDecimal cs
      → strip_space chars (space ∷ cs) ≡ cs
  unfolding strip_space
  strip_space-match space cs is_space h = if_true _ is_space ∙ strip_space-digits cs h

  take_digits-IsDecimal : (n : ℕ) (cs : List ℕ) → IsDecimal (take_digits chars n cs).0
  unfolding take_digits
  take_digits-IsDecimal zero cs = tt
  take_digits-IsDecimal (suc n) [] = tt
  take_digits-IsDecimal (suc n) (c ∷ cs) =
      if_elim {A = List ℕ × List ℕ} (λ p. IsDecimal p.0) (is_some (chars.decimal c))
        (λ h. (h, take_digits-IsDecimal n cs)) λ _. tt

  pub take_digits-append :
      (n : ℕ) (cs : List ℕ) → (take_digits chars n cs).0 ++ (take_digits chars n cs).1 ≡ cs
  unfolding take_digits
  take_digits-append zero cs = refl
  take_digits-append (suc n) [] = refl
  take_digits-append (suc n) (c ∷ cs) =
      if_elim {A = List ℕ × List ℕ} (λ p. p.0 ++ p.1 ≡ c ∷ cs) (is_some (chars.decimal c))
        (λ _. ap (λ l. c ∷ l) (take_digits-append n cs)) λ _. refl

  length-take_digits : (n : ℕ) (cs : List ℕ) → length (take_digits chars n cs).0 ≤ n
  unfolding take_digits
  length-take_digits zero cs = omega arith
  length-take_digits (suc n) [] = omega arith
  length-take_digits (suc n) (c ∷ cs) =
      if_elim {A = List ℕ × List ℕ} (λ p. length p.0 ≤ suc n) (is_some (chars.decimal c))
        (λ _. omega (arith, length-take_digits n cs)) λ _. omega arith

  -- Three or four digits.
  pub record IsSize (cs : List ℕ) : Type 0 where
    pub decimal : IsDecimal cs
    pub at_least : 3 ≤ length cs
    pub at_most : length cs ≤ 4

  pub digits-IsSize :
      (cs : List ℕ)
      → leb 3 (length (take_digits chars 4 cs).0) ≡ true
      → IsSize (take_digits chars 4 cs).0
  digits-IsSize cs h = record {
    decimal = take_digits-IsDecimal 4 cs;
    at_least = leb→le 3 _ h;
    at_most = length-take_digits 4 cs;
  }
