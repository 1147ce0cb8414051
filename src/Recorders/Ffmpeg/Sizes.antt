-- ===== src/Recorders/Ffmpeg/Sizes.antt =====
-- secureEye/src/recorders/ffmpeg_reader.py: which size `probe` takes for the height.
use secure_eye.Prelude.{
  ℕ, ◌≡◌, sym, ap, ◌∙◌, subst, inl, inr, true, ◌&&◌, none, some, List, [], ◌∷◌, ◌++◌, arith, leb,
  ◌==◌, Bool-cases, Option-cases, if_true, if_false, length, append_assoc,
}
use secure_eye.Python.{Result, ok, ◌>>=◌}
use secure_eye.Recorders.Ffmpeg.{
  Size, digits, Characters, Tools, Reader, letter_x, take_digits, second_number, match_here,
  find_size, strip_space, probed_sizes, after_first, or_else, found_size,
}
use secure_eye.Recorders.Ffmpeg.Digits.{
  IsTable, split_x-match, strip_space-digits, strip_space-match, take_digits-append, IsSize,
  digits-IsSize,
}

module _ (chars : Characters) (table : IsTable chars) where
  -- Two sizes with an `x` between them, after white space, somewhere in the text.
  pub record IsFound (text found : List ℕ) : Type 0 where
    pub space : ℕ
    pub one : List ℕ
    pub two : List ℕ
    pub before : List ℕ
    pub after : List ℕ
    pub is_space : chars.is_space space ≡ true
    pub one_size : IsSize chars table one
    pub two_size : IsSize chars table two
    pub form : found ≡ space ∷ (one ++ (letter_x ∷ two))
    pub inside : text ≡ before ++ (found ++ after)

  second_number-IsFound :
      (space : ℕ) (one rest : List ℕ) {found : List ℕ}
      → chars.is_space space ≡ true
      → IsSize chars table one
      → second_number chars space one rest ≡ some found
      → IsFound (space ∷ (one ++ (letter_x ∷ rest))) found
  unfolding second_number
  second_number-IsFound space one rest {found} is_space size h =
      elim (Bool-cases (leb 3 (length (take_digits chars 4 rest).0))) [
        | inl enough ↦
            let two = (take_digits chars 4 rest).0 in
            let same : some (space ∷ (one ++ (letter_x ∷ two))) ≡ some found =
              sym (if_true _ enough) ∙ h in
            let form : found ≡ space ∷ (one ++ (letter_x ∷ two)) = cc in
            record {
              space = space;
              one = one;
              two = two;
              before = [];
              after = (take_digits chars 4 rest).1;
              is_space = is_space;
              one_size = size;
              two_size = digits-IsSize chars table rest enough;
              form = form;
              inside =
                  ap (λ r. space ∷ (one ++ (letter_x ∷ r)))
                    (sym (take_digits-append chars table 4 rest))
                  ∙ ap (λ r. space ∷ r) (sym (append_assoc one (letter_x ∷ two) _))
                  ∙ ap (λ r. r ++ (take_digits chars 4 rest).1) (sym form);
            }
        | inr few ↦ absurd (let nothing : none ≡ some found = sym (if_false _ few) ∙ h in cc)
      ]

  after_first-IsFound :
      (space : ℕ) (one rest : List ℕ) {found : List ℕ}
      → chars.is_space space ≡ true
      → (leb 3 (length one) ≡ true → IsSize chars table one)
      → after_first chars space one rest ≡ some found
      → IsFound (space ∷ (one ++ rest)) found
  unfolding after_first
  after_first-IsFound space one [] is_space size h = absurd (cc)
  after_first-IsFound space one (c ∷ rest) {found} is_space size h =
      elim (Bool-cases (leb 3 (length one) && c == letter_x)) [
        | inl both ↦
            let is_x : c ≡ letter_x = ground arith in
            let enough : leb 3 (length one) ≡ true = ground arith in
            subst (λ n. IsFound (space ∷ (one ++ (n ∷ rest))) found) (sym is_x)
              (second_number-IsFound space one rest is_space (size enough)
                (sym (if_true _ both) ∙ h))
        | inr other ↦ absurd (let nothing : none ≡ some found = sym (if_false _ other) ∙ h in cc)
      ]

  match_here-IsFound :
      (text : List ℕ) {found : List ℕ} → match_here chars text ≡ some found → IsFound text found
  unfolding match_here
  match_here-IsFound [] h = absurd (cc)
  match_here-IsFound (c ∷ cs) {found} h = elim (Bool-cases (chars.is_space c)) [
    | inl is_space ↦
        subst (λ t. IsFound (c ∷ t) found) (take_digits-append chars table 4 cs)
          (after_first-IsFound c (take_digits chars 4 cs).0 (take_digits chars 4 cs).1 is_space
            (digits-IsSize chars table cs) (sym (if_true _ is_space) ∙ h))
    | inr other ↦ absurd (let nothing : none ≡ some found = sym (if_false _ other) ∙ h in cc)
  ]

  later-IsFound :
      (c : ℕ) (text : List ℕ) {found : List ℕ} → IsFound text found → IsFound (c ∷ text) found
  later-IsFound c text is = record {
    space = is.space;
    one = is.one;
    two = is.two;
    before = c ∷ is.before;
    after = is.after;
    is_space = is.is_space;
    one_size = is.one_size;
    two_size = is.two_size;
    form = is.form;
    inside = ap (λ t. c ∷ t) is.inside;
  }

  find_size-IsFound :
      (text : List ℕ) {found : List ℕ} → find_size chars text ≡ some found → IsFound text found
  unfolding find_size or_else
  find_size-IsFound [] h = absurd (cc)
  find_size-IsFound (c ∷ cs) {found} h = elim (Option-cases (match_here chars (c ∷ cs))) [
    | inl nothing ↦
        later-IsFound c cs
          (find_size-IsFound cs (ap (λ o. or_else chars o (find_size chars cs)) (sym nothing) ∙ h))
    | inr (m, at) ↦
        match_here-IsFound (c ∷ cs)
          (at ∙ ap (λ o. or_else chars o (find_size chars cs)) (sym at) ∙ h)
  ]

  module _ {Frame : Type 0} (tools : Tools Frame) where
    -- When ffmpeg ends with the code 1 and its errors list a format, `probe` takes a place in this text
    -- where two numbers of three or four digits stand after white space with an `x` between them, and
    -- calls the number before the `x` the height and the one after it the width.
    pub probed_sizes-IsFound :
        (r : Reader Frame) (text found : List ℕ)
        → tools.list_formats r.device_path r.device_format ≡ ok (1, text)
        → find_size chars text ≡ some found
        → (is : IsFound text found) × (probed_sizes chars tools r
            ≡ ok (digits is.one, digits is.two))
    unfolding probed_sizes found_size
    probed_sizes-IsFound r text found listed h =
        let is = find_size-IsFound text h in
        let parts =
          split_x-match chars table is.space is.one is.two is.is_space is.one_size.decimal in
        let height =
          strip_space-match chars table is.space is.one is.is_space is.one_size.decimal in
        let width = strip_space-digits chars table is.two is.two_size.decimal in
        let sizes : List ℕ × List ℕ → Result (Size × Size) =
          λ p. ok (digits (strip_space chars p.0), digits (strip_space chars p.1)) in
        (
          is,
          ap (λ a. a >>= λ answer. found_size chars tools r answer.0 (find_size chars answer.1))
                listed
              ∙ ap (λ o. found_size chars tools r 1 o) (h ∙ ap some is.form)
              ∙ ap sizes parts
              ∙ λ i. ok (digits (height i), digits (width i)),
        )
