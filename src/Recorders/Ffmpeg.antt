-- ===== src/Recorders/Ffmpeg.antt =====
-- secureEye/src/recorders/ffmpeg_reader.py: frames that ffmpeg records in batches. ffmpeg, NumPy and
-- the tables of characters are parameters; a text is the list of its code points.
pub mod Answers
pub mod Digits
pub mod Sizes
use secure_eye.Prelude.{
  ℕ, zero, suc, ◌+◌, ◌-◌, ◌*◌, String, Bool, true, false, not, ◌&&◌, ◌||◌, Option, none, some, List,
  [], ◌∷◌, ◌++◌, leb, ◌==◌, if◌then◌else◌, is_some, length, get_elem?, keep, is_empty,
}
use secure_eye.Prelude.Int.{ℤ, pos, eqb_ℤ}
use secure_eye.Python.{
  value_error, attribute_error, index_error, Result, err, ok, ◌>>=◌, and_then, stateless,
}

-- The properties of a capture that the code sets or gets.
pub data Property : Type 0 where
  frame_width frame_height frame_rate fourcc : Property

-- A size in the answer of `ffmpeg.probe`: a number of the JSON, or a text.
pub data Size : Type 0 where
  number : ℤ → Size
  digits : List ℕ → Size

-- What `read` gives: the array of all frames, or one frame.
pub data Picture (Frame : Type 0) : Type 0 where
  batch : List Frame → Picture Frame
  sole_frame : Frame → Picture Frame

-- `self.video`: the empty tuple, or an array.
pub data Video (Frame : Type 0) : Type 0 where
  no_video : Video Frame
  recorded : List Frame → Video Frame

-- What the characters are: white space, and the value of a decimal digit.
pub record Characters : Type 0 where
  pub is_space : ℕ → Bool
  pub decimal : ℕ → Option ℕ

-- What the reader calls for a device and its format: `ffmpeg -list_formats all` with its return code
-- and decoded errors, `ffmpeg.probe` with the height and the width of the first stream, a recording of
-- a number of frames, the array of the recorded bytes in the shape [-1, width, height, 3], and the
-- comparison of an array with `()`.
pub record Tools (Frame : Type 0) : Type 0 where
  pub list_formats : String → String → Result (ℕ × List ℕ)
  pub probe_stream : String → Result (Size × Size)
  pub run_input : String → String → ℕ → Result (List ℕ)
  pub reshape : List ℕ → ℤ → ℤ → Result (List Frame)
  pub equals_empty : List Frame → Result Bool

-- `ffmpeg_reader`
pub record Reader (Frame : Type 0) : Type 0 where
  pub device_path : String
  pub device_format : String
  pub numframes : ℕ
  pub video : Video Frame
  pub num_frames_read : ℕ
  pub height : ℤ
  pub width : ℤ
  pub init_camera : Bool

abbrev pub new_reader : {Frame : Type 0} → String → String → Reader Frame
new_reader path format = record {
  device_path = path;
  device_format = format;
  numframes = 10;
  video = no_video;
  num_frames_read = 0;
  height = pos 0;
  width = pos 0;
  init_camera = true;
}

-- `set`
abbrev pub set_property : {Frame : Type 0} → Property → ℤ → Reader Frame → Reader Frame
set_property frame_width n r = record r { width = n }
set_property frame_height n r = record r { height = n }
set_property _ n r = r

-- The code point of `x`.
abbrev pub letter_x : ℕ
letter_x = 120

module _ (chars : Characters) where
  -- `\d{3,4}` and what follows it: as many digits as there are, at most `n`.
  unfoldable pub take_digits : ℕ → List ℕ → List ℕ × List ℕ
  take_digits zero cs = ([], cs)
  take_digits (suc n) [] = ([], [])
  take_digits (suc n) (c ∷ cs) =
      let later = take_digits n cs in
      if is_some (chars.decimal c) then (c ∷ later.0, later.1) else ([], c ∷ cs)

  -- The second number of a match, after the first.
  unfoldable pub second_number : ℕ → List ℕ → List ℕ → Option (List ℕ)
  second_number space one rest =
      if leb 3 (length (take_digits 4 rest).0)
      then some (space ∷ (one ++ (letter_x ∷ (take_digits 4 rest).0)))
      else none

  after_first : ℕ → List ℕ → List ℕ → Option (List ℕ)
  unfolding second_number
  after_first space one [] = none
  after_first space one (c ∷ rest) =
      if leb 3 (length one) && c == letter_x then second_number space one rest else none

  -- `\s\d{3,4}x\d{3,4}` at the start of a text. Four digits are followed by no `x` when three are, so
  -- that the first attempt decides.
  unfoldable pub match_here : List ℕ → Option (List ℕ)
  unfolding after_first
  match_here [] = none
  match_here (c ∷ cs) =
      if chars.is_space c then after_first c (take_digits 4 cs).0 (take_digits 4 cs).1 else none

  or_else : Option (List ℕ) → Option (List ℕ) → Option (List ℕ)
  or_else (some found) later = some found
  or_else none later = later

  -- `probe[0]`, the first match of `findall`, if there is one.
  unfoldable pub find_size : List ℕ → Option (List ℕ)
  unfolding or_else match_here
  find_size [] = none
  find_size (c ∷ cs) = or_else (match_here (c ∷ cs)) (find_size cs)

  -- The parts of `s.split("x")` round the first `x`.
  unfoldable pub split_x : List ℕ → List ℕ × List ℕ
  split_x [] = ([], [])
  split_x (c ∷ cs) =
      let later = split_x cs in if c == letter_x then ([], cs) else (c ∷ later.0, later.1)

  -- `s.strip()` of a text that ends in a digit.
  unfoldable pub strip_space : List ℕ → List ℕ
  strip_space [] = []
  strip_space (c ∷ cs) = let rest = strip_space cs in if chars.is_space c then rest else c ∷ cs

  int_from : ℕ → List ℕ → Result ℤ
  int_from so_far [] = ok (pos so_far)
  int_from so_far (c ∷ cs) = elim (chars.decimal c) [
    | none ↦ err value_error
    | some d ↦ int_from (10 * so_far + d) cs
  ]

  -- `int(s)` of a text of digits
  unfoldable pub int_of_digits : List ℕ → Result ℤ
  unfolding int_from
  int_of_digits cs = int_from 0 cs

  -- `s.isdigit()`: a number has no such method.
  unfoldable pub is_digit : Size → Result Bool
  is_digit (number n) = err attribute_error
  is_digit (digits []) = ok false
  is_digit (digits (c ∷ cs)) = ok (is_empty (keep (λ d. not (is_some (chars.decimal d))) (c ∷ cs)))

  size_value : Size → Result ℤ
  unfolding int_of_digits
  size_value (number n) = ok n
  size_value (digits cs) = int_of_digits cs

  module _ {Frame : Type 0} (tools : Tools Frame) where
    -- What the second `if` and the third do: a size that is set already stays.
    set_found : Property → ℤ → Size → Reader Frame → Result (Unit {0}) × Reader Frame
    unfolding is_digit size_value
    set_found property so_far size r = and_then (stateless (is_digit size) r) λ is_number r₁.
        if is_number && eqb_ℤ so_far (pos 0)
        then and_then (stateless (size_value size) r₁) (λ n r₂. (ok tt, set_property property n r₂))
        else (ok tt, r₁)

    found_size : Reader Frame → ℕ → Option (List ℕ) → Result (Size × Size)
    unfolding strip_space split_x
    found_size r code none = tools.probe_stream r.device_path
    found_size r code (some text) =
        if code == 1
        then ok (digits (strip_space (split_x text).0), digits (strip_space (split_x text).1))
        else tools.probe_stream r.device_path

    -- The `height` and the `width` that `probe` finds.
    unfoldable pub probed_sizes : Reader Frame → Result (Size × Size)
    unfolding found_size
    probed_sizes r = tools.list_formats r.device_path r.device_format >>= λ answer.
        found_size r answer.0 (find_size answer.1)

    -- `probe`
    unfoldable pub probe : Reader Frame → Result (Unit {0}) × Reader Frame
    unfolding set_found
    probe r = and_then (stateless (probed_sizes r) r) λ sizes r₁.
        and_then (set_found frame_height r₁.height sizes.0 r₁)
          λ _ r₂. set_found frame_width r₂.width sizes.1 r₂

    probe_if_unset : Reader Frame → Result (Unit {0}) × Reader Frame
    probe_if_unset r =
        if eqb_ℤ r.width (pos 0) || eqb_ℤ r.height (pos 0) then probe r else (ok tt, r)

    abbrev recording : Reader Frame → Result (List Frame)
    recording r = tools.run_input r.device_path r.device_format r.numframes >>= λ stream.
        tools.reshape stream r.width r.height

    -- `record(self.numframes)`
    unfoldable pub record_video : Reader Frame → Result (Unit {0}) × Reader Frame
    unfolding probe_if_unset
    record_video r = and_then (probe_if_unset r) λ _ r₁.
        and_then (stateless (recording r₁) (record r₁ { num_frames_read = 0 }))
          λ frames r₂. (ok tt, record r₂ { video = recorded frames })

    picture_of : Video Frame → Result (Picture Frame)
    picture_of no_video = ok (batch [])
    picture_of (recorded frames) = ok (batch frames)

    is_unrecorded : Video Frame → Result Bool
    is_unrecorded no_video = ok true
    is_unrecorded (recorded frames) = tools.equals_empty frames

    record_if : Bool → Reader Frame → Result (Unit {0}) × Reader Frame
    record_if needed r = if needed then record_video r else (ok tt, r)

    -- `self.video[n]`
    frame_at : Video Frame → ℕ → Result Frame
    frame_at no_video n = err index_error
    frame_at (recorded frames) n = elim (get_elem? frames n) [
      | none ↦ err index_error
      | some f ↦ ok f
    ]

    -- The last two statements of `read`.
    take_next : Reader Frame → Result (ℕ × Picture Frame) × Reader Frame
    unfolding frame_at
    take_next r = (
      frame_at r.video (r.num_frames_read + 1) >>= λ f. ok (0, sole_frame f),
      record r { num_frames_read = r.num_frames_read + 1 },
    )

    read_later : Reader Frame → Result (ℕ × Picture Frame) × Reader Frame
    unfolding is_unrecorded record_if take_next
    read_later r = and_then (stateless (is_unrecorded r.video) r) λ empty r₁.
        and_then (record_if empty r₁) λ _ r₂.
          and_then (record_if (leb (r₂.numframes - 1) r₂.num_frames_read) r₂) λ _ r₃. take_next r₃

    read_first : Reader Frame → Result (ℕ × Picture Frame) × Reader Frame
    unfolding picture_of
    read_first r =
        and_then (record_video (record r { init_camera = false; video = no_video }))
          λ _ r₁. (picture_of r₁.video >>= λ p. ok (0, p), r₁)

    -- `read`: the first number is the one that callers test.
    unfoldable pub read_video : Reader Frame → Result (ℕ × Picture Frame) × Reader Frame
    unfolding read_later read_first
    read_video r = if r.init_camera then read_first r else read_later r

-- `release`
abbrev pub release_video : {Frame : Type 0} → Reader Frame → Reader Frame
release_video r = record r { video = no_video; num_frames_read = 0 }
