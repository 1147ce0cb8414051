-- ===== src/Cli/Settings/Changed.antt =====
-- What `set` does to the lines of the file.
use Prim.Native.String.{◌++◌ as join}
use text.Mathlib.Text.{starts_with}
use secure_eye.Prelude.{
  ℕ, zero, suc, ◌%◌, ◌≤◌, String, ◌≡◌, refl, sym, ap, subst, ◌⊎◌, inl, inr, true, false, not,
  Option, none, some, List, [], ◌∷◌, arith, Bool-cases, if_elim, if_true, if_false, length,
  get_elem?, All,
}
use secure_eye.Python.{Result, err, ok}
use secure_eye.Cli.{Ending, Args}
use secure_eye.Cli.Settings.{
  Updates, pair_up, any_break, option_of_line, all_found, set_options, renew, new_lines,
  write_lines, update_lines, open_lines, is_paired,
}
use secure_eye.Cli.Settings.Updating.{
  IsName, IsGiven, pair_up-HasName, pair_up-IsGiven, IsUnbroken, any_break-IsUnbroken,
  option_of_line-some, option_of_line-none, HasLine, all_found-HasLine,
}

-- What became of a line: it begins with a given name and a blank and is set to a value that is given
-- for this name, which has no line break; or it begins with no name and a blank and is as it was.
pub data IsRenewed (arguments : List String) (line line' : String) : Type 0 where
  set_to :
      (name value : String)
      → IsGiven arguments name value
      → starts_with line (join name " ") ≡ true
      → IsUnbroken value
      → line' ≡ join name (join " = " (join value "\n"))
      → IsRenewed arguments line line'
  left_alone :
      ((name : String) → IsName arguments name → starts_with line (join name " ") ≡ false)
      → line' ≡ line
      → IsRenewed arguments line line'

new_lines-length :
    (updates : Updates) (lines : List String) → length (new_lines updates lines) ≡ length lines
unfolding new_lines
new_lines-length updates [] = refl
new_lines-length updates (line ∷ lines) = ap suc (new_lines-length updates lines)

new_lines-get_elem? :
    (updates : Updates) (lines : List String) (i : ℕ) (line : String)
    → get_elem? lines i ≡ some line
    → get_elem? (new_lines updates lines) i ≡ some (renew line (option_of_line updates line))
unfolding new_lines
new_lines-get_elem? updates [] i line h = absurd (cc)
new_lines-get_elem? updates (l ∷ lines) zero line h =
    ap
      (λ (x : Option String). elim x [
        | none ↦ none
        | some y ↦ some (renew y (option_of_line updates y))
      ])
      h
new_lines-get_elem? updates (l ∷ lines) (suc i) line h = new_lines-get_elem? updates lines i line h

All-both :
    (P Q : String × String → Type 0) (us : Updates) → All P us → All Q us → All (λ u. P u × Q u) us
All-both P Q [] hs ks = tt
All-both P Q (u ∷ us) (h, hs) (k, ks) = ((h, k), All-both P Q us hs ks)

renew-IsRenewed :
    (arguments : List String) (line : String) (o : Option (String × String))
    → any_break (pair_up arguments []) ≡ false
    → option_of_line (pair_up arguments []) line ≡ o
    → IsRenewed arguments line (renew line o)
unfolding renew
renew-IsRenewed arguments line none unbroken found =
    left_alone
      (λ name is. option_of_line-none _ line name found (pair_up-HasName name arguments [] is)) refl
renew-IsRenewed arguments line (some (name, value)) unbroken found =
    let ((given, whole_value), begins) =
      option_of_line-some (λ n v. IsGiven arguments n v × IsUnbroken v) _ line (name, value)
        (All-both (λ u. IsGiven arguments u.0 u.1) (λ u. IsUnbroken u.1) _
          (pair_up-IsGiven arguments) (any_break-IsUnbroken _ unbroken))
        found in
    set_to name value given begins whole_value refl

-- What a run of `set` on the lines gives: names and values pair up, each name has a line, and every
-- line stays in its place, renewed.
pub record IsApplied (args : Args) (lines lines' : List String) : Type 0 where
  pub paired : (2 ≤ length args.arguments) × (length args.arguments % 2 ≡ 0)
  pub each_found : (name : String) → IsName args.arguments name → HasLine lines name
  pub as_many : length lines' ≡ length lines
  pub renewed :
      (i : ℕ) (line : String)
      → get_elem? lines i ≡ some line
      → (line' : String) × (get_elem? lines' i ≡ some line') × IsRenewed args.arguments line line'

written-IsApplied :
    (args : Args) (written : Result (Unit {0})) (lines : List String)
    → is_paired args.arguments ≡ true
    → any_break (pair_up args.arguments []) ≡ false
    → all_found (pair_up args.arguments []) (pair_up args.arguments []) lines ≡ true
    → ((write_lines args (pair_up args.arguments []) written lines).1 ≡ lines)
      ⊎ IsApplied args lines (write_lines args (pair_up args.arguments []) written lines).1
unfolding write_lines
written-IsApplied args (err e) lines paired unbroken found = inl refl
written-IsApplied args (ok _) lines paired unbroken found =
    let updates = pair_up args.arguments [] in
    inr (record {
      paired = (ground arith, ground arith);
      each_found = λ name is.
          all_found-HasLine updates updates lines name found
            (pair_up-HasName name args.arguments [] is);
      as_many = new_lines-length updates lines;
      renewed = λ i line there. (
        renew line (option_of_line updates line),
        new_lines-get_elem? updates lines i line there,
        renew-IsRenewed args.arguments line (option_of_line updates line) unbroken refl,
      );
    })

updated-IsApplied :
    (args : Args) (opened written : Result (Unit {0})) (lines : List String)
    → is_paired args.arguments ≡ true
    → any_break (pair_up args.arguments []) ≡ false
    → ((open_lines args (pair_up args.arguments []) opened written lines).1 ≡ lines)
      ⊎ IsApplied args lines (open_lines args (pair_up args.arguments []) opened written lines).1
unfolding open_lines update_lines
updated-IsApplied args (err e) written lines paired unbroken = inl refl
updated-IsApplied args (ok _) written lines paired unbroken =
    if_elim (λ (q : Ending × List String). (q.1 ≡ lines) ⊎ IsApplied args lines q.1)
      (all_found (pair_up args.arguments []) (pair_up args.arguments []) lines)
      (λ found. written-IsApplied args written lines paired unbroken found) λ _. inl refl

-- `set` leaves the lines of the file as they were; or its arguments are pairs, each name of which some
-- line of the file begins with, a blank behind it, and every line that begins so with a name is set
-- to a value given for such a name, which has no line break, and all others are as they were.
pub set_options-IsApplied :
    (args : Args) (opened written : Result (Unit {0})) (lines : List String)
    → ((set_options args opened written lines).1 ≡ lines)
      ⊎ IsApplied args lines (set_options args opened written lines).1
unfolding set_options
set_options-IsApplied args opened written lines = elim (Bool-cases (is_paired args.arguments)) [
  | inl paired ↦
      subst (λ (q : Ending × List String). (q.1 ≡ lines) ⊎ IsApplied args lines q.1)
        (sym (if_false {b = not (is_paired args.arguments)} _ (ground arith)))
        (elim (Bool-cases (any_break (pair_up args.arguments []))) [
          | inl wrong ↦ inl (ap (λ (q : Ending × List String). q.1) (if_true _ wrong))
          | inr unbroken ↦
              subst (λ (q : Ending × List String). (q.1 ≡ lines) ⊎ IsApplied args lines q.1)
                (sym (if_false _ unbroken))
                (updated-IsApplied args opened written lines paired unbroken)
        ])
  | inr odd ↦ inl (
      ap (λ (q : Ending × List String). q.1)
        (if_true {b = not (is_paired args.arguments)} _ (ground arith)))
]
