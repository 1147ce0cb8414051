-- ===== src/Cli/Settings/Updating.antt =====
-- secureEye/src/cli/set.py: what the dict of the updates and the search for their lines come to.
use Prim.Native.String.{◌++◌ as join}
use text.Mathlib.Text.{starts_with, find?}
use mathlib.Core.Bool.{false≢true}
use secure_eye.Prelude.{
  ℕ, suc, String, ◌≡◌, refl, sym, ◌∙◌, subst, ◌⊎◌, inl, inr, true, false, Option, none, some, List,
  [], ◌∷◌, arith, eq_iff, str_eq, is_some, Bool-cases, if_true, if_false, get_elem?, All,
}
use secure_eye.Cli.Settings.{
  Updates, pair_up, any_break, option_of_line, all_found, put, breaks_line, sets, any_sets,
}

-- The arguments in pairs: `name` is one of the names, and `value` is given for it.
abbrev pub IsName : List String → String → Type 0
IsName [] name = ⊥
IsName (n ∷ []) name = ⊥
IsName (n ∷ v ∷ rest) name = (n ≡ name) ⊎ IsName rest name

abbrev pub IsGiven : List String → String → String → Type 0
IsGiven [] name value = ⊥
IsGiven (n ∷ []) name value = ⊥
IsGiven (n ∷ v ∷ rest) name value = ((n ≡ name) × (v ≡ value)) ⊎ IsGiven rest name value

abbrev pub HasName : Updates → String → Type 0
HasName [] name = ⊥
HasName ((n, _) ∷ us) name = (n ≡ name) ⊎ HasName us name

put-All :
    (P : String → String → Type 0) (name value : String) (us : Updates)
    → P name value
    → All (λ u. P u.0 u.1) us
    → All (λ u. P u.0 u.1) (put name value us)
unfolding put
put-All P name value [] h hs = (h, tt)
put-All P name value ((n, v) ∷ us) h (p, hs) =
    let later = put-All P name value us h hs in
    elim (Bool-cases (str_eq n name)) [
      | inl same ↦
          subst (All (λ u. P u.0 u.1)) (sym (if_true _ same))
            (subst (λ m. P m value) (sym ((eq_iff n name).0 same)) h, hs)
      | inr other ↦ subst (All (λ u. P u.0 u.1)) (sym (if_false _ other)) (p, later)
    ]

put-HasName : (name value : String) (us : Updates) → HasName (put name value us) name
unfolding put
put-HasName name value [] = inl refl
put-HasName name value ((n, v) ∷ us) =
    let later = put-HasName name value us in
    elim (Bool-cases (str_eq n name)) [
      | inl same ↦ subst (λ l. HasName l name) (sym (if_true _ same)) (inl ((eq_iff n name).0 same))
      | inr other ↦ subst (λ l. HasName l name) (sym (if_false _ other)) (inr later)
    ]

put-keeps : (name value m : String) (us : Updates) → HasName us m → HasName (put name value us) m
unfolding put
put-keeps name value m [] h = absurd h
put-keeps name value m ((n, v) ∷ us) h = elim (Bool-cases (str_eq n name)) [
  | inl same ↦
      subst (λ l. HasName l m) (sym (if_true _ same)) (elim h [ inl e ↦ inl e | inr k ↦ inr k ])
  | inr other ↦
      subst (λ l. HasName l m) (sym (if_false _ other))
        (elim h [ inl e ↦ inl e | inr k ↦ inr (put-keeps name value m us k) ])
]

pair_up-All :
    (P : String → String → Type 0) (arguments : List String) (so_far : Updates)
    → ((name value : String) → IsGiven arguments name value → P name value)
    → All (λ u. P u.0 u.1) so_far
    → All (λ u. P u.0 u.1) (pair_up arguments so_far)
unfolding pair_up
pair_up-All P [] so_far given h = h
pair_up-All P (n ∷ []) so_far given h = h
pair_up-All P (n ∷ v ∷ rest) so_far given h =
    pair_up-All P rest (put n v so_far) (λ name value g. given name value (inr g))
      (put-All P n v so_far (given n v (inl (refl, refl))) h)

pair_up-keeps :
    (m : String) (arguments : List String) (so_far : Updates)
    → HasName so_far m
    → HasName (pair_up arguments so_far) m
unfolding pair_up
pair_up-keeps m [] so_far h = h
pair_up-keeps m (n ∷ []) so_far h = h
pair_up-keeps m (n ∷ v ∷ rest) so_far h =
    pair_up-keeps m rest (put n v so_far) (put-keeps n v m so_far h)

pub pair_up-HasName :
    (m : String) (arguments : List String) (so_far : Updates)
    → IsName arguments m
    → HasName (pair_up arguments so_far) m
unfolding pair_up
pair_up-HasName m [] so_far h = absurd h
pair_up-HasName m (n ∷ []) so_far h = absurd h
pair_up-HasName m (n ∷ v ∷ rest) so_far (inl same) =
    subst (HasName (pair_up rest (put n v so_far))) same
      (pair_up-keeps n rest (put n v so_far) (put-HasName n v so_far))
pair_up-HasName m (n ∷ v ∷ rest) so_far (inr later) = pair_up-HasName m rest (put n v so_far) later

-- Every entry of the dict was given.
pub pair_up-IsGiven :
    (arguments : List String) → All (λ u. IsGiven arguments u.0 u.1) (pair_up arguments [])
pair_up-IsGiven arguments = pair_up-All (IsGiven arguments) arguments [] (λ name value g. g) tt

-- A value without line breaks.
abbrev pub IsUnbroken : String → Type 0
IsUnbroken value = (find? value "\n" ≡ none) × (find? value "\r" ≡ none)

is_some-none : {A : Type 0} (o : Option A) → is_some o ≡ false → o ≡ none
is_some-none none h = refl
is_some-none (some a) h = absurd (cc)

pub any_break-IsUnbroken : (us : Updates) → any_break us ≡ false → All (λ u. IsUnbroken u.1) us
unfolding any_break breaks_line
any_break-IsUnbroken [] h = tt
any_break-IsUnbroken ((n, value) ∷ us) h = (
  (is_some-none (find? value "\n") (ground arith), is_some-none (find? value "\r") (ground arith)),
  any_break-IsUnbroken us (ground arith),
)

pub option_of_line-some :
    (P : String → String → Type 0) (us : Updates) (line : String) (option : String × String)
    → All (λ u. P u.0 u.1) us
    → option_of_line us line ≡ some option
    → P option.0 option.1 × (starts_with line (join option.0 " ") ≡ true)
unfolding option_of_line
option_of_line-some P [] line option hs h = absurd (cc)
option_of_line-some P ((n, v) ∷ us) line option (p, hs) h =
    elim (Bool-cases (starts_with line (join n " "))) [
      | inl begins ↦
          let e : some (n, v) ≡ some option = sym (if_true _ begins) ∙ h in
          let e' : (n, v) ≡ option = cc in
          subst (λ (o : String × String). P o.0 o.1 × (starts_with line (join o.0 " ") ≡ true)) e'
            (p, begins)
      | inr other ↦ option_of_line-some P us line option hs (sym (if_false _ other) ∙ h)
    ]

pub option_of_line-none :
    (us : Updates) (line m : String)
    → option_of_line us line ≡ none
    → HasName us m
    → starts_with line (join m " ") ≡ false
unfolding option_of_line
option_of_line-none [] line m h has = absurd has
option_of_line-none ((n, v) ∷ us) line m h has = elim (Bool-cases (starts_with line (join n " "))) [
  | inl begins ↦ absurd (cc (sym (if_true _ begins) ∙ h))
  | inr other ↦ elim has [
    | inl same ↦ subst (λ k. starts_with line (join k " ") ≡ false) same other
    | inr later ↦ option_of_line-none us line m (sym (if_false _ other) ∙ h) later
  ]
]

-- A line that begins with the name and a blank.
abbrev pub HasLine : List String → String → Type 0
HasLine lines name =
    (i : ℕ) × (line : String) × (get_elem? lines i ≡ some line)
    × (starts_with line (join name " ") ≡ true)

trivial-All : (us : Updates) → All (λ u. Unit {0}) us
trivial-All [] = tt
trivial-All (u ∷ us) = (tt, trivial-All us)

sets-starts_with :
    (us : Updates) (name line : String) (o : Option (String × String))
    → option_of_line us line ≡ o
    → (elim o [ none ↦ false | some option ↦ str_eq option.0 name ]) ≡ true
    → starts_with line (join name " ") ≡ true
sets-starts_with us name line none found h = absurd (false≢true h)
sets-starts_with us name line (some option) found h =
    let (_, begins) = option_of_line-some (λ _ _. Unit {0}) us line option (trivial-All us) found in
    subst (λ k. starts_with line (join k " ") ≡ true) ((eq_iff option.0 name).0 h) begins

any_sets-HasLine :
    (us : Updates) (name : String) (lines : List String)
    → any_sets us name lines ≡ true
    → HasLine lines name
unfolding any_sets sets
any_sets-HasLine us name [] h = absurd (false≢true h)
any_sets-HasLine us name (line ∷ lines) h = elim (Bool-cases (sets us name line)) [
  | inl here ↦ (0, line, refl, sets-starts_with us name line (option_of_line us line) refl here)
  | inr other ↦
      let (i, l, there, begins) = any_sets-HasLine us name lines (ground arith) in
      (suc i, l, there, begins)
]

pub all_found-HasLine :
    (us names : Updates) (lines : List String) (m : String)
    → all_found us names lines ≡ true
    → HasName names m
    → HasLine lines m
unfolding all_found
all_found-HasLine us [] lines m h has = absurd has
all_found-HasLine us ((n, v) ∷ names) lines m h (inl same) =
    subst (HasLine lines) same (any_sets-HasLine us n lines (ground arith))
all_found-HasLine us ((n, v) ∷ names) lines m h (inr later) =
    all_found-HasLine us names lines m (ground arith) later
