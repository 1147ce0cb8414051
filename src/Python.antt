-- ===== src/Python.antt =====
-- The parts of Python that the program's code stands on: exceptions as values, the objects that
-- `json.loads` builds, and the built-in conversions and comparisons that the code applies to them.
use Prim.Native.String.{count}
use secure_eye.Prelude.{
  ℕ, suc, ◌+◌, ◌-◌, ◌*◌, ◌/◌, ◌^◌, String, ◌≡◌, refl, ◌⊎◌, inl, inr, Bool, true, false, not, ◌&&◌,
  ◌||◌, Option, none, some, str_eq, ◌==◌, if◌then◌else◌,
}
use secure_eye.Prelude.Int.{ℤ, pos, negsuc, scale_ℤ, ltb_ℤ, eqb_ℤ}

-- What the code raises and catches.
pub data Exc : Type 0 where
  protocol_error : String → Exc
  template_file_not_found empty_template_store template_space_mismatch : Exc
  template_schema_error : Exc
  detector_factory_error file_not_found import_error : Exc
  connection_error timeout_error os_error : Exc
  type_error value_error overflow_error : Exc
  attribute_error index_error runtime_error : Exc
  system_exit : ℕ → Exc
  -- `sys.exit` with something else than a number
  system_exit_other : Exc
  -- an `Exception` of a library
  other_exception : Exc
  -- a `BaseException` that is no `Exception`, such as `KeyboardInterrupt`
  interrupt : Exc

pub data Result {ℓ} (A : Type ℓ) : Type ℓ where
  err : Exc → Result A
  ok : A → Result A

-- The next step of code that may raise.
module _ {ℓ κ} {A : Type ℓ} {B : Type κ} where
  infixl 5 ◌>>=◌
  abbrev pub ◌>>=◌ : Result A → (A → Result B) → Result B
  err raised >>= next = err raised
  ok got >>= next = next got

infixl 5 ◌>>◌
abbrev pub ◌>>◌ {ℓ} : {A : Type ℓ} → Result (Unit {0}) → Result A → Result A
act >> next = act >>= λ _. next

-- The next statement of code that changes a state `S` and may raise: what was changed before a raise
-- stays changed.
abbrev pub and_then {ℓ κ ι} :
    {A : Type ℓ} {B : Type κ} {S : Type ι} → Result A × S → (A → S → Result B × S) → Result B × S
and_then (ok a, s) f = f a s
and_then (err e, s) f = (err e, s)

-- A statement that changes no state.
abbrev pub stateless {ℓ κ} : {A : Type ℓ} {S : Type κ} → Result A → S → Result A × S
stateless act s = (act, s)

-- `if not c: raise e`
abbrev pub require : Bool → Exc → Result (Unit {0})
require true e = ok tt
require false e = err e

-- Whether `except Exception` catches it.
abbrev pub is_exception : Exc → Bool
is_exception (system_exit n) = false
is_exception system_exit_other = false
is_exception interrupt = false
is_exception _ = true

-- A number that JSON writes with a point or an exponent, as the double that it is read to: `m * 2 ^ e`,
-- an infinity (`true` if negative) or not a number.
pub data Float : Type 0 where
  dyadic : ℤ → ℤ → Float
  infinite : Bool → Float
  nan : Float

mutual
  pub data Value : Type 0 where
    null : Value
    bool : Bool → Value
    int : ℤ → Value
    float : Float → Value
    str : String → Value
    arr : Items → Value
    obj : Fields → Value

  pub data Fields : Type 0 where
    end : Fields
    field : String → Value → Fields → Fields

  pub data Items : Type 0 where
    nil : Items
    cons : Value → Items → Items

-- `d.get(key)`. A `dict` has one entry for a key, and the writes below keep that.
abbrev pub get : String → Fields → Option Value
get key end = none
get key (field k v fs) = if str_eq k key then some v else get key fs

-- `d.get(key, default)`
abbrev pub get_default : String → Value → Fields → Value
get_default key d fs = elim (get key fs) [ none ↦ d | some v ↦ v ]

-- `d.get(key)`, which is `None` when the key is missing.
abbrev pub get_none : String → Fields → Value
get_none key = get_default key null

-- `x == n` for a number `n`: a Boolean counts as 0 or 1, and a float by its value.
float_eq : Float → ℕ → Bool
float_eq (dyadic m (pos e)) n = eqb_ℤ (scale_ℤ (2 ^ e) m) (pos n)
float_eq (dyadic m (negsuc e)) n = eqb_ℤ m (pos (n * 2 ^ suc e))
float_eq _ n = false

unfoldable pub eq_num : Value → ℕ → Bool
unfolding float_eq
eq_num (bool true) n = n == 1
eq_num (bool false) n = n == 0
eq_num (int i) n = eqb_ℤ i (pos n)
eq_num (float f) n = float_eq f n
eq_num _ n = false

-- `x == "text"`
abbrev pub eq_text : Value → String → Bool
eq_text (str s) t = str_eq s t
eq_text _ t = false

-- `isinstance(x, str)`, with the text.
abbrev pub as_text : Value → Option String
as_text (str s) = some s
as_text _ = none

-- `isinstance(x, int) and not isinstance(x, bool)`, with the number.
abbrev pub as_plain_int : Value → Option ℤ
as_plain_int (int i) = some i
as_plain_int _ = none

-- `isinstance(x, int)`, with the number: `bool` is a subclass of `int`.
abbrev pub as_int : Value → Option ℤ
as_int (int i) = some i
as_int (bool true) = some (pos 1)
as_int (bool false) = some (pos 0)
as_int _ = none

-- `len(s)`: the characters of a text.
abbrev pub text_length : String → ℕ
text_length s = count s

-- What the interpreter does and the code does not define: `repr` of values that are no text, and
-- `int(s)` of a text.
pub record Builtins : Type 0 where
  pub repr : Value → String
  pub int_of_text : String → Option ℤ

-- `str(x)`
unfoldable pub to_text : Builtins → Value → String
to_text b (str s) = s
to_text b v = b.repr v

toward_zero : ℤ → ℕ → ℤ
toward_zero (pos m) k = pos (m / k)
toward_zero (negsuc m) k = scale_ℤ (suc m / k) (negsuc 0)

float_to_int : Float → Result ℤ
unfolding toward_zero
float_to_int (dyadic m (pos e)) = ok (scale_ℤ (2 ^ e) m)
float_to_int (dyadic m (negsuc e)) = ok (toward_zero m (2 ^ suc e))
float_to_int (infinite _) = err overflow_error
float_to_int nan = err value_error

-- `int(x)`
unfoldable pub to_int : Builtins → Value → Result ℤ
unfolding float_to_int
to_int b (int i) = ok i
to_int b (bool true) = ok (pos 1)
to_int b (bool false) = ok (pos 0)
to_int b (float f) = float_to_int f
to_int b (str s) = elim (b.int_of_text s) [ none ↦ err value_error | some i ↦ ok i ]
to_int b _ = err type_error

-- a - b, or 0 when that is negative: how far a mantissa of the exponent `a` is shifted to that of `b`.
excess : ℤ → ℤ → ℕ
excess (pos a) (pos b) = a - b
excess (pos a) (negsuc b) = a + suc b
excess (negsuc a) (pos b) = 0
excess (negsuc a) (negsuc b) = b - a

-- `x < y` on floats.
unfoldable pub lt_float : Float → Float → Bool
unfolding excess
lt_float (dyadic m e) (dyadic n k) = ltb_ℤ (scale_ℤ (2 ^ excess e k) m) (scale_ℤ (2 ^ excess k e) n)
lt_float (dyadic _ _) (infinite negative) = not negative
lt_float (infinite negative) (dyadic _ _) = negative
lt_float (infinite a) (infinite b) = a && not b
lt_float _ _ = false

is_nan : Float → Bool
is_nan nan = true
is_nan _ = false

-- `x == y` on floats.
unfoldable pub eq_float : Float → Float → Bool
unfolding lt_float is_nan
eq_float x y = not (lt_float x y || lt_float y x) && not (is_nan x || is_nan y)

-- `min(x, y)`
unfoldable pub min_float : Float → Float → Float
min_float x y = if lt_float y x then y else x

-- Inversion of a chain, by what it comes to.
module _ {ℓ κ} {A : Type ℓ} {B : Type κ} where
  pub >>=-eq-err :
      (act : Result A) (next : A → Result B) {raised : Exc}
      → act >>= next ≡ err raised
      → (act ≡ err raised) ⊎ ((got : A) × (act ≡ ok got) × (next got ≡ err raised))
  >>=-eq-err (err e) next h = inl cc
  >>=-eq-err (ok got) next h = inr (got, refl, h)

  pub >>=-eq-ok :
      (act : Result A) (next : A → Result B) {b : B}
      → act >>= next ≡ ok b
      → (got : A) × (act ≡ ok got) × (next got ≡ ok b)
  >>=-eq-ok (err e) next h = cc
  >>=-eq-ok (ok got) next h = (got, refl, h)

-- The same for code that changes a state.
pub and_then-eq-ok {ℓ κ ι} :
    {A : Type ℓ} {B : Type κ} {S : Type ι} (p : Result A × S) (f : A → S → Result B × S) {b : B}
    → (and_then p f).0 ≡ ok b
    → (a : A) × (p.0 ≡ ok a) × (and_then p f ≡ f a p.1)
and_then-eq-ok (ok a, s) f h = (a, refl, refl)
and_then-eq-ok (err e, s) f h = absurd (cc)

-- What each statement keeps true of the state, the chain keeps.
pub and_then-keeps {ℓ κ ι υ} :
    {A : Type ℓ} {B : Type κ} {S : Type ι} (P : S → Type υ) (p : Result A × S)
    (f : A → S → Result B × S)
    → P p.1
    → ((a : A) (s : S) → P s → P (f a s).1)
    → P (and_then p f).1
and_then-keeps P (ok a, s) f h keeps = keeps a s h
and_then-keeps P (err e, s) f h keeps = h

pub require-true : (b : Bool) (e : Exc) {u : Unit} → require b e ≡ ok u → b ≡ true
require-true true e h = refl
require-true false e h = absurd (cc)

-- A chain that returned, returned what its last part did.
pub and_then-last {ℓ κ ι} :
    {A : Type ℓ} {B : Type κ} {S : Type ι} (p : Result A × S) (f : A → S → Result B × S) {b : B}
    → (and_then p f).0 ≡ ok b
    → (a : A) × (p.0 ≡ ok a) × ((f a p.1).0 ≡ ok b)
and_then-last (ok a, s) f h = (a, refl, h)
and_then-last (err e, s) f h = absurd (cc)

pub ok-injective {ℓ} : {A : Type ℓ} {a b : A} → ok a ≡ ok b → a ≡ b
ok-injective h = cc
