-- ===== src/Auth/Template/Ids.antt =====
-- The ids that templates get.
use secure_eye.Prelude.{◌≡◌, refl, true, none, List, [], ◌∷◌, arith, All, All-map}
use secure_eye.Prelude.Int.{ℤ, ltb_ℤ, leb_ℤ, max_ℤ}
use secure_eye.Auth.Template.{Template, next_id, find, max_id}

max_left : (a b : ℤ) → leb_ℤ a (max_ℤ a b) ≡ true
max_left a b = ground arith

max_right : (a b c : ℤ) → leb_ℤ c b ≡ true → leb_ℤ c (max_ℤ a b) ≡ true
max_right a b c h = ground arith

max_id-bounds : (ts : List Template) → All (λ t. leb_ℤ t.id (max_id ts) ≡ true) ts
unfolding max_id
max_id-bounds [] = tt
max_id-bounds (t ∷ []) = (ground arith, tt)
max_id-bounds (t ∷ u ∷ ts) = (
  max_left t.id (max_id (u ∷ ts)),
  All-map (u ∷ ts) (max_id-bounds (u ∷ ts)) λ x h. max_right t.id (max_id (u ∷ ts)) x.id h,
)

-- The next id lies above the id of every template.
pub next_id-fresh : (ts : List Template) → All (λ t. ltb_ℤ t.id (next_id ts) ≡ true) ts
unfolding next_id
next_id-fresh ts = All-map ts (max_id-bounds ts) λ t h. ground arith

-- An id that is above those of all the templates is found in none of them.
pub find-none_of_above :
    (ts : List Template) (i : ℤ) → All (λ t. ltb_ℤ t.id i ≡ true) ts → find ts i ≡ none
unfolding find
find-none_of_above [] i h = refl
find-none_of_above (t ∷ ts) i (h, hs) = ground (arith, find-none_of_above ts i hs)
