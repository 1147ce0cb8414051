-- ===== src/Auth/TemplateStore/Operations.antt =====
-- The operations on a model file against each other.
use secure_eye.Prelude.{
  ◌<◌, ◌≡◌, refl, sym, ap, ◌∙◌, true, false, List, [], ◌∷◌, ◌++◌, arith, length, All,
}
use secure_eye.Prelude.Int.{ℤ, pos, ltb_ℤ, leb_ℤ, max_ℤ}
use secure_eye.Python.{Exc, err, ok, and_then, obj, >>=-eq-ok, and_then-eq-ok}
use secure_eye.Auth.Template.{legacy_model_id, Template, Numpy, store_value, next_id}
use secure_eye.Auth.Template.RoundTrip.{IsStorable, parse-store_value}
use secure_eye.Auth.TemplateStore.{
  FileState, unreadable, json, read_payload, stored_next_id, peek_next_id, load_all, save,
  load_or_empty, at_least_2d, Enrolled, build, add_plan, add_template, save_plan,
}

-- A list of templates that `save` writes so that `load_all` reads it.
abbrev pub Storable : Numpy → List Template → Type 0
Storable np ts = (0 < length ts) × All (IsStorable np) ts

load_all-store_value :
    (np : Numpy) (next : ℤ) (ts : List Template)
    → Storable np ts
    → load_all np (json (store_value next ts)) ≡ ok ts
unfolding load_all read_payload
load_all-store_value np next [] (some_template, v) = elim some_template [ ]
load_all-store_value np next (t ∷ ts) (_, v) = parse-store_value np legacy_model_id next t ts v

save-ok :
    (ts : List Template) (f : FileState)
    → (save ts f).0 ≡ ok tt
    → (stored : ℤ) × (stored_next_id f ≡ ok stored)
      × ((save ts f).1 ≡ json (store_value (max_ℤ (next_id ts) stored) ts))
unfolding save
save-ok ts f h =
    let (stored, known, same) = and_then-eq-ok (stored_next_id f, f) _ h in
    (stored, known, ap (λ p. p.1) same)

-- A list of templates that was saved is what `load_all` reads next.
pub load_all-save :
    (np : Numpy) (ts : List Template) (f : FileState)
    → Storable np ts
    → (save ts f).0 ≡ ok tt
    → load_all np (save ts f).1 ≡ ok ts
load_all-save np ts f v saved =
    let (stored, known, same) = save-ok ts f saved in rw same (load_all-store_value np _ ts v)

-- The high-water mark of a file is never negative.
stored_next_id-nonneg : (f : FileState) (m : ℤ) → stored_next_id f ≡ ok m → ltb_ℤ m (pos 0) ≡ false
unfolding stored_next_id
stored_next_id-nonneg (unreadable e) m h = ground arith
stored_next_id-nonneg (json (obj fs)) m h = ground arith
stored_next_id-nonneg (json _) m h = ground arith
stored_next_id-nonneg _ m h = ground arith

mark-store_value :
    (next : ℤ) (ts : List Template)
    → ltb_ℤ next (pos 0) ≡ false
    → stored_next_id (json (store_value next ts)) ≡ ok next
unfolding stored_next_id store_value
mark-store_value next ts h = ground arith

max_ℤ-bounds :
    (a b : ℤ)
    → ltb_ℤ b (pos 0) ≡ false
    → (leb_ℤ a (max_ℤ a b) ≡ true)
      × (leb_ℤ b (max_ℤ a b) ≡ true)
      × (ltb_ℤ (max_ℤ a b) (pos 0) ≡ false)
max_ℤ-bounds a b h = ground arith

-- `save` moves the mark to the highest id it writes or leaves it: never down.
pub save-mark :
    (ts : List Template) (f : FileState) (m : ℤ)
    → stored_next_id f ≡ ok m
    → (save ts f).0 ≡ ok tt
    → (m' : ℤ) × (stored_next_id (save ts f).1 ≡ ok m')
      × (leb_ℤ m m' ≡ true)
      × (leb_ℤ (next_id ts) m' ≡ true)
save-mark ts f m known saved =
    let (stored, known', same) = save-ok ts f saved in
    let again : stored ≡ m = cc in
    let (above, below, nonneg) = max_ℤ-bounds (next_id ts) m (stored_next_id-nonneg f m known) in
    (max_ℤ (next_id ts) m, rw (same, again) (mark-store_value _ ts nonneg), below, above)

pub add_plan-ok :
    (np : Numpy) (kept : List Template → List Template) (e : Enrolled) (f : FileState)
    (t : Template) (ts : List Template)
    → add_plan np kept e f ≡ ok (t, ts)
    → (existing : List Template) × (id : ℤ) × (load_or_empty np f ≡ ok existing)
      × (peek_next_id existing f ≡ ok id)
      × (build id e ≡ ok t)
      × (ts ≡ kept existing ++ (t ∷ []))
unfolding add_plan
add_plan-ok np kept e f t ts h =
    let (existing, loaded, h₁) = >>=-eq-ok (load_or_empty np f) _ h in
    let (id, peeked, h₂) = >>=-eq-ok (peek_next_id existing f) _ h₁ in
    let (t', built, h₃) = >>=-eq-ok (build id e) _ h₂ in
    let same : t' ≡ t = cc in (existing, id, loaded, peeked, built ∙ ap ok same, cc)

save_plan-ok :
    (t t' : Template) (ts : List Template) (f : FileState)
    → (save_plan (t', ts) f).0 ≡ ok t
    → (t' ≡ t) × ((save ts f).0 ≡ ok tt) × ((save_plan (t', ts) f).1 ≡ (save ts f).1)
unfolding save_plan
save_plan-ok t t' ts f h = ground arith

-- The statements of `append` and `replace_space` in a run that returns.
pub add_template-ok :
    (np : Numpy) (kept : List Template → List Template) (e : Enrolled) (f : FileState)
    (t : Template)
    → (add_template np kept e f).0 ≡ ok t
    → (ts : List Template) × (add_plan np kept e f ≡ ok (t, ts))
      × ((save ts f).0 ≡ ok tt)
      × ((add_template np kept e f).1 ≡ (save ts f).1)
unfolding add_template
add_template-ok np kept e f t h =
    let ((t', ts), planned, s₁) = and_then-eq-ok (add_plan np kept e f, f) save_plan h in
    let (same, saved, left) = save_plan-ok t t' ts f (sym (ap (λ p. p.0) s₁) ∙ h) in
    (ts, planned ∙ ap (λ x. ok (x, ts)) same, saved, ap (λ p. p.1) s₁ ∙ left)

-- A failure leaves the file as it was.
save-err :
    (ts : List Template) (f : FileState) (x : Exc) → (save ts f).0 ≡ err x → (save ts f).1 ≡ f
unfolding save
save-err ts f x h = ground arith

save_plan-err :
    (p : Template × List Template) (f : FileState) (x : Exc)
    → (save_plan p f).0 ≡ err x
    → (save_plan p f).1 ≡ f
unfolding save_plan
save_plan-err (t, ts) f x h = ground (arith, save-err ts f x)

pub add_template-err :
    (np : Numpy) (kept : List Template → List Template) (e : Enrolled) (f : FileState) (x : Exc)
    → (add_template np kept e f).0 ≡ err x
    → (add_template np kept e f).1 ≡ f
unfolding add_template
add_template-err np kept e f x h =
    elim (add_plan np kept e f)
        as (λ r. (and_then (r, f) save_plan).0 ≡ err x → (and_then (r, f) save_plan).1 ≡ f) [
          | ok p ↦ save_plan-err p f x
          | err y ↦ λ _. refl
        ]
      h

pub build-ok :
    (id : ℤ) (e : Enrolled) (t : Template)
    → build id e ≡ ok t
    → (t.id ≡ id)
      × (t.model_id ≡ e.model_id)
      × (t.label ≡ e.label)
      × (t.created ≡ e.created)
      × (at_least_2d e.embeddings ≡ ok t.embeddings)
unfolding build
build-ok id e t h = ground arith
