-- ===== src/Auth/TemplateStore/Enrolling.antt =====
-- What `append` and `replace_space` leave in the file, and that ids are not given out twice.
use secure_eye.Prelude.{
  ◌≡◌, refl, sym, ap, ◌∙◌, subst, true, none, List, [], ◌∷◌, ◌++◌, arith, keep, All, All-map,
  All-last,
}
use secure_eye.Prelude.Int.{ℤ, pos, ltb_ℤ, leb_ℤ}
use secure_eye.Python.{Exc, err, ok, >>=-eq-ok, ok-injective}
use secure_eye.Auth.Template.{Template, Numpy, next_id, find}
use secure_eye.Auth.Template.Ids.{next_id-fresh, find-none_of_above}
use secure_eye.Auth.TemplateStore.{
  FileState, absent, garbled, unreadable, json, stored_next_id, peek_next_id, load_all, save,
  delete, load_or_empty, at_least_2d, Enrolled, add_template, append, other_space, replace_space,
}
use secure_eye.Auth.TemplateStore.Operations.{
  Storable, load_all-save, save-mark, add_plan-ok, add_template-ok, add_template-err, build-ok,
}

lt_of_lt_le : (a b c : ℤ) → ltb_ℤ a b ≡ true → leb_ℤ b c ≡ true → ltb_ℤ a c ≡ true
lt_of_lt_le a b c h k = ground arith

peek_next_id-ok :
    (ts : List Template) (f : FileState) (id : ℤ)
    → peek_next_id ts f ≡ ok id
    → (m : ℤ) × (stored_next_id f ≡ ok m) × (leb_ℤ (next_id ts) id ≡ true) × (leb_ℤ m id ≡ true)
unfolding peek_next_id
peek_next_id-ok ts f id h =
    let (m, known, made) = >>=-eq-ok (stored_next_id f) _ h in
    (m, known, ground arith, ground arith)

-- The next id is that of no template in the list.
find-peek_next_id :
    (ts : List Template) (f : FileState) (id : ℤ) → peek_next_id ts f ≡ ok id → find ts id ≡ none
find-peek_next_id ts f id h =
    let (m, known, above, _) = peek_next_id-ok ts f id h in
    find-none_of_above ts id
      (All-map ts (next_id-fresh ts) λ t fresh. lt_of_lt_le t.id (next_id ts) id fresh above)

-- What a run of `append` or `replace_space` that returns `t` has done to a file that held `old`.
pub record IsAdded (np : Numpy) (kept : List Template) (e : Enrolled) (old : List Template)
    (t : Template) (f' : FileState) : Type 0 where
  pub now_holds : load_all np f' ≡ ok (kept ++ (t ∷ []))
  pub fresh : find old t.id ≡ none
  pub space : t.model_id ≡ e.model_id
  pub label : t.label ≡ e.label
  pub created : t.created ≡ e.created
  pub rows : at_least_2d e.embeddings ≡ ok t.embeddings
  pub marked : (m : ℤ) × (stored_next_id f' ≡ ok m) × (ltb_ℤ t.id m ≡ true)

add_template-IsAdded :
    (np : Numpy) (kept : List Template → List Template) (e : Enrolled) (f : FileState)
    (old : List Template) (t : Template)
    → load_or_empty np f ≡ ok old
    → Storable np (kept old ++ (t ∷ []))
    → (add_template np kept e f).0 ≡ ok t
    → IsAdded np (kept old) e old t (add_template np kept e f).1
add_template-IsAdded np kept e f old t loaded v h =
    let (ts, planned, saved, left) = add_template-ok np kept e f t h in
    let (existing, id, loaded', peeked, built, listed) = add_plan-ok np kept e f t ts planned in
    let same : existing ≡ old = ok-injective (sym loaded' ∙ loaded) in
    let (same_id, space, label, created, rows) = build-ok id e t built in
    let (m, known, _, _) = peek_next_id-ok existing f id peeked in
    let listed' : ts ≡ kept old ++ (t ∷ []) = listed ∙ ap (λ l. kept l ++ (t ∷ [])) same in
    let (m', known', _, above) = save-mark ts f m known saved in
    record {
      now_holds =
          ap (load_all np) left ∙ load_all-save np ts f (rw listed' v) saved ∙ ap ok listed';
      fresh =
          ap (find old) same_id
          ∙ ap (λ l. find l id) (sym same)
          ∙ find-peek_next_id existing f id peeked;
      space = space;
      label = label;
      created = created;
      rows = rows;
      marked = (
        m',
        ap stored_next_id left ∙ known',
        lt_of_lt_le t.id (next_id ts) m'
            (All-last (λ x. ltb_ℤ x.id (next_id ts) ≡ true) (kept old) t
              (subst (All (λ x. ltb_ℤ x.id (next_id ts) ≡ true)) listed' (next_id-fresh ts)))
            above,
      );
    }

-- `append`, when it returns `t`: the file holds the old templates and then `t`, with the given
-- space, label and time, an id that none of the old ones has, and a high-water mark above that id.
pub append-IsAdded :
    (np : Numpy) (e : Enrolled) (f : FileState) (old : List Template) (t : Template)
    → load_or_empty np f ≡ ok old
    → Storable np (old ++ (t ∷ []))
    → (append np e f).0 ≡ ok t
    → IsAdded np old e old t (append np e f).1
unfolding append
append-IsAdded np = add_template-IsAdded np (λ ts. ts)

-- `replace_space`, when it returns `t`: the file holds the old templates of the other spaces, in
-- their order, and then `t`, with an id that none of the old ones has, the replaced ones included.
pub replace_space-IsAdded :
    (np : Numpy) (e : Enrolled) (f : FileState) (old : List Template) (t : Template)
    → load_or_empty np f ≡ ok old
    → Storable np (keep (other_space e.model_id) old ++ (t ∷ []))
    → (replace_space np e f).0 ≡ ok t
    → IsAdded np (keep (other_space e.model_id) old) e old t (replace_space np e f).1
unfolding replace_space
replace_space-IsAdded np e = add_template-IsAdded np (keep (other_space e.model_id)) e

-- An `append` that raises leaves the file as it was.
pub append_fails :
    (np : Numpy) (e : Enrolled) (f : FileState) (x : Exc)
    → (append np e f).0 ≡ err x
    → (append np e f).1 ≡ f
unfolding append
append_fails np = add_template-err np (λ ts. ts)

-- A `replace_space` that raises leaves the file, and so the old templates, as it was.
pub replace_space_fails :
    (np : Numpy) (e : Enrolled) (f : FileState) (x : Exc)
    → (replace_space np e f).0 ≡ err x
    → (replace_space np e f).1 ≡ f
unfolding replace_space
replace_space_fails np e = add_template-err np (keep (other_space e.model_id)) e

-- While the file exists, an id is not given out twice: after an `append` that returned `t` and a
-- `save` of any templates, with `t` or without it, the next id is above that of `t`.
pub id_not_reused :
    (np : Numpy) (e : Enrolled) (f : FileState) (old ts : List Template) (t : Template) (id : ℤ)
    → load_or_empty np f ≡ ok old
    → Storable np (old ++ (t ∷ []))
    → (append np e f).0 ≡ ok t
    → (save ts (append np e f).1).0 ≡ ok tt
    → peek_next_id ts (save ts (append np e f).1).1 ≡ ok id
    → ltb_ℤ t.id id ≡ true
id_not_reused np e f old ts t id loaded v added saved peeked =
    let a = append-IsAdded np e f old t loaded v added in
    let (m, known, below) = a.marked in
    let (m', known', above, _) = save-mark ts (append np e f).1 m known saved in
    let (m'', known'', _, above') = peek_next_id-ok ts (save ts (append np e f).1).1 id peeked in
    let same : m' ≡ m'' = ok-injective (sym known' ∙ known'') in
    lt_of_lt_le t.id m' id (lt_of_lt_le t.id m m' below above) (rw same above')

-- When the last template is removed the file goes, and the high-water mark with it: the ids start
-- again at 0, whatever ids were given out before.
pub ids_restart : (f : FileState) → (delete f).0 ≡ ok tt → peek_next_id [] (delete f).1 ≡ ok (pos 0)
unfolding delete peek_next_id stored_next_id next_id
ids_restart absent h = absurd (cc)
ids_restart garbled h = refl
ids_restart (unreadable x) h = refl
ids_restart (json v) h = refl
