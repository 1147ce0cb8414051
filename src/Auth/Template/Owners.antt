-- ===== src/Auth/Template/Owners.antt =====
-- The stacked matrix and the owners of its rows.
use secure_eye.Prelude.{
  ℕ, zero, suc, ◌+◌, ◌<◌, String, ◌≡◌, refl, sym, ap, ◌∙◌, some, List, [], ◌∷◌, ◌++◌, arith, length,
  get_elem?, replicate, length-append, length-replicate, append_assoc, get_elem?-append_right,
  get_elem?-append_left,
}
use secure_eye.Prelude.Int.{pos}
use secure_eye.Python.{ok}
use secure_eye.Auth.Template.{Template, TemplateSet, owner_of, stack_rows, stack, stack_owners}

length-stack_owners :
    (i : ℕ) (ts : List Template) → length (stack_owners i ts) ≡ length (stack_rows ts)
unfolding stack_owners stack_rows
length-stack_owners i [] = refl
length-stack_owners i (t ∷ ts) = omega (
  arith,
  length-append (replicate (length t.embeddings) i) (stack_owners (i + 1) ts),
  length-append t.embeddings (stack_rows ts),
  length-replicate (length t.embeddings) i,
  length-stack_owners (i + 1) ts,
)

get_elem?-replicate :
    (n j i : ℕ) (rest : List ℕ) → j < n → get_elem? (replicate n i ++ rest) j ≡ some i
get_elem?-replicate zero j i rest h = elim h [ ]
get_elem?-replicate (suc n) zero i rest h = refl
get_elem?-replicate (suc n) (suc j) i rest h = get_elem?-replicate n j i rest (omega arith)

-- The owner of a row of the template that follows `before`.
owner-stack_owners :
    (i : ℕ) (before : List Template) (t : Template) (after : List Template) (j : ℕ)
    → j < length t.embeddings
    → get_elem? (stack_owners i (before ++ t ∷ after)) (length (stack_rows before) + j)
      ≡ some (i + length before)
unfolding stack_owners stack_rows
owner-stack_owners i [] t after j h =
    ap (get_elem? (replicate (length t.embeddings) i ++ stack_owners (i + 1) after)) (omega arith)
    ∙ get_elem?-replicate (length t.embeddings) j i _ h
    ∙ ap some (omega arith)
owner-stack_owners i (b ∷ before) t after j h =
    ap (get_elem? (replicate (length b.embeddings) i ++ stack_owners (i + 1) (before ++ t ∷ after)))
      (omega (
        arith,
        length-append b.embeddings (stack_rows before),
        length-replicate (length b.embeddings) i,
      ))
    ∙ get_elem?-append_right (replicate (length b.embeddings) i) _ (length (stack_rows before) + j)
    ∙ owner-stack_owners (i + 1) before t after j h
    ∙ ap some (omega arith)

stack_rows-append : (xs ys : List Template) → stack_rows (xs ++ ys) ≡ stack_rows xs ++ stack_rows ys
unfolding stack_rows
stack_rows-append [] ys = refl
stack_rows-append (x ∷ xs) ys =
    ap (λ l. x.embeddings ++ l) (stack_rows-append xs ys)
    ∙ sym (append_assoc x.embeddings (stack_rows xs) (stack_rows ys))

stack-ok :
    (space : String) (ts : List Template) (s : TemplateSet)
    → stack space ts ≡ ok s
    → (s.templates ≡ ts) × (s.matrix_rows ≡ stack_rows ts) × (s.owners ≡ stack_owners 0 ts)
unfolding stack
stack-ok space [] s h = cc
stack-ok space (t ∷ ts) s h = ground arith

row-stack_rows :
    (before : List Template) (t : Template) (after : List Template) (j : ℕ)
    → j < length t.embeddings
    → get_elem? (stack_rows (before ++ t ∷ after)) (length (stack_rows before) + j)
      ≡ get_elem? t.embeddings j
unfolding stack_rows
row-stack_rows before t after j h = rw (stack_rows-append before (t ∷ after)) (
    get_elem?-append_right (stack_rows before) _ j
    ∙ get_elem?-append_left t.embeddings (stack_rows after) j h)

owner_of-pos :
    (s : TemplateSet) (row i : ℕ)
    → get_elem? s.owners row ≡ some i
    → owner_of s (pos row) ≡ get_elem? s.templates i
unfolding owner_of
owner_of-pos s row i h = rw (h, owner_of)

-- Of the stacked templates `before`, `t` and `after`, the rows that come from `t` are the rows of
-- `t` in order, and `owner_of` gives `t` for each of them; the matrix has an owner for each row.
pub owner_of-stack :
    (space : String) (before : List Template) (t : Template) (after : List Template)
    (s : TemplateSet) (j : ℕ)
    → stack space (before ++ t ∷ after) ≡ ok s
    → j < length t.embeddings
    → (owner_of s (pos (length (stack_rows before) + j)) ≡ some t)
      × (get_elem? s.matrix_rows (length (stack_rows before) + j) ≡ get_elem? t.embeddings j)
      × (length s.owners ≡ length s.matrix_rows)
owner_of-stack space before t after s j h lt =
    let (templates, rows, owners) = stack-ok space (before ++ t ∷ after) s h in
    (
      owner_of-pos s _ _ (
            ap (λ l. get_elem? l (length (stack_rows before) + j)) owners
            ∙ owner-stack_owners 0 before t after j lt)
          ∙ ap (λ l. get_elem? l (0 + length before)) templates
          ∙ here before,
      rw rows (row-stack_rows before t after j lt),
      rw (owners, rows) (length-stack_owners 0 _),
    )
  where
    here : (xs : List Template) → get_elem? (xs ++ t ∷ after) (0 + length xs) ≡ some t
    here xs =
        ap (get_elem? (xs ++ t ∷ after)) (swap_zero (length xs))
        ∙ get_elem?-append_right xs (t ∷ after) 0
      where
        swap_zero : (n : ℕ) → 0 + n ≡ n + 0
        swap_zero n = omega arith
