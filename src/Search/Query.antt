-- ===== src/Search/Query.antt =====
-- What `literal_fts_query` hands to FTS5 (libs/search/src/search_index.cpp).
use wiki.Base.{
  ◌≡◌, refl, sym, ap, ◌∙◌, true, false, List, [], ◌∷◌, ◌++◌, append-nil, append_assoc, Bytes, ok,
  text, if◌then◌else◌, is_empty, all, All, All-append, all-concat, Bool-cases, inl, inr, >>=-eq-ok,
  ok-cancel,
}
use wiki.Domain.Unicode.{Unicode}
use wiki.Domain.Concept.{fold_unicode_text}
use wiki.Search.{is_term_byte, term_loop, quoted, express, literal_fts_query}

-- A term that FTS5 reads as a word within its quotes
abbrev pub IsTerm : Bytes → Type 0
IsTerm term = (is_empty term ≡ false) × (all is_term_byte term ≡ true)

-- The terms, each in quotes, with AND between them
unfoldable pub conjunction : List Bytes → Bytes
conjunction [] = []
conjunction (term ∷ []) = quoted term
conjunction (term ∷ next ∷ terms) = quoted term ++ (text " AND " ++ conjunction (next ∷ terms))

-- The bytes that belong to words
unfoldable pub term_bytes : Bytes → Bytes
term_bytes [] = []
term_bytes (byte ∷ s) = if is_term_byte byte then byte ∷ term_bytes s else term_bytes s

abbrev pub concat : List Bytes → Bytes
concat [] = []
concat (term ∷ terms) = term ++ concat terms

concat-append : (xs ys : List Bytes) → concat (xs ++ ys) ≡ concat xs ++ concat ys
concat-append [] ys = refl
concat-append (x ∷ xs) ys = simp (concat-append xs ys, append_assoc)

term_loop-IsTerm :
    (s : Bytes) (terms : List Bytes) (term : Bytes)
    → All IsTerm terms
    → all is_term_byte term ≡ true
    → All IsTerm (term_loop s terms term)
unfolding term_loop
term_loop-IsTerm [] terms term h k = elim (Bool-cases (is_empty term)) [
  | inl e ↦ rw e h
  | inr e ↦ rw e (All-append IsTerm terms (term ∷ []) h ((e, k), tt))
]
term_loop-IsTerm (byte ∷ s) terms term h k = elim (Bool-cases (is_term_byte byte)) [
  | inl e ↦
      rw (e, term_loop)
        (term_loop-IsTerm s terms (term ++ byte ∷ []) h (all-concat is_term_byte term byte k e))
  | inr e ↦ elim (Bool-cases (is_empty term)) [
    | inl none_ ↦ rw (e, term_loop) (rw (none_, term_loop) (term_loop-IsTerm s terms term h k))
    | inr some_ ↦
        rw (e, term_loop)
          (rw (some_, term_loop)
            (term_loop-IsTerm s (terms ++ term ∷ []) []
              (All-append IsTerm terms (term ∷ []) h ((some_, k), tt)) refl))
  ]
]

is_empty-nil : (s : Bytes) → is_empty s ≡ true → s ≡ []
is_empty-nil [] h = refl
is_empty-nil (c ∷ s) h = cc

term_loop-concat :
    (s : Bytes) (terms : List Bytes) (term : Bytes)
    → concat (term_loop s terms term) ≡ concat terms ++ (term ++ term_bytes s)
unfolding term_loop term_bytes
term_loop-concat [] terms term = elim (Bool-cases (is_empty term)) [
  | inl e ↦ rw e (rw (is_empty-nil term e) (sym (append-nil (concat terms))))
  | inr e ↦ rw e (concat-append terms (term ∷ []))
]
term_loop-concat (byte ∷ s) terms term = elim (Bool-cases (is_term_byte byte)) [
  | inl e ↦ rw (e, term_loop) (term_loop-concat s terms (term ++ byte ∷ []) ∙ simp append_assoc)
  | inr e ↦ elim (Bool-cases (is_empty term)) [
    | inl none_ ↦ rw (e, term_loop) (rw (none_, term_loop) (term_loop-concat s terms term))
    | inr some_ ↦
        rw (e, term_loop)
          (rw (some_, term_loop)
            (term_loop-concat s (terms ++ term ∷ []) []
              ∙ rw (concat-append terms (term ∷ [])) (simp (append_assoc, append-nil))))
  ]
]

-- The terms after the first
rest_terms : List Bytes → Bytes
rest_terms [] = []
rest_terms (term ∷ terms) = text " AND " ++ (quoted term ++ rest_terms terms)

nonempty-append : (s t : Bytes) → is_empty s ≡ false → is_empty (s ++ t) ≡ false
nonempty-append [] t h = cc
nonempty-append (c ∷ s) t h = refl

express-rest_terms :
    (terms : List Bytes) (expression : Bytes)
    → is_empty expression ≡ false
    → express terms expression ≡ expression ++ rest_terms terms
unfolding express rest_terms
express-rest_terms [] expression h = sym (append-nil expression)
express-rest_terms (term ∷ terms) expression h = rw h (
    express-rest_terms terms ((expression ++ text " AND ") ++ quoted term) (
      nonempty-append (expression ++ text " AND ") (quoted term)
        (nonempty-append expression (text " AND ") h))
    ∙ simp append_assoc)

conjunction-rest_terms :
    (term : Bytes) (terms : List Bytes)
    → conjunction (term ∷ terms) ≡ quoted term ++ rest_terms terms
unfolding conjunction rest_terms
conjunction-rest_terms term [] = sym (append-nil (quoted term))
conjunction-rest_terms term (next ∷ terms) =
    ap (λ (s : Bytes). quoted term ++ (text " AND " ++ s)) (conjunction-rest_terms next terms)

express-conjunction : (terms : List Bytes) → express terms [] ≡ conjunction terms
unfolding express conjunction quoted
express-conjunction [] = refl
express-conjunction (term ∷ terms) =
    express-rest_terms terms (quoted term) refl ∙ sym (conjunction-rest_terms term terms)

-- The expression is the words of the folded query, each in quotes, joined by AND: a word is not
-- empty and has only lower-case letters, digits and bytes of other scripts, so no quote and no
-- operator of the query language reaches FTS5; and the words have every such byte of the query, in
-- order.
pub literal_fts_query_lem :
    (u : Unicode) (query folded : Bytes) {expression : Bytes}
    → fold_unicode_text u query ≡ ok folded
    → literal_fts_query u query ≡ ok expression
    → (terms : List Bytes) × (expression ≡ conjunction terms)
      × All IsTerm terms
      × (concat terms ≡ term_bytes folded)
unfolding literal_fts_query
literal_fts_query_lem u query folded folds h =
    let (f, e, last) = >>=-eq-ok (fold_unicode_text u query) _ h in
    let same : f ≡ folded = ok-cancel (sym e ∙ folds) in
    let terms : List Bytes = term_loop folded [] [] in
    (
      terms,
      sym (ok-cancel last)
          ∙ ap (λ (x : Bytes). express (term_loop x [] []) []) same
          ∙ express-conjunction terms,
      term_loop-IsTerm folded [] [] tt refl,
      term_loop-concat folded [] [],
    )
