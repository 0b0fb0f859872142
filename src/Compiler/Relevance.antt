-- ===== src/Compiler/Relevance.antt =====
-- How well a page fits a concept: normalize_match_text to relevance_score of
-- libs/compiler/src/compiler.cpp.
use wiki.Base.{
  ℕ, ◌+◌, ◌-◌, Bool, true, false, not, ◌&&◌, ◌||◌, Option, none, some, List, [], ◌∷◌, ◌++◌, Bytes,
  Result, ok, err, text, bytes_eq, ltb, between, if◌then◌else◌, length, is_empty, take, any, all,
  find,
}
use wiki.Domain.Unicode.{Unicode}
use wiki.Domain.Concept.{normalize_lexical_text, ends_with_byte}
use wiki.Models.Whitespace.{is_space}

-- Malformed text matches nothing.
unfoldable pub text_or_empty : Result Bytes Bytes → Bytes
text_or_empty (ok s) = s
text_or_empty (err message) = []

unfoldable pub normalize_match_text : Unicode → Bytes → Bytes
normalize_match_text u s = text_or_empty (normalize_lexical_text u s)

unfoldable pub is_found : Option ℕ → Bool
is_found none = false
is_found (some i) = true

unfoldable pub contains_phrase : Bytes → Bytes → Bool
contains_phrase normalized_text phrase =
    if is_empty phrase || is_empty normalized_text
    then false
    else is_found (find (b' ' ∷ normalized_text ++ b' ' ∷ []) (b' ' ∷ phrase ++ b' ' ∷ []))

-- `for (std::string term; input >> term;)`: the words between white space
unfoldable pub words : Bytes → Bytes → List Bytes
words [] word = if is_empty word then [] else word ∷ []
words (c ∷ s) word = elim (is_space c) [
  | true ↦ let rest = words s [] in if is_empty word then rest else word ∷ rest
  | false ↦ words s (word ++ c ∷ [])
]

unfoldable pub stop_words : List Bytes
stop_words =
    text "a"
    ∷ text "an"
    ∷ text "and"
    ∷ text "as"
    ∷ text "at"
    ∷ text "by"
    ∷ text "for"
    ∷ text "from"
    ∷ text "in"
    ∷ text "into"
    ∷ text "of"
    ∷ text "on"
    ∷ text "or"
    ∷ text "the"
    ∷ text "to"
    ∷ text "with"
    ∷ []

unfoldable pub meaningful : List Bytes → List Bytes
meaningful [] = []
meaningful (term ∷ terms) =
    let rest = meaningful terms in if any (bytes_eq term) stop_words then rest else term ∷ rest

unfoldable pub concept_terms : Bytes → List Bytes
concept_terms normalized_title =
    let all_terms = words normalized_title [] in
    let meaningful_terms = meaningful all_terms in
    if is_empty meaningful_terms then all_terms else meaningful_terms

unfoldable pub contains_term_variant : Bytes → Bytes → Bool
contains_term_variant normalized_text term =
    if contains_phrase normalized_text term
    then true
    else if not (all (between b'a' b'z') term)
    then false
    else if ltb 3 (length term) && ends_with_byte b's' term
    then contains_phrase normalized_text (take (length term - 1) term)
    else contains_phrase normalized_text (term ++ b's' ∷ [])

unfoldable pub contains_all_terms : Bytes → List Bytes → Bool
contains_all_terms normalized_text terms =
    not (is_empty terms) && all (contains_term_variant normalized_text) terms

unfoldable pub points : Bool → ℕ → ℕ
points true n = n
points false n = 0

unfoldable pub score_of : Bytes → Bytes → Bytes → ℕ
score_of name page title =
    let terms = concept_terms title in
    points (contains_phrase name title) 1000
    + points (contains_phrase page title) 800
    + points (contains_all_terms name terms) 300
    + points (contains_all_terms page terms) 200

unfoldable pub relevance_score : Unicode → Bytes → Bytes → Bytes → ℕ
relevance_score u source_name page_text concept_title =
    score_of (normalize_match_text u source_name) (normalize_match_text u page_text)
      (normalize_match_text u concept_title)
