-- ===== src/Search.antt =====
-- libs/search/src/search_index.cpp: the query that is given to FTS5, and the results. SQLite's answers
-- are the argument `Index`; a relevance score is an opaque value.
pub mod Query
pub mod Results
use wiki.Base.{
  ℕ, ◌+◌, ◌≤◌, ◌≡◌, Bool, true, false, not, ◌&&◌, ◌||◌, Option, none, some, List, [], ◌∷◌, ◌++◌,
  Bytes, Result, ok, err, text, bytes_eq, ltb, leb, between, ◌==◌, if◌then◌else◌, length, is_empty,
  take, any, ◌>>=◌, ◌>>◌, throw_if,
}
use wiki.Domain.Unicode.{Unicode}
use wiki.Domain.Concept.{fold_unicode_text, concept_identity_key}
use wiki.Domain.Paths.{is_absolute, climbs}

unfoldable pub is_term_byte : ℕ → Bool
is_term_byte byte = between b'a' b'z' byte || between b'0' b'9' byte || leb 0x80 byte

-- The loop over the folded query, over its variables `terms` and `term`, and what follows it.
unfoldable pub term_loop : Bytes → List Bytes → Bytes → List Bytes
term_loop [] terms term = if is_empty term then terms else terms ++ term ∷ []
term_loop (byte ∷ s) terms term = elim (is_term_byte byte) [
  | true ↦ term_loop s terms (term ++ byte ∷ [])
  | false ↦ elim (is_empty term) [
    | true ↦ term_loop s terms term
    | false ↦ term_loop s (terms ++ term ∷ []) []
  ]
]

unfoldable pub quoted : Bytes → Bytes
quoted term = b'"' ∷ term ++ b'"' ∷ []

unfoldable pub express : List Bytes → Bytes → Bytes
express [] expression = expression
express (term ∷ terms) expression =
    express terms
      ((if is_empty expression then expression else expression ++ text " AND ") ++ quoted term)

unfoldable pub literal_fts_query : Unicode → Bytes → Result Bytes Bytes
literal_fts_query u query = do
  folded ← fold_unicode_text u query
  ok (express (term_loop folded [] []) [])

pub data SearchErrorKind : Type 0 where
  invalid_project invalid_query state_error : SearchErrorKind

pub record SearchError : Type 0 where
  pub kind : SearchErrorKind
  pub message : Bytes

abbrev pub search_error : SearchErrorKind → Bytes → SearchError
search_error kind message = record { kind = kind; message = message }

-- `catch (const std::invalid_argument& error) { throw SearchError(kind, error.what()); }`
unfoldable pub as_error : {A : Type 0} → SearchErrorKind → Result Bytes A → Result SearchError A
as_error kind (ok a) = ok a
as_error kind (err message) = err (search_error kind message)

pub record SearchResult (Score : Type 0) : Type 0 where
  pub article_id : Bytes
  pub title : Bytes
  pub vault_path : Bytes
  pub excerpt : Bytes
  pub relevance : Score

-- The rows that the two queries return: for an expression, whether it counts and a limit, at most as
-- many as the limit; and every article with the start of its body.
pub record Index (Score : Type 0) : Type 0 where
  pub zero_score : Score
  pub matching : Bytes → Bool → ℕ → List (SearchResult Score)
  pub articles : List (SearchResult Score)
  pub matching-length :
      (expression : Bytes) (wanted : Bool) (limit : ℕ)
      → length (matching expression wanted limit) ≤ limit

unfoldable pub is_safe_relative : Bytes → Bool
is_safe_relative path = if is_empty path || is_absolute path then false else not (climbs path)

unfoldable pub no_query : SearchError
no_query =
    search_error SearchErrorKind.invalid_query
      (text "search query must contain a word, number, or exact concept title")

unfoldable pub unsafe_path : SearchError
unsafe_path =
    search_error SearchErrorKind.state_error (text "article search returned an unsafe vault path")

module _ {Score : Type 0} where
  -- The first loop
  unfoldable pub check_paths : List (SearchResult Score) → Result SearchError (Unit {0})
  check_paths [] = ok tt
  check_paths (r ∷ results) = do
    throw_if (not (is_safe_relative r.vault_path)) unsafe_path
    check_paths results

  unfoldable pub is_found : Option (SearchResult Score) → Bool
  is_found none = false
  is_found (some r) = true

  -- A row of the second loop whose title has the key
  unfoldable pub take_exact :
      Score
      → SearchResult Score
      → Option (SearchResult Score)
      → Result SearchError (Option (SearchResult Score))
  take_exact zero_score row exact = do
    throw_if (is_found exact) (
        search_error SearchErrorKind.state_error
          (text "ambiguous Unicode concept identity; curate the duplicate articles"))
    throw_if (not (is_safe_relative row.vault_path)) unsafe_path
    ok (some (record row { relevance = zero_score }))

  module _ (u : Unicode) (index : Index Score) where
    unfoldable pub exact_row :
        Bytes
        → SearchResult Score
        → Option (SearchResult Score)
        → Result SearchError (Option (SearchResult Score))
    exact_row key row exact = do
      row_key ← as_error SearchErrorKind.state_error (concept_identity_key u row.title)
      (if bytes_eq row_key key then take_exact index.zero_score row exact else ok exact)

    unfoldable pub exact_loop :
        Bytes
        → List (SearchResult Score)
        → Option (SearchResult Score)
        → Result SearchError (Option (SearchResult Score))
    exact_loop key [] exact = ok exact
    exact_loop key (row ∷ rows) exact = do next ← exact_row key row exact; exact_loop key rows next

  -- `find_if`, `*exact = *existing` and `erase`: the result with the identifier, and the others
  unfoldable pub extract :
      SearchResult Score
      → List (SearchResult Score)
      → SearchResult Score × List (SearchResult Score)
  extract exact [] = (exact, [])
  extract exact (r ∷ results) =
      let (found, others) = extract exact results in
      if bytes_eq r.article_id exact.article_id then (r, results) else (found, r ∷ others)

  unfoldable pub promote :
      ℕ → Option (SearchResult Score) → List (SearchResult Score) → List (SearchResult Score)
  promote limit none results = results
  promote limit (some exact) results =
      let (first, others) = extract exact results in take limit (first ∷ others)

  module _ (u : Unicode) (index : Index Score) where
    -- After the `try` around `concept_identity_key`
    unfoldable pub with_key :
        ℕ
        → Bytes
        → List (SearchResult Score)
        → Result Bytes Bytes
        → Result SearchError (List (SearchResult Score))
    with_key limit expression results (err message) =
        if is_empty expression then err no_query else ok results
    with_key limit expression results (ok key) = do
      exact ← exact_loop u index key index.articles none
      throw_if (is_empty expression && not (is_found exact)) no_query
      ok (promote limit exact results)

    unfoldable pub search : Bytes → ℕ → Result SearchError (List (SearchResult Score))
    search query limit = do
      throw_if (ltb 4096 (length query)) (
          search_error SearchErrorKind.invalid_query
            (text "search query must be at most 4096 bytes"))
      throw_if (limit == 0 || ltb 100 limit) (
          search_error SearchErrorKind.invalid_query
            (text "search result limit must be between 1 and 100"))
      expression ← as_error SearchErrorKind.invalid_query (literal_fts_query u query)
      let results =
          index.matching (if is_empty expression then text "\"kc_empty_query\"" else expression)
            (not (is_empty expression)) limit
      check_paths results
      with_key limit expression results (concept_identity_key u query)
