-- ===== src/Search/Results.antt =====
-- What `search` returns (libs/search/src/search_index.cpp).
use wiki.Base.{
  ℕ, zero, suc, ◌≤◌, ◌≡◌, refl, subst, ◌∙◌, inl, inr, Bool, true, false, not, ◌&&◌, ◌||◌, Option,
  none, some, List, [], ◌∷◌, Bytes, Result, ok, err, text, bytes_eq, ltb, ◌==◌, if◌then◌else◌,
  if-true, if-false, length, is_empty, take, length-take, All, Bool-cases, >>=-eq-ok, ok-cancel,
  err-ne-ok, throw_if, throw_if-ok, none-ne-some, some-cancel, arith,
}
use wiki.Domain.Unicode.{Unicode}
use wiki.Domain.Concept.{concept_identity_key}
use wiki.Search.{
  SearchResult, Index, as_error, is_safe_relative, check_paths, is_found, take_exact, exact_row,
  exact_loop, extract, promote, with_key, search, literal_fts_query,
}

not-not : (b : Bool) → not b ≡ false → b ≡ true
not-not true h = refl
not-not false h = cc

take-All : {A : Type 0} (P : A → Type 0) (n : ℕ) (xs : List A) → All P xs → All P (take n xs)
take-All P zero xs h = tt
take-All P (suc n) [] h = tt
take-All P (suc n) (x ∷ xs) (p, h) = (p, take-All P n xs h)

module _ {Score : Type 0} where
  abbrev pub IsSafe : SearchResult Score → Type 0
  IsSafe r = is_safe_relative r.vault_path ≡ true

  -- No more results than asked for, and every path stays below the vault.
  pub record Within (limit : ℕ) (results : List (SearchResult Score)) : Type 0 where
    pub bounded : length results ≤ limit
    pub safe : All IsSafe results

  check_paths-All :
      (results : List (SearchResult Score)) {done : Unit {0}}
      → check_paths results ≡ ok done
      → All IsSafe results
  unfolding check_paths
  check_paths-All [] h = tt
  check_paths-All (r ∷ results) h =
      let (done, passed, rest) = >>=-eq-ok (throw_if (not (is_safe_relative r.vault_path)) _) _ h in
      (not-not _ (throw_if-ok _ _ passed), check_paths-All results rest)

  extract-All :
      (P : SearchResult Score → Type 0) (exact : SearchResult Score)
      (results : List (SearchResult Score))
      → P exact
      → All P results
      → P (extract exact results).0
        × All P (extract exact results).1
        × (length (extract exact results).1 ≤ length results)
  unfolding extract
  extract-All P exact [] p h = (p, tt, omega arith)
  extract-All P exact (r ∷ results) p (q, h) =
      let (found, others, shorter) = extract-All P exact results p h in
      elim (Bool-cases (bytes_eq r.article_id exact.article_id)) [
        | inl same ↦ rw same (q, h, omega arith)
        | inr other ↦ rw other (found, (q, others), omega arith)
      ]

  -- An option whose value, if any, is safe
  abbrev SafeOption : Option (SearchResult Score) → Type 0
  SafeOption exact = (r : SearchResult Score) → exact ≡ some r → IsSafe r

  promote-Within :
      (limit : ℕ) (exact : Option (SearchResult Score)) (results : List (SearchResult Score))
      → SafeOption exact
      → Within limit results
      → Within limit (promote limit exact results)
  unfolding promote
  promote-Within limit none results safe w = w
  promote-Within limit (some exact) results safe w =
      let (first, others, shorter) = extract-All IsSafe exact results (safe exact refl) w.safe in
      record {
        bounded =
            omega
              (arith, length-take limit ((extract exact results).0 ∷ (extract exact results).1));
        safe =
            take-All IsSafe limit ((extract exact results).0 ∷ (extract exact results).1)
              (first, others);
      }

  module _ (u : Unicode) (index : Index Score) where
    take_exact-Safe :
        (zero_score : Score) (row : SearchResult Score) (exact : Option (SearchResult Score))
        {next : Option (SearchResult Score)}
        → take_exact zero_score row exact ≡ ok next
        → SafeOption next
    unfolding take_exact
    take_exact-Safe zero_score row exact h =
        let (a, single, h1) = >>=-eq-ok (throw_if (is_found exact) _) _ h in
        let (b, passed, last) =
          >>=-eq-ok (throw_if (not (is_safe_relative row.vault_path)) _) _ h1 in
        λ r e. subst IsSafe (some-cancel (ok-cancel last ∙ e)) (not-not _ (throw_if-ok _ _ passed))

    exact_loop-Safe :
        (key : Bytes) (rows : List (SearchResult Score)) (exact : Option (SearchResult Score))
        {found : Option (SearchResult Score)}
        → SafeOption exact
        → exact_loop u index key rows exact ≡ ok found
        → SafeOption found
    unfolding exact_loop exact_row
    exact_loop-Safe key [] exact safe h = λ r e. safe r (ok-cancel h ∙ e)
    exact_loop-Safe key (row ∷ rows) exact safe h =
        let (next, step, rest) = >>=-eq-ok (exact_row u index key row exact) _ h in
        let (row_key, keyed, taken) =
          >>=-eq-ok (as_error _ (concept_identity_key u row.title)) _ step in
        exact_loop-Safe key rows next
          (elim (Bool-cases (bytes_eq row_key key)) [
            | inl same ↦
                take_exact-Safe index.zero_score row exact
                  (if-true (bytes_eq row_key key) _ _ same taken)
            | inr other ↦
                λ r e. safe r (ok-cancel (if-false (bytes_eq row_key key) _ _ other taken) ∙ e)
          ])
          rest

    with_key-Within :
        (limit : ℕ) (expression : Bytes) (results : List (SearchResult Score))
        (key : Result Bytes Bytes) {found : List (SearchResult Score)}
        → Within limit results
        → with_key u index limit expression results key ≡ ok found
        → Within limit found
    unfolding with_key
    with_key-Within limit expression results (err message) w h =
        elim (Bool-cases (is_empty expression)) [
          | inl e ↦ absurd (err-ne-ok (if-true (is_empty expression) _ _ e h))
          | inr e ↦ subst (Within limit) (ok-cancel (if-false (is_empty expression) _ _ e h)) w
        ]
    with_key-Within limit expression results (ok key) w h =
        let (exact, looked, h1) = >>=-eq-ok (exact_loop u index key index.articles none) _ h in
        let (done, passed, last) =
          >>=-eq-ok (throw_if (is_empty expression && not (is_found exact)) _) _ h1 in
        subst (Within limit) (ok-cancel last) (
          promote-Within limit exact results
            (exact_loop-Safe key index.articles none (λ r e. absurd (none-ne-some e)) looked) w)

    -- A search that returns gives between 0 and `limit` results, `limit` is between 1 and 100, and
    -- the path of every result is relative and does not climb out of the vault, the one of an exact
    -- title too.
    pub search-Within :
        (query : Bytes) (limit : ℕ) {results : List (SearchResult Score)}
        → search u index query limit ≡ ok results
        → (1 ≤ limit) × (limit ≤ 100) × Within limit results
    unfolding search
    search-Within query limit h =
        let (a, short, h1) = >>=-eq-ok (throw_if (ltb 4096 (length query)) _) _ h in
        let (b, limits, h2) = >>=-eq-ok (throw_if (limit == 0 || ltb 100 limit) _) _ h1 in
        let (expression, written, h3) = >>=-eq-ok (as_error _ (literal_fts_query u query)) _ h2 in
        let shown : Bytes = if is_empty expression then text "\"kc_empty_query\"" else expression in
        let rows = index.matching shown (not (is_empty expression)) limit in
        let (c, safe, last) = >>=-eq-ok (check_paths rows) _ h3 in
        let (low, high) = limit-range limit (throw_if-ok _ _ limits) in
        (
          low,
          high,
          with_key-Within limit expression rows (concept_identity_key u query)
              (record {
                bounded = index.matching-length shown (not (is_empty expression)) limit;
                safe = check_paths-All rows safe;
              })
              last,
        )
      where
        limit-range : (n : ℕ) → (n == 0 || ltb 100 n) ≡ false → (1 ≤ n) × (n ≤ 100)
        limit-range n h = ground arith
