-- ===== src/Storage/Identity/Owner.antt =====
-- What `resolve_concept`, `resolve_proposal_identity` and `validate_concept_destination` promise
-- (libs/storage/src/concept_identity.cpp).
use wiki.Base.{
  ◌≡◌, refl, sym, ap, subst, ◌∙◌, ◌⊎◌, inl, inr, Bool, true, false, not, none, some, List, [], ◌∷◌,
  ◌++◌, map, Bytes, Result, ok, err, bytes_eq, bytes_eq_refl, if◌then◌else◌, All, Bool-cases,
  >>=-eq-ok, ok-cancel, err-ne-ok, throw_if, throw_if-ok, if-true, none-ne-some, ◌>>=◌,
}
use wiki.Domain.Unicode.{Unicode}
use wiki.Domain.Concept.{concept_identity_key, normalize_concept_title, canonical_concept_slug}
use wiki.Storage.Identity.{
  IdentityRow, ConceptTarget, ArticleRow, CreateRow, Catalog, Search, applied_row, pending_row,
  read_identities, has_value, search_rows, collides, check_slugs, resolve_concept, new_target,
}
use wiki.Storage.Identity.Resolve.{
  key_is, has_key, matching_ids, Only, Outcome, Pends, search-append, search-applied,
  search-pending, search-nothing,
}

applied_rows :
    (articles : List ArticleRow) → All (λ row. row.applied ≡ true) (map applied_row articles)
unfolding applied_row
applied_rows [] = tt
applied_rows (a ∷ articles) = (refl, applied_rows articles)

-- The rows after the articles
abbrev pending_rows : Catalog → Bool → List IdentityRow
pending_rows c include_pending = if include_pending then map pending_row c.creates else []

pending_rows-pending :
    (c : Catalog) (include_pending : Bool)
    → All (λ row. row.applied ≡ false) (pending_rows c include_pending)
unfolding pending_row
pending_rows-pending c false = tt
pending_rows-pending c true = each c.creates
  where
    each : (creates : List CreateRow) → All (λ row. row.applied ≡ false) (map pending_row creates)
    each [] = tt
    each (p ∷ creates) = (refl, each creates)

module _ (u : Unicode) where
  -- No article has the key, or exactly one has it and the target is that article.
  abbrev pub Owned : Bytes → List IdentityRow → ConceptTarget → Type 0
  Owned key rows t =
      ((t.article_id ≡ none) × All (λ row. has_key u key row ≡ false) rows)
      ⊎ ((row : IdentityRow) × Only u key row rows
          × (t.article_id ≡ some row.id)
          × (t.title ≡ row.title)
          × (t.slug ≡ row.slug)
          × (t.vault_path ≡ some row.vault_path))

  pub record Resolves (c : Catalog) (include_pending : Bool) (title key : Bytes) (t : ConceptTarget)
      : Type 0 where
    pub owner : Owned key (map applied_row c.articles) t
    pub creates : t.pending_creates ≡ matching_ids u key (pending_rows c include_pending)
    pub slugs :
        All
          (λ row. row.slug ≡ t.slug → has_key u key row ≡ true)
          (read_identities c include_pending)
    pub fresh :
        t.article_id ≡ none
        → t.pending_creates ≡ []
        → (normalize_concept_title u title ≡ ok t.title)
          × (canonical_concept_slug u title ≡ ok t.slug)

  not_differs :
      (key : Bytes) (m : Result Bytes Bytes)
      → (m >>= λ k. ok (not (bytes_eq k key))) ≡ ok false
      → key_is key m ≡ true
  unfolding key_is
  not_differs key (ok k) h = elim (Bool-cases (bytes_eq k key)) [
    | inl e ↦ e
    | inr e ↦ absurd (unequal (bytes_eq k key) e (ok-cancel h))
  ]
    where
      unequal : (b : Bool) → b ≡ false → not b ≡ false → ⊥
      unequal true e k = cc
      unequal false e k = cc
  not_differs key (err message) h = absurd (err-ne-ok h)

  check_slugs-All :
      (key : Bytes) (target : ConceptTarget) (rows : List IdentityRow) {done : Unit {0}}
      → check_slugs u key target rows ≡ ok done
      → All (λ row. row.slug ≡ target.slug → has_key u key row ≡ true) rows
  unfolding check_slugs collides has_key
  check_slugs-All key target [] h = tt
  check_slugs-All key target (row ∷ rows) h =
      let (collision, compared, rest) = >>=-eq-ok (collides u key target.slug row) _ h in
      let (done, passed, later) = >>=-eq-ok (throw_if collision _) _ rest in
      let none_ : collision ≡ false = throw_if-ok _ _ passed in
      (
        λ same. not_differs key (concept_identity_key u row.title) (
            if-true (bytes_eq row.slug target.slug) _ _
              (subst (λ (s : Bytes). bytes_eq row.slug s ≡ true) same (bytes_eq_refl row.slug))
              (compared ∙ ap ok none_)),
        check_slugs-All key target rows later,
      )

  -- The target that both parts of the search leave, where the first began with `start`.
  module _ (c : Catalog) (include_pending : Bool) (title key : Bytes) (start : ConceptTarget)
      (no_article : start.article_id ≡ none) (no_creates : start.pending_creates ≡ []) where
    begin : Search
    begin = record { target = start; found = false }

    Owned-after :
        (m s : Search)
        → Outcome u key (map applied_row c.articles) begin m
        → Pends u key (matching_ids u key (pending_rows c include_pending)) m s
        → Owned key (map applied_row c.articles) s.target
    unfolding begin
    Owned-after m s (inl (others, same)) (article, path, ids, named) =
        inl (article ∙ ap (λ (x : Search). x.target.article_id) same ∙ no_article, others)
    Owned-after m s (inr (row, only, free, same)) (article, path, ids, named) =
        let (t, g) = named (ap (λ (x : Search). x.found) same) in
        inr (
          row,
          only,
          article ∙ ap (λ (x : Search). x.target.article_id) same,
          t ∙ ap (λ (x : Search). x.target.title) same,
          g ∙ ap (λ (x : Search). x.target.slug) same,
          path ∙ ap (λ (x : Search). x.target.vault_path) same,
        )

    creates_after :
        (m s : Search)
        → Outcome u key (map applied_row c.articles) begin m
        → Pends u key (matching_ids u key (pending_rows c include_pending)) m s
        → s.target.pending_creates ≡ matching_ids u key (pending_rows c include_pending)
    unfolding begin
    creates_after m s (inl (others, same)) (article, path, ids, named) =
        ids
        ∙ ap
            (λ (x : Search).
              x.target.pending_creates ++ matching_ids u key (pending_rows c include_pending))
            same
        ∙ ap (λ (l : List Bytes). l ++ matching_ids u key (pending_rows c include_pending))
            no_creates
    creates_after m s (inr (row, only, free, same)) (article, path, ids, named) =
        ids
        ∙ ap
            (λ (x : Search).
              x.target.pending_creates ++ matching_ids u key (pending_rows c include_pending))
            same
        ∙ ap (λ (l : List Bytes). l ++ matching_ids u key (pending_rows c include_pending))
            no_creates

    fresh_after :
        (m s : Search)
        → Outcome u key (map applied_row c.articles) begin m
        → Pends u key (matching_ids u key (pending_rows c include_pending)) m s
        → search_rows u key (pending_rows c include_pending) m ≡ ok s
        → s.target.article_id ≡ none
        → s.target.pending_creates ≡ []
        → s.target ≡ start
    unfolding begin
    fresh_after m s (inl (others, same)) pends searched unowned nothing =
        let none_ : matching_ids u key (pending_rows c include_pending) ≡ [] =
          sym (creates_after m s (inl (others, same)) pends) ∙ nothing in
        ap (λ (x : Search). x.target)
          (search-nothing u key (pending_rows c include_pending) m none_ searched ∙ same)
    fresh_after m s (inr (row, only, free, same)) (article, path, ids, named) searched unowned
          nothing =
        absurd
          (none-ne-some (sym unowned ∙ article ∙ ap (λ (x : Search). x.target.article_id) same))

  resolved :
      (c : Catalog) (title key shown slug : Bytes) (include_pending : Bool) (s : Search)
      → normalize_concept_title u title ≡ ok shown
      → canonical_concept_slug u title ≡ ok slug
      → search_rows u key
          (read_identities c include_pending)
          (record { target = new_target shown slug; found = false })
        ≡ ok s
      → check_slugs u key s.target (read_identities c include_pending) ≡ ok tt
      → Resolves c include_pending title key s.target
  unfolding begin new_target read_identities has_value
  resolved c title key shown slug include_pending s normal slugged searched checked =
      let (m, first, second) =
        search-append u key (map applied_row c.articles) (pending_rows c include_pending) _
          searched in
      let start : ConceptTarget = new_target shown slug in
      let outcome : Outcome u key (map applied_row c.articles)
          (record { target = start; found = false }) m =
        search-applied u key (map applied_row c.articles) (record { target = start; found = false })
          (applied_rows c.articles) refl first in
      let pends : Pends u key (matching_ids u key (pending_rows c include_pending)) m s =
        search-pending u key (pending_rows c include_pending) m
          (pending_rows-pending c include_pending) second in
      record {
        owner = Owned-after c include_pending title key start refl refl m s outcome pends;
        creates = creates_after c include_pending title key start refl refl m s outcome pends;
        slugs = check_slugs-All key s.target (read_identities c include_pending) checked;
        fresh = λ unowned nothing.
            let same =
              fresh_after c include_pending title key start refl refl m s outcome pends second
                unowned nothing in
            (
              normal ∙ ap (λ (x : ConceptTarget). ok x.title) (sym same),
              slugged ∙ ap (λ (x : ConceptTarget). ok x.slug) (sym same),
            );
      }

  -- Where `resolve_concept` returns a target: no article has the title's key and the target has no
  -- article, or exactly one has it and the target is that article, with its stored title, slug and
  -- path; the pending creates are those with the key, in order; every row with the target's slug
  -- has the key; and where nothing has the key, the title and slug are the normalised ones.
  pub resolve_concept-Resolves :
      (c : Catalog) (title : Bytes) (include_pending : Bool) (key : Bytes) {t : ConceptTarget}
      → concept_identity_key u title ≡ ok key
      → resolve_concept u c title include_pending ≡ ok t
      → Resolves c include_pending title key t
  unfolding resolve_concept read_identities has_value
  resolve_concept-Resolves c title include_pending key {t} keyed h =
      let (shown, normal, h1) = >>=-eq-ok (normalize_concept_title u title) _ h in
      let (slug, slugged, h2) = >>=-eq-ok (canonical_concept_slug u title) _ h1 in
      let (k, keyed_, h3) = >>=-eq-ok (concept_identity_key u title) _ h2 in
      let (s, searched, h4) =
        >>=-eq-ok
          (search_rows u k (read_identities c include_pending)
            (record { target = new_target shown slug; found = false }))
          _ h3 in
      let (done, checked, last) =
        >>=-eq-ok (check_slugs u k s.target (read_identities c include_pending)) _ h4 in
      let result : Resolves c include_pending title k s.target =
        resolved c title k shown slug include_pending s normal slugged searched checked in
      subst (Resolves c include_pending title key) (ok-cancel last) (
        subst (λ (x : Bytes). Resolves c include_pending title x s.target)
          (ok-cancel (sym keyed_ ∙ keyed)) result)
