-- ===== src/Storage/Identity/Proposal.antt =====
-- The identity of a proposal and the owner of a destination
-- (libs/storage/src/concept_identity.cpp).
use wiki.Base.{
  ◌≡◌, refl, sym, ap, ap₂, subst, ◌∙◌, inl, inr, Bool, true, false, not, ◌&&◌, ◌||◌, Option, none,
  some, List, [], ◌∷◌, map, Bytes, Result, ok, err, bytes_eq, bytes_eq_lem, bytes_eq_refl, opt_eq,
  opt_eq_lem, arith, All, >>=-eq-ok, ok-cancel, err-ne-ok, none-ne-some, throw_if, throw_if-ok,
}
use wiki.Domain.Unicode.{Unicode}
use wiki.Domain.Types.{
  ArticleDescriptor, ArticleProposal, ProposalOperation, create_article, update_article,
}
use wiki.Domain.Concept.{
  concept_identity_key, normalize_concept_title, canonical_concept_slug, fold_unicode_text,
}
use wiki.Storage.Identity.{
  IdentityRow, ConceptTarget, Catalog, applied_row, read_identities, has_value, resolve_concept,
  is_other, folded, check_destination, validate_concept_destination, create_identity,
  update_identity, match_identity, resolve_proposal_identity,
}
use wiki.Storage.Identity.Resolve.{has_key, matching_ids, Only}
use wiki.Storage.Identity.Owner.{Owned, Resolves, resolve_concept-Resolves}

module _ (u : Unicode) where
  -- A new article: no stored one has the key, and the descriptor has no identifier and is canonical.
  -- An update: the descriptor names the only stored article with the key and takes its spelling.
  pub Identified :
      Catalog → ProposalOperation → Bytes → ArticleDescriptor → ArticleDescriptor → Type 0
  Identified c create_article key given result =
      All (λ row. has_key u key row ≡ false) (map applied_row c.articles)
      × (given.article_id ≡ none)
      × (result ≡ given)
      × (normalize_concept_title u given.title ≡ ok given.title)
      × (canonical_concept_slug u given.title ≡ ok given.slug)
  Identified c update_article key given result =
      (row : IdentityRow) × Only u key row (map applied_row c.articles)
      × (given.article_id ≡ some row.id)
      × (given.slug ≡ row.slug)
      × (result ≡ record given { title = row.title; slug = row.slug })

  create_checks :
      (a b t s : Bool)
      → (a || b || not t || not s) ≡ false
      → (a ≡ false) × (b ≡ false) × (t ≡ true) × (s ≡ true)
  create_checks a b t s h = ground arith

  update_checks :
      (a b s : Bool) → (not a || not b || not s) ≡ false → (a ≡ true) × (b ≡ true) × (s ≡ true)
  update_checks a b s h = ground arith

  has_value-false : (id : Option Bytes) → has_value id ≡ false → id ≡ none
  unfolding has_value
  has_value-false none h = refl
  has_value-false (some id) h = cc

  has_value-true : (id : Option Bytes) → has_value id ≡ true → id ≡ none → ⊥
  unfolding has_value
  has_value-true none h e = cc
  has_value-true (some id) h e = cc

  -- Pending creates were not asked for, so there are none.
  create_identity-Identified :
      (c : Catalog) (key : Bytes) (given : ArticleDescriptor) (t : ConceptTarget)
      {result : ArticleDescriptor}
      → Resolves u c false given.title key t
      → create_identity u t given ≡ ok result
      → Identified c create_article key given result
  unfolding create_identity Identified matching_ids
  create_identity-Identified c key given t r h =
      let (done, checked, last) =
        >>=-eq-ok
          (throw_if
            (has_value t.article_id
              || has_value given.article_id
              || not (bytes_eq given.title t.title)
              || not (bytes_eq given.slug t.slug))
            _)
          _ h in
      let (unowned, no_id, title, slug) = create_checks _ _ _ _ (throw_if-ok _ _ checked) in
      let free : t.article_id ≡ none = has_value-false t.article_id unowned in
      let (shown, slugged) = r.fresh free r.creates in
      (
        unowned_rows r.owner free,
        has_value-false given.article_id no_id,
        sym (ok-cancel last),
        shown ∙ ap ok (sym (bytes_eq_lem given.title t.title title)),
        slugged ∙ ap ok (sym (bytes_eq_lem given.slug t.slug slug)),
      )
    where
      unowned_rows :
          Owned u key (map applied_row c.articles) t
          → t.article_id ≡ none
          → All (λ row. has_key u key row ≡ false) (map applied_row c.articles)
      unowned_rows (inl (free, others)) e = others
      unowned_rows (inr (row, only, id, title, slug, path)) e = absurd (none-ne-some (sym e ∙ id))

  update_identity-Identified :
      (c : Catalog) (key : Bytes) (given : ArticleDescriptor) (t : ConceptTarget)
      {result : ArticleDescriptor}
      → Resolves u c false given.title key t
      → update_identity u t given ≡ ok result
      → Identified c update_article key given result
  unfolding update_identity Identified
  update_identity-Identified c key given t {result} r h =
      let (done, checked, last) =
        >>=-eq-ok
          (throw_if
            (not (has_value t.article_id)
              || not (opt_eq given.article_id t.article_id)
              || not (bytes_eq given.slug t.slug))
            _)
          _ h in
      let (owned, same, slugs) = update_checks _ _ _ (throw_if-ok _ _ checked) in
      named r.owner owned (opt_eq_lem given.article_id t.article_id same)
        (bytes_eq_lem given.slug t.slug slugs) (ok-cancel last)
    where
      named :
          Owned u key (map applied_row c.articles) t
          → has_value t.article_id ≡ true
          → given.article_id ≡ t.article_id
          → given.slug ≡ t.slug
          → record given { title = t.title; slug = t.slug } ≡ result
          → (row : IdentityRow) × Only u key row (map applied_row c.articles)
            × (given.article_id ≡ some row.id)
            × (given.slug ≡ row.slug)
            × (result ≡ record given { title = row.title; slug = row.slug })
      named (inl (free, others)) owned same slug made =
          absurd (has_value-true t.article_id owned free)
      named (inr (row, only, id, titled, slugged, path)) owned same slug made = (
        row,
        only,
        same ∙ id,
        slug ∙ slugged,
        sym made ∙ ap₂ (λ (a b : Bytes). record given { title = a; slug = b }) titled slugged,
      )

  match_identity-Identified :
      (o : ProposalOperation) (c : Catalog) (key : Bytes) (given : ArticleDescriptor)
      (t : ConceptTarget) {result : ArticleDescriptor}
      → Resolves u c false given.title key t
      → match_identity u o t given ≡ ok result
      → Identified c o key given result
  unfolding match_identity
  match_identity-Identified create_article = create_identity-Identified
  match_identity-Identified update_article = update_identity-Identified

  -- The identity that `resolve_proposal_identity` returns: for a new article, no stored article has
  -- the key of its title, the proposal names none, and title and slug are the canonical ones; for
  -- an update, exactly one stored article has the key, the proposal names it with its slug, and the
  -- result has the stored title and slug.
  pub resolve_proposal_identity-Identified :
      (c : Catalog) (p : ArticleProposal) (key : Bytes) {result : ArticleDescriptor}
      → concept_identity_key u p.article.title ≡ ok key
      → resolve_proposal_identity u c p ≡ ok result
      → Identified c p.operation key p.article result
  unfolding resolve_proposal_identity
  resolve_proposal_identity-Identified c p key keyed h =
      let (t, resolves, rest) = >>=-eq-ok (resolve_concept u c p.article.title false) _ h in
      match_identity-Identified p.operation c key p.article t
        (resolve_concept-Resolves u c p.article.title false key keyed resolves) rest

  -- No other article has the destination: each stored path that folds to the same text is that of
  -- the article itself.
  abbrev pub Free : Bytes → Option Bytes → List IdentityRow → Type 0
  Free key article_id [] = Unit
  Free key article_id (row ∷ rows) =
      (fold_unicode_text u row.vault_path ≡ ok key → article_id ≡ some row.id)
      × Free key article_id rows

  destination_checks : (a b : Bool) → (a && not b) ≡ false → a ≡ true → b ≡ true
  destination_checks a b h k = ground arith

  folded-ok : (m : Result Bytes Bytes) {s : Bytes} → folded m ≡ ok s → m ≡ ok s
  unfolding folded
  folded-ok (ok s) h = ap ok (ok-cancel h)
  folded-ok (err message) h = absurd (err-ne-ok h)

  check_destination-Free :
      (key : Bytes) (article_id : Option Bytes) (rows : List IdentityRow) {done : Unit {0}}
      → check_destination u key article_id rows ≡ ok done
      → Free key article_id rows
  unfolding check_destination is_other
  check_destination-Free key article_id [] h = tt
  check_destination-Free key article_id (row ∷ rows) h =
      let (path, fold, rest) = >>=-eq-ok (folded (fold_unicode_text u row.vault_path)) _ h in
      let (done, passed, later) =
        >>=-eq-ok (throw_if (bytes_eq path key && not (opt_eq article_id (some row.id))) _) _
          rest in
      (
        λ same. opt_eq_lem article_id (some row.id) (
            destination_checks _ _ (throw_if-ok _ _ passed) (
              subst (λ (k : Bytes). bytes_eq path k ≡ true)
                (ok-cancel (sym (folded-ok (fold_unicode_text u row.vault_path) fold) ∙ same))
                (bytes_eq_refl path))),
        check_destination-Free key article_id rows later,
      )

  -- Where `validate_concept_destination` returns, no other stored article has a path that folds to
  -- the destination's text.
  pub validate_concept_destination-Free :
      (c : Catalog) (path : Bytes) (article_id : Option Bytes) (key : Bytes) {done : Unit {0}}
      → fold_unicode_text u path ≡ ok key
      → validate_concept_destination u c path article_id ≡ ok done
      → Free key article_id (read_identities c false)
  unfolding validate_concept_destination
  validate_concept_destination-Free c path article_id key keyed h =
      let (k, fold, rest) = >>=-eq-ok (folded (fold_unicode_text u path)) _ h in
      subst (λ (x : Bytes). Free x article_id (read_identities c false))
        (ok-cancel (sym (folded-ok (fold_unicode_text u path) fold) ∙ keyed))
        (check_destination-Free k article_id (read_identities c false) rest)
