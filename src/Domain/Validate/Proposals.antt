-- ===== src/Domain/Validate/Proposals.antt =====
-- What an accepted proposal satisfies, down to each citation.
use wiki.Base.{
  ℕ, ◌≡◌, ◌≢◌, refl, true, not, ◌||◌, Option, none, some, List, [], ◌∷◌, Bytes, codes, is_empty,
  All, append-eq-nil, for_index-nil, ==_iff,
}
use wiki.Domain.Unicode.{Unicode}
use wiki.Domain.Types.{
  ProposalOperation, create_article, update_article, ProposalBlock, ProposalSection, RelatedConcept,
  ArticleProposal,
}
use wiki.Domain.Id.{is_valid_id}
use wiki.Domain.Concept.Slug.{is_slug}
use wiki.Domain.Validate.{
  is_create, has_value, id_issues, all_distinct, validate_block, validate_section, validate_related,
  validate_proposal,
}
use wiki.Domain.Validate.Citations.{IsCited, require-nil, validate_citations-IsCited}

abbrev pub IsCitedBlock : Unicode → ProposalBlock → Type 0
IsCitedBlock u b = (b.citations ≢ []) × All (IsCited u) b.citations

abbrev pub IsCitedSection : Unicode → ProposalSection → Type 0
IsCitedSection u s = (s.blocks ≢ []) × All (IsCitedBlock u) s.blocks

abbrev pub IsCitedConcept : Unicode → RelatedConcept → Type 0
IsCitedConcept u r = (r.citations ≢ []) × All (IsCited u) r.citations

-- The identity agrees with the operation: none for a new article, a valid one for an update.
abbrev pub HasIdentity : ProposalOperation → Option Bytes → Type 0
HasIdentity create_article id = id ≡ none
HasIdentity update_article id =
    (name : Bytes) × (id ≡ some name) × (is_valid_id name (codes "art_") ≡ true)

pub record IsProposal (u : Unicode) (p : ArticleProposal) : Type 0 where
  pub schema : p.schema_version ≡ 1
  pub identity : HasIdentity p.operation p.article.article_id
  pub slug : is_slug p.article.slug ≡ true
  pub aliases : all_distinct p.article.aliases ≡ true
  pub sections : (p.sections ≢ []) × All (IsCitedSection u) p.sections
  pub concepts : All (IsCitedConcept u) p.related_concepts

not-is_empty {ℓ} : {A : Type ℓ} (xs : List A) → not (is_empty xs) ≡ true → xs ≢ []
not-is_empty [] h e = cc
not-is_empty (x ∷ xs) h e = cc

validate_block-IsCitedBlock :
    (u : Unicode) (path : Bytes) (i : ℕ) (b : ProposalBlock)
    → validate_block u path i b ≡ []
    → IsCitedBlock u b
unfolding validate_block
validate_block-IsCitedBlock u path i b h =
    let (h1, c) = append-eq-nil _ _ h in
    let (k, n) = append-eq-nil _ _ h1 in
    (not-is_empty _ (require-nil _ _ _ n), validate_citations-IsCited u _ _ c)

validate_section-IsCitedSection :
    (u : Unicode) (i : ℕ) (s : ProposalSection) → validate_section u i s ≡ [] → IsCitedSection u s
unfolding validate_section
validate_section-IsCitedSection u i s h =
    let (h1, c) = append-eq-nil _ _ h in
    let (k, n) = append-eq-nil _ _ h1 in
    (
      not-is_empty _ (require-nil _ _ _ n),
      for_index-nil _ (IsCitedBlock u) (λ j b e. validate_block-IsCitedBlock u _ j b e) 0 _ c,
    )

validate_related-IsCitedConcept :
    (u : Unicode) (i : ℕ) (r : RelatedConcept) → validate_related u i r ≡ [] → IsCitedConcept u r
unfolding validate_related
validate_related-IsCitedConcept u i r h =
    let (n, c) = append-eq-nil _ _ h in
    (not-is_empty _ (require-nil _ _ _ n), validate_citations-IsCited u _ _ c)

-- The three checks on the identity, read together.
HasIdentity-checks :
    (o : ProposalOperation) (id : Option Bytes)
    → (not (is_create o) || not (has_value id)) ≡ true
    → (is_create o || has_value id) ≡ true
    → id_issues id ≡ []
    → HasIdentity o id
unfolding is_create has_value id_issues
HasIdentity-checks create_article none a b c = refl
HasIdentity-checks create_article (some id) a b c = cc
HasIdentity-checks update_article none a b c = cc
HasIdentity-checks update_article (some id) a b c = (id, refl, require-nil _ _ _ c)

-- A proposal with no issue has schema version 1, an identity that agrees with its operation, a slug
-- of the required form, distinct aliases, at least one section, a block in each section, and in each
-- block and related concept at least one citation, each with a valid page, a nonempty span that
-- SQLite can store and a safe quote.
pub validate_proposal-IsProposal :
    (u : Unicode) (p : ArticleProposal) → validate_proposal u p ≡ [] → IsProposal u p
unfolding validate_proposal
validate_proposal-IsProposal u p h =
    let (h11, concepts) = append-eq-nil _ _ h in
    let (h10, sections) = append-eq-nil _ _ h11 in
    let (h9, nonempty) = append-eq-nil _ _ h10 in
    let (h8, aliases) = append-eq-nil _ _ h9 in
    let (h7, id) = append-eq-nil _ _ h8 in
    let (h6, slug) = append-eq-nil _ _ h7 in
    let (h5, title) = append-eq-nil _ _ h6 in
    let (h4, update) = append-eq-nil _ _ h5 in
    let (h3, create) = append-eq-nil _ _ h4 in
    let (h2, operation) = append-eq-nil _ _ h3 in
    let (markdown, schema) = append-eq-nil _ _ h2 in
    record {
      schema = (==_iff _ 1).0 (require-nil _ _ _ schema);
      identity =
          HasIdentity-checks p.operation p.article.article_id (require-nil _ _ _ create)
            (require-nil _ _ _ update) id;
      slug = require-nil _ _ _ slug;
      aliases = require-nil _ _ _ aliases;
      sections = (
        not-is_empty _ (require-nil _ _ _ nonempty),
        for_index-nil _ (IsCitedSection u) (validate_section-IsCitedSection u) 0 _ sections,
      );
      concepts =
          for_index-nil _ (IsCitedConcept u) (validate_related-IsCitedConcept u) 0 _ concepts;
    }
