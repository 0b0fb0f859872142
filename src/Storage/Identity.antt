-- ===== src/Storage/Identity.antt =====
-- libs/storage/src/concept_identity.cpp: which article a concept title stands for. The rows of the
-- two tables are arguments, in the order of their identifiers; an exception is its message.
pub mod Resolve
pub mod Owner
pub mod Proposal
use wiki.Base.{
  ℕ, ◌≡◌, Bool, true, false, not, ◌&&◌, ◌||◌, Option, none, some, List, [], ◌∷◌, ◌++◌, Bytes,
  Result, ok, err, text, codes, bytes_eq, opt_eq, if◌then◌else◌, map, ◌>>=◌, ◌>>◌, throw_if,
}
use wiki.Domain.Unicode.{Unicode}
use wiki.Domain.Types.{ArticleDescriptor, ArticleProposal, create_article, update_article}
use wiki.Domain.Types
use wiki.Domain.Paths.{components}
use wiki.Domain.Concept.{
  normalize_concept_title, canonical_concept_slug, concept_identity_key, concept_filename,
  validate_concept_filename, fold_unicode_text,
}

pub record IdentityRow : Type 0 where
  pub id : Bytes
  pub title : Bytes
  pub slug : Bytes
  pub applied : Bool
  pub vault_path : Bytes

pub record ConceptTarget : Type 0 where
  pub title : Bytes
  pub slug : Bytes
  pub article_id : Option Bytes
  pub vault_path : Option Bytes
  pub pending_creates : List Bytes

-- A row of `articles`, and an open proposal that creates an article.
pub record ArticleRow : Type 0 where
  pub article_id : Bytes
  pub title : Bytes
  pub slug : Bytes
  pub vault_path : Bytes

pub record CreateRow : Type 0 where
  pub proposal_id : Bytes
  pub title : Bytes
  pub slug : Bytes

pub record Catalog : Type 0 where
  pub articles : List ArticleRow
  pub creates : List CreateRow

unfoldable pub applied_row : ArticleRow → IdentityRow
applied_row a = record {
  id = a.article_id;
  title = a.title;
  slug = a.slug;
  applied = true;
  vault_path = a.vault_path;
}

unfoldable pub pending_row : CreateRow → IdentityRow
pending_row p = record {
  id = p.proposal_id;
  title = p.title;
  slug = p.slug;
  applied = false;
  vault_path = [];
}

-- The articles, and after them the pending creates where they are asked for.
unfoldable pub read_identities : Catalog → Bool → List IdentityRow
read_identities c include_pending =
    map applied_row c.articles ++ (if include_pending then map pending_row c.creates else [])

unfoldable pub has_value : Option Bytes → Bool
has_value none = false
has_value (some id) = true

-- `path.filename()`: the last component
unfoldable pub last_component : List Bytes → Bytes
last_component [] = []
last_component (part ∷ []) = part
last_component (part ∷ next ∷ parts) = last_component (next ∷ parts)

unfoldable pub filename : Bytes → Bytes
filename path = last_component (components path)

-- `ConceptTarget target{.title = …, .slug = …};`
unfoldable pub new_target : Bytes → Bytes → ConceptTarget
new_target title slug = record {
  title = title;
  slug = slug;
  article_id = none;
  vault_path = none;
  pending_creates = [];
}

-- A `ConceptIdentityError`, or the `std::invalid_argument` of a text that does not fold.
pub data DestinationError : Type 0 where
  taken : Bytes → DestinationError
  invalid : Bytes → DestinationError

unfoldable pub folded : Result Bytes Bytes → Result DestinationError Bytes
folded (ok s) = ok s
folded (err message) = err (invalid message)

-- The variables of the first loop.
pub record Search : Type 0 where
  pub target : ConceptTarget
  pub found : Bool

module _ (u : Unicode) where
  -- The body of `if (!found)`
  unfoldable pub adopt : IdentityRow → ConceptTarget → Result Bytes ConceptTarget
  adopt row target =
      let applied : Result Bytes ConceptTarget = (do
        name ← concept_filename u row.title
        validate_concept_filename u (filename row.vault_path)
        ok (record target {
          title = row.title;
          slug = row.slug;
          article_id = some row.id;
          vault_path = some row.vault_path;
        })) in
      let pending : Result Bytes ConceptTarget = (do
        title ← normalize_concept_title u row.title
        slug ← canonical_concept_slug u row.title
        ok (record target { title = title; slug = slug })) in
      if row.applied then applied else pending

  unfoldable pub add_pending : IdentityRow → ConceptTarget → ConceptTarget
  add_pending row target =
      if row.applied
      then target
      else record target { pending_creates = target.pending_creates ++ row.id ∷ [] }

  -- A row that has the key
  unfoldable pub matched : IdentityRow → Search → Result Bytes Search
  matched row s = do
    throw_if (row.applied && has_value s.target.article_id) (
        text "ambiguous Unicode concept identity: '"
        ++ row.title
        ++ text "' identifies multiple stored articles; curate those pages before compiling")
    target ← (if s.found then ok s.target else adopt row s.target)
    ok (record { target = add_pending row target; found = true })

  -- One round of the first loop
  unfoldable pub search_row : Bytes → IdentityRow → Search → Result Bytes Search
  search_row key row s = do
    row_key ← concept_identity_key u row.title
    (if bytes_eq row_key key then matched row s else ok s)

  unfoldable pub search_rows : Bytes → List IdentityRow → Search → Result Bytes Search
  search_rows key [] s = ok s
  search_rows key (row ∷ rows) s = do next ← search_row key row s; search_rows key rows next

  -- One round of the second loop; the key is asked for where the slugs are equal.
  unfoldable pub collides : Bytes → Bytes → IdentityRow → Result Bytes Bool
  collides key slug row =
      let differs : Result Bytes Bool = (do
        row_key ← concept_identity_key u row.title
        ok (not (bytes_eq row_key key))) in
      if bytes_eq row.slug slug then differs else ok false

  unfoldable pub check_slugs : Bytes → ConceptTarget → List IdentityRow → Result Bytes (Unit {0})
  check_slugs key target [] = ok tt
  check_slugs key target (row ∷ rows) = do
    collision ← collides key target.slug row
    throw_if collision (
        text "concept slug collision: '"
        ++ target.title
        ++ text "' and '"
        ++ row.title
        ++ text "' both use '"
        ++ target.slug
        ++ text "'; choose a more specific title or reject the conflicting pending proposal")
    check_slugs key target rows

  unfoldable pub resolve_concept : Catalog → Bytes → Bool → Result Bytes ConceptTarget
  resolve_concept catalog title include_pending = do
    shown ← normalize_concept_title u title
    slug ← canonical_concept_slug u title
    key ← concept_identity_key u title
    s ←
        search_rows key (read_identities catalog include_pending)
          (record { target = new_target shown slug; found = false })
    check_slugs key s.target (read_identities catalog include_pending)
    ok s.target

  -- `row.id != article_id->value`, or there is no `article_id`
  unfoldable pub is_other : Option Bytes → IdentityRow → Bool
  is_other article_id row = not (opt_eq article_id (some row.id))

  unfoldable pub check_destination :
      Bytes → Option Bytes → List IdentityRow → Result DestinationError (Unit {0})
  check_destination key article_id [] = ok tt
  check_destination key article_id (row ∷ rows) = do
    path ← folded (fold_unicode_text u row.vault_path)
    throw_if (bytes_eq path key && is_other article_id row) (
        taken (
          text "concept destination already belongs to '"
          ++ row.title
          ++ text "'; choose a distinct title instead of overwriting a tracked page"))
    check_destination key article_id rows

  unfoldable pub validate_concept_destination :
      Catalog → Bytes → Option Bytes → Result DestinationError (Unit {0})
  validate_concept_destination catalog path article_id = do
    key ← folded (fold_unicode_text u path)
    check_destination key article_id (read_identities catalog false)

  -- The two branches of `resolve_proposal_identity`
  unfoldable pub create_identity :
      ConceptTarget → ArticleDescriptor → Result Bytes ArticleDescriptor
  create_identity target article = do
    throw_if
        (has_value target.article_id
          || has_value article.article_id
          || not (bytes_eq article.title target.title)
          || not (bytes_eq article.slug target.slug))
        (text "create proposal conflicts with canonical concept identity; compile it again")
    ok article

  unfoldable pub update_identity :
      ConceptTarget → ArticleDescriptor → Result Bytes ArticleDescriptor
  update_identity target article = do
    throw_if
        (not (has_value target.article_id)
          || not (opt_eq article.article_id target.article_id)
          || not (bytes_eq article.slug target.slug))
        (text "update proposal does not match its stored concept identity")
    ok (record article { title = target.title; slug = target.slug })

  unfoldable pub match_identity :
      Types.ProposalOperation → ConceptTarget → ArticleDescriptor → Result Bytes ArticleDescriptor
  match_identity create_article target article = create_identity target article
  match_identity update_article target article = update_identity target article

  unfoldable pub resolve_proposal_identity :
      Catalog → ArticleProposal → Result Bytes ArticleDescriptor
  resolve_proposal_identity catalog p = do
    target ← resolve_concept catalog p.article.title false
    match_identity p.operation target p.article
