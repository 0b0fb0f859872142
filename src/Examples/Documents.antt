-- ===== src/Examples/Documents.antt =====
-- Theorems on documents, searches and concept identities at concrete values.
use wiki.Base.{
  ℕ, ◌+◌, ◌≤◌, ◌≡◌, refl, Bool, true, false, none, some, List, [], ◌∷◌, Bytes, codes, text, ok, All,
  arith, length, length-take, take, zero, suc,
}
use wiki.Domain.Types.{
  SourceKind, ProjectConfig, ArticleProposal, ProposalOperation, ExtractedPage, Issues,
}
use wiki.Domain.Json.{Json, JsonContract, ParseResult}
use wiki.Domain.Json.Write.{proposal_to_json, page_to_json, config_to_json}
use wiki.Domain.Json.Read.{
  parse_article_proposal, parse_extracted_page, parse_project_config, proposal_keys,
}
use wiki.Domain.Json.RoundTrip.{accepted, parse_article_proposal-proposal_to_json}
use wiki.Domain.Json.Accepts.{HasKeys, parse_article_proposal-Accepts}
use wiki.Domain.Validate.{validate_proposal}
use wiki.Domain.Validate.Proposals.{IsProposal}
use wiki.Storage.Identity.{Catalog, ArticleRow, CreateRow, read_identities}
use wiki.Storage.Identity.Owner.{Resolves, resolve_concept-Resolves}
use wiki.Storage.Identity.Proposal.{
  Identified, Free, resolve_proposal_identity-Identified, validate_concept_destination-Free,
}
use wiki.Search.{SearchResult, Index, search, literal_fts_query}
use wiki.Search.Query.{IsTerm, conjunction, concat, term_bytes, literal_fts_query_lem}
use wiki.Search.Results.{Within, search-Within}
use wiki.Vault.Render.{SourceReference}
use wiki.Vault.Render.Sources.{Sourced, render_managed_content-Sourced}
use wiki.Examples.Data.{ascii, block, created, updated, article_id}

abbrev no_issues : JsonContract → Json → Issues
no_issues contract document = []

parse_article_proposal-proposal_to_json_example :
    parse_article_proposal ascii no_issues (proposal_to_json created) ≡ accepted created
unfolding text validate_proposal wiki.Base.bytes_eq wiki.Base.find wiki.Base.has_any
    wiki.Base.starts_with wiki.Base.to_decimal wiki.Domain.Concept.Slug.is_slug
    wiki.Domain.Concept.Slug.slug_next wiki.Domain.Concept.Slug.slug_run
    wiki.Domain.Concept.before_dot wiki.Domain.Concept.concept_filename
    wiki.Domain.Concept.device_suffix wiki.Domain.Concept.display_loop
    wiki.Domain.Concept.display_title wiki.Domain.Concept.ends_with_byte
    wiki.Domain.Concept.is_format wiki.Domain.Concept.is_slug_byte
    wiki.Domain.Concept.normalize_concept_title wiki.Domain.Concept.reserved_stem
    wiki.Domain.Concept.reserved_windows_name wiki.Domain.Concept.strip_back
    wiki.Domain.Concept.unicode_normalize wiki.Domain.Concept.visit wiki.Domain.Id.crockford_has
    wiki.Domain.Id.front_ok wiki.Domain.Id.is_valid_id wiki.Domain.Markdown.check_block
    wiki.Domain.Markdown.check_citations wiki.Domain.Markdown.check_related
    wiki.Domain.Markdown.check_section wiki.Domain.Markdown.check_text
    wiki.Domain.Markdown.inline_loop wiki.Domain.Markdown.inline_text
    wiki.Domain.Markdown.is_control wiki.Domain.Markdown.is_whitespace
    wiki.Domain.Markdown.validate_markdown wiki.Domain.Markdown.validate_plain_text
    wiki.Domain.Types.Names.block_to_string wiki.Domain.Types.Names.key_to_string
    wiki.Domain.Types.Names.operation_to_string wiki.Domain.Unicode.walk
    wiki.Domain.Unicode.walk_next wiki.Domain.Validate.all_distinct wiki.Domain.Validate.prefixed
    wiki.Domain.Validate.require wiki.Domain.Validate.validate_block
    wiki.Domain.Validate.validate_citation wiki.Domain.Validate.validate_citations
    wiki.Domain.Validate.validate_related wiki.Domain.Validate.validate_section
    wiki.Domain.Validate.validate_title
parse_article_proposal-proposal_to_json_example =
    parse_article_proposal-proposal_to_json ascii no_issues created refl refl

parse_article_proposal-Accepts_example :
    ((parse_article_proposal ascii no_issues (proposal_to_json created)).issues ≡ [])
    × (no_issues JsonContract.article_proposal (proposal_to_json created) ≡ [])
    × HasKeys (proposal_to_json created) proposal_keys []
    × (validate_proposal ascii created ≡ [])
    × IsProposal ascii created
unfolding parse_article_proposal proposal_to_json text validate_proposal wiki.Base.bytes_eq
    wiki.Base.find wiki.Base.has_any wiki.Base.starts_with wiki.Base.to_decimal
    wiki.Domain.Concept.Slug.is_slug wiki.Domain.Concept.Slug.slug_next
    wiki.Domain.Concept.Slug.slug_run wiki.Domain.Concept.before_dot
    wiki.Domain.Concept.concept_filename wiki.Domain.Concept.device_suffix
    wiki.Domain.Concept.display_loop wiki.Domain.Concept.display_title
    wiki.Domain.Concept.ends_with_byte wiki.Domain.Concept.is_format
    wiki.Domain.Concept.is_slug_byte wiki.Domain.Concept.normalize_concept_title
    wiki.Domain.Concept.reserved_stem wiki.Domain.Concept.reserved_windows_name
    wiki.Domain.Concept.strip_back wiki.Domain.Concept.unicode_normalize wiki.Domain.Concept.visit
    wiki.Domain.Id.crockford_has wiki.Domain.Id.front_ok wiki.Domain.Id.is_valid_id
    wiki.Domain.Json.Read.from_json wiki.Domain.Json.Read.get_strings
    wiki.Domain.Json.Read.key_names wiki.Domain.Json.Read.kind_names
    wiki.Domain.Json.Read.operation_names wiki.Domain.Json.Read.parse_article
    wiki.Domain.Json.Read.parse_block wiki.Domain.Json.Read.parse_citation_value
    wiki.Domain.Json.Read.parse_citations wiki.Domain.Json.Read.parse_concept
    wiki.Domain.Json.Read.parse_section wiki.Domain.Json.Read.read_proposal
    wiki.Domain.Json.Read.string_at wiki.Domain.Json.Read.string_if_present
    wiki.Domain.Json.Read.strings_or_none wiki.Domain.Json.Write.article_json
    wiki.Domain.Json.Write.block_json wiki.Domain.Json.Write.citation_json
    wiki.Domain.Json.Write.concept_json wiki.Domain.Json.Write.items
    wiki.Domain.Json.Write.optional_field wiki.Domain.Json.Write.section_json
    wiki.Domain.Json.all_allowed wiki.Domain.Json.all_present wiki.Domain.Json.at
    wiki.Domain.Json.checked_number wiki.Domain.Json.choose wiki.Domain.Json.contains
    wiki.Domain.Json.field_of wiki.Domain.Json.find_field wiki.Domain.Json.found_at
    wiki.Domain.Json.get_string wiki.Domain.Json.is_some wiki.Domain.Json.parse_document
    wiki.Domain.Json.parse_enum wiki.Domain.Json.parse_items wiki.Domain.Json.read_unsigned
    wiki.Domain.Json.require_array wiki.Domain.Json.require_keys wiki.Domain.Json.require_none
    wiki.Domain.Json.require_object wiki.Domain.Json.type_name wiki.Domain.Markdown.check_block
    wiki.Domain.Markdown.check_citations wiki.Domain.Markdown.check_related
    wiki.Domain.Markdown.check_section wiki.Domain.Markdown.check_text
    wiki.Domain.Markdown.inline_loop wiki.Domain.Markdown.inline_text
    wiki.Domain.Markdown.is_control wiki.Domain.Markdown.is_whitespace
    wiki.Domain.Markdown.validate_markdown wiki.Domain.Markdown.validate_plain_text
    wiki.Domain.Types.Names.block_to_string wiki.Domain.Types.Names.key_to_string
    wiki.Domain.Types.Names.operation_to_string wiki.Domain.Unicode.walk
    wiki.Domain.Unicode.walk_next wiki.Domain.Validate.all_distinct wiki.Domain.Validate.prefixed
    wiki.Domain.Validate.require wiki.Domain.Validate.validate_block
    wiki.Domain.Validate.validate_citation wiki.Domain.Validate.validate_citations
    wiki.Domain.Validate.validate_related wiki.Domain.Validate.validate_section
    wiki.Domain.Validate.validate_title
parse_article_proposal-Accepts_example =
    parse_article_proposal-Accepts ascii no_issues (proposal_to_json created) created refl

abbrev leaf_article : ArticleRow
leaf_article = record {
  article_id = article_id;
  title = codes "Leaf";
  slug = codes "leaf";
  vault_path = codes "wiki/Leaf.md";
}

abbrev tree_create : CreateRow
tree_create = record {
  proposal_id = codes "prop_01ARZ3NDEKTSV4RRFFQ69G5FAV";
  title = codes "Tree";
  slug = codes "tree";
}

abbrev articles : Catalog
articles = record { articles = leaf_article ∷ []; creates = tree_create ∷ [] }

resolve_concept-Resolves_example :
    Resolves ascii articles true (codes "leaf") (codes "leaf") (record {
      title = codes "Leaf";
      slug = codes "leaf";
      article_id = some article_id;
      vault_path = some (codes "wiki/Leaf.md");
      pending_creates = [];
    })
unfolding read_identities text wiki.Base.bytes_eq wiki.Base.has_any wiki.Base.starts_with
    wiki.Domain.Concept.before_dot wiki.Domain.Concept.canonical_concept_slug
    wiki.Domain.Concept.concept_filename wiki.Domain.Concept.concept_identity_key
    wiki.Domain.Concept.device_suffix wiki.Domain.Concept.display_loop
    wiki.Domain.Concept.display_title wiki.Domain.Concept.ends_with_byte
    wiki.Domain.Concept.hash_loop wiki.Domain.Concept.hex_digit wiki.Domain.Concept.hex_loop
    wiki.Domain.Concept.is_format wiki.Domain.Concept.is_slug_byte
    wiki.Domain.Concept.normalize_concept_title wiki.Domain.Concept.reserved_stem
    wiki.Domain.Concept.reserved_windows_name wiki.Domain.Concept.separate
    wiki.Domain.Concept.slug_loop wiki.Domain.Concept.slug_of_key wiki.Domain.Concept.slug_step
    wiki.Domain.Concept.strip_back wiki.Domain.Concept.symbol_word
    wiki.Domain.Concept.unicode_normalize wiki.Domain.Concept.validate_concept_filename
    wiki.Domain.Concept.visit wiki.Domain.Paths.components wiki.Domain.Unicode.walk
    wiki.Domain.Unicode.walk_next wiki.Storage.Identity.add_pending wiki.Storage.Identity.adopt
    wiki.Storage.Identity.applied_row wiki.Storage.Identity.check_slugs
    wiki.Storage.Identity.collides wiki.Storage.Identity.filename wiki.Storage.Identity.has_value
    wiki.Storage.Identity.last_component wiki.Storage.Identity.matched
    wiki.Storage.Identity.new_target wiki.Storage.Identity.pending_row
    wiki.Storage.Identity.resolve_concept wiki.Storage.Identity.search_row
    wiki.Storage.Identity.search_rows
resolve_concept-Resolves_example =
    resolve_concept-Resolves ascii articles (codes "leaf") true (codes "leaf") refl refl

resolve_proposal_identity-Identified_example :
    Identified ascii articles ProposalOperation.update_article
      (codes "leaf")
      (updated (block ∷ [])).article
      (updated (block ∷ [])).article
unfolding read_identities text wiki.Base.bytes_eq wiki.Base.has_any wiki.Base.opt_eq
    wiki.Base.starts_with wiki.Domain.Concept.before_dot wiki.Domain.Concept.canonical_concept_slug
    wiki.Domain.Concept.concept_filename wiki.Domain.Concept.concept_identity_key
    wiki.Domain.Concept.device_suffix wiki.Domain.Concept.display_loop
    wiki.Domain.Concept.display_title wiki.Domain.Concept.ends_with_byte
    wiki.Domain.Concept.hash_loop wiki.Domain.Concept.hex_digit wiki.Domain.Concept.hex_loop
    wiki.Domain.Concept.is_format wiki.Domain.Concept.is_slug_byte
    wiki.Domain.Concept.normalize_concept_title wiki.Domain.Concept.reserved_stem
    wiki.Domain.Concept.reserved_windows_name wiki.Domain.Concept.separate
    wiki.Domain.Concept.slug_loop wiki.Domain.Concept.slug_of_key wiki.Domain.Concept.slug_step
    wiki.Domain.Concept.strip_back wiki.Domain.Concept.symbol_word
    wiki.Domain.Concept.unicode_normalize wiki.Domain.Concept.validate_concept_filename
    wiki.Domain.Concept.visit wiki.Domain.Paths.components wiki.Domain.Unicode.walk
    wiki.Domain.Unicode.walk_next wiki.Storage.Identity.add_pending wiki.Storage.Identity.adopt
    wiki.Storage.Identity.applied_row wiki.Storage.Identity.check_slugs
    wiki.Storage.Identity.collides wiki.Storage.Identity.create_identity
    wiki.Storage.Identity.filename wiki.Storage.Identity.has_value
    wiki.Storage.Identity.last_component wiki.Storage.Identity.match_identity
    wiki.Storage.Identity.matched wiki.Storage.Identity.new_target wiki.Storage.Identity.pending_row
    wiki.Storage.Identity.resolve_concept wiki.Storage.Identity.resolve_proposal_identity
    wiki.Storage.Identity.search_row wiki.Storage.Identity.search_rows
    wiki.Storage.Identity.update_identity
resolve_proposal_identity-Identified_example =
    resolve_proposal_identity-Identified ascii articles (updated (block ∷ [])) (codes "leaf") refl
      refl

validate_concept_destination-Free_example :
    Free ascii (codes "wiki/tree.md") none (read_identities articles false)
unfolding read_identities wiki.Base.bytes_eq wiki.Domain.Concept.fold_unicode_text
    wiki.Domain.Concept.unicode_normalize wiki.Storage.Identity.applied_row
    wiki.Storage.Identity.check_destination wiki.Storage.Identity.folded
    wiki.Storage.Identity.validate_concept_destination
validate_concept_destination-Free_example =
    validate_concept_destination-Free ascii articles (codes "wiki/Tree.md") none
      (codes "wiki/tree.md") refl refl

literal_fts_query_lem_example :
    (terms : List Bytes) × (codes "\"green\" AND \"leaf\"" ≡ conjunction terms)
    × All IsTerm terms
    × (concat terms ≡ term_bytes (codes "green \"leaf"))
unfolding conjunction literal_fts_query term_bytes text wiki.Domain.Concept.fold_unicode_text
    wiki.Domain.Concept.unicode_normalize wiki.Search.express wiki.Search.is_term_byte
    wiki.Search.quoted wiki.Search.term_loop
literal_fts_query_lem_example =
    literal_fts_query_lem ascii (codes "Green \"Leaf") (codes "green \"leaf")
      {expression = codes "\"green\" AND \"leaf\""} refl refl

abbrev found : SearchResult ℕ
found = record {
  article_id = article_id;
  title = codes "Leaf";
  vault_path = codes "wiki/Leaf.md";
  excerpt = codes "green";
  relevance = 7;
}

at_most : (n : ℕ) → length (take n (found ∷ [])) ≤ n
at_most zero = omega arith
at_most (suc n) = rw (length-take n []) omega arith

abbrev index : Index ℕ
index = record {
  zero_score = 0;
  matching = λ expression wanted limit. take limit (found ∷ []);
  articles = found ∷ [];
  matching-length = λ expression wanted limit. at_most limit;
}

search-Within_example : (1 ≤ 5) × (5 ≤ 100) × Within 5 (found ∷ [])
unfolding literal_fts_query search text wiki.Base.bytes_eq wiki.Domain.Concept.concept_identity_key
    wiki.Domain.Concept.display_loop wiki.Domain.Concept.display_title
    wiki.Domain.Concept.fold_unicode_text wiki.Domain.Concept.is_format
    wiki.Domain.Concept.unicode_normalize wiki.Domain.Paths.climbs wiki.Domain.Paths.is_absolute
    wiki.Domain.Unicode.walk wiki.Search.as_error wiki.Search.check_paths wiki.Search.exact_loop
    wiki.Search.exact_row wiki.Search.express wiki.Search.extract wiki.Search.is_found
    wiki.Search.is_safe_relative wiki.Search.is_term_byte wiki.Search.promote wiki.Search.quoted
    wiki.Search.take_exact wiki.Search.term_loop wiki.Search.with_key
search-Within_example = search-Within ascii index (codes "leaf") 5 refl

abbrev source : SourceReference
source = record {
  source_kind = SourceKind.pdf;
  display_name = codes "Leaf";
  page_number = 3;
  vault_source_path = codes "Sources/leaf.pdf";
}

render_managed_content-Sourced_example :
    Sourced ascii
      (λ id. some source)
      created
      (codes
        "## Key ideas\n\nLeaves [^pg_01ARZ3NDEKTSV4RRFFQ69G5FAV]\n\n## Related concepts\n\n\n## Sources\n\n[^pg_01ARZ3NDEKTSV4RRFFQ69G5FAV]: [Leaf, p. 3](Sources/leaf.pdf#page=3)")
unfolding text wiki.Base.bytes_eq wiki.Base.bytes_lt wiki.Base.to_decimal
    wiki.Domain.Markdown.escape wiki.Domain.Markdown.inline_loop wiki.Domain.Markdown.inline_text
    wiki.Domain.Markdown.is_control wiki.Domain.Markdown.is_punctuation
    wiki.Domain.Markdown.is_whitespace wiki.Domain.Markdown.markdown_literal
    wiki.Domain.Unicode.walk wiki.Domain.Unicode.walk_next wiki.Vault.Render.citation_references
    wiki.Vault.Render.em_dash wiki.Vault.Render.insert_blocks wiki.Vault.Render.insert_citations
    wiki.Vault.Render.insert_concepts wiki.Vault.Render.insert_sections wiki.Vault.Render.is_bullet
    wiki.Vault.Render.is_pdf wiki.Vault.Render.is_related wiki.Vault.Render.ordered_page_ids
    wiki.Vault.Render.references_from wiki.Vault.Render.render_block wiki.Vault.Render.render_blocks
    wiki.Vault.Render.render_found wiki.Vault.Render.render_managed_content
    wiki.Vault.Render.render_missing wiki.Vault.Render.render_reason
    wiki.Vault.Render.render_related wiki.Vault.Render.render_sections
    wiki.Vault.Render.render_sources wiki.Vault.Render.section_concepts wiki.Vault.Render.set_insert
    wiki.Vault.Render.strip_newlines wiki.Vault.Url.encode_markdown_url wiki.Vault.Url.is_plain
render_managed_content-Sourced_example =
    render_managed_content-Sourced ascii (λ id. some source) created refl
