-- ===== src/Examples/Compilation.antt =====
-- Theorems on the model runner and the compiler at concrete values.
use wiki.Base.{
  ℕ, ◌≡◌, refl, Bool, true, false, none, some, List, [], ◌∷◌, Bytes, codes, text, ok, err, All,
  between, map, if◌then◌else◌,
}
use wiki.Domain.Unicode.{Unicode}
use wiki.Domain.Types.{ProposalOperation, ArticleProposal, Issues}
use wiki.Domain.Sha256.{sha256_text}
use wiki.Domain.Json.{Json, JsonContract, boolean}
use wiki.Domain.Json.Write.{proposal_to_json}
use wiki.Domain.Json.Read.{parse_article_proposal}
use wiki.Models.Runner.{
  ModelRunStatus, LanguageModel, JsonLibrary, Run, RunRow, Recorded, generate_concept,
}
use wiki.Models.Runner.Audit.{Audited, generate_concept-Audited}
use wiki.Compiler.{CompilerErrorKind, CompileOptions}
use wiki.Compiler.Select.{SourceRow, Evidence, Files, Owners, evidence_snapshot, select_evidence}
use wiki.Compiler.Select.Ordered.{Selected, select_evidence-Selected}
use wiki.Compiler.Store.{Store, Slot, proposal_slots}
use wiki.Compiler.Store.Slots.{Distinct, cited, proposal_slots-Distinct}
use wiki.Compiler.Compile.{Services, Failure, fail}
use wiki.Compiler.Publish.{CompileResult, compile}
use wiki.Compiler.Publish.Published.{Published}
use wiki.Compiler.Publish.Failed.{Failed, compile-Failed}
use wiki.Examples.Data.{ascii, page, created, request}

abbrev no_issues : JsonContract → Json → Issues
no_issues contract document = []

-- Every response is the document of the same proposal.
abbrev library : JsonLibrary
library = record {
  parse = λ s. some (proposal_to_json created);
  dump = λ document. [];
  dump_indented = λ document. [];
  proposal_schema = boolean true;
  shape = no_issues;
}

abbrev model : LanguageModel
model = record { provider_name = codes "ollama"; model_name = codes "m"; generate = λ r. some [] }

abbrev run : Run
run = record {
  run_id = codes "run_01ARZ3NDEKTSV4RRFFQ69G5FAV";
  started_at = codes "0";
  completed_at = codes "1";
  database_ok = true;
}

abbrev empty_digest : Bytes
empty_digest = codes "e3b0c44298fc1c149afbf4c8996fb92427ae41e4649b934ca495991b7852b855"

abbrev recorded_row : RunRow
recorded_row = record {
  run_id = run.run_id;
  provider = codes "ollama";
  model = codes "m";
  prompt_version = codes "concept-v2";
  request_sha256 = empty_digest;
  response_json = some (proposal_to_json created);
  status = ModelRunStatus.completed;
  started_at = codes "0";
  completed_at = codes "1";
  error_message = none;
}

abbrev recorded : Recorded
recorded = (
  recorded_row ∷ [],
  record {
    run_id = run.run_id;
    status = ModelRunStatus.completed;
    proposal = some created;
    issues = [];
  },
)

generate_concept-Audited_example : Audited ascii library model run request [] recorded
unfolding generate_concept parse_article_proposal proposal_to_json sha256_text text
    wiki.Base.bytes_eq wiki.Base.find wiki.Base.has_any wiki.Base.starts_with wiki.Base.to_decimal
    wiki.Domain.Concept.Slug.is_slug wiki.Domain.Concept.Slug.slug_next
    wiki.Domain.Concept.Slug.slug_run wiki.Domain.Concept.before_dot
    wiki.Domain.Concept.canonical_concept_slug wiki.Domain.Concept.concept_filename
    wiki.Domain.Concept.concept_identity_key wiki.Domain.Concept.device_suffix
    wiki.Domain.Concept.display_loop wiki.Domain.Concept.display_title
    wiki.Domain.Concept.ends_with_byte wiki.Domain.Concept.hash_loop wiki.Domain.Concept.hex_digit
    wiki.Domain.Concept.hex_loop wiki.Domain.Concept.is_format wiki.Domain.Concept.is_slug_byte
    wiki.Domain.Concept.normalize_concept_title wiki.Domain.Concept.reserved_stem
    wiki.Domain.Concept.reserved_windows_name wiki.Domain.Concept.separate
    wiki.Domain.Concept.slug_loop wiki.Domain.Concept.slug_of_key wiki.Domain.Concept.slug_step
    wiki.Domain.Concept.strip_back wiki.Domain.Concept.symbol_word
    wiki.Domain.Concept.unicode_normalize wiki.Domain.Concept.visit wiki.Domain.Id.crockford_has
    wiki.Domain.Id.front_ok wiki.Domain.Id.is_valid_id wiki.Domain.Json.Read.from_json
    wiki.Domain.Json.Read.get_strings wiki.Domain.Json.Read.key_names
    wiki.Domain.Json.Read.kind_names wiki.Domain.Json.Read.operation_names
    wiki.Domain.Json.Read.parse_article wiki.Domain.Json.Read.parse_block
    wiki.Domain.Json.Read.parse_citation_value wiki.Domain.Json.Read.parse_citations
    wiki.Domain.Json.Read.parse_concept wiki.Domain.Json.Read.parse_section
    wiki.Domain.Json.Read.read_proposal wiki.Domain.Json.Read.string_at
    wiki.Domain.Json.Read.string_if_present wiki.Domain.Json.Read.strings_or_none
    wiki.Domain.Json.Write.article_json wiki.Domain.Json.Write.block_json
    wiki.Domain.Json.Write.citation_json wiki.Domain.Json.Write.concept_json
    wiki.Domain.Json.Write.items wiki.Domain.Json.Write.optional_field
    wiki.Domain.Json.Write.section_json wiki.Domain.Json.all_allowed wiki.Domain.Json.all_present
    wiki.Domain.Json.at wiki.Domain.Json.checked_number wiki.Domain.Json.choose
    wiki.Domain.Json.contains wiki.Domain.Json.field_of wiki.Domain.Json.find_field
    wiki.Domain.Json.found_at wiki.Domain.Json.get_string wiki.Domain.Json.is_some
    wiki.Domain.Json.parse_document wiki.Domain.Json.parse_enum wiki.Domain.Json.parse_items
    wiki.Domain.Json.read_unsigned wiki.Domain.Json.require_array wiki.Domain.Json.require_keys
    wiki.Domain.Json.require_none wiki.Domain.Json.require_object wiki.Domain.Json.type_name
    wiki.Domain.Markdown.check_block wiki.Domain.Markdown.check_citations
    wiki.Domain.Markdown.check_related wiki.Domain.Markdown.check_section
    wiki.Domain.Markdown.check_text wiki.Domain.Markdown.inline_loop
    wiki.Domain.Markdown.inline_text wiki.Domain.Markdown.is_control
    wiki.Domain.Markdown.is_whitespace wiki.Domain.Markdown.validate_markdown
    wiki.Domain.Markdown.validate_plain_text wiki.Domain.Paths.climbs wiki.Domain.Paths.components
    wiki.Domain.Paths.is_absolute wiki.Domain.Paths.is_project_relative wiki.Domain.Sha256.add_words
    wiki.Domain.Sha256.big_endian wiki.Domain.Sha256.digest_digit wiki.Domain.Sha256.digest_word
    wiki.Domain.Sha256.extend wiki.Domain.Sha256.finish wiki.Domain.Sha256.last_blocks
    wiki.Domain.Sha256.length_bytes wiki.Domain.Sha256.next_word wiki.Domain.Sha256.push
    wiki.Domain.Sha256.push_all wiki.Domain.Sha256.rotr wiki.Domain.Sha256.round
    wiki.Domain.Sha256.rounds wiki.Domain.Sha256.transform wiki.Domain.Sha256.transform_all
    wiki.Domain.Sha256.update wiki.Domain.Types.Names.block_to_string
    wiki.Domain.Types.Names.key_to_string wiki.Domain.Types.Names.operation_to_string
    wiki.Domain.Types.Names.status_to_string wiki.Domain.Unicode.is_valid_source_text
    wiki.Domain.Unicode.walk wiki.Domain.Unicode.walk_next wiki.Domain.Validate.all_distinct
    wiki.Domain.Validate.prefixed wiki.Domain.Validate.require wiki.Domain.Validate.validate_block
    wiki.Domain.Validate.validate_citation wiki.Domain.Validate.validate_citations
    wiki.Domain.Validate.validate_page wiki.Domain.Validate.validate_proposal
    wiki.Domain.Validate.validate_related wiki.Domain.Validate.validate_section
    wiki.Domain.Validate.validate_title wiki.Models.Prompt.build_concept_prompt
    wiki.Models.Prompt.citation_prompt wiki.Models.Prompt.page_evidence
    wiki.Models.Prompt.system_prompt wiki.Models.Prompt.target_json wiki.Models.Prompt.task_prompt
    wiki.Models.Prompt.update_prompt wiki.Models.Runner.check_document
    wiki.Models.Runner.check_parsed wiki.Models.Runner.check_response
    wiki.Models.Runner.check_semantics wiki.Models.Runner.escape_error
    wiki.Models.Runner.prompt_version wiki.Models.Runner.record_completed
    wiki.Models.Runner.record_invalid wiki.Models.Runner.record_model_run
    wiki.Models.Runner.redacted_invalid_response wiki.Models.Runner.request_hash
    wiki.Models.Runner.require_request wiki.Models.Validator.check_span
    wiki.Models.Validator.cited_text wiki.Models.Validator.find_page
    wiki.Models.Validator.ground_citation wiki.Models.Validator.ground_citations
    wiki.Models.Validator.ground_related wiki.Models.Validator.ground_section
    wiki.Models.Validator.id_eq wiki.Models.Validator.is_some wiki.Models.Validator.issue_when
    wiki.Models.Validator.operation_eq wiki.Models.Validator.page_issues
    wiki.Models.Validator.response_issues wiki.Models.Validator.status_issues
    wiki.Models.Validator.title_issues wiki.Models.Validator.validate_request
    wiki.Models.Validator.validate_response wiki.Models.Validator.value_or
    wiki.Models.Whitespace.is_space wiki.Models.Whitespace.normalize_loop
    wiki.Models.Whitespace.normalize_whitespace
generate_concept-Audited_example = generate_concept-Audited ascii library model run request [] refl

-- ASCII with its letters as such
abbrev letters : Unicode
letters = record ascii { category = λ x. if between b'a' b'z' x then 2 else 0 }

abbrev files : Files
files = record { is_within = λ owner path. true; content = λ path. some [] }

abbrev owners : Owners
owners = record { files = files; sources = codes "sources"; cache = codes "cache" }

abbrev text_digest : Bytes
text_digest = codes "b7d46a99d8d940d9afa1cd3b939d73eb3635975fcf521bc9f60c86ae11bd3d1a"

abbrev source_row : SourceRow
source_row = record {
  page_id = page.page_id;
  source_version_id = page.source_version_id;
  page_number = 1;
  image_path = none;
  text = page.text;
  text_status = codes "native";
  source_id = codes "src_01ARZ3NDEKTSV4RRFFQ69G5FAV";
  display_name = codes "Leaf";
  evidence_revision = 1;
  text_sha256 = text_digest;
  image_sha256 = none;
  stored_path = codes "sources/leaf.pdf";
  source_sha256 = empty_digest;
  archived = false;
  is_current = true;
  latest_version = true;
}

abbrev options : CompileOptions
options = record { concept_title = codes "Leaf"; source_ids = []; regenerate = false }

select_evidence-Selected_example :
    Selected letters owners (source_row ∷ []) options ((page, evidence_snapshot source_row) ∷ [])
unfolding evidence_snapshot select_evidence sha256_text text wiki.Base.bytes_eq wiki.Base.bytes_lt
    wiki.Base.find wiki.Base.has_any wiki.Base.insert_by wiki.Base.keep_if wiki.Base.sort_by
    wiki.Base.starts_with wiki.Compiler.Relevance.concept_terms
    wiki.Compiler.Relevance.contains_all_terms wiki.Compiler.Relevance.contains_phrase
    wiki.Compiler.Relevance.contains_term_variant wiki.Compiler.Relevance.is_found
    wiki.Compiler.Relevance.meaningful wiki.Compiler.Relevance.normalize_match_text
    wiki.Compiler.Relevance.points wiki.Compiler.Relevance.relevance_score
    wiki.Compiler.Relevance.score_of wiki.Compiler.Relevance.stop_words
    wiki.Compiler.Relevance.text_or_empty wiki.Compiler.Relevance.words
    wiki.Compiler.Select.candidate_of wiki.Compiler.Select.check_candidate
    wiki.Compiler.Select.check_candidates wiki.Compiler.Select.collect
    wiki.Compiler.Select.comes_before wiki.Compiler.Select.consider wiki.Compiler.Select.file_or
    wiki.Compiler.Select.has_match wiki.Compiler.Select.is_model_ready
    wiki.Compiler.Select.is_requested wiki.Compiler.Select.is_selectable
    wiki.Compiler.Select.keep_lexical wiki.Compiler.Select.no_empty_filter
    wiki.Compiler.Select.page_of wiki.Compiler.Select.parse_text_status wiki.Compiler.Select.ranked
    wiki.Compiler.Select.refuse_missing wiki.Compiler.Select.smallest
    wiki.Compiler.Select.text_or_null wiki.Compiler.Select.validate_options
    wiki.Compiler.Select.validate_source_filters wiki.Compiler.Select.verify_image
    wiki.Compiler.Select.verify_retained_file wiki.Compiler.as_compiler_error
    wiki.Domain.Concept.before_dot wiki.Domain.Concept.device_suffix
    wiki.Domain.Concept.display_loop wiki.Domain.Concept.display_title
    wiki.Domain.Concept.ends_with_byte wiki.Domain.Concept.is_format
    wiki.Domain.Concept.lexical_loop wiki.Domain.Concept.normalize_concept_title
    wiki.Domain.Concept.normalize_lexical_text wiki.Domain.Concept.reserved_stem
    wiki.Domain.Concept.reserved_windows_name wiki.Domain.Concept.strip_back
    wiki.Domain.Concept.symbol_word wiki.Domain.Concept.unicode_normalize
    wiki.Domain.Sha256.add_words wiki.Domain.Sha256.big_endian wiki.Domain.Sha256.digest_digit
    wiki.Domain.Sha256.digest_word wiki.Domain.Sha256.extend wiki.Domain.Sha256.finish
    wiki.Domain.Sha256.last_blocks wiki.Domain.Sha256.length_bytes wiki.Domain.Sha256.next_word
    wiki.Domain.Sha256.push wiki.Domain.Sha256.push_all wiki.Domain.Sha256.rotr
    wiki.Domain.Sha256.round wiki.Domain.Sha256.rounds wiki.Domain.Sha256.transform
    wiki.Domain.Sha256.transform_all wiki.Domain.Sha256.update
    wiki.Domain.Unicode.is_valid_source_text wiki.Domain.Unicode.walk wiki.Domain.Unicode.walk_next
    wiki.Models.Whitespace.is_space
select_evidence-Selected_example =
    select_evidence-Selected letters owners [] (source_row ∷ []) options refl

abbrev services : Services
services = record {
  json = library;
  model = model;
  owners = owners;
  vault = codes "wiki";
  load_base = λ id. err (codes "none");
  cited_pages = λ run_id. [];
  run = run;
  proposal_id = codes "prop_01ARZ3NDEKTSV4RRFFQ69G5FAV";
  now = codes "2";
  mark_ok = true;
  publish_ok = true;
}

abbrev before : Store
before = record {
  runs = [];
  active_sources = [];
  sources = source_row ∷ [];
  articles = [];
  proposals = [];
  bases = [];
  evidence = [];
  citations = [];
}

abbrev compiled : CompileResult
compiled = record {
  proposal_id = services.proposal_id;
  model_run_id = run.run_id;
  operation = ProposalOperation.create_article;
  article_id = none;
  selected_page_count = 1;
}

abbrev after : Store
after = record before {
  runs = recorded_row ∷ [];
  proposals =
      record {
        proposal_id = services.proposal_id;
        article_id = none;
        model_run_id = run.run_id;
        operation = codes "create_article";
        payload = proposal_to_json created;
        status = codes "pending";
        created_at = codes "2";
      }
      ∷ [];
  evidence =
      record {
        proposal_id = services.proposal_id;
        page_id = page.page_id;
        evidence_revision = 1;
        text_sha256 = text_digest;
        image_sha256 = none;
        source_sha256 = empty_digest;
      }
      ∷ [];
  citations =
      record {
        proposal_id = services.proposal_id;
        section_key = codes "key_ideas";
        block_index = 0;
        page_id = page.page_id;
        start_char = 2;
        end_char = 15;
        quote = codes "leaf is green";
      }
      ∷ [];
}

-- The model cannot be reached.
abbrev unreachable : Services
unreachable = record services { model = record model { generate = λ r. none } }

abbrev failed_row : RunRow
failed_row = record recorded_row {
  response_json = none;
  status = ModelRunStatus.failed;
  error_message = some (codes "local model request failed");
}

compile-Failed_example :
    Failed letters unreachable before (record before { runs = failed_row ∷ [] })
unfolding compile evidence_snapshot fail generate_concept select_evidence sha256_text text
    wiki.Base.bytes_eq wiki.Base.find wiki.Base.has_any wiki.Base.insert_by wiki.Base.keep_if
    wiki.Base.sort_by wiki.Base.starts_with wiki.Compiler.Compile.base_of
    wiki.Compiler.Compile.check_destination wiki.Compiler.Compile.escaping
    wiki.Compiler.Compile.find_article_target wiki.Compiler.Compile.first_issue
    wiki.Compiler.Compile.of_destination wiki.Compiler.Compile.of_model
    wiki.Compiler.Compile.operation_for wiki.Compiler.Compile.pages_of wiki.Compiler.Compile.prepare
    wiki.Compiler.Compile.request_for wiki.Compiler.Compile.rethrow wiki.Compiler.Compile.throwing
    wiki.Compiler.Publish.answered wiki.Compiler.Publish.asked wiki.Compiler.Publish.model_failed
    wiki.Compiler.Publish.prepared_compile wiki.Compiler.Publish.proposal_of
    wiki.Compiler.Publish.refuse wiki.Compiler.Publish.refuse_with wiki.Compiler.Publish.respond
    wiki.Compiler.Relevance.concept_terms wiki.Compiler.Relevance.contains_all_terms
    wiki.Compiler.Relevance.contains_phrase wiki.Compiler.Relevance.contains_term_variant
    wiki.Compiler.Relevance.is_found wiki.Compiler.Relevance.meaningful
    wiki.Compiler.Relevance.normalize_match_text wiki.Compiler.Relevance.points
    wiki.Compiler.Relevance.relevance_score wiki.Compiler.Relevance.score_of
    wiki.Compiler.Relevance.stop_words wiki.Compiler.Relevance.text_or_empty
    wiki.Compiler.Relevance.words wiki.Compiler.Select.candidate_of
    wiki.Compiler.Select.check_candidate wiki.Compiler.Select.check_candidates
    wiki.Compiler.Select.collect wiki.Compiler.Select.consider wiki.Compiler.Select.file_or
    wiki.Compiler.Select.has_match wiki.Compiler.Select.is_model_ready
    wiki.Compiler.Select.is_requested wiki.Compiler.Select.is_selectable
    wiki.Compiler.Select.keep_lexical wiki.Compiler.Select.no_empty_filter
    wiki.Compiler.Select.page_of wiki.Compiler.Select.parse_text_status wiki.Compiler.Select.ranked
    wiki.Compiler.Select.refuse_missing wiki.Compiler.Select.validate_options
    wiki.Compiler.Select.validate_source_filters wiki.Compiler.Select.verify_image
    wiki.Compiler.Select.verify_retained_file wiki.Compiler.Store.catalog
    wiki.Compiler.as_compiler_error wiki.Domain.Concept.Slug.is_slug
    wiki.Domain.Concept.Slug.slug_next wiki.Domain.Concept.Slug.slug_run
    wiki.Domain.Concept.before_dot wiki.Domain.Concept.canonical_concept_slug
    wiki.Domain.Concept.concept_filename wiki.Domain.Concept.concept_identity_key
    wiki.Domain.Concept.display_loop wiki.Domain.Concept.display_title
    wiki.Domain.Concept.ends_with_byte wiki.Domain.Concept.fold_unicode_text
    wiki.Domain.Concept.is_format wiki.Domain.Concept.is_slug_byte wiki.Domain.Concept.lexical_loop
    wiki.Domain.Concept.normalize_concept_title wiki.Domain.Concept.normalize_lexical_text
    wiki.Domain.Concept.reserved_stem wiki.Domain.Concept.reserved_windows_name
    wiki.Domain.Concept.slug_loop wiki.Domain.Concept.slug_of_key wiki.Domain.Concept.slug_step
    wiki.Domain.Concept.strip_back wiki.Domain.Concept.symbol_word
    wiki.Domain.Concept.unicode_normalize wiki.Domain.Concept.visit wiki.Domain.Id.crockford_has
    wiki.Domain.Id.front_ok wiki.Domain.Id.is_valid_id wiki.Domain.Sha256.add_words
    wiki.Domain.Sha256.big_endian wiki.Domain.Sha256.digest_digit wiki.Domain.Sha256.digest_word
    wiki.Domain.Sha256.extend wiki.Domain.Sha256.finish wiki.Domain.Sha256.last_blocks
    wiki.Domain.Sha256.length_bytes wiki.Domain.Sha256.next_word wiki.Domain.Sha256.push
    wiki.Domain.Sha256.push_all wiki.Domain.Sha256.rotr wiki.Domain.Sha256.round
    wiki.Domain.Sha256.rounds wiki.Domain.Sha256.transform wiki.Domain.Sha256.transform_all
    wiki.Domain.Sha256.update wiki.Domain.Types.Names.operation_to_string
    wiki.Domain.Types.Names.status_to_string wiki.Domain.Unicode.is_valid_source_text
    wiki.Domain.Unicode.walk wiki.Domain.Validate.prefixed wiki.Domain.Validate.require
    wiki.Domain.Validate.validate_page wiki.Models.Prompt.build_concept_prompt
    wiki.Models.Runner.check_response wiki.Models.Runner.escape_error
    wiki.Models.Runner.prompt_version wiki.Models.Runner.record_model_run
    wiki.Models.Runner.request_hash wiki.Models.Runner.require_request wiki.Models.Validator.is_some
    wiki.Models.Validator.issue_when wiki.Models.Validator.operation_eq
    wiki.Models.Validator.page_issues wiki.Models.Validator.status_issues
    wiki.Models.Validator.title_issues wiki.Models.Validator.validate_request
    wiki.Models.Whitespace.is_space wiki.Storage.Identity.check_destination
    wiki.Storage.Identity.check_slugs wiki.Storage.Identity.folded wiki.Storage.Identity.new_target
    wiki.Storage.Identity.read_identities wiki.Storage.Identity.resolve_concept
    wiki.Storage.Identity.search_rows wiki.Storage.Identity.validate_concept_destination
compile-Failed_example =
    compile-Failed letters unreachable before (record before { runs = failed_row ∷ [] }) options
      (fail CompilerErrorKind.model_failed (codes "/: local model request failed")) refl

proposal_slots-Distinct_example :
    Distinct (proposal_slots created)
    × (map (λ (a : Slot). a.citations) (proposal_slots created)
        ≡ cited created.sections created.related_concepts)
proposal_slots-Distinct_example = proposal_slots-Distinct created
