-- ===== src/Domain/Json/Read.antt =====
-- The `from_json` family of libs/domain/src/json.cpp and the `parse_…` functions over it. The
-- schema check `validate_json_shape` is the argument `shape`.
use wiki.Base.{
  ℕ, ◌^◌, ◌-◌, Option, none, some, List, [], ◌∷◌, ◌++◌, Bytes, Result, ok, err, text, to_decimal,
  ◌>>=◌, ◌>>◌,
}
use wiki.Domain.Unicode.{Unicode}
use wiki.Domain.Types.{
  TextStatus, ProposalOperation, SectionKey, BlockKind, ProjectConfig, ExtractedPage, Citation,
  ProposalBlock, ProposalSection, RelatedConcept, ArticleDescriptor, ArticleProposal, Issues,
}
use wiki.Domain.Json.{
  Json, Items, Thrown, message, JsonContract, ParseResult, array, type_name, get_string, field_of,
  at, require_none, read_unsigned, require_keys, parse_enum, parse_path, require_array, parse_items,
  parse_document,
}
use wiki.Domain.Validate.{
  validate_config, validate_page, validate_citation, validate_proposal, max_citation_end,
  max_citation_start, max_timeout_seconds,
}

abbrev pub uint32_max : ℕ
uint32_max = 2 ^ 32 - 1

abbrev pub size_max : ℕ
size_max = 2 ^ 64 - 1

-- `document.at(key).get<std::string>()`
unfoldable pub string_at : Json → Bytes → Result Thrown Bytes
unfolding at get_string
string_at document key = do value ← at document key; get_string value

unfoldable pub parse_citation_value : Bytes → Json → Result Thrown Citation
parse_citation_value path document = do
  require_keys document (text "page_id" ∷ text "start_char" ∷ text "end_char" ∷ text "quote" ∷ [])
      [] path
  page_id ← string_at document (text "page_id")
  start ← at document (text "start_char")
  start_char ← read_unsigned size_max start (path ++ text "/start_char") max_citation_start
  stop ← at document (text "end_char")
  end_char ← read_unsigned size_max stop (path ++ text "/end_char") max_citation_end
  quote ← string_at document (text "quote")
  ok (record { page_id = page_id; start_char = start_char; end_char = end_char; quote = quote })

unfoldable pub parse_citations : Bytes → Items → Result Thrown (List Citation)
parse_citations path =
    parse_items (λ x index. parse_citation_value (path ++ text "/citations/" ++ to_decimal index) x)
      0

unfoldable pub kind_names : List (Bytes × BlockKind)
kind_names = (text "paragraph", BlockKind.paragraph) ∷ (text "bullet", BlockKind.bullet) ∷ []

unfoldable pub key_names : List (Bytes × SectionKey)
key_names =
    (text "working_explanation", SectionKey.working_explanation)
    ∷ (text "key_ideas", SectionKey.key_ideas)
    ∷ (text "example", SectionKey.example)
    ∷ (text "related_concepts", SectionKey.related_concepts)
    ∷ []

unfoldable pub operation_names : List (Bytes × ProposalOperation)
operation_names =
    (text "create_article", ProposalOperation.create_article)
    ∷ (text "update_article", ProposalOperation.update_article)
    ∷ []

unfoldable pub status_names : List (Bytes × TextStatus)
status_names =
    (text "native", TextStatus.native)
    ∷ (text "ocr_unreviewed", TextStatus.ocr_unreviewed)
    ∷ (text "reviewed", TextStatus.reviewed)
    ∷ (text "failed", TextStatus.failed)
    ∷ []

unfoldable pub parse_block : Bytes → Json → Result Thrown ProposalBlock
parse_block path document = do
  require_keys document (text "kind" ∷ text "text" ∷ text "citations" ∷ []) [] path
  name ← at document (text "kind")
  kind ← parse_enum name kind_names (path ++ text "/kind")
  words ← string_at document (text "text")
  list ← at document (text "citations")
  items ← require_array list (path ++ text "/citations")
  citations ← parse_citations path items
  ok (record { kind = kind; text = words; citations = citations })

unfoldable pub parse_section : Json → ℕ → Result Thrown ProposalSection
parse_section document index = do
  let path = text "/sections/" ++ to_decimal index
  require_keys document (text "key" ∷ text "heading" ∷ text "blocks" ∷ []) [] path
  name ← at document (text "key")
  key ← parse_enum name key_names (path ++ text "/key")
  heading ← string_at document (text "heading")
  list ← at document (text "blocks")
  items ← require_array list (path ++ text "/blocks")
  blocks ← parse_items (λ x i. parse_block (path ++ text "/blocks/" ++ to_decimal i) x) 0 items
  ok (record { key = key; heading = heading; blocks = blocks })

unfoldable pub parse_concept : Json → ℕ → Result Thrown RelatedConcept
parse_concept document index = do
  let path = text "/related_concepts/" ++ to_decimal index
  require_keys document (text "title" ∷ text "reason" ∷ text "citations" ∷ []) [] path
  title ← string_at document (text "title")
  reason ← string_at document (text "reason")
  list ← at document (text "citations")
  items ← require_array list (path ++ text "/citations")
  citations ← parse_citations path items
  ok (record { title = title; reason = reason; citations = citations })

-- `get<std::vector<std::string>>()`
unfoldable pub get_strings : Json → Result Thrown (List Bytes)
get_strings (array xs) = parse_items (λ x index. get_string x) 0 xs
get_strings document = err (
    message
      (text "[json.exception.type_error.302] type must be array, but is " ++ type_name document))

-- `article.value("aliases", {})`
unfoldable pub strings_or_none : Option Json → Result Thrown (List Bytes)
strings_or_none none = ok []
strings_or_none (some value) = get_strings value

unfoldable pub string_if_present : Option Json → Result Thrown (Option Bytes)
string_if_present none = ok none
string_if_present (some value) = do id ← get_string value; ok (some id)

unfoldable pub parse_article : Json → Result Thrown ArticleDescriptor
parse_article article = do
  require_keys article (text "title" ∷ text "slug" ∷ []) (text "article_id" ∷ text "aliases" ∷ [])
      (text "/article")
  article_id ← string_if_present (field_of article (text "article_id"))
  title ← string_at article (text "title")
  slug ← string_at article (text "slug")
  aliases ← strings_or_none (field_of article (text "aliases"))
  ok (record { article_id = article_id; title = title; slug = slug; aliases = aliases })

abbrev pub proposal_keys : List Bytes
proposal_keys =
    text "schema_version"
    ∷ text "operation"
    ∷ text "article"
    ∷ text "sections"
    ∷ text "related_concepts"
    ∷ []

-- What `from_json` reads before it asks for the semantics.
unfoldable pub read_proposal : Json → Result Thrown ArticleProposal
read_proposal document = do
  require_keys document proposal_keys [] []
  version ← at document (text "schema_version")
  schema_version ← read_unsigned uint32_max version (text "/schema_version") 1
  name ← at document (text "operation")
  operation ← parse_enum name operation_names (text "/operation")
  descriptor ← at document (text "article")
  article ← parse_article descriptor
  list ← at document (text "sections")
  items ← require_array list (text "/sections")
  sections ← parse_items parse_section 0 items
  others ← at document (text "related_concepts")
  concepts ← require_array others (text "/related_concepts")
  related ← parse_items parse_concept 0 concepts
  ok (record {
    schema_version = schema_version;
    operation = operation;
    article = article;
    sections = sections;
    related_concepts = related;
  })

unfoldable pub path_if_present : Option Json → Result Thrown (Option Bytes)
path_if_present none = ok none
path_if_present (some value) = do path ← parse_path value (text "/image_path"); ok (some path)

-- `document.value("language", "en")`
unfoldable pub string_or : Bytes → Option Json → Result Thrown Bytes
string_or default none = ok default
string_or default (some value) = get_string value

unfoldable pub read_page : Json → Result Thrown ExtractedPage
read_page document = do
  require_keys document
      (text "page_id"
        ∷ text "source_version_id"
        ∷ text "page_number"
        ∷ text "text"
        ∷ text "text_status"
        ∷ [])
      (text "image_path" ∷ text "language" ∷ []) []
  page_id ← string_at document (text "page_id")
  source_version_id ← string_at document (text "source_version_id")
  number ← at document (text "page_number")
  page_number ← read_unsigned uint32_max number (text "/page_number") uint32_max
  image_path ← path_if_present (field_of document (text "image_path"))
  words ← string_at document (text "text")
  status ← at document (text "text_status")
  text_status ← parse_enum status status_names (text "/text_status")
  language ← string_or (text "en") (field_of document (text "language"))
  ok (record {
    page_id = page_id;
    source_version_id = source_version_id;
    page_number = page_number;
    image_path = image_path;
    text = words;
    text_status = text_status;
    language = language;
  })

-- `parse_path(paths.at(key), path)`
unfoldable pub path_at : Json → Bytes → Bytes → Result Thrown Bytes
unfolding at parse_path
path_at document key path = do value ← at document key; parse_path value path

unfoldable pub read_config : Json → Result Thrown ProjectConfig
read_config document = do
  require_keys document
      (text "schema_version"
        ∷ text "project_id"
        ∷ text "paths"
        ∷ text "vault"
        ∷ text "providers"
        ∷ [])
      [] []
  version ← at document (text "schema_version")
  schema_version ← read_unsigned uint32_max version (text "/schema_version") 1
  project_id ← string_at document (text "project_id")
  paths ← at document (text "paths")
  require_keys paths (text "sources" ∷ text "vault" ∷ text "state" ∷ text "cache" ∷ []) []
      (text "/paths")
  sources ← path_at paths (text "sources") (text "/paths/sources")
  vault_path ← path_at paths (text "vault") (text "/paths/vault")
  state ← path_at paths (text "state") (text "/paths/state")
  cache ← path_at paths (text "cache") (text "/paths/cache")
  vault ← at document (text "vault")
  require_keys vault (text "source_directory" ∷ text "generated_section_id" ∷ []) [] (text "/vault")
  source_directory ← path_at vault (text "source_directory") (text "/vault/source_directory")
  generated_section_id ← string_at vault (text "generated_section_id")
  providers ← at document (text "providers")
  require_keys providers (text "llm" ∷ text "ocr" ∷ []) [] (text "/providers")
  llm ← at providers (text "llm")
  require_keys llm (text "default" ∷ text "ollama" ∷ []) [] (text "/providers/llm")
  llm_default ← string_at llm (text "default")
  ollama ← at llm (text "ollama")
  require_keys ollama (text "base_url" ∷ text "model" ∷ text "timeout_seconds" ∷ []) []
      (text "/providers/llm/ollama")
  base_url ← string_at ollama (text "base_url")
  model ← string_at ollama (text "model")
  timeout ← at ollama (text "timeout_seconds")
  timeout_seconds ←
      read_unsigned uint32_max timeout (text "/providers/llm/ollama/timeout_seconds")
        max_timeout_seconds
  ocr ← at providers (text "ocr")
  require_keys ocr (text "default" ∷ text "language" ∷ []) [] (text "/providers/ocr")
  ocr_default ← string_at ocr (text "default")
  language ← string_at ocr (text "language")
  ok (record {
    schema_version = schema_version;
    project_id = project_id;
    paths = record { sources = sources; vault = vault_path; state = state; cache = cache };
    vault = record {
      source_directory = source_directory;
      generated_section_id = generated_section_id;
    };
    llm = record {
      default_provider = llm_default;
      ollama = record { base_url = base_url; model = model; timeout_seconds = timeout_seconds };
    };
    ocr = record { default_provider = ocr_default; language = language };
  })

module _ (u : Unicode) (shape : JsonContract → Json → Issues) where
  -- `require_shape`, the reading and `require_semantics`, in the order of every `from_json`.
  unfoldable pub from_json :
      {A : Type 0} → JsonContract → (Json → Result Thrown A) → (A → Issues) → Json → Result Thrown A
  from_json contract read validate document = do
    require_none (shape contract document)
    value ← read document
    require_none (validate value)
    ok value

  unfoldable pub parse_project_config : Json → ParseResult ProjectConfig
  parse_project_config document =
      parse_document
        (from_json JsonContract.project_config read_config (validate_config u) document)

  unfoldable pub parse_extracted_page : Json → ParseResult ExtractedPage
  parse_extracted_page document =
      parse_document (from_json JsonContract.extracted_page read_page (validate_page u) document)

  unfoldable pub parse_citation : Json → ParseResult Citation
  parse_citation document =
      parse_document
        (from_json JsonContract.citation (parse_citation_value []) (validate_citation u) document)

  unfoldable pub parse_article_proposal : Json → ParseResult ArticleProposal
  parse_article_proposal document =
      parse_document
        (from_json JsonContract.article_proposal read_proposal (validate_proposal u) document)
