-- ===== src/Domain/Validate.antt =====
-- The `validate` family of libs/domain/src/types.cpp. Each returns all the issues it finds.
pub mod Citations
pub mod Proposals
use wiki.Base.{
  ℕ, ◌+◌, ◌-◌, ◌*◌, ◌^◌, Bool, true, false, not, ◌&&◌, ◌||◌, Option, none, some, List, [], ◌∷◌,
  ◌++◌, Bytes, Result, ok, err, text, codes, bytes_eq, ltb, leb, ◌==◌, if◌then◌else◌, length,
  is_empty, any, map, for_index, to_decimal, ◌>>=◌,
}
use wiki.Domain.Unicode.{Unicode, is_valid_source_text}
use wiki.Domain.Types.{
  TextStatus, ProposalOperation, SectionKey, BlockKind, ProjectConfig, ExtractedPage, Citation,
  ProposalBlock, ProposalSection, RelatedConcept, ArticleProposal, ValidationIssue, Issues, issue,
  create_article, update_article,
}
use wiki.Domain.Types.Names.{status_to_string, operation_to_string, key_to_string, block_to_string}
use wiki.Domain.Id.{is_valid_id}
use wiki.Domain.Paths.{is_project_relative}
use wiki.Domain.Concept.{normalize_concept_title, concept_filename}
use wiki.Domain.Concept.Slug.{is_slug}
use wiki.Domain.Markdown.{safe_managed_section_id, validate_plain_text, validate_markdown}

-- `append(target, source, prefix)` gives each issue of `source` the parent's path.
unfoldable pub prefixed : Bytes → Issues → Issues
prefixed prefix issues = map (λ i. issue (prefix ++ i.path) i.message) issues

-- `require(condition, result, path, message)`
unfoldable pub require : Bool → Bytes → Bytes → Issues
require true path message = []
require false path message = issue path message ∷ []

abbrev pub max_citation_end : ℕ
max_citation_end = 2 ^ 63 - 1

abbrev pub max_citation_start : ℕ
max_citation_start = 2 ^ 63 - 2

abbrev pub max_timeout_seconds : ℕ
max_timeout_seconds = 2147483647

module _ (u : Unicode) where
  unfoldable pub validate_config : ProjectConfig → Issues
  validate_config c =
      require (c.schema_version == 1) (text "/schema_version") (text "must equal 1")
      ++ require (is_valid_id c.project_id (codes "prj_")) (text "/project_id")
          (text "must be a prj_ ULID")
      ++ require (is_project_relative u c.paths.sources) (text "/paths/sources")
          (text "must be project-relative")
      ++ require (is_project_relative u c.paths.vault) (text "/paths/vault")
          (text "must be project-relative")
      ++ require (is_project_relative u c.paths.state) (text "/paths/state")
          (text "must be project-relative")
      ++ require (is_project_relative u c.paths.cache) (text "/paths/cache")
          (text "must be project-relative")
      ++ require (is_project_relative u c.vault.source_directory) (text "/vault/source_directory")
          (text "must be relative to the vault")
      ++ require (safe_managed_section_id c.vault.generated_section_id)
          (text "/vault/generated_section_id")
          (text "must be 1-128 ASCII letters, digits, dots, underscores, or hyphens")
      ++ require (not (is_empty c.llm.default_provider)) (text "/providers/llm/default")
          (text "must not be empty")
      ++ require (not (is_empty c.llm.ollama.base_url)) (text "/providers/llm/ollama/base_url")
          (text "must not be empty")
      ++ require (not (is_empty c.llm.ollama.model)) (text "/providers/llm/ollama/model")
          (text "must not be empty")
      ++ require (ltb 0 c.llm.ollama.timeout_seconds) (text "/providers/llm/ollama/timeout_seconds")
          (text "must be positive")
      ++ require (leb c.llm.ollama.timeout_seconds max_timeout_seconds)
          (text "/providers/llm/ollama/timeout_seconds")
          (text "exceeds the portable curl timeout bound")
      ++ require (not (is_empty c.ocr.default_provider)) (text "/providers/ocr/default")
          (text "must not be empty")
      ++ require (not (is_empty c.ocr.language)) (text "/providers/ocr/language")
          (text "must not be empty")

  image_issues : Option Bytes → Issues
  image_issues none = []
  image_issues (some path) =
      require (is_project_relative u path) (text "/image_path") (text "must be project-relative")

  unfoldable pub validate_page : ExtractedPage → Issues
  unfolding image_issues
  validate_page page =
      require (is_valid_id page.page_id (codes "pg_")) (text "/page_id") (text "must be a pg_ ULID")
      ++ require (is_valid_id page.source_version_id (codes "ver_")) (text "/source_version_id")
          (text "must be a ver_ ULID")
      ++ require (not (is_empty (status_to_string page.text_status))) (text "/text_status")
          (text "must be a supported text status")
      ++ require (leb 1 page.page_number) (text "/page_number") (text "must be at least 1")
      ++ image_issues page.image_path
      ++ require (is_valid_source_text u page.text) (text "/text")
          (text "must be UTF-8 without embedded NULs")
      ++ require (not (is_empty page.language)) (text "/language") (text "must not be empty")

  unfoldable pub validate_citation : Citation → Issues
  validate_citation c =
      require (is_valid_id c.page_id (codes "pg_")) (text "/page_id") (text "must be a pg_ ULID")
      ++ require (leb c.start_char max_citation_start) (text "/start_char")
          (text "exceeds signed SQLite offset storage")
      ++ require (leb c.end_char max_citation_end) (text "/end_char")
          (text "exceeds signed SQLite offset storage")
      ++ require (ltb c.start_char c.end_char) (text "/end_char")
          (text "must be greater than start_char")
      ++ prefixed (text "/quote") (validate_plain_text u c.quote false false)

  unfoldable pub validate_citations : Bytes → List Citation → Issues
  validate_citations path citations =
      for_index
        (λ index c. prefixed (path ++ text "/citations/" ++ to_decimal index) (validate_citation c))
        0 citations

  unfoldable pub validate_block : Bytes → ℕ → ProposalBlock → Issues
  validate_block section_path index block =
      let block_path : Bytes = section_path ++ text "/blocks/" ++ to_decimal index in
      require (not (is_empty (block_to_string block.kind))) (block_path ++ text "/kind")
        (text "must be a supported block kind")
      ++ require (not (is_empty block.citations)) (block_path ++ text "/citations")
          (text "must contain at least one citation")
      ++ validate_citations block_path block.citations

  unfoldable pub validate_section : ℕ → ProposalSection → Issues
  validate_section index section =
      let section_path : Bytes = text "/sections/" ++ to_decimal index in
      require (not (is_empty (key_to_string section.key))) (section_path ++ text "/key")
        (text "must be a supported section key")
      ++ require (not (is_empty section.blocks)) (section_path ++ text "/blocks")
          (text "must contain at least one cited block")
      ++ for_index (validate_block section_path) 0 section.blocks

  unfoldable pub validate_related : ℕ → RelatedConcept → Issues
  validate_related index related =
      let concept_path : Bytes = text "/related_concepts/" ++ to_decimal index in
      require (not (is_empty related.citations)) (concept_path ++ text "/citations")
        (text "must contain at least one citation")
      ++ validate_citations concept_path related.citations

  -- The `try` block: the first of the two calls that throws gives the issue.
  title_issues : Result Bytes Bytes → Issues
  title_issues (ok name) = []
  title_issues (err message) = require false (text "/article/title") message

  unfoldable pub validate_title : Bytes → Issues
  unfolding title_issues
  validate_title title =
      title_issues (do shown ← normalize_concept_title u title; concept_filename u title)

-- `std::set` of the aliases is as large as the list
unfoldable pub all_distinct : List Bytes → Bool
all_distinct [] = true
all_distinct (a ∷ as_) = not (any (bytes_eq a) as_) && all_distinct as_

is_create : ProposalOperation → Bool
is_create create_article = true
is_create update_article = false

has_value : Option Bytes → Bool
has_value none = false
has_value (some id) = true

id_issues : Option Bytes → Issues
id_issues none = []
id_issues (some id) =
    require (is_valid_id id (codes "art_")) (text "/article/article_id")
      (text "must be an art_ ULID")

unfoldable pub validate_proposal : Unicode → ArticleProposal → Issues
unfolding is_create has_value id_issues
validate_proposal u p =
    validate_markdown u p
    ++ require (p.schema_version == 1) (text "/schema_version") (text "must equal 1")
    ++ require (not (is_empty (operation_to_string p.operation))) (text "/operation")
        (text "must be a supported operation")
    ++ require (not (is_create p.operation) || not (has_value p.article.article_id))
        (text "/article/article_id") (text "must be absent for create_article")
    ++ require (is_create p.operation || has_value p.article.article_id)
        (text "/article/article_id") (text "is required for update_article")
    ++ validate_title u p.article.title
    ++ require (is_slug p.article.slug) (text "/article/slug")
        (text "must be a lowercase kebab-case slug")
    ++ id_issues p.article.article_id
    ++ require (all_distinct p.article.aliases) (text "/article/aliases")
        (text "must contain unique values")
    ++ require (not (is_empty p.sections)) (text "/sections")
        (text "must contain at least one section")
    ++ for_index (validate_section u) 0 p.sections
    ++ for_index (validate_related u) 0 p.related_concepts
