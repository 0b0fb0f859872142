-- ===== src/Domain/Types.antt =====
-- libs/domain/include/kc/domain/types.hpp and the `to_string` family of types.cpp. The typed
-- identifiers are their texts; a path is its UTF-8 text with `/` between its parts.
pub mod Names
use wiki.Base.{ℕ, Bool, Option, List, Bytes, text}

pub data SourceKind : Type 0 where
  pdf markdown plain : SourceKind

pub data TextStatus : Type 0 where
  native ocr_unreviewed reviewed failed : TextStatus

pub data ProposalOperation : Type 0 where
  create_article update_article : ProposalOperation

pub data ProposalStatus : Type 0 where
  pending approved rejected applied superseded : ProposalStatus

pub data SectionKey : Type 0 where
  working_explanation key_ideas example related_concepts : SectionKey

pub data BlockKind : Type 0 where
  paragraph bullet : BlockKind

pub record ProjectPaths : Type 0 where
  pub sources : Bytes
  pub vault : Bytes
  pub state : Bytes
  pub cache : Bytes

pub record VaultConfig : Type 0 where
  pub source_directory : Bytes
  pub generated_section_id : Bytes

pub record OllamaConfig : Type 0 where
  pub base_url : Bytes
  pub model : Bytes
  pub timeout_seconds : ℕ

pub record LlmConfig : Type 0 where
  pub default_provider : Bytes
  pub ollama : OllamaConfig

pub record OcrConfig : Type 0 where
  pub default_provider : Bytes
  pub language : Bytes

pub record ProjectConfig : Type 0 where
  pub schema_version : ℕ
  pub project_id : Bytes
  pub paths : ProjectPaths
  pub vault : VaultConfig
  pub llm : LlmConfig
  pub ocr : OcrConfig

pub record ExtractedPage : Type 0 where
  pub page_id : Bytes
  pub source_version_id : Bytes
  pub page_number : ℕ
  pub image_path : Option Bytes
  pub text : Bytes
  pub text_status : TextStatus
  pub language : Bytes

pub record Citation : Type 0 where
  pub page_id : Bytes
  pub start_char : ℕ
  pub end_char : ℕ
  pub quote : Bytes

pub record ArticleDescriptor : Type 0 where
  pub article_id : Option Bytes
  pub title : Bytes
  pub slug : Bytes
  pub aliases : List Bytes

pub record ProposalBlock : Type 0 where
  pub kind : BlockKind
  pub text : Bytes
  pub citations : List Citation

pub record ProposalSection : Type 0 where
  pub key : SectionKey
  pub heading : Bytes
  pub blocks : List ProposalBlock

pub record RelatedConcept : Type 0 where
  pub title : Bytes
  pub reason : Bytes
  pub citations : List Citation

pub record ArticleProposal : Type 0 where
  pub schema_version : ℕ
  pub operation : ProposalOperation
  pub article : ArticleDescriptor
  pub sections : List ProposalSection
  pub related_concepts : List RelatedConcept

pub record ValidationIssue : Type 0 where
  pub path : Bytes
  pub message : Bytes

-- `ValidationResult`: the issues found, none where the object is valid
abbrev pub Issues : Type 0
Issues = List ValidationIssue

abbrev pub issue : Bytes → Bytes → ValidationIssue
issue path message = record { path = path; message = message }
