-- ===== src/Compiler/Compile.antt =====
-- compile of libs/compiler/src/compiler.cpp, from the options to the published proposal. What the
-- services of other parts return is the record `Services`; SQLite refuses all of a transaction or nothing.
use wiki.Base.{
  Bool, true, false, not, Option, none, some, List, [], ◌∷◌, ◌++◌, Bytes, Result, ok, err, text,
  bytes_eq, is_empty, any, ◌>>=◌, ◌>>◌, throw_if,
}
use wiki.Domain.Unicode.{Unicode}
use wiki.Domain.Types.{ProposalOperation, create_article, update_article, ExtractedPage, Issues}
use wiki.Domain.Concept.{concept_filename}
use wiki.Storage.Identity.{
  ConceptTarget, DestinationError, taken, invalid, resolve_concept, validate_concept_destination,
}
use wiki.Models.Validator.{ProposalGenerationRequest}
use wiki.Models.Runner.{
  LanguageModel, JsonLibrary, Run, ModelErrorKind, ModelFailure, model_error, escaped,
}
use wiki.Updates.{ArticleBase}
use wiki.Compiler.{
  CompilerErrorKind, CompilerError, compiler_error, CompileOptions, as_compiler_error,
}
use wiki.Compiler.Select.{SourceRow, Evidence, Owners, validate_options, select_evidence}
use wiki.Compiler.Store.{Store, catalog}

-- A `CompilerError`, or an exception of another library that escapes.
pub data Failure : Type 0 where
  failed : CompilerError → Failure
  unhandled : Bytes → Failure

unfoldable pub throwing : {A : Type 0} → Result CompilerError A → Result Failure A
throwing (ok a) = ok a
throwing (err e) = err (failed e)

unfoldable pub escaping : {A : Type 0} → Result Bytes A → Result Failure A
escaping (ok a) = ok a
escaping (err message) = err (unhandled message)

-- `catch` of what the call may throw, as a `CompilerError` of a kind
unfoldable pub rethrow : {A : Type 0} → CompilerErrorKind → Result Bytes A → Result Failure A
rethrow kind m = throwing (as_compiler_error kind m)

unfoldable pub fail : CompilerErrorKind → Bytes → Failure
fail kind message = failed (compiler_error kind message)

-- What a compilation uses of the project and of other services: the base of an article, the pages
-- that the proposal of an apply run cites, fresh identifiers, the time, and whether the database accepts the writes.
pub record Services : Type 0 where
  pub json : JsonLibrary
  pub model : LanguageModel
  pub owners : Owners
  pub vault : Bytes
  pub load_base : Bytes → Result Bytes ArticleBase
  pub cited_pages : Bytes → List SourceRow
  pub run : Run
  pub proposal_id : Bytes
  pub now : Bytes
  pub mark_ok : Bool
  pub publish_ok : Bool

abbrev pub Snapshots : Type 0
Snapshots = List (ExtractedPage × Evidence)

unfoldable pub pages_of : Snapshots → List ExtractedPage
pages_of [] = []
pages_of ((page, e) ∷ snapshots) = page ∷ pages_of snapshots

unfoldable pub has_page : Snapshots → Bytes → Bool
has_page snapshots id = any (λ (s : ExtractedPage × Evidence). bytes_eq s.0.page_id id) snapshots

unfoldable pub path_or : Option Bytes → Bytes → Bytes
path_or (some path) default = path
path_or none default = default

unfoldable pub is_some : Option Bytes → Bool
is_some none = false
is_some (some id) = true

unfoldable pub first_issue : Issues → Bytes → Bytes
first_issue [] fallback = fallback
first_issue (i ∷ issues) fallback = i.path ++ text ": " ++ i.message

unfoldable pub compiler_kind : ModelErrorKind → CompilerErrorKind
compiler_kind ModelErrorKind.invalid_project = CompilerErrorKind.invalid_project
compiler_kind ModelErrorKind.invalid_request = CompilerErrorKind.validation_failed
compiler_kind ModelErrorKind.state_error = CompilerErrorKind.state_error

unfoldable pub of_model : {A : Type 0} → Result ModelFailure A → Result Failure A
of_model (ok a) = ok a
of_model (err (model_error kind message)) = err (fail (compiler_kind kind) message)
of_model (err (escaped message)) = err (unhandled message)

unfoldable pub is_additive : Option ArticleBase → Bool → Bool
is_additive none regenerate = false
is_additive (some base) regenerate = not regenerate

unfoldable pub operation_for : Option Bytes → ProposalOperation
operation_for none = create_article
operation_for (some id) = update_article

unfoldable pub request_for :
    ConceptTarget → Option ArticleBase → Bool → Snapshots → ProposalGenerationRequest
request_for target base regenerate snapshots = record {
  concept_title = target.title;
  operation = operation_for target.article_id;
  article_id = target.article_id;
  concept_slug = some target.slug;
  pages = pages_of snapshots;
  additive_update = is_additive base regenerate;
}

-- What stands when the model is asked
pub record Prepared : Type 0 where
  pub target : ConceptTarget
  pub base : Option ArticleBase
  pub snapshots : Snapshots

unfoldable pub of_destination : {A : Type 0} → Result DestinationError A → Result Failure A
of_destination (ok a) = ok a
of_destination (err (taken message)) = err (fail CompilerErrorKind.invalid_concept message)
of_destination (err (invalid message)) = err (unhandled message)

module _ (u : Unicode) (v : Services) where
  -- The destination is the stored path, or the title's file below the vault.
  unfoldable pub check_destination :
      Store → ConceptTarget → Option Bytes → Result Failure (Unit {0})
  check_destination s target article_id = do
    name ← escaping (concept_filename u target.title)
    of_destination (
        validate_concept_destination u (catalog s)
          (path_or target.vault_path (v.vault ++ b'/' ∷ name)) article_id)

  unfoldable pub find_article_target : Store → Bytes → Result Failure ConceptTarget
  find_article_target s title = do
    target ← rethrow CompilerErrorKind.invalid_concept (resolve_concept u (catalog s) title true)
    check_destination s target target.article_id
    ok target

  -- The base of an update, none for a new article
  unfoldable pub base_of : Option Bytes → Bool → Result Failure (Option ArticleBase)
  base_of (some id) regenerate = do
    base ← rethrow CompilerErrorKind.validation_failed (v.load_base id)
    ok (some base)
  base_of none regenerate = do
    throw_if regenerate (
        fail CompilerErrorKind.invalid_concept
          (text "--regenerate requires an existing applied article"))
    ok none

  unfoldable pub prepare : Store → CompileOptions → Result Failure Prepared
  prepare s options = do
    throwing (validate_options u options)
    target ← find_article_target s options.concept_title
    base ← base_of target.article_id options.regenerate
    snapshots ← throwing (
        select_evidence u v.owners s.active_sources s.sources
          (record options { concept_title = target.title }))
    throw_if (is_empty snapshots) (
        fail CompilerErrorKind.no_evidence (
          text "no usable extracted pages matched concept '"
          ++ options.concept_title
          ++ text "'; pass --source to compile from explicitly curated sources"))
    ok (record { target = target; base = base; snapshots = snapshots })
