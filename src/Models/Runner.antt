-- ===== src/Models/Runner.antt =====
-- libs/models/src/model_runner.cpp: one request to a language model, validated and recorded. The
-- provider, JSON text and the schema check are arguments; so are the new identifier, the times and
-- whether the database takes the row.
pub mod Audit
use wiki.Base.{
  ℕ, ◌+◌, ◌≡◌, Bool, true, false, not, Option, none, some, List, [], ◌∷◌, ◌++◌, Bytes, Result, ok,
  err, text, if◌then◌else◌, length, is_empty, ◌>>=◌, ◌>>◌,
}
use wiki.Domain.Unicode.{Unicode}
use wiki.Domain.Types.{ArticleProposal, ValidationIssue, Issues, issue}
use wiki.Domain.Sha256.{sha256_text}
use wiki.Domain.Json.{
  Json, JsonContract, ParseResult, boolean, unsigned, string, object, end, field,
}
use wiki.Domain.Json.Write.{proposal_to_json}
use wiki.Domain.Json.Read.{parse_article_proposal}
use wiki.Models.Validator.{ProposalGenerationRequest, validate_request, validate_response}
use wiki.Models.Prompt.{LanguageModelRequest, build_concept_prompt}

pub data ModelRunStatus : Type 0 where
  completed invalid_response failed : ModelRunStatus

-- The interface `LanguageModel`; `generate` is `none` where the provider throws.
pub record LanguageModel : Type 0 where
  pub provider_name : Bytes
  pub model_name : Bytes
  pub generate : LanguageModelRequest → Option Bytes

-- What the runner uses of nlohmann::json and of the checked-in schemas.
pub record JsonLibrary : Type 0 where
  pub parse : Bytes → Option Json
  pub dump : Json → Bytes
  pub dump_indented : Json → Bytes
  pub proposal_schema : Json
  pub shape : JsonContract → Json → Issues

-- A row of `model_runs`; the response is the JSON value whose text is stored.
pub record RunRow : Type 0 where
  pub run_id : Bytes
  pub provider : Bytes
  pub model : Bytes
  pub prompt_version : Bytes
  pub request_sha256 : Bytes
  pub response_json : Option Json
  pub status : ModelRunStatus
  pub started_at : Bytes
  pub completed_at : Bytes
  pub error_message : Option Bytes

pub record ModelRunResult : Type 0 where
  pub run_id : Bytes
  pub status : ModelRunStatus
  pub proposal : Option ArticleProposal
  pub issues : Issues

pub data ModelErrorKind : Type 0 where
  invalid_project invalid_request state_error : ModelErrorKind

-- A `ModelError`, or an exception of the domain library that escapes.
pub data ModelFailure : Type 0 where
  model_error : ModelErrorKind → Bytes → ModelFailure
  escaped : Bytes → ModelFailure

-- What a run is given besides the request.
pub record Run : Type 0 where
  pub run_id : Bytes
  pub started_at : Bytes
  pub completed_at : Bytes
  pub database_ok : Bool

unfoldable pub redacted_invalid_response : Bytes → ℕ → Json
redacted_invalid_response response issue_count = object (
    field (text "redacted") (boolean true) (
      field (text "response_bytes") (unsigned (length response)) (
        field (text "response_sha256") (string (sha256_text response))
          (field (text "validation_issue_count") (unsigned issue_count) end))))

unfoldable pub prompt_version : Bytes
prompt_version = text "concept-v2"

-- Only the digest of the request is kept.
unfoldable pub request_hash : JsonLibrary → LanguageModel → LanguageModelRequest → Bytes
request_hash json model request = sha256_text (
    json.dump (
      object (
        field (text "model") (string model.model_name) (
          field (text "prompt_version") (string prompt_version) (
            field (text "provider") (string model.provider_name) (
              field (text "response_schema") request.response_schema (
                field (text "system_prompt") (string request.system_prompt)
                  (field (text "user_prompt") (string request.user_prompt) end))))))))

unfoldable pub escape_error : {A : Type 0} → Result Bytes A → Result ModelFailure A
escape_error (ok a) = ok a
escape_error (err message) = err (escaped message)

unfoldable pub require_request : Issues → Result ModelFailure (Unit {0})
require_request [] = ok tt
require_request (i ∷ issues) = err (model_error ModelErrorKind.invalid_request i.message)

-- A result, and the row that was written on the way.
abbrev pub Recorded : Type 0
Recorded = List RunRow × ModelRunResult

module _ (u : Unicode) (json : JsonLibrary) (model : LanguageModel) (run : Run) where
  -- `record_model_run` and the result that is returned after it.
  unfoldable pub record_model_run :
      List RunRow
      → Bytes
      → ModelRunStatus
      → Option Json
      → Option Bytes
      → ModelRunResult
      → Result ModelFailure Recorded
  record_model_run runs hash status response message result =
      if run.database_ok
      then ok (
        runs
            ++ record {
              run_id = run.run_id;
              provider = model.provider_name;
              model = model.model_name;
              prompt_version = prompt_version;
              request_sha256 = hash;
              response_json = response;
              status = status;
              started_at = run.started_at;
              completed_at = run.completed_at;
              error_message = message;
            }
              ∷ [],
        result,
      )
      else err
          (model_error ModelErrorKind.state_error (text "could not write model-run audit record"))

  unfoldable pub record_invalid :
      List RunRow → Bytes → Bytes → Issues → Result ModelFailure Recorded
  record_invalid runs hash response issues =
      record_model_run runs hash ModelRunStatus.invalid_response
        (some (redacted_invalid_response response (length issues)))
        (some (text "model response failed validation"))
        (record {
          run_id = run.run_id;
          status = ModelRunStatus.invalid_response;
          proposal = none;
          issues = issues;
        })

  unfoldable pub record_completed :
      List RunRow → Bytes → ArticleProposal → Result ModelFailure Recorded
  record_completed runs hash p =
      record_model_run runs hash ModelRunStatus.completed (some (proposal_to_json p)) none (record {
        run_id = run.run_id;
        status = ModelRunStatus.completed;
        proposal = some p;
        issues = [];
      })

  -- After a proposal was parsed
  unfoldable pub check_semantics :
      ProposalGenerationRequest
      → List RunRow
      → Bytes
      → Bytes
      → ArticleProposal
      → Result ModelFailure Recorded
  check_semantics r runs hash response p = do
    issues ← escape_error (validate_response u p r)
    (if is_empty issues
        then record_completed runs hash p
        else record_invalid runs hash response issues)

  -- `if (!parsed)`: there is no value, or there is an issue
  unfoldable pub check_parsed :
      ProposalGenerationRequest
      → List RunRow
      → Bytes
      → Bytes
      → Issues
      → Option ArticleProposal
      → Result ModelFailure Recorded
  check_parsed r runs hash response issues none = record_invalid runs hash response issues
  check_parsed r runs hash response [] (some p) = check_semantics r runs hash response p
  check_parsed r runs hash response (i ∷ issues) (some p) =
      record_invalid runs hash response (i ∷ issues)

  unfoldable pub check_document :
      ProposalGenerationRequest
      → List RunRow
      → Bytes
      → Bytes
      → Option Json
      → Result ModelFailure Recorded
  check_document r runs hash response none =
      record_invalid runs hash response
        (issue (text "/") (text "model response was not valid JSON") ∷ [])
  check_document r runs hash response (some document) =
      let parsed = parse_article_proposal u json.shape document in
      check_parsed r runs hash response parsed.issues parsed.value

  unfoldable pub check_response :
      ProposalGenerationRequest → List RunRow → Bytes → Option Bytes → Result ModelFailure Recorded
  check_response r runs hash none =
      record_model_run runs hash ModelRunStatus.failed none
        (some (text "local model request failed"))
        (record {
          run_id = run.run_id;
          status = ModelRunStatus.failed;
          proposal = none;
          issues = issue (text "/") (text "local model request failed") ∷ [];
        })
  check_response r runs hash (some response) =
      check_document r runs hash response (json.parse response)

  unfoldable pub generate_concept :
      ProposalGenerationRequest → List RunRow → Result ModelFailure Recorded
  generate_concept r runs = do
    require_request (validate_request u r)
    prompt ← escape_error (build_concept_prompt u json.dump_indented json.proposal_schema r)
    check_response r runs (request_hash json model prompt) (model.generate prompt)
