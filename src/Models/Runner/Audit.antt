-- ===== src/Models/Runner/Audit.antt =====
-- What a run of a model leaves behind: libs/models/src/model_runner.cpp, generate_concept.
use wiki.Base.{
  ℕ, ◌≡◌, refl, sym, ap, subst, ◌∙◌, inl, inr, true, Option, none, some, List, [], ◌∷◌, ◌++◌, Bytes,
  text, Result, ok, err, length, is_empty, if-true, if-false, Bool-cases, >>=-eq-ok, ok-cancel,
  err-ne-ok,
}
use wiki.Domain.Unicode.{Unicode}
use wiki.Domain.Types.{ArticleProposal, Issues}
use wiki.Domain.Json.{Json, boolean, unsigned, string, object, end, field}
use wiki.Domain.Sha256.{sha256_text}
use wiki.Domain.Json.Write.{proposal_to_json}
use wiki.Domain.Json.Read.{parse_article_proposal}
use wiki.Models.Validator.{ProposalGenerationRequest, validate_response, validate_request}
use wiki.Models.Validator.Grounded.{Answers, validate_response-Answers}
use wiki.Models.Prompt.{LanguageModelRequest, build_concept_prompt}
use wiki.Models.Runner.{
  LanguageModel, JsonLibrary, Run, RunRow, ModelRunResult, ModelRunStatus, Recorded,
  redacted_invalid_response, prompt_version, request_hash, escape_error, record_model_run,
  record_invalid, record_completed, check_semantics, check_parsed, check_document, check_response,
  require_request, generate_concept,
}

-- The document says of the answer only how long it is, its digest and how many issues it had.
unfoldable pub Redacted : Bytes → Json → Type 0
Redacted answer document =
    (count : ℕ) × (document
      ≡ object (
          field (text "redacted") (boolean true) (
            field (text "response_bytes") (unsigned (length answer)) (
              field (text "response_sha256") (string (sha256_text answer))
                (field (text "validation_issue_count") (unsigned count) end)))))

module _ (u : Unicode) (json : JsonLibrary) (model : LanguageModel) (run : Run)
    (r : ProposalGenerationRequest) where
  -- What the row and the result say about the answer of the model: a proposal that answers the
  -- request, of which the row holds the document; or no proposal, and a row with nothing of the answer
  -- but its digest and its length; or nothing at all where the provider failed.
  abbrev pub Told :
      Option Bytes → ModelRunStatus → Option Json → Option Bytes → Option ArticleProposal → Type 0
  Told answer ModelRunStatus.completed stored message proposal =
      (p : ArticleProposal) × (proposal ≡ some p)
      × (stored ≡ some (proposal_to_json p))
      × (message ≡ none)
      × Answers u p r
  Told answer ModelRunStatus.invalid_response stored message proposal =
      (proposal ≡ none)
      × (message ≡ some (text "model response failed validation"))
      × ((bytes : Bytes) × (document : Json) × (answer ≡ some bytes)
          × (stored ≡ some document)
          × Redacted bytes document)
  Told answer ModelRunStatus.failed stored message proposal =
      (proposal ≡ none)
      × (stored ≡ none)
      × (message ≡ some (text "local model request failed"))
      × (answer ≡ none)

  -- The other fields of the row depend on the run and the request, not on the answer.
  pub record Described (prompt : LanguageModelRequest) (row : RunRow) : Type 0 where
    pub run_id : row.run_id ≡ run.run_id
    pub provider : row.provider ≡ model.provider_name
    pub model_name : row.model ≡ model.model_name
    pub version : row.prompt_version ≡ text "concept-v2"
    pub digest : row.request_sha256 ≡ request_hash json model prompt
    pub times : (row.started_at ≡ run.started_at) × (row.completed_at ≡ run.completed_at)

  pub record Audited (runs : List RunRow) (recorded : Recorded) : Type 0 where
    pub prompt : LanguageModelRequest
    pub built : build_concept_prompt u json.dump_indented json.proposal_schema r ≡ ok prompt
    pub row : RunRow
    pub appended : recorded.0 ≡ runs ++ row ∷ []
    pub described : Described prompt row
    pub returned : (recorded.1.run_id ≡ run.run_id) × (row.status ≡ recorded.1.status)
    pub told :
        Told
          (model.generate prompt)
          row.status
          row.response_json
          row.error_message
          recorded.1.proposal

  is_empty-nil : (issues : Issues) → is_empty issues ≡ true → issues ≡ []
  is_empty-nil [] h = refl
  is_empty-nil (i ∷ issues) h = cc

  escape_error-ok : {A : Type 0} (m : Result Bytes A) {a : A} → escape_error m ≡ ok a → m ≡ ok a
  unfolding escape_error
  escape_error-ok (ok a) h = ap ok (ok-cancel h)
  escape_error-ok (err message) h = absurd (err-ne-ok h)

  module _ (prompt : LanguageModelRequest) (hash : Bytes)
      (built : build_concept_prompt u json.dump_indented json.proposal_schema r ≡ ok prompt)
      (hashed : hash ≡ request_hash json model prompt) where
    record_model_run-Audited :
        (runs : List RunRow) (status : ModelRunStatus) (stored : Option Json)
        (message : Option Bytes) (result : ModelRunResult) {recorded : Recorded}
        → result.run_id ≡ run.run_id
        → result.status ≡ status
        → Told (model.generate prompt) status stored message result.proposal
        → record_model_run u json model run runs hash status stored message result ≡ ok recorded
        → Audited runs recorded
    unfolding record_model_run prompt_version
    record_model_run-Audited runs status stored message result identified agreed told h =
        elim (Bool-cases run.database_ok) [
          | inl written ↦
              subst (Audited runs) (ok-cancel (if-true run.database_ok _ _ written h)) (record {
                prompt = prompt;
                built = built;
                row = record {
                  run_id = run.run_id;
                  provider = model.provider_name;
                  model = model.model_name;
                  prompt_version = prompt_version;
                  request_sha256 = hash;
                  response_json = stored;
                  status = status;
                  started_at = run.started_at;
                  completed_at = run.completed_at;
                  error_message = message;
                };
                appended = refl;
                described = record {
                  run_id = refl;
                  provider = refl;
                  model_name = refl;
                  version = refl;
                  digest = hashed;
                  times = (refl, refl);
                };
                returned = (identified, sym agreed);
                told = told;
              })
          | inr refused ↦ absurd (err-ne-ok (if-false run.database_ok _ _ refused h))
        ]

    record_invalid-Audited :
        (runs : List RunRow) (response : Bytes) (issues : Issues) {recorded : Recorded}
        → model.generate prompt ≡ some response
        → record_invalid u json model run runs hash response issues ≡ ok recorded
        → Audited runs recorded
    unfolding record_invalid redacted_invalid_response Redacted
    record_invalid-Audited runs response issues e h =
        record_model_run-Audited runs ModelRunStatus.invalid_response _ _ _ refl refl
          (
            refl,
            refl,
            (
              response,
              redacted_invalid_response response (length issues),
              e,
              refl,
              (length issues, refl),
            ),
          )
          h

    check_semantics-Audited :
        (runs : List RunRow) (response : Bytes) (p : ArticleProposal) {recorded : Recorded}
        → model.generate prompt ≡ some response
        → check_semantics u json model run r runs hash response p ≡ ok recorded
        → Audited runs recorded
    unfolding check_semantics record_completed
    check_semantics-Audited runs response p e h =
        let (issues, validated, rest) = >>=-eq-ok (escape_error (validate_response u p r)) _ h in
        elim (Bool-cases (is_empty issues)) [
          | inl clean ↦
              record_model_run-Audited runs ModelRunStatus.completed _ _ _ refl refl
                (
                  p,
                  refl,
                  refl,
                  refl,
                  validate_response-Answers u p r (
                      escape_error-ok (validate_response u p r) validated
                      ∙ ap ok (is_empty-nil issues clean)),
                )
                (if-true (is_empty issues) _ _ clean rest)
          | inr bad ↦
              record_invalid-Audited runs response issues e
                (if-false (is_empty issues) _ _ bad rest)
        ]

    check_parsed-Audited :
        (runs : List RunRow) (response : Bytes) (issues : Issues) (p : Option ArticleProposal)
        {recorded : Recorded}
        → model.generate prompt ≡ some response
        → check_parsed u json model run r runs hash response issues p ≡ ok recorded
        → Audited runs recorded
    unfolding check_parsed
    check_parsed-Audited runs response issues none e h =
        record_invalid-Audited runs response issues e h
    check_parsed-Audited runs response [] (some p) e h = check_semantics-Audited runs response p e h
    check_parsed-Audited runs response (i ∷ issues) (some p) e h =
        record_invalid-Audited runs response (i ∷ issues) e h

    check_document-Audited :
        (runs : List RunRow) (response : Bytes) (document : Option Json) {recorded : Recorded}
        → model.generate prompt ≡ some response
        → check_document u json model run r runs hash response document ≡ ok recorded
        → Audited runs recorded
    unfolding check_document
    check_document-Audited runs response none e h = record_invalid-Audited runs response _ e h
    check_document-Audited runs response (some document) e h =
        let parsed = parse_article_proposal u json.shape document in
        check_parsed-Audited runs response parsed.issues parsed.value e h

    check_response-Audited :
        (runs : List RunRow) (response : Option Bytes) {recorded : Recorded}
        → model.generate prompt ≡ response
        → check_response u json model run r runs hash response ≡ ok recorded
        → Audited runs recorded
    unfolding check_response
    check_response-Audited runs none e h =
        record_model_run-Audited runs ModelRunStatus.failed _ _ _ refl refl (refl, refl, refl, e) h
    check_response-Audited runs (some response) e h =
        check_document-Audited runs response (json.parse response) e h

  -- A run that returns has written exactly one row, with its identifier and the status that it
  -- returns. If that is `completed`, the result has a proposal that answers the request, and the
  -- row holds its document and no message. If it is `invalid_response`, the result has no proposal, the
  -- row's document has of the model's answer only the digest and the length, and its message is a fixed
  -- text. If it is `failed`, the model gave no answer, and the row has no document and a fixed text as
  -- its message. The other fields of the row are those of the run, the model and the request.
  pub generate_concept-Audited :
      (runs : List RunRow) {recorded : Recorded}
      → generate_concept u json model run r runs ≡ ok recorded
      → Audited runs recorded
  unfolding generate_concept
  generate_concept-Audited runs h =
      let (done, valid, h1) = >>=-eq-ok (require_request (validate_request u r)) _ h in
      let (prompt, built, rest) =
        >>=-eq-ok (escape_error (build_concept_prompt u json.dump_indented json.proposal_schema r))
          _ h1 in
      check_response-Audited prompt (request_hash json model prompt)
        (escape_error-ok (build_concept_prompt u json.dump_indented json.proposal_schema r) built)
        refl runs (model.generate prompt) refl rest
