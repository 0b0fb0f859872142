-- ===== src/Compiler/Publish.antt =====
-- The second half of compile in libs/compiler/src/compiler.cpp: the answer of the model, the
-- retained evidence and persist_proposal.
pub mod Superseded
pub mod Rechecked
pub mod Accepted
pub mod Published
pub mod Compiled
pub mod Failed
use wiki.Base.{
  ℕ, ◌≡◌, Bool, true, false, not, ◌&&◌, ◌||◌, Option, none, some, List, [], ◌∷◌, ◌++◌, Bytes,
  Result, ok, err, text, bytes_eq, opt_eq, ◌==◌, if◌then◌else◌, length, is_empty, any, map, ◌>>=◌,
  ◌>>◌, throw_if,
}
use wiki.Domain.Unicode.{Unicode, is_valid_source_text}
use wiki.Domain.Types.{ProposalOperation, ExtractedPage, ArticleProposal, Issues}
use wiki.Domain.Types.Names.{operation_to_string}
use wiki.Domain.Sha256.{sha256_text}
use wiki.Domain.Json.{Json, boolean, unsigned, string, object, end, field}
use wiki.Domain.Json.Write.{proposal_to_json}
use wiki.Storage.Identity.{ConceptTarget, resolve_concept}
use wiki.Models.Validator.{ProposalGenerationRequest, validate_response}
use wiki.Models.Runner.{
  JsonLibrary, Run, RunRow, ModelRunResult, ModelRunStatus, completed, invalid_response, failed,
  ModelFailure, Recorded, generate_concept,
}
use wiki.Updates.{ArticleBase, accumulate}
use wiki.Compiler.{CompilerErrorKind, CompileOptions}
use wiki.Compiler.Select.{
  SourceRow, Evidence, Owners, evidence_snapshot, is_selectable, parse_text_status, page_of,
  verify_retained_file, verify_image,
}
use wiki.Compiler.Citations.{normalize_proposal_citations}
use wiki.Compiler.Store.{
  ProposalRecord, BaseRecord, Store, catalog, supersede_open, proposal_slots, insert_slots,
  evidence_record,
}
use wiki.Compiler.Compile.{
  Failure, Services, Snapshots, Prepared, throwing, escaping, rethrow, fail, pages_of, has_page,
  first_issue, of_model, check_destination, is_additive, operation_for, request_for, prepare,
}

-- Why an answer is refused, and what its run is marked with, if it is.
pub record Refusal : Type 0 where
  pub failure : Failure
  pub diagnostic : Option Json

abbrev refusal : Failure → Refusal
refusal failure = record { failure = failure; diagnostic = none }

unfoldable pub refusing : {A : Type 0} → Result Failure A → Result Refusal A
refusing (ok a) = ok a
refusing (err f) = err (refusal f)

unfoldable pub diagnostic_of : JsonLibrary → ArticleProposal → ℕ → Json
diagnostic_of json p issue_count =
    let serialized : Bytes = json.dump (proposal_to_json p) in
    object (
      field (text "redacted") (boolean true) (
        field (text "response_bytes") (unsigned (length serialized)) (
          field (text "response_sha256") (string (sha256_text serialized))
            (field (text "validation_issue_count") (unsigned issue_count) end))))

unfoldable pub model_failed : Issues → Failure
model_failed issues =
    fail CompilerErrorKind.model_failed (first_issue issues (text "local model request failed"))

unfoldable pub model_invalid : Issues → Failure
model_invalid issues =
    fail CompilerErrorKind.validation_failed
      (first_issue issues (text "model response failed proposal validation"))

-- The proposal of a run that completed with one
unfoldable pub proposal_of :
    ModelRunStatus → Option ArticleProposal → Issues → Result Refusal ArticleProposal
proposal_of failed p issues = err (refusal (model_failed issues))
proposal_of invalid_response p issues = err (refusal (model_invalid issues))
proposal_of completed none issues = err (refusal (model_invalid issues))
proposal_of completed (some p) issues = ok p

unfoldable pub require_valid : JsonLibrary → ArticleProposal → Issues → Result Refusal (Unit {0})
require_valid json p [] = ok tt
require_valid json p (i ∷ issues) = err (record {
  failure =
      fail CompilerErrorKind.validation_failed
        (first_issue (i ∷ issues) (text "proposal failed compiler validation"));
  diagnostic = some (diagnostic_of json p (length (i ∷ issues)));
})

unfoldable pub require_retained : Issues → Result Failure (Unit {0})
require_retained [] = ok tt
require_retained (i ∷ issues) = err (
    fail CompilerErrorKind.validation_failed
      (first_issue (i ∷ issues) (text "retained evidence is invalid")))

-- `UPDATE model_runs SET … WHERE run_id = ?`
unfoldable pub mark_run : Bytes → Json → RunRow → RunRow
mark_run run_id diagnostic r =
    if bytes_eq r.run_id run_id
    then record r {
      status = invalid_response;
      response_json = some diagnostic;
      error_message = some (text "model response failed compiler validation");
    }
    else r

unfoldable pub evidence_eq : Evidence → Evidence → Bool
evidence_eq a b =
    bytes_eq a.page_id b.page_id
    && bytes_eq a.version_id b.version_id
    && a.page_number == b.page_number
    && bytes_eq a.image_path b.image_path
    && bytes_eq a.text b.text
    && bytes_eq a.status b.status
    && bytes_eq a.source_id b.source_id
    && bytes_eq a.source_name b.source_name
    && a.revision == b.revision
    && bytes_eq a.text_sha256 b.text_sha256
    && bytes_eq a.image_sha256 b.image_sha256
    && bytes_eq a.stored_path b.stored_path
    && bytes_eq a.source_sha256 b.source_sha256

-- The row of a page, which is a current one of an active source where `latest` asks for it.
unfoldable pub find_source : Bool → Bytes → List SourceRow → Option SourceRow
find_source latest id [] = none
find_source latest id (row ∷ rows) =
    let later = find_source latest id rows in
    if bytes_eq row.page_id id && (not latest || is_selectable row) then some row else later

unfoldable pub selected_changed : Failure
selected_changed =
    fail CompilerErrorKind.validation_failed
      (text "selected evidence changed during generation; review and compile again")

unfoldable pub base_changed : Failure
base_changed =
    fail CompilerErrorKind.validation_failed
      (text "base article revision changed during generation; compile and review again")

pub record CompileResult : Type 0 where
  pub proposal_id : Bytes
  pub model_run_id : Bytes
  pub operation : ProposalOperation
  pub article_id : Option Bytes
  pub selected_page_count : ℕ

module _ (u : Unicode) (v : Services) where
  unfoldable pub respond :
      ProposalGenerationRequest → ModelRunResult → Result Refusal ArticleProposal
  respond r result = do
    answer ← proposal_of result.status result.proposal result.issues
    let p = normalize_proposal_citations r.pages answer
    issues ← refusing (escaping (validate_response u p r))
    require_valid v.json p issues
    ok p

  -- One row of `retain_evidence`
  unfoldable pub retain_row : SourceRow → Result Failure (ExtractedPage × Evidence)
  retain_row row = do
    let e = evidence_snapshot row
    rethrow CompilerErrorKind.validation_failed (do
      throw_if
          (not (is_valid_source_text u row.text)
            || not (bytes_eq (sha256_text row.text) row.text_sha256))
          (text "retained page text is corrupt")
      verify_retained_file v.owners.files v.owners.sources row.stored_path row.source_sha256
      verify_image v.owners.files v.owners.cache row.image_path e.image_sha256)
    status ← throwing (parse_text_status row.text_status)
    ok (page_of row status, e)

  unfoldable pub retain_evidence : List SourceRow → Snapshots → Result Failure Snapshots
  retain_evidence [] snapshots = ok snapshots
  retain_evidence (row ∷ rows) snapshots =
      let retained : Result Failure Snapshots = (do
        entry ← retain_row row
        retain_evidence rows (snapshots ++ entry ∷ [])) in
      let skipped = retain_evidence rows snapshots in
      if has_page snapshots row.page_id then skipped else retained

  -- What was approved, with the additions, and the pages that either of them cites
  unfoldable pub merge_base :
      ConceptTarget
      → Snapshots
      → ArticleBase
      → ArticleProposal
      → Result Failure (ArticleProposal × Snapshots)
  merge_base target selected base p = do
    merged ← escaping (accumulate u base.proposal p)
    snapshots ← retain_evidence (v.cited_pages base.apply_run_id) selected
    issues ← escaping (validate_response u merged (request_for target (some base) false snapshots))
    require_retained issues
    ok (merged, snapshots)

  -- `if (base && !options.regenerate)`
  unfoldable pub reconcile_with :
      ConceptTarget
      → Snapshots
      → Option ArticleBase
      → Bool
      → ArticleProposal
      → Result Failure (ArticleProposal × Snapshots)
  reconcile_with target selected none regenerate p = ok (p, selected)
  reconcile_with target selected (some base) true p = ok (p, selected)
  reconcile_with target selected (some base) false p = merge_base target selected base p

  unfoldable pub reconcile :
      Prepared → Bool → ArticleProposal → Result Failure (ArticleProposal × Snapshots)
  reconcile prepared regenerate p =
      reconcile_with prepared.target prepared.snapshots prepared.base regenerate p

  unfoldable pub recheck_base : Option Bytes → Option ArticleBase → Result Failure (Unit {0})
  recheck_base article_id none = ok tt
  recheck_base none (some base) = ok tt
  recheck_base (some id) (some base) = do
    current ← rethrow CompilerErrorKind.validation_failed (v.load_base id)
    throw_if
        (not (bytes_eq current.apply_run_id base.apply_run_id)
          || not (bytes_eq current.managed_sha256 base.managed_sha256))
        base_changed

  unfoldable pub recheck_row : Evidence → Option SourceRow → Result Failure (Unit {0})
  recheck_row expected none = err selected_changed
  recheck_row expected (some row) = do
    throw_if (not (evidence_eq (evidence_snapshot row) expected)) selected_changed
    rethrow CompilerErrorKind.validation_failed (do
      verify_retained_file v.owners.files v.owners.sources row.stored_path row.source_sha256
      verify_image v.owners.files v.owners.cache row.image_path
          (evidence_snapshot row).image_sha256)

  -- `latest` are the pages that were selected for this compilation.
  unfoldable pub recheck_evidence :
      List SourceRow → Snapshots → Snapshots → Result Failure (Unit {0})
  recheck_evidence sources latest [] = ok tt
  recheck_evidence sources latest ((page, e) ∷ snapshots) = do
    recheck_row e (find_source (has_page latest page.page_id) page.page_id sources)
    recheck_evidence sources latest snapshots

  unfoldable pub base_records : Option ArticleBase → Bool → List BaseRecord
  base_records none regenerate = []
  base_records (some base) regenerate =
      record {
        proposal_id = v.proposal_id;
        base_apply_run_id = base.apply_run_id;
        managed_sha256 = base.managed_sha256;
        update_mode = if regenerate then text "regenerate" else text "additive";
      }
      ∷ []

  unfoldable pub new_proposal : Option Bytes → ArticleProposal → ProposalRecord
  new_proposal article_id p = record {
    proposal_id = v.proposal_id;
    article_id = article_id;
    model_run_id = v.run.run_id;
    operation = operation_to_string p.operation;
    payload = proposal_to_json p;
    status = text "pending";
    created_at = v.now;
  }

  -- The writes of the transaction
  unfoldable pub write_proposal :
      Store → Prepared → Bool → List Bytes → ArticleProposal → Snapshots → Store
  write_proposal s prepared regenerate creates p snapshots = record s {
    proposals =
        supersede_open prepared.target.article_id creates s.proposals
        ++ new_proposal prepared.target.article_id p ∷ [];
    bases = s.bases ++ base_records prepared.base regenerate;
    evidence =
        s.evidence
        ++ map (λ (x : ExtractedPage × Evidence). evidence_record v.proposal_id x.1) snapshots;
    citations = insert_slots v.proposal_id (proposal_slots p) s.citations;
  }

  -- Everything is checked again under the write lock; what is thrown leaves the tables as they were.
  unfoldable pub persist_proposal :
      Store → Prepared → Bool → ArticleProposal → Snapshots → Result Failure Store
  persist_proposal s prepared regenerate p snapshots = do
    recheck_base prepared.target.article_id prepared.base
    recheck_evidence s.sources prepared.snapshots snapshots
    current ←
        rethrow CompilerErrorKind.invalid_concept
          (resolve_concept u (catalog s) p.article.title true)
    check_destination u v s current prepared.target.article_id
    throw_if
        (not (opt_eq current.article_id prepared.target.article_id)
          || not (bytes_eq current.title p.article.title)
          || not (bytes_eq current.slug p.article.slug))
        (fail CompilerErrorKind.invalid_concept
          (text "concept identity changed during generation; compile again"))
    throw_if (not v.publish_ok)
        (fail CompilerErrorKind.state_error (text "could not persist proposal"))
    ok (write_proposal s prepared regenerate current.pending_creates p snapshots)

  -- `mark_model_run_invalid`, where the answer was refused by the compiler's own validation
  unfoldable pub refuse_with : Store → Failure → Option Json → Store × Failure
  refuse_with s failure none = (s, failure)
  refuse_with s failure (some d) =
      if v.mark_ok then (record s { runs = map (mark_run v.run.run_id d) s.runs }, failure) else (
        s,
        fail CompilerErrorKind.state_error (text "could not update model-run validation state"),
      )

  unfoldable pub refuse : Store → Refusal → Store × Failure
  refuse s refused = refuse_with s refused.failure refused.diagnostic

  unfoldable pub result_for : Prepared → CompileResult
  result_for prepared = record {
    proposal_id = v.proposal_id;
    model_run_id = v.run.run_id;
    operation = operation_for prepared.target.article_id;
    article_id = prepared.target.article_id;
    selected_page_count = length prepared.snapshots;
  }

  unfoldable pub publish : Store → Prepared → Bool → ArticleProposal → Result Failure Store
  publish s prepared regenerate p = do
    reconciled ← reconcile prepared regenerate p
    persist_proposal s prepared regenerate reconciled.0 reconciled.1

  abbrev pub Compiled : Type 0
  Compiled = Store × Result Failure CompileResult

  unfoldable pub published : Store → Prepared → Result Failure Store → Compiled
  published s prepared (err f) = (s, err f)
  published s prepared (ok t) = (t, ok (result_for prepared))

  unfoldable pub answered : Store → Prepared → Bool → Result Refusal ArticleProposal → Compiled
  answered s prepared regenerate (err refused) = let (t, f) = refuse s refused in (t, err f)
  answered s prepared regenerate (ok p) = published s prepared (publish s prepared regenerate p)

  unfoldable pub asked :
      Store → Prepared → Bool → ProposalGenerationRequest → Result Failure Recorded → Compiled
  asked s prepared regenerate r (err f) = (s, err f)
  asked s prepared regenerate r (ok (runs, result)) =
      answered (record s { runs = runs }) prepared regenerate (respond r result)

  unfoldable pub prepared_compile : Store → CompileOptions → Result Failure Prepared → Compiled
  prepared_compile s options (err f) = (s, err f)
  prepared_compile s options (ok prepared) =
      let r = request_for prepared.target prepared.base options.regenerate prepared.snapshots in
      asked s prepared options.regenerate r
        (of_model (generate_concept u v.json v.model v.run r s.runs))

  unfoldable pub compile : Store → CompileOptions → Compiled
  compile s options = prepared_compile s options (prepare u v s options)
