-- ===== src/Domain/Types/Names.antt =====
-- The names that JSON and SQLite hold for the enumerations: `to_string` of
-- libs/domain/src/types.cpp, and the `parse_…` functions of libs/review/src/review_service.cpp.
use wiki.Base.{Bytes, ◌≡◌, refl, Result, ok, err, text, bytes_eq, if◌then◌else◌}
use wiki.Domain.Types.{
  SourceKind, TextStatus, ProposalOperation, ProposalStatus, SectionKey, BlockKind,
}

unfoldable pub kind_to_string : SourceKind → Bytes
kind_to_string SourceKind.pdf = text "pdf"
kind_to_string SourceKind.markdown = text "markdown"
kind_to_string SourceKind.plain = text "text"

unfoldable pub status_to_string : TextStatus → Bytes
status_to_string TextStatus.native = text "native"
status_to_string TextStatus.ocr_unreviewed = text "ocr_unreviewed"
status_to_string TextStatus.reviewed = text "reviewed"
status_to_string TextStatus.failed = text "failed"

unfoldable pub operation_to_string : ProposalOperation → Bytes
operation_to_string ProposalOperation.create_article = text "create_article"
operation_to_string ProposalOperation.update_article = text "update_article"

unfoldable pub proposal_to_string : ProposalStatus → Bytes
proposal_to_string ProposalStatus.pending = text "pending"
proposal_to_string ProposalStatus.approved = text "approved"
proposal_to_string ProposalStatus.rejected = text "rejected"
proposal_to_string ProposalStatus.applied = text "applied"
proposal_to_string ProposalStatus.superseded = text "superseded"

unfoldable pub key_to_string : SectionKey → Bytes
key_to_string SectionKey.working_explanation = text "working_explanation"
key_to_string SectionKey.key_ideas = text "key_ideas"
key_to_string SectionKey.example = text "example"
key_to_string SectionKey.related_concepts = text "related_concepts"

unfoldable pub block_to_string : BlockKind → Bytes
block_to_string BlockKind.paragraph = text "paragraph"
block_to_string BlockKind.bullet = text "bullet"

-- The exception is a `ReviewError` of kind `state_error`; its message is kept.
unfoldable pub parse_source_kind : Bytes → Result Bytes SourceKind
parse_source_kind value =
    if bytes_eq value (text "pdf")
    then ok SourceKind.pdf
    else if bytes_eq value (text "markdown")
    then ok SourceKind.markdown
    else if bytes_eq value (text "text")
    then ok SourceKind.plain
    else err (text "project database contains an unknown source kind")

unfoldable pub parse_text_status : Bytes → Result Bytes TextStatus
parse_text_status value =
    if bytes_eq value (text "native")
    then ok TextStatus.native
    else if bytes_eq value (text "ocr_unreviewed")
    then ok TextStatus.ocr_unreviewed
    else if bytes_eq value (text "reviewed")
    then ok TextStatus.reviewed
    else if bytes_eq value (text "failed")
    then ok TextStatus.failed
    else err (text "project database contains an unknown extraction status")

unfoldable pub parse_operation : Bytes → Result Bytes ProposalOperation
parse_operation value =
    if bytes_eq value (text "create_article")
    then ok ProposalOperation.create_article
    else if bytes_eq value (text "update_article")
    then ok ProposalOperation.update_article
    else err (text "project database contains an unknown proposal operation")

unfoldable pub parse_proposal_status : Bytes → Result Bytes ProposalStatus
parse_proposal_status value =
    if bytes_eq value (text "pending")
    then ok ProposalStatus.pending
    else if bytes_eq value (text "approved")
    then ok ProposalStatus.approved
    else if bytes_eq value (text "rejected")
    then ok ProposalStatus.rejected
    else if bytes_eq value (text "applied")
    then ok ProposalStatus.applied
    else if bytes_eq value (text "superseded")
    then ok ProposalStatus.superseded
    else err (text "project database contains an unknown proposal status")

-- Every status, source kind, text status and operation that is written is read back as itself.
pub parse-to_string :
    ((s : ProposalStatus) → parse_proposal_status (proposal_to_string s) ≡ ok s)
    × ((s : TextStatus) → parse_text_status (status_to_string s) ≡ ok s)
    × ((k : SourceKind) → parse_source_kind (kind_to_string k) ≡ ok k)
    × ((o : ProposalOperation) → parse_operation (operation_to_string o) ≡ ok o)
unfolding parse_proposal_status parse_text_status parse_source_kind parse_operation
    proposal_to_string status_to_string kind_to_string operation_to_string text bytes_eq
parse-to_string = (proposal, status, kind, operation)
  where
    proposal : (s : ProposalStatus) → parse_proposal_status (proposal_to_string s) ≡ ok s
    proposal ProposalStatus.pending = refl
    proposal ProposalStatus.approved = refl
    proposal ProposalStatus.rejected = refl
    proposal ProposalStatus.applied = refl
    proposal ProposalStatus.superseded = refl

    status : (s : TextStatus) → parse_text_status (status_to_string s) ≡ ok s
    status TextStatus.native = refl
    status TextStatus.ocr_unreviewed = refl
    status TextStatus.reviewed = refl
    status TextStatus.failed = refl

    kind : (k : SourceKind) → parse_source_kind (kind_to_string k) ≡ ok k
    kind SourceKind.pdf = refl
    kind SourceKind.markdown = refl
    kind SourceKind.plain = refl

    operation : (o : ProposalOperation) → parse_operation (operation_to_string o) ≡ ok o
    operation ProposalOperation.create_article = refl
    operation ProposalOperation.update_article = refl
