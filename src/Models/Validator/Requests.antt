-- ===== src/Models/Validator/Requests.antt =====
-- What an accepted request satisfies.
use wiki.Base.{
  ℕ, ◌+◌, ◌≡◌, ◌≢◌, false, List, [], ◌∷◌, Bytes, bytes_eq, is_empty, any, append-eq-nil,
}
use wiki.Domain.Unicode.{Unicode}
use wiki.Domain.Types.{TextStatus, ExtractedPage}
use wiki.Models.Validator.{ProposalGenerationRequest, status_issues, page_issues, validate_request}
use wiki.Models.Validator.Grounded.{issue_when-nil}

-- Text that a model may see: extracted natively or reviewed by a person.
abbrev pub IsReady : TextStatus → Type 0
IsReady TextStatus.native = Unit
IsReady TextStatus.reviewed = Unit
IsReady TextStatus.ocr_unreviewed = ⊥
IsReady TextStatus.failed = ⊥

-- Every page is ready, and none has an identifier that was seen before.
abbrev pub IsEvidence : List Bytes → List ExtractedPage → Type 0
IsEvidence seen [] = Unit
IsEvidence seen (page ∷ pages) =
    IsReady page.text_status
    × (any (bytes_eq page.page_id) seen ≡ false)
    × IsEvidence (page.page_id ∷ seen) pages

status_issues-IsReady : (path : Bytes) (s : TextStatus) → status_issues path s ≡ [] → IsReady s
unfolding status_issues
status_issues-IsReady path TextStatus.native h = tt
status_issues-IsReady path TextStatus.reviewed h = tt
status_issues-IsReady path TextStatus.ocr_unreviewed h = cc
status_issues-IsReady path TextStatus.failed h = cc

page_issues-IsEvidence :
    (u : Unicode) (i : ℕ) (seen : List Bytes) (pages : List ExtractedPage)
    → page_issues u i seen pages ≡ []
    → IsEvidence seen pages
unfolding page_issues
page_issues-IsEvidence u i seen [] h = tt
page_issues-IsEvidence u i seen (page ∷ pages) h =
    let (here_, rest) = append-eq-nil _ _ h in
    let (h1, unique) = append-eq-nil _ _ here_ in
    let (valid, ready) = append-eq-nil _ _ h1 in
    (
      status_issues-IsReady _ _ ready,
      issue_when-nil _ _ _ unique,
      page_issues-IsEvidence u (i + 1) (page.page_id ∷ seen) pages rest,
    )

is_empty-false {ℓ} : {A : Type ℓ} (xs : List A) → is_empty xs ≡ false → xs ≢ []
is_empty-false [] h e = cc
is_empty-false (x ∷ xs) h e = cc

-- A request with no issue brings at least one page, all of them native or reviewed text, no two
-- with one identifier: OCR that nobody reviewed and failed extractions never reach a model.
pub validate_request-IsEvidence :
    (u : Unicode) (r : ProposalGenerationRequest)
    → validate_request u r ≡ []
    → (r.pages ≢ []) × IsEvidence [] r.pages
unfolding validate_request
validate_request-IsEvidence u r h =
    let (h6, pages) = append-eq-nil _ _ h in
    let (h5, id) = append-eq-nil _ _ h6 in
    let (h4, update) = append-eq-nil _ _ h5 in
    let (h3, operation) = append-eq-nil _ _ h4 in
    let (h2, create) = append-eq-nil _ _ h3 in
    let (h1, nonempty) = append-eq-nil _ _ h2 in
    (is_empty-false _ (issue_when-nil _ _ _ nonempty), page_issues-IsEvidence u 0 [] r.pages pages)
