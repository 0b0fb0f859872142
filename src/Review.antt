-- ===== src/Review.antt =====
-- libs/review/src/review_service.cpp: the corrections of pages and the decisions on proposals. The tables
-- are lists of rows; a transaction that throws leaves the state that it began with.
pub mod Evidence
pub mod Decisions
use wiki.Base.{
  ℕ, ◌+◌, ◌≡◌, Bool, true, false, not, ◌&&◌, ◌||◌, Option, none, some, List, [], ◌∷◌, ◌++◌, Bytes,
  text, Result, ok, err, ◌>>=◌, ◌>>◌, throw_if, ltb, ◌==◌, if◌then◌else◌, length, any, map,
  bytes_eq,
}
use wiki.Domain.Unicode.{Unicode, is_valid_source_text}
use wiki.Models.Whitespace.{is_space}

pub data ReviewErrorKind : Type 0 where
  invalid_project source_not_found page_not_found proposal_not_found invalid_state invalid_input
        state_error :
      ReviewErrorKind

pub record ReviewError : Type 0 where
  pub kind : ReviewErrorKind
  pub message : Bytes

abbrev pub review_error : ReviewErrorKind → Bytes → ReviewError
review_error kind message = record { kind = kind; message = message }

unfoldable pub has_visible_text : Bytes → Bool
has_visible_text s = any (λ c. not (is_space c)) s

-- A row of `source_pages`.
pub record PageRow : Type 0 where
  pub page_id : Bytes
  pub source_version_id : Bytes
  pub page_number : ℕ
  pub image_path : Option Bytes
  pub text : Bytes
  pub text_status : Bytes
  pub text_sha256 : Bytes
  pub image_sha256 : Option Bytes
  pub evidence_revision : ℕ
  pub is_current : Bool
  pub supersedes_page_id : Option Bytes

-- A row of `proposals`.
pub record ProposalRow : Type 0 where
  pub proposal_id : Bytes
  pub status : Bytes
  pub reviewed_at : Option Bytes
  pub review_reason : Option Bytes

-- `references` are the pages that rows of `proposal_citations` and `proposal_evidence` name, and
-- `approvals` the proposals of the rows of `proposal_approvals`.
pub record ReviewState : Type 0 where
  pub pages : List PageRow
  pub references : List Bytes
  pub proposals : List ProposalRow
  pub approvals : List Bytes

pub record PageCorrectionResult : Type 0 where
  pub source_version_id : Bytes
  pub page_id : Bytes
  pub previous_page_id : Option Bytes
  pub page_number : ℕ
  pub text_sha256 : Bytes

unfoldable pub is_referenced : List Bytes → Bytes → Bool
is_referenced references id = any (λ r. bytes_eq r id) references

unfoldable pub is_current_page : Bytes → ℕ → PageRow → Bool
is_current_page version number p =
    bytes_eq p.source_version_id version && p.page_number == number && p.is_current

unfoldable pub find_current : Bytes → ℕ → List PageRow → Result ReviewError PageRow
find_current version number [] =
    err (review_error ReviewErrorKind.page_not_found (text "source version has no extracted page"))
find_current version number (p ∷ pages) =
    if is_current_page version number p then ok p else find_current version number pages

-- `expected && *expected != actual`
unfoldable pub differs : Option Bytes → Bytes → Bool
differs none actual = false
differs (some expected) actual = not (bytes_eq expected actual)

-- `UPDATE source_pages SET is_current = 0 WHERE page_id = ?`
unfoldable pub retire : Bytes → PageRow → PageRow
retire id p = if bytes_eq p.page_id id then record p { is_current = false } else p

-- `INSERT … SELECT …` of the rows with an identifier, under a new one
unfoldable pub copies_of : Bytes → Bytes → List PageRow → List PageRow
copies_of id fresh [] = []
copies_of id fresh (p ∷ pages) =
    let rest = copies_of id fresh pages in
    if bytes_eq p.page_id id
    then record p { page_id = fresh; is_current = true; supersedes_page_id = some p.page_id } ∷ rest
    else rest

unfoldable pub has_key : Bytes → Bytes → PageRow → Bool
has_key id version p = bytes_eq p.page_id id && bytes_eq p.source_version_id version

unfoldable pub correct : Bytes → Bytes → Bytes → Bytes → PageRow → PageRow
correct id version corrected hash p =
    if has_key id version p
    then record p {
      text = corrected;
      text_status = text "reviewed";
      evidence_revision = p.evidence_revision + 1;
      text_sha256 = hash;
    }
    else p

-- `sqlite3_changes`: how many rows the update met
unfoldable pub changed_pages : Bytes → Bytes → List PageRow → ℕ
changed_pages id version [] = 0
changed_pages id version (p ∷ pages) =
    let rest = changed_pages id version pages in if has_key id version p then 1 + rest else rest

-- The pages before the update, and the identifier that it is for.
unfoldable pub prepare_pages : ReviewState → Bytes → Bytes → Bool → List PageRow × Bytes
prepare_pages s id fresh false = (s.pages, id)
prepare_pages s id fresh true =
    (map (retire id) s.pages ++ copies_of id fresh (map (retire id) s.pages), fresh)

unfoldable pub write_prepared :
    ReviewState
    → PageRow
    → Bytes
    → Bytes
    → List PageRow
    → Bytes
    → Result ReviewError (ReviewState × PageCorrectionResult)
write_prepared s page corrected hash pages id = do
  throw_if (not (changed_pages id page.source_version_id pages == 1))
      (review_error ReviewErrorKind.state_error (text "page disappeared while applying correction"))
  ok (
    record s { pages = map (correct id page.source_version_id corrected hash) pages },
    record {
      source_version_id = page.source_version_id;
      page_id = id;
      previous_page_id = if bytes_eq id page.page_id then none else some page.page_id;
      page_number = page.page_number;
      text_sha256 = hash;
    },
  )

unfoldable pub write_correction :
    ReviewState
    → PageRow
    → Bytes
    → Bytes
    → Bytes
    → Bool
    → Result ReviewError (ReviewState × PageCorrectionResult)
write_correction s page corrected hash fresh referenced =
    let prepared = prepare_pages s page.page_id fresh referenced in
    write_prepared s page corrected hash prepared.0 prepared.1

unfoldable pub is_accepted : PageRow → Bytes → Bool
is_accepted page hash =
    bytes_eq page.text_status (text "reviewed") && bytes_eq page.text_sha256 hash

-- `version` is the latest version of the source with its file verified, or the exception of that; `fresh` is
-- what `generate_page_id` returns.
unfoldable pub correct_page_text :
    Unicode
    → (Bytes → Bytes)
    → Result ReviewError Bytes
    → Bytes
    → ℕ
    → Bytes
    → Option Bytes
    → Option Bytes
    → ReviewState
    → Result ReviewError (ReviewState × PageCorrectionResult)
correct_page_text u sha version fresh number corrected expected_page_id expected_text_sha256 s = do
  throw_if (number == 0)
      (review_error ReviewErrorKind.invalid_input (text "page number must be at least 1"))
  throw_if (not (is_valid_source_text u corrected) || not (has_visible_text corrected)) (
      review_error ReviewErrorKind.invalid_input
        (text "corrected page text must be visible UTF-8 without embedded NULs"))
  v ← version
  page ← find_current v number s.pages
  throw_if (differs expected_page_id page.page_id || differs expected_text_sha256 page.text_sha256)
      (review_error ReviewErrorKind.invalid_state
        (text "page changed during review; inspect it again"))
  (if is_accepted page (sha corrected)
      then ok (
        s,
        record {
          source_version_id = v;
          page_id = page.page_id;
          previous_page_id = none;
          page_number = number;
          text_sha256 = page.text_sha256;
        },
      )
      else write_correction s page corrected (sha corrected) fresh
          (is_referenced s.references page.page_id))

unfoldable pub bad_reason : Option Bytes → Result ReviewError (Unit {0})
bad_reason none = ok tt
bad_reason (some reason) = do
  throw_if (ltb 4096 (length reason)) (
      review_error ReviewErrorKind.invalid_input
        (text "rejection reason must be at most 4096 bytes"))
  throw_if (not (has_visible_text reason)) (
      review_error ReviewErrorKind.invalid_input
        (text "rejection reason must contain visible text"))

unfoldable pub find_proposal : Bytes → List ProposalRow → Result ReviewError ProposalRow
find_proposal id [] =
    err (review_error ReviewErrorKind.proposal_not_found (text "proposal does not exist"))
find_proposal id (p ∷ proposals) =
    if bytes_eq p.proposal_id id then ok p else find_proposal id proposals

unfoldable pub is_open : ProposalRow → Bool
is_open p = bytes_eq p.status (text "pending") || bytes_eq p.status (text "approved")

-- An `UPDATE` of the rows that a condition holds of, and how many they are.
unfoldable pub update_rows :
    (ProposalRow → Bool) → (ProposalRow → ProposalRow) → List ProposalRow → List ProposalRow
update_rows p f rows = map (λ row. if p row then f row else row) rows

unfoldable pub count_rows : (ProposalRow → Bool) → List ProposalRow → ℕ
count_rows p [] = 0
count_rows p (row ∷ rows) = let rest = count_rows p rows in if p row then 1 + rest else rest

-- `DELETE FROM proposal_approvals WHERE proposal_id = ?`
unfoldable pub clear_approvals : Bytes → List Bytes → List Bytes
clear_approvals id [] = []
clear_approvals id (a ∷ approvals) =
    let rest = clear_approvals id approvals in if bytes_eq a id then rest else a ∷ rest

unfoldable pub is_open_proposal : Bytes → ProposalRow → Bool
is_open_proposal id row = bytes_eq row.proposal_id id && is_open row

unfoldable pub reject_row : Bytes → Option Bytes → ProposalRow → ProposalRow
reject_row now reason row = record row {
  status = text "rejected";
  reviewed_at = some now;
  review_reason = reason;
}

unfoldable pub reject_proposal :
    Bytes → Bytes → Option Bytes → ReviewState → Result ReviewError ReviewState
reject_proposal now id reason s = do
  bad_reason reason
  found ← find_proposal id s.proposals
  throw_if (not (is_open found)) (
      review_error ReviewErrorKind.invalid_state
        (text "only pending or unused approved work can be rejected"))
  throw_if (not (count_rows (is_open_proposal id) s.proposals == 1)) (
      review_error ReviewErrorKind.invalid_state (text "proposal is no longer pending or approved"))
  ok (record s {
    proposals = update_rows (is_open_proposal id) (reject_row now reason) s.proposals;
    approvals = clear_approvals id s.approvals;
  })

unfoldable pub is_approved_proposal : Bytes → ProposalRow → Bool
is_approved_proposal id row = bytes_eq row.proposal_id id && bytes_eq row.status (text "approved")

unfoldable pub reopen_row : ProposalRow → ProposalRow
reopen_row row = record row { status = text "pending"; reviewed_at = none; review_reason = none }

unfoldable pub revoke_approval : Bytes → ReviewState → Result ReviewError ReviewState
revoke_approval id s = do
  throw_if (not (count_rows (is_approved_proposal id) s.proposals == 1))
      (review_error ReviewErrorKind.invalid_state (text "only an unused approval can be revoked"))
  ok (record s {
    proposals = update_rows (is_approved_proposal id) reopen_row s.proposals;
    approvals = clear_approvals id s.approvals;
  })
