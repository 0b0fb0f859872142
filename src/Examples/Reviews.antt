-- ===== src/Examples/Reviews.antt =====
-- Tables of a review: a cited page, and a pending and an applied proposal.
use wiki.Base.{Bool, true, false, none, some, [], ◌∷◌, Bytes, codes, text}
use wiki.Review.{PageRow, ProposalRow, ReviewState, PageCorrectionResult}

abbrev pub row : Bytes → Bool → PageRow
row body current = record {
  page_id = codes "p1";
  source_version_id = codes "v";
  page_number = 1;
  image_path = none;
  text = body;
  text_status = text "native";
  text_sha256 = body;
  image_sha256 = none;
  evidence_revision = 0;
  is_current = current;
  supersedes_page_id = none;
}

abbrev pub corrected_row : PageRow
corrected_row = record {
  page_id = codes "p2";
  source_version_id = codes "v";
  page_number = 1;
  image_path = none;
  text = codes "new";
  text_status = text "reviewed";
  text_sha256 = codes "new";
  image_sha256 = none;
  evidence_revision = 1;
  is_current = true;
  supersedes_page_id = some (codes "p1");
}

abbrev pub proposal_row : Bytes → Bytes → ProposalRow
proposal_row id status = record {
  proposal_id = id;
  status = status;
  reviewed_at = none;
  review_reason = none;
}

abbrev pub before_review : ReviewState
before_review = record {
  pages = row (codes "old") true ∷ [];
  references = codes "p1" ∷ [];
  proposals =
      proposal_row (codes "a") (text "approved") ∷ proposal_row (codes "b") (text "applied") ∷ [];
  approvals = codes "a" ∷ codes "b" ∷ [];
}

abbrev pub after_correction : ReviewState
after_correction = record before_review { pages = row (codes "old") false ∷ corrected_row ∷ [] }

abbrev pub correction : PageCorrectionResult
correction = record {
  source_version_id = codes "v";
  page_id = codes "p2";
  previous_page_id = some (codes "p1");
  page_number = 1;
  text_sha256 = codes "new";
}

abbrev pub after_revocation : ReviewState
after_revocation = record before_review {
  proposals =
      proposal_row (codes "a") (text "pending") ∷ proposal_row (codes "b") (text "applied") ∷ [];
  approvals = codes "b" ∷ [];
}
