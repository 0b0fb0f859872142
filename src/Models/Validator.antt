-- ===== src/Models/Validator.antt =====
-- libs/models/src/proposal_validator.cpp: requests to a model, and its answers held against the
-- pages that it was shown.
pub mod Grounded
pub mod Requests
use wiki.Base.{
  ℕ, zero, suc, ◌+◌, ◌-◌, ◌≡◌, Bool, true, false, not, ◌&&◌, ◌||◌, Option, none, some, List, [],
  ◌∷◌, ◌++◌, Bytes, Result, ok, err, text, codes, bytes_eq, ltb, leb, ◌==◌, if◌then◌else◌, length,
  is_empty, take, drop, any, map, for_index, to_decimal, ◌>>=◌,
}
use wiki.Domain.Unicode.{Unicode}
use wiki.Domain.Types.{
  TextStatus, ProposalOperation, create_article, update_article, ExtractedPage, Citation,
  ProposalBlock, ProposalSection, RelatedConcept, ArticleProposal, Issues, issue,
}
use wiki.Domain.Types.Names.{operation_to_string}
use wiki.Domain.Id.{is_valid_id}
use wiki.Domain.Concept.{normalize_concept_title, concept_filename, canonical_concept_slug}
use wiki.Domain.Concept.Slug.{is_slug}
use wiki.Domain.Validate.{prefixed, validate_page, validate_proposal}
use wiki.Models.Whitespace.{normalize_whitespace}

pub record ProposalGenerationRequest : Type 0 where
  pub concept_title : Bytes
  pub operation : ProposalOperation
  pub article_id : Option Bytes
  pub concept_slug : Option Bytes
  pub pages : List ExtractedPage
  pub additive_update : Bool

-- `if (condition) add_issue(result, path, message);`
unfoldable pub issue_when : Bool → Bytes → Bytes → Issues
issue_when true path message = issue path message ∷ []
issue_when false path message = []

-- `pages.find(id)` after `emplace` of each page in turn, which keeps the first of an identifier.
unfoldable pub find_page : List ExtractedPage → Bytes → Option ExtractedPage
find_page [] id = none
find_page (p ∷ pages) id = if bytes_eq p.page_id id then some p else find_page pages id

-- `page_text.substr(start_char, end_char - start_char)`
unfoldable pub cited_text : Bytes → Citation → Bytes
cited_text page c = take (c.end_char - c.start_char) (drop c.start_char page)

unfoldable pub check_span : Citation → Bytes → Option ExtractedPage → Issues
check_span c path none =
    issue (path ++ text "/page_id") (text "must reference a page supplied to the model") ∷ []
check_span c path (some page) =
    if leb c.end_char c.start_char || ltb (length page.text) c.end_char
    then issue path (text "citation offsets must be within the referenced page text") ∷ []
    else issue_when
        (not
          (bytes_eq (normalize_whitespace (cited_text page.text c)) (normalize_whitespace c.quote)))
        (path ++ text "/quote") (text "must match the normalized referenced page substring")

unfoldable pub ground_citation : List ExtractedPage → Bytes → Citation → Issues
ground_citation pages path c = check_span c path (find_page pages c.page_id)

unfoldable pub operation_eq : ProposalOperation → ProposalOperation → Bool
operation_eq create_article create_article = true
operation_eq create_article update_article = false
operation_eq update_article create_article = false
operation_eq update_article update_article = true

unfoldable pub id_eq : Option Bytes → Option Bytes → Bool
id_eq none none = true
id_eq none (some b) = false
id_eq (some a) none = false
id_eq (some a) (some b) = bytes_eq a b

unfoldable pub is_some : Option Bytes → Bool
is_some none = false
is_some (some a) = true

-- The `try` block over the title: the issue, or the exception's message.
slug_mismatch : Unicode → ProposalGenerationRequest → Option Bytes → Result Bytes Bool
slug_mismatch u r none = ok false
slug_mismatch u r (some slug) =
    if operation_eq r.operation create_article
    then (do
      canonical ← canonical_concept_slug u r.concept_title
      ok (not (bytes_eq slug canonical)))
    else ok false

title_result : Result Bytes Bool → Issues
title_result (ok mismatch) =
    issue_when mismatch (text "/concept_slug") (text "must be canonical for a create request")
title_result (err message) = issue (text "/concept") message ∷ []

unfoldable pub title_issues : Unicode → ProposalGenerationRequest → Issues
unfolding slug_mismatch title_result
title_issues u r = title_result (do
  shown ← normalize_concept_title u r.concept_title
  filename ← concept_filename u r.concept_title
  slug_mismatch u r r.concept_slug)

slug_issues : Option Bytes → Issues
slug_issues none = []
slug_issues (some slug) =
    issue_when (not (is_slug slug)) (text "/concept_slug")
      (text "must be a lowercase kebab-case slug")

id_issues : Option Bytes → Issues
id_issues none = []
id_issues (some id) =
    issue_when (not (is_valid_id id (codes "art_"))) (text "/article_id")
      (text "must be an art_ ULID")

unfoldable pub status_issues : Bytes → TextStatus → Issues
status_issues path TextStatus.native = []
status_issues path TextStatus.reviewed = []
status_issues path TextStatus.ocr_unreviewed =
    issue (path ++ text "/text_status") (text "OCR evidence must be reviewed before model use") ∷ []
status_issues path TextStatus.failed =
    issue (path ++ text "/text_status") (text "failed extraction cannot be used as model evidence")
    ∷ []

-- The loop over the pages; `seen` is the set `page_ids`.
unfoldable pub page_issues : Unicode → ℕ → List Bytes → List ExtractedPage → Issues
page_issues u index seen [] = []
page_issues u index seen (page ∷ pages) =
    let path : Bytes = text "/pages/" ++ to_decimal index in
    (prefixed path (validate_page u page)
      ++ status_issues path page.text_status
      ++ issue_when (any (bytes_eq page.page_id) seen) (path ++ text "/page_id")
          (text "must be unique within model evidence"))
    ++ page_issues u (index + 1) (page.page_id ∷ seen) pages

unfoldable pub validate_request : Unicode → ProposalGenerationRequest → Issues
unfolding slug_issues id_issues
validate_request u r =
    title_issues u r
    ++ slug_issues r.concept_slug
    ++ issue_when (is_empty r.pages) (text "/pages")
        (text "must contain at least one evidence page")
    ++ issue_when (operation_eq r.operation create_article && is_some r.article_id)
        (text "/article_id") (text "must be absent for a create_article request")
    ++ issue_when (is_empty (operation_to_string r.operation)) (text "/operation")
        (text "must be a supported operation")
    ++ issue_when (operation_eq r.operation update_article && not (is_some r.article_id))
        (text "/article_id") (text "is required for an update_article request")
    ++ id_issues r.article_id
    ++ page_issues u 0 [] r.pages

unfoldable pub value_or : Option Bytes → Bytes → Bytes
value_or none d = d
value_or (some a) d = a

unfoldable pub ground_citations : List ExtractedPage → Bytes → List Citation → Issues
ground_citations pages path cs =
    for_index (λ k c. ground_citation pages (path ++ text "/citations/" ++ to_decimal k) c) 0 cs

unfoldable pub ground_section : List ExtractedPage → ℕ → ProposalSection → Issues
ground_section pages i section =
    for_index
      (λ j block.
        ground_citations pages
          (text "/sections/" ++ to_decimal i ++ text "/blocks/" ++ to_decimal j) block.citations)
      0 section.blocks

unfoldable pub ground_related : List ExtractedPage → ℕ → RelatedConcept → Issues
ground_related pages i related =
    ground_citations pages (text "/related_concepts/" ++ to_decimal i) related.citations

unfoldable pub response_issues :
    Unicode → ArticleProposal → ProposalGenerationRequest → Bytes → Issues
response_issues u p r canonical =
    validate_proposal u p
    ++ issue_when (not (operation_eq p.operation r.operation)) (text "/operation")
        (text "must match the requested operation")
    ++ issue_when (not (bytes_eq p.article.title r.concept_title)) (text "/article/title")
        (text "must exactly match the requested concept title")
    ++ issue_when (not (bytes_eq p.article.slug (value_or r.concept_slug canonical)))
        (text "/article/slug") (text "must equal the canonical slug for the requested concept")
    ++ issue_when (not (id_eq p.article.article_id r.article_id)) (text "/article/article_id")
        (text "must match the requested article ID")
    ++ for_index (ground_section r.pages) 0 p.sections
    ++ for_index (ground_related r.pages) 0 p.related_concepts

-- The canonical slug is computed whether or not the request brings one, and its exception escapes.
unfoldable pub validate_response :
    Unicode → ArticleProposal → ProposalGenerationRequest → Result Bytes Issues
validate_response u p r = do
  canonical ← canonical_concept_slug u r.concept_title
  ok (response_issues u p r canonical)
