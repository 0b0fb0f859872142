-- ===== src/Models/Validator/Grounded.antt =====
-- What an accepted answer satisfies.
use wiki.Base.{
  ℕ, ◌≤◌, ◌<◌, ◌≡◌, refl, ap, inl, inr, Bool, true, false, not, ◌||◌, Option, none, some, List, [],
  ◌∷◌, arith, Bytes, ok, ok-cancel, >>=-eq-ok, bytes_eq_lem, ltb, leb, length, All, append-eq-nil,
  for_index-nil, Bool-cases,
}
use wiki.Domain.Unicode.{Unicode}
use wiki.Domain.Types.{
  ProposalOperation, create_article, update_article, ExtractedPage, Citation, ProposalSection,
  RelatedConcept, ArticleProposal, Issues,
}
use wiki.Domain.Concept.{canonical_concept_slug}
use wiki.Domain.Validate.Proposals.{IsProposal, validate_proposal-IsProposal}
use wiki.Models.Whitespace.{normalize_whitespace}
use wiki.Models.Validator.{
  ProposalGenerationRequest, issue_when, find_page, cited_text, check_span, ground_citation,
  operation_eq, id_eq, value_or, ground_citations, ground_section, ground_related, response_issues,
  validate_response,
}

-- The citation names a page of the request, its span lies in that page's text, and up to white
-- space the quote is the text of the span.
pub record IsGrounded (pages : List ExtractedPage) (c : Citation) : Type 0 where
  pub page : ExtractedPage
  pub found : find_page pages c.page_id ≡ some page
  pub span : (c.start_char < c.end_char) × (c.end_char ≤ length page.text)
  pub quoted : normalize_whitespace (cited_text page.text c) ≡ normalize_whitespace c.quote

pub issue_when-nil : (b : Bool) (path message : Bytes) → issue_when b path message ≡ [] → b ≡ false
unfolding issue_when
issue_when-nil true path message h = cc
issue_when-nil false path message h = refl

not-false : (b : Bool) → not b ≡ false → b ≡ true
not-false true h = refl
not-false false h = cc

check_span-IsGrounded :
    (pages : List ExtractedPage) (c : Citation) (path : Bytes) (o : Option ExtractedPage)
    → find_page pages c.page_id ≡ o
    → check_span c path o ≡ []
    → IsGrounded pages c
unfolding check_span
check_span-IsGrounded pages c path none e h = cc
check_span-IsGrounded pages c path (some page) e h =
    elim (Bool-cases (leb c.end_char c.start_char || ltb (length page.text) c.end_char)) [
      | inl bad ↦ absurd (nonempty (rw (bad, check_span) at h))
      | inr good ↦ record {
        page = page;
        found = e;
        span = ground arith;
        quoted = bytes_eq_lem _ _ (not-false _ (issue_when-nil _ _ _ (rw (good, check_span) at h)));
      }
    ]
  where
    nonempty : {i : _} {is : Issues} → i ∷ is ≡ [] → ⊥
    nonempty q = cc

ground_citations-IsGrounded :
    (pages : List ExtractedPage) (path : Bytes) (cs : List Citation)
    → ground_citations pages path cs ≡ []
    → All (IsGrounded pages) cs
unfolding ground_citations ground_citation
ground_citations-IsGrounded pages path cs h =
    for_index-nil _ (IsGrounded pages)
      (λ i c e. check_span-IsGrounded pages c _ (find_page pages c.page_id) refl e) 0 cs h

abbrev pub IsGroundedSection : List ExtractedPage → ProposalSection → Type 0
IsGroundedSection pages s = All (λ b. All (IsGrounded pages) b.citations) s.blocks

ground_section-IsGrounded :
    (pages : List ExtractedPage) (i : ℕ) (s : ProposalSection)
    → ground_section pages i s ≡ []
    → IsGroundedSection pages s
unfolding ground_section
ground_section-IsGrounded pages i s h =
    for_index-nil _ (λ b. All (IsGrounded pages) b.citations)
      (λ j b e. ground_citations-IsGrounded pages _ b.citations e) 0 s.blocks h

abbrev pub IsGroundedConcept : List ExtractedPage → RelatedConcept → Type 0
IsGroundedConcept pages c = All (IsGrounded pages) c.citations

ground_related-IsGrounded :
    (pages : List ExtractedPage) (i : ℕ) (c : RelatedConcept)
    → ground_related pages i c ≡ []
    → IsGroundedConcept pages c
unfolding ground_related
ground_related-IsGrounded pages i c h = ground_citations-IsGrounded pages _ c.citations h

operation_eq_lem : (a b : ProposalOperation) → operation_eq a b ≡ true → a ≡ b
unfolding operation_eq
operation_eq_lem create_article create_article h = refl
operation_eq_lem create_article update_article h = cc
operation_eq_lem update_article create_article h = cc
operation_eq_lem update_article update_article h = refl

id_eq_lem : (a b : Option Bytes) → id_eq a b ≡ true → a ≡ b
unfolding id_eq
id_eq_lem none none h = refl
id_eq_lem none (some b) h = cc
id_eq_lem (some a) none h = cc
id_eq_lem (some a) (some b) h = ap some (bytes_eq_lem a b h)

-- An accepted answer is the answer to the request: same operation, title and article, the
-- request's slug, or the canonical one where it has none, and every citation grounded.
pub record Answers (u : Unicode) (p : ArticleProposal) (r : ProposalGenerationRequest)
    : Type 0 where
  pub proposal : IsProposal u p
  pub operation : p.operation ≡ r.operation
  pub title : p.article.title ≡ r.concept_title
  pub article : p.article.article_id ≡ r.article_id
  pub canonical : Bytes
  pub slug_of_title : canonical_concept_slug u r.concept_title ≡ ok canonical
  pub slug : p.article.slug ≡ value_or r.concept_slug canonical
  pub sections : All (IsGroundedSection r.pages) p.sections
  pub concepts : All (IsGroundedConcept r.pages) p.related_concepts

response_issues-Answers :
    (u : Unicode) (p : ArticleProposal) (r : ProposalGenerationRequest) (canonical : Bytes)
    → canonical_concept_slug u r.concept_title ≡ ok canonical
    → response_issues u p r canonical ≡ []
    → Answers u p r
unfolding response_issues
response_issues-Answers u p r canonical e h =
    let (h5, concepts) = append-eq-nil _ _ h in
    let (h4, sections) = append-eq-nil _ _ h5 in
    let (h3, article) = append-eq-nil _ _ h4 in
    let (h2, slug) = append-eq-nil _ _ h3 in
    let (h1, title) = append-eq-nil _ _ h2 in
    let (proposal, operation) = append-eq-nil _ _ h1 in
    record {
      proposal = validate_proposal-IsProposal u p proposal;
      operation = operation_eq_lem _ _ (not-false _ (issue_when-nil _ _ _ operation));
      title = bytes_eq_lem _ _ (not-false _ (issue_when-nil _ _ _ title));
      article = id_eq_lem _ _ (not-false _ (issue_when-nil _ _ _ article));
      canonical = canonical;
      slug_of_title = e;
      slug = bytes_eq_lem _ _ (not-false _ (issue_when-nil _ _ _ slug));
      sections =
          for_index-nil _ (IsGroundedSection r.pages) (ground_section-IsGrounded r.pages) 0 _
            sections;
      concepts =
          for_index-nil _ (IsGroundedConcept r.pages) (ground_related-IsGrounded r.pages) 0 _
            concepts;
    }

-- An answer of the model that passes `validate_response` with no issue is a well-formed proposal
-- for the requested operation, title, slug and article, and each of its citations names a page of
-- the request, lies within that page's text and quotes it up to white space.
pub validate_response-Answers :
    (u : Unicode) (p : ArticleProposal) (r : ProposalGenerationRequest)
    → validate_response u p r ≡ ok []
    → Answers u p r
unfolding validate_response
validate_response-Answers u p r h =
    let (canonical, e, k) =
      >>=-eq-ok (canonical_concept_slug u r.concept_title) (λ c. ok (response_issues u p r c)) h in
    response_issues-Answers u p r canonical e (ok-cancel k)
