-- ===== src/Domain/Json/RoundTrip.antt =====
-- Whole documents: what `to_json` writes is parsed back, and what is parsed was validated
-- (libs/domain/src/json.cpp).
use wiki.Base.{
  ◌≤◌, ◌≡◌, refl, sym, Option, none, some, [], ◌++◌, Bytes, subst, Result, ok, arith, text, min,
  All, All-map, ==_iff, leb→le, append-eq-nil,
}
use wiki.Domain.Unicode.{Unicode}
use wiki.Domain.Types.{
  TextStatus, ProjectConfig, ExtractedPage, Citation, ProposalBlock, ProposalSection,
  RelatedConcept, ArticleProposal, Issues,
}
use wiki.Domain.Types.Names.{status_to_string}
use wiki.Domain.Json.{
  Json, Thrown, JsonContract, ParseResult, string, require_none, require_keys, require_array, at,
  parse_enum, parse_path, get_string, parse_document,
}
use wiki.Domain.Json.Write.{
  proposal_to_json, page_to_json, config_to_json, optional_field, section_json, concept_json,
}
use wiki.Domain.Json.Read.{
  string_at, path_at, path_if_present, string_or, status_names, uint32_max, parse_section,
  parse_concept, read_proposal, read_page, read_config, from_json, parse_article_proposal,
  parse_extracted_page, parse_project_config,
}
use wiki.Domain.Json.Documents.{
  Fits, BlockFits, SectionFits, ConceptFits, read_unsigned_lem, parse_items-items,
  parse_section-section_json, parse_concept-concept_json, parse_operation,
  parse_article-article_json,
}
use wiki.Domain.Validate.{validate_config, validate_page, validate_proposal, max_timeout_seconds}
use wiki.Domain.Validate.Citations.{IsCited, require-nil}
use wiki.Domain.Validate.Proposals.{
  IsCitedBlock, IsCitedSection, IsCitedConcept, IsProposal, validate_proposal-IsProposal,
}

module _ (u : Unicode) where
  IsCited-Fits : (c : Citation) → IsCited u c → Fits c
  IsCited-Fits c v = record { start = omega (arith, v.span, v.fits); stop = omega (arith, v.fits) }

  IsCitedBlock-BlockFits : (b : ProposalBlock) → IsCitedBlock u b → BlockFits b
  IsCitedBlock-BlockFits b v = All-map (IsCited u) Fits IsCited-Fits b.citations v.1

  IsCitedSection-SectionFits : (s : ProposalSection) → IsCitedSection u s → SectionFits s
  IsCitedSection-SectionFits s v =
      All-map (IsCitedBlock u) BlockFits IsCitedBlock-BlockFits s.blocks v.1

  IsCitedConcept-ConceptFits : (r : RelatedConcept) → IsCitedConcept u r → ConceptFits r
  IsCitedConcept-ConceptFits r v = All-map (IsCited u) Fits IsCited-Fits r.citations v.1

read_proposal-proposal_to_json :
    (p : ArticleProposal)
    → p.schema_version ≤ min 1 uint32_max
    → All SectionFits p.sections
    → All ConceptFits p.related_concepts
    → read_proposal (proposal_to_json p) ≡ ok p
unfolding read_proposal proposal_to_json require_keys at require_array
read_proposal-proposal_to_json p version sections concepts =
    rw
      (
        read_unsigned_lem uint32_max p.schema_version 1 (text "/schema_version") version,
        parse_operation p.operation (text "/operation"),
        parse_article-article_json p.article,
        parse_items-items parse_section section_json SectionFits parse_section-section_json 0
            p.sections sections,
        parse_items-items parse_concept concept_json ConceptFits parse_concept-concept_json 0
            p.related_concepts concepts,
      )
      refl

module _ (u : Unicode) (shape : JsonContract → Json → Issues) {A : Type 0} where
  from_json-ok :
      (c : JsonContract) (read : Json → Result Thrown A) (validate : A → Issues) (document : Json)
      (value : A)
      → shape c document ≡ []
      → read document ≡ ok value
      → validate value ≡ []
      → from_json u shape c read validate document ≡ ok value
  unfolding from_json require_none
  from_json-ok c read validate document value shaped reads valid = rw (shaped, reads, valid) refl

abbrev pub accepted : {A : Type 0} → A → ParseResult A
accepted value = record { value = some value; issues = [] }

-- Every proposal with no issue is read back as itself from the document that `to_json` writes of
-- it, where the schema accepts that document.
pub parse_article_proposal-proposal_to_json :
    (u : Unicode) (shape : JsonContract → Json → Issues) (p : ArticleProposal)
    → shape JsonContract.article_proposal (proposal_to_json p) ≡ []
    → validate_proposal u p ≡ []
    → parse_article_proposal u shape (proposal_to_json p) ≡ accepted p
unfolding parse_article_proposal parse_document
parse_article_proposal-proposal_to_json u shape p shaped valid =
    let v : IsProposal u p = validate_proposal-IsProposal u p valid in
    rw
      (from_json-ok u shape JsonContract.article_proposal read_proposal (validate_proposal u)
        (proposal_to_json p) p shaped
        (read_proposal-proposal_to_json p (omega (arith, v.schema))
          (All-map (IsCitedSection u) SectionFits (IsCitedSection-SectionFits u) p.sections
            v.sections.1)
          (All-map (IsCitedConcept u) ConceptFits (IsCitedConcept-ConceptFits u) p.related_concepts
            v.concepts))
        valid)
      refl

parse_status :
    (s : TextStatus) (path : Bytes)
    → parse_enum (string (status_to_string s)) status_names path ≡ ok s
unfolding parse_enum status_to_string status_names
parse_status TextStatus.native path = refl
parse_status TextStatus.ocr_unreviewed path = refl
parse_status TextStatus.reviewed path = refl
parse_status TextStatus.failed path = refl

read_page-image :
    (image : Option Bytes) (p : ExtractedPage)
    → p ≡ record p { image_path = image }
    → p.page_number ≤ uint32_max
    → read_page (page_to_json p) ≡ ok p
unfolding read_page page_to_json require_keys string_at at path_if_present optional_field string_or
    parse_path get_string
read_page-image none p e number =
    subst (λ q. read_page (page_to_json q) ≡ ok q) (sym e)
      (rw
        (
          read_unsigned_lem uint32_max p.page_number uint32_max (text "/page_number") number,
          parse_status p.text_status (text "/text_status"),
        )
        refl)
read_page-image (some image) p e number =
    subst (λ q. read_page (page_to_json q) ≡ ok q) (sym e)
      (rw
        (
          read_unsigned_lem uint32_max p.page_number uint32_max (text "/page_number") number,
          parse_status p.text_status (text "/text_status"),
        )
        refl)

-- A page with no issue whose number is a `uint32_t` is read back as itself from the document that
-- `to_json` writes of it, with or without an image, where the schema accepts that document.
pub parse_extracted_page-page_to_json :
    (u : Unicode) (shape : JsonContract → Json → Issues) (p : ExtractedPage)
    → p.page_number ≤ uint32_max
    → shape JsonContract.extracted_page (page_to_json p) ≡ []
    → validate_page u p ≡ []
    → parse_extracted_page u shape (page_to_json p) ≡ accepted p
unfolding parse_extracted_page parse_document
parse_extracted_page-page_to_json u shape p number shaped valid =
    rw
      (from_json-ok u shape JsonContract.extracted_page read_page (validate_page u) (page_to_json p)
        p shaped (read_page-image p.image_path p refl number) valid)
      refl

read_config-config_to_json :
    (c : ProjectConfig)
    → c.schema_version ≤ min 1 uint32_max
    → c.llm.ollama.timeout_seconds ≤ min max_timeout_seconds uint32_max
    → read_config (config_to_json c) ≡ ok c
unfolding read_config config_to_json require_keys string_at path_at at parse_path get_string
read_config-config_to_json c version timeout =
    rw
      (
        read_unsigned_lem uint32_max c.schema_version 1 (text "/schema_version") version,
        read_unsigned_lem uint32_max c.llm.ollama.timeout_seconds max_timeout_seconds
            (text "/providers/llm/ollama/timeout_seconds") timeout,
      )
      refl

validate_config-bounds :
    (u : Unicode) (c : ProjectConfig)
    → validate_config u c ≡ []
    → (c.schema_version ≡ 1) × (c.llm.ollama.timeout_seconds ≤ max_timeout_seconds)
unfolding validate_config
validate_config-bounds u c h =
    let upto = λ (xs ys : Issues) (e : xs ++ ys ≡ []). (append-eq-nil xs ys e).0 in
    let before_timeout = upto _ _ (upto _ _ h) in
    let (before, timeout) = append-eq-nil _ _ before_timeout in
    let before_vault = upto _ _ (upto _ _ (upto _ _ (upto _ _ before))) in
    let before_cache = upto _ _ (upto _ _ (upto _ _ before_vault)) in
    let (schema, id) = append-eq-nil _ _ (upto _ _ (upto _ _ (upto _ _ before_cache))) in
    ((==_iff _ 1).0 (require-nil _ _ _ schema), leb→le _ _ (require-nil _ _ _ timeout))

-- Every configuration with no issue is read back as itself from the document that `to_json` writes
-- of it, where the schema accepts that document.
pub parse_project_config-config_to_json :
    (u : Unicode) (shape : JsonContract → Json → Issues) (c : ProjectConfig)
    → shape JsonContract.project_config (config_to_json c) ≡ []
    → validate_config u c ≡ []
    → parse_project_config u shape (config_to_json c) ≡ accepted c
unfolding parse_project_config parse_document
parse_project_config-config_to_json u shape c shaped valid =
    let (version, timeout) = validate_config-bounds u c valid in
    rw
      (from_json-ok u shape JsonContract.project_config read_config (validate_config u)
        (config_to_json c) c shaped
        (read_config-config_to_json c (omega (arith, version)) (omega (arith, timeout))) valid)
      refl
