-- ===== src/Compiler/Citations.antt =====
-- normalize_proposal_citations of libs/compiler/src/compiler.cpp: the quote of a citation becomes the
-- cited bytes of its page, with single spaces.
use wiki.Base.{◌||◌, Option, none, some, List, ltb, leb, if◌then◌else◌, length, map}
use wiki.Domain.Types.{
  ExtractedPage, Citation, ProposalBlock, ProposalSection, RelatedConcept, ArticleProposal,
}
use wiki.Models.Whitespace.{normalize_whitespace}
use wiki.Models.Validator.{find_page, cited_text}

unfoldable pub quote_from : Citation → Option ExtractedPage → Citation
quote_from c none = c
quote_from c (some page) =
    if leb c.end_char c.start_char || ltb (length page.text) c.end_char
    then c
    else record c { quote = normalize_whitespace (cited_text page.text c) }

module _ (pages : List ExtractedPage) where
  unfoldable pub normalize_citation : Citation → Citation
  normalize_citation c = quote_from c (find_page pages c.page_id)

  unfoldable pub normalize_block : ProposalBlock → ProposalBlock
  normalize_block b = record b { citations = map normalize_citation b.citations }

  unfoldable pub normalize_section : ProposalSection → ProposalSection
  normalize_section s = record s { blocks = map normalize_block s.blocks }

  unfoldable pub normalize_related : RelatedConcept → RelatedConcept
  normalize_related r = record r { citations = map normalize_citation r.citations }

  unfoldable pub normalize_proposal_citations : ArticleProposal → ArticleProposal
  normalize_proposal_citations p = record p {
    sections = map normalize_section p.sections;
    related_concepts = map normalize_related p.related_concepts;
  }
