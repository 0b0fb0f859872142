-- ===== src/Compiler/Store.antt =====
-- The tables that libs/compiler/src/compiler.cpp reads and writes, and the rows of a proposal.
pub mod Slots
use wiki.Base.{
  ℕ, ◌+◌, ◌≡◌, Bool, true, false, not, ◌&&◌, ◌||◌, Option, none, some, List, [], ◌∷◌, ◌++◌, Bytes,
  text, bytes_eq, bytes_lt, opt_eq, ◌==◌, if◌then◌else◌, is_empty, any, map, keep_if, sort_by,
}
use wiki.Domain.Types.{
  SectionKey, Citation, ProposalBlock, ProposalSection, RelatedConcept, ArticleProposal,
}
use wiki.Domain.Types.Names.{key_to_string}
use wiki.Domain.Json.{Json, string, field_of}
use wiki.Storage.Identity.{ArticleRow, CreateRow, Catalog}
use wiki.Models.Runner.{RunRow}
use wiki.Updates.{key_eq}
use wiki.Compiler.Select.{SourceRow, Evidence}

-- A row of `proposals`; the payload is the JSON value whose text is stored.
pub record ProposalRecord : Type 0 where
  pub proposal_id : Bytes
  pub article_id : Option Bytes
  pub model_run_id : Bytes
  pub operation : Bytes
  pub payload : Json
  pub status : Bytes
  pub created_at : Bytes

-- A row of `proposal_update_bases`, of `proposal_evidence` and of `proposal_citations`.
pub record BaseRecord : Type 0 where
  pub proposal_id : Bytes
  pub base_apply_run_id : Bytes
  pub managed_sha256 : Bytes
  pub update_mode : Bytes

pub record EvidenceRecord : Type 0 where
  pub proposal_id : Bytes
  pub page_id : Bytes
  pub evidence_revision : ℕ
  pub text_sha256 : Bytes
  pub image_sha256 : Option Bytes
  pub source_sha256 : Bytes

pub record CitationRecord : Type 0 where
  pub proposal_id : Bytes
  pub section_key : Bytes
  pub block_index : ℕ
  pub page_id : Bytes
  pub start_char : ℕ
  pub end_char : ℕ
  pub quote : Bytes

pub record Store : Type 0 where
  pub runs : List RunRow
  pub active_sources : List Bytes
  pub sources : List SourceRow
  pub articles : List ArticleRow
  pub proposals : List ProposalRecord
  pub bases : List BaseRecord
  pub evidence : List EvidenceRecord
  pub citations : List CitationRecord

-- `status IN ('pending', 'approved')`
unfoldable pub is_open : ProposalRecord → Bool
is_open p = bytes_eq p.status (text "pending") || bytes_eq p.status (text "approved")

-- `json_extract(payload_json, '$.article.…')`, null as the empty text
unfoldable pub text_of : Option Json → Bytes
text_of (some (string s)) = s
text_of other = []

unfoldable pub field_in : Option Json → Bytes → Option Json
field_in none key = none
field_in (some document) key = field_of document key

unfoldable pub article_text : Json → Bytes → Bytes
article_text payload key = text_of (field_in (field_of payload (text "article")) key)

unfoldable pub creates_article : ProposalRecord → Bool
creates_article p =
    bytes_eq p.operation (text "create_article") && opt_eq p.article_id none && is_open p

unfoldable pub create_row : ProposalRecord → CreateRow
create_row p = record {
  proposal_id = p.proposal_id;
  title = article_text p.payload (text "title");
  slug = article_text p.payload (text "slug");
}

-- What `read_identities` reads: both queries sort by the identifier.
unfoldable pub catalog : Store → Catalog
catalog s = record {
  articles = sort_by (λ (a b : ArticleRow). bytes_lt a.article_id b.article_id) s.articles;
  creates =
      sort_by (λ (a b : CreateRow). bytes_lt a.proposal_id b.proposal_id)
        (map create_row (keep_if creates_article s.proposals));
}

-- `UPDATE proposals SET status = 'superseded' WHERE … AND status IN ('pending', 'approved')`
unfoldable pub supersede : (ProposalRecord → Bool) → ProposalRecord → ProposalRecord
supersede chosen p = if chosen p && is_open p then record p { status = text "superseded" } else p

unfoldable pub for_article : Option Bytes → ProposalRecord → Bool
for_article none p = false
for_article (some id) p = opt_eq p.article_id (some id)

unfoldable pub has_id : Bytes → ProposalRecord → Bool
has_id id p = bytes_eq p.proposal_id id

unfoldable pub supersede_all : List Bytes → List ProposalRecord → List ProposalRecord
supersede_all [] proposals = proposals
supersede_all (id ∷ ids) proposals = supersede_all ids (map (supersede (has_id id)) proposals)

-- `if (article_id) { … }` and the loop over the pending creates
unfoldable pub supersede_open :
    Option Bytes → List Bytes → List ProposalRecord → List ProposalRecord
supersede_open article_id creates proposals =
    supersede_all creates (map (supersede (for_article article_id)) proposals)

-- The citations of one block, with its key and index
pub record Slot : Type 0 where
  pub key : SectionKey
  pub index : ℕ
  pub citations : List Citation

-- `next_block_index`: a key that is not in the map counts from 0.
abbrev pub Counter : Type 0
Counter = SectionKey → ℕ

unfoldable pub count_block : Counter → SectionKey → Counter
count_block next key k = if key_eq key k then next k + 1 else next k

-- The loops over blocks, sections and related concepts, with the counter passed on
unfoldable pub block_slots : SectionKey → List ProposalBlock → Counter → List Slot × Counter
block_slots key [] next = ([], next)
block_slots key (b ∷ blocks) next =
    let (slots, last) = block_slots key blocks (count_block next key) in
    (record { key = key; index = next key; citations = b.citations } ∷ slots, last)

unfoldable pub section_slots : List ProposalSection → Counter → List Slot × Counter
section_slots [] next = ([], next)
section_slots (s ∷ sections) next =
    let (slots, between) = block_slots s.key s.blocks next in
    let (others, last) = section_slots sections between in (slots ++ others, last)

unfoldable pub concept_slots : List RelatedConcept → Counter → List Slot
concept_slots [] next = []
concept_slots (r ∷ concepts) next =
    record {
      key = SectionKey.related_concepts;
      index = next SectionKey.related_concepts;
      citations = r.citations;
    }
    ∷ concept_slots concepts (count_block next SectionKey.related_concepts)

unfoldable pub proposal_slots : ArticleProposal → List Slot
proposal_slots p =
    let (slots, next) = section_slots p.sections (λ key. 0) in
    slots ++ concept_slots p.related_concepts next

-- The primary key of `proposal_citations`
unfoldable pub same_key : CitationRecord → CitationRecord → Bool
same_key a b =
    bytes_eq a.proposal_id b.proposal_id
    && bytes_eq a.section_key b.section_key
    && a.block_index == b.block_index
    && bytes_eq a.page_id b.page_id
    && a.start_char == b.start_char

unfoldable pub citation_record : Bytes → Slot → Citation → CitationRecord
citation_record proposal_id slot c = record {
  proposal_id = proposal_id;
  section_key = key_to_string slot.key;
  block_index = slot.index;
  page_id = c.page_id;
  start_char = c.start_char;
  end_char = c.end_char;
  quote = c.quote;
}

-- `INSERT OR IGNORE`: a row whose key is there is not written.
unfoldable pub insert_citation : List CitationRecord → CitationRecord → List CitationRecord
insert_citation rows row = if any (same_key row) rows then rows else rows ++ row ∷ []

unfoldable pub insert_slot :
    Bytes → Slot → List Citation → List CitationRecord → List CitationRecord
insert_slot proposal_id slot [] rows = rows
insert_slot proposal_id slot (c ∷ citations) rows =
    insert_slot proposal_id slot citations
      (insert_citation rows (citation_record proposal_id slot c))

unfoldable pub insert_slots : Bytes → List Slot → List CitationRecord → List CitationRecord
insert_slots proposal_id [] rows = rows
insert_slots proposal_id (slot ∷ slots) rows =
    insert_slots proposal_id slots (insert_slot proposal_id slot slot.citations rows)

unfoldable pub null_if_empty : Bytes → Option Bytes
null_if_empty s = if is_empty s then none else some s

unfoldable pub evidence_record : Bytes → Evidence → EvidenceRecord
evidence_record proposal_id e = record {
  proposal_id = proposal_id;
  page_id = e.page_id;
  evidence_revision = e.revision;
  text_sha256 = e.text_sha256;
  image_sha256 = null_if_empty e.image_sha256;
  source_sha256 = e.source_sha256;
}
