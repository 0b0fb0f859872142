-- ===== src/Updates.antt =====
-- libs/updates/src/article_updates.cpp: additive updates of an article and the review of what an
-- update removes. Exceptions are messages; the JSON values that are compared are the data types.
pub mod Retains
pub mod Review
use mathlib.Core.Option
use wiki.Base.{
  ℕ, ◌+◌, ◌-◌, ◌≡◌, Bool, true, false, not, ◌&&◌, ◌||◌, Option, none, some, List, [], ◌∷◌, ◌++◌,
  Bytes, Result, ok, err, text, bytes_eq, ◌==◌, if◌then◌else◌, length, is_empty, any, all, ◌>>=◌,
  ◌>>◌, throw_if,
}
use wiki.Domain.Unicode.{Unicode}
use wiki.Domain.Types.{
  SectionKey, BlockKind, working_explanation, key_ideas, example, related_concepts, paragraph,
  bullet, Citation, ProposalBlock, ProposalSection, RelatedConcept, ArticleProposal, create_article,
  update_article,
}
use wiki.Domain.Concept.{concept_identity_key}
use wiki.Domain.Markdown.{markdown_literal}

unfoldable pub kind_eq : BlockKind → BlockKind → Bool
kind_eq paragraph paragraph = true
kind_eq paragraph bullet = false
kind_eq bullet paragraph = false
kind_eq bullet bullet = true

unfoldable pub key_code : SectionKey → ℕ
key_code working_explanation = 0
key_code key_ideas = 1
key_code example = 2
key_code related_concepts = 3

unfoldable pub key_eq : SectionKey → SectionKey → Bool
key_eq a b = key_code a == key_code b

-- Normalized rows use the page and the start as a citation's slot.
unfoldable pub same_slot : Citation → Citation → Bool
same_slot old citation =
    bytes_eq old.page_id citation.page_id && old.start_char == citation.start_char

unfoldable pub merge_citations : List Citation → List Citation → List Citation
merge_citations retained [] = retained
merge_citations retained (c ∷ incoming) =
    merge_citations (if any (λ old. same_slot old c) retained then retained else retained ++ c ∷ [])
      incoming

module _ (u : Unicode) where
  -- `markdown_literal(a) == markdown_literal(b)`
  unfoldable pub same_literal : Bytes → Bytes → Result Bytes Bool
  same_literal a b = do
    left ← markdown_literal u a
    right ← markdown_literal u b
    ok (bytes_eq left right)

  unfoldable pub same_block : ProposalBlock → ProposalBlock → Result Bytes Bool
  same_block old block =
      if kind_eq old.kind block.kind then same_literal old.text block.text else ok false

  -- The innermost loop: the first equal block takes the citations, if there is one.
  unfoldable pub retain_block :
      ProposalBlock → List ProposalBlock → Result Bytes (Option (List ProposalBlock))
  retain_block block [] = ok none
  retain_block block (old ∷ blocks) =
      let skip : Result Bytes (Option (List ProposalBlock)) = (do
        rest ← retain_block block blocks
        ok (Option.map (λ bs. old ∷ bs) rest)) in
      let found : List ProposalBlock =
        record old { citations = merge_citations old.citations block.citations } ∷ blocks in
      do same ← same_block old block; (if same then ok (some found) else skip)

  -- After the search of one section: the section that has the block, or the later ones.
  unfoldable pub retain_next :
      ProposalSection
      → List ProposalSection
      → Result Bytes (Option (List ProposalSection))
      → Option (List ProposalBlock)
      → Result Bytes (Option (List ProposalSection))
  retain_next old sections later (some blocks) =
      ok (some (record old { blocks = blocks } ∷ sections))
  retain_next old sections later none = later

  -- The loop over the old sections; it stops at the first with the key that has the block.
  unfoldable pub retain :
      SectionKey
      → ProposalBlock
      → List ProposalSection
      → Result Bytes (Option (List ProposalSection))
  retain key block [] = ok none
  retain key block (old ∷ sections) =
      let skip : Result Bytes (Option (List ProposalSection)) = (do
        rest ← retain key block sections
        ok (Option.map (λ ss. old ∷ ss) rest)) in
      if not (key_eq old.key key)
      then skip
      else do blocks ← retain_block block old.blocks; retain_next old sections skip blocks

-- The block joins the first section with its key and heading, or a new section at the end.
unfoldable pub append_block :
    SectionKey → Bytes → ProposalBlock → List ProposalSection → List ProposalSection
append_block key heading block [] =
    record { key = key; heading = heading; blocks = block ∷ [] } ∷ []
append_block key heading block (old ∷ sections) =
    if key_eq old.key key && bytes_eq old.heading heading
    then record old { blocks = old.blocks ++ block ∷ [] } ∷ sections
    else old ∷ append_block key heading block sections

unfoldable pub place :
    SectionKey
    → Bytes
    → ProposalBlock
    → List ProposalSection
    → Option (List ProposalSection)
    → List ProposalSection
place key heading block sections (some retained) = retained
place key heading block sections none = append_block key heading block sections

module _ (u : Unicode) where
  unfoldable pub add_block :
      SectionKey
      → Bytes
      → List ProposalSection
      → ProposalBlock
      → Result Bytes (List ProposalSection)
  add_block key heading sections block = do
    retained ← retain u key block sections
    ok (place key heading block sections retained)

  unfoldable pub add_blocks :
      SectionKey
      → Bytes
      → List ProposalSection
      → List ProposalBlock
      → Result Bytes (List ProposalSection)
  add_blocks key heading sections [] = ok sections
  add_blocks key heading sections (block ∷ blocks) = do
    next ← add_block key heading sections block
    add_blocks key heading next blocks

  unfoldable pub add_sections :
      List ProposalSection → List ProposalSection → Result Bytes (List ProposalSection)
  add_sections sections [] = ok sections
  add_sections sections (s ∷ additions) = do
    next ← add_blocks s.key s.heading sections s.blocks
    add_sections next additions

  unfoldable pub same_concept : RelatedConcept → RelatedConcept → Result Bytes Bool
  same_concept old related = do
    left ← concept_identity_key u old.title
    right ← concept_identity_key u related.title
    (if bytes_eq left right then same_literal u old.reason related.reason else ok false)

  -- `find_if` and what follows it: merge into the concept found, or append.
  unfoldable pub add_concept :
      List RelatedConcept → RelatedConcept → Result Bytes (List RelatedConcept)
  add_concept [] related = ok (related ∷ [])
  add_concept (old ∷ concepts) related =
      let skip : Result Bytes (List RelatedConcept) = (do
        rest ← add_concept concepts related
        ok (old ∷ rest)) in
      let found : List RelatedConcept =
        record old { citations = merge_citations old.citations related.citations } ∷ concepts in
      do same ← same_concept old related; (if same then ok found else skip)

  unfoldable pub add_concepts :
      List RelatedConcept → List RelatedConcept → Result Bytes (List RelatedConcept)
  add_concepts concepts [] = ok concepts
  add_concepts concepts (r ∷ additions) = do
    next ← add_concept concepts r
    add_concepts next additions

  unfoldable pub accumulate : ArticleProposal → ArticleProposal → Result Bytes ArticleProposal
  accumulate prior additions = do
    sections ← add_sections prior.sections additions.sections
    concepts ← add_concepts prior.related_concepts additions.related_concepts
    ok (record prior {
      article = additions.article;
      sections = sections;
      related_concepts = concepts;
    })

-- What a reviewer sees removed or added: a block with its section's key and heading, or a concept.
pub data Claim : Type 0 where
  block_claim : SectionKey → Bytes → ProposalBlock → Claim
  related_claim : RelatedConcept → Claim

unfoldable pub block_claims : SectionKey → Bytes → List ProposalBlock → List Claim
block_claims key heading [] = []
block_claims key heading (b ∷ blocks) = block_claim key heading b ∷ block_claims key heading blocks

unfoldable pub section_claims : List ProposalSection → List Claim
section_claims [] = []
section_claims (s ∷ sections) = block_claims s.key s.heading s.blocks ++ section_claims sections

unfoldable pub concept_claims : List RelatedConcept → List Claim
concept_claims [] = []
concept_claims (r ∷ concepts) = related_claim r ∷ concept_claims concepts

unfoldable pub claims : ArticleProposal → List Claim
claims p = section_claims p.sections ++ concept_claims p.related_concepts

unfoldable pub citation_eq : Citation → Citation → Bool
citation_eq a b =
    bytes_eq a.page_id b.page_id
    && a.start_char == b.start_char
    && a.end_char == b.end_char
    && bytes_eq a.quote b.quote

-- Every citation of the claim is one of the candidate's.
unfoldable pub cites_all : List Citation → List Citation → Bool
cites_all candidate citations = all (λ c. any (citation_eq c) candidate) citations

-- The candidate is the claim but for citations, of which it has those of the claim at least.
unfoldable pub matches : Claim → Claim → Bool
matches (block_claim k h b) (block_claim k' h' b') =
    key_eq k k'
    && bytes_eq h h'
    && kind_eq b.kind b'.kind
    && bytes_eq b.text b'.text
    && cites_all b.citations b'.citations
matches (related_claim r) (related_claim r') =
    bytes_eq r.title r'.title && bytes_eq r.reason r'.reason && cites_all r.citations r'.citations
matches (block_claim k h b) (related_claim r) = false
matches (related_claim r) (block_claim k h b) = false

unfoldable pub contains_claim : List Claim → Claim → Bool
contains_claim items claim = any (λ candidate. matches candidate claim) items

-- The claims of the first list that the second does not contain.
unfoldable pub missing : List Claim → List Claim → List Claim
missing [] items = []
missing (claim ∷ before) items =
    let rest = missing before items in
    if not (contains_claim items claim) then claim ∷ rest else rest

-- The joined row of `proposal_update_bases`, `apply_runs` and `proposals`; `base` is its parsed
-- payload, or the message of the exception that parsing throws.
pub record BaseRow : Type 0 where
  pub base_apply_run_id : Bytes
  pub managed_sha256 : Bytes
  pub update_mode : Bytes
  pub base : Result Bytes ArticleProposal
  pub article_id : Bytes

-- The JSON object that is returned.
pub data Changes : Type 0 where
  legacy_unverified : Changes
  changes :
      (mode base_apply_run_id base_managed_sha256 : Bytes) (retained_claim_count : ℕ)
      (removed_claims added_claims : List Claim)
      → Changes

unfoldable pub same_article : Option Bytes → Bytes → Bool
same_article none id = false
same_article (some a) id = bytes_eq a id

abbrev no_base : Bytes
no_base = text "update proposal has no base revision; compile and review a new proposal"

unfoldable pub legacy : Option Bytes → Result Bytes (Option Changes)
legacy none = err no_base
legacy (some status) =
    if not (bytes_eq status (text "pending")) && not (bytes_eq status (text "approved"))
    then ok (some legacy_unverified)
    else err no_base

unfoldable pub changes_from : ArticleProposal → BaseRow → Result Bytes (Option Changes)
changes_from proposal row = do
  throw_if (not (same_article proposal.article.article_id row.article_id))
      (text "update base belongs to a different article")
  base ← row.base
  let before = claims base
  let after = claims proposal
  let removed = missing before after
  let added = missing after before
  throw_if (bytes_eq row.update_mode (text "additive") && not (is_empty removed))
      (text "additive update discards approved content; compile again")
  ok (
      some (
        changes row.update_mode row.base_apply_run_id row.managed_sha256
          (length before - length removed) removed added))

-- `row` is what the first query returns, `status` what the query for the proposal's status does.
unfoldable pub review_changes :
    ArticleProposal → Option BaseRow → Option Bytes → Result Bytes (Option Changes)
review_changes proposal row status = elim proposal.operation [
  | create_article ↦ ok none
  | update_article ↦ elim row [ none ↦ legacy status | some r ↦ changes_from proposal r ]
]

-- `load_base` of the article: what was applied last, and the hash of its managed region.
pub record ArticleBase : Type 0 where
  pub apply_run_id : Bytes
  pub proposal : ArticleProposal
  pub managed_sha256 : Bytes

unfoldable pub check_base : Result Bytes ArticleBase → Option Changes → Result Bytes (Unit {0})
check_base base none = ok tt
check_base base (some legacy_unverified) = err no_base
check_base base (some (changes mode run hash count removed added)) = do
  b ← base
  throw_if (not (bytes_eq b.apply_run_id run) || not (bytes_eq b.managed_sha256 hash))
      (text "base article revision changed; compile and review a new proposal")

unfoldable pub validate_base :
    ArticleProposal
    → Option BaseRow
    → Option Bytes
    → Result Bytes ArticleBase
    → Result Bytes (Unit {0})
validate_base proposal row status base = do
  reviewed ← review_changes proposal row status
  check_base base reviewed
