-- ===== src/Vault/Render.antt =====
-- render_managed_content and render_new_article of libs/vault/src/rendering.cpp. A JSON string's text is
-- the argument `dump_string`.
pub mod PageIds
pub mod Sources
use wiki.Base.{
  ℕ, ◌+◌, ◌≡◌, Bool, true, false, not, ◌&&◌, ◌||◌, Option, none, some, List, [], ◌∷◌, ◌++◌, Bytes,
  Result, ok, err, text, bytes_eq, bytes_lt, ◌==◌, if◌then◌else◌, is_empty, any, map, to_decimal,
  ◌>>=◌,
}
use wiki.Domain.Unicode.{Unicode}
use wiki.Domain.Types.{
  SourceKind, BlockKind, SectionKey, Citation, ProposalBlock, ProposalSection, RelatedConcept,
  ArticleProposal,
}
use wiki.Domain.Markdown.{markdown_literal}
use wiki.Vault.Url.{encode_markdown_url}

pub record SourceReference : Type 0 where
  pub source_kind : SourceKind
  pub display_name : Bytes
  pub page_number : ℕ
  pub vault_source_path : Bytes

-- `CitationState::pages`
abbrev pub Pages : Type 0
Pages = Bytes → Option SourceReference

-- `seen.insert(id).second`, over the pages that were seen
unfoldable pub references_from : List Bytes → List Citation → Bytes
references_from seen [] = []
references_from seen (c ∷ citations) =
    let again = references_from seen citations in
    let first =
      text " [^" ++ c.page_id ++ text "]" ++ references_from (c.page_id ∷ seen) citations in
    if any (bytes_eq c.page_id) seen then again else first

unfoldable pub citation_references : List Citation → Bytes
citation_references citations = references_from [] citations

unfoldable pub is_bullet : BlockKind → Bool
is_bullet BlockKind.bullet = true
is_bullet BlockKind.paragraph = false

unfoldable pub is_related : SectionKey → Bool
is_related SectionKey.related_concepts = true
is_related SectionKey.working_explanation = false
is_related SectionKey.key_ideas = false
is_related SectionKey.example = false

-- An element of a `std::set<std::string>`
unfoldable pub set_insert : Bytes → List Bytes → List Bytes
set_insert id [] = id ∷ []
set_insert id (x ∷ ids) =
    let rest = set_insert id ids in
    if bytes_eq id x then x ∷ ids else if bytes_lt id x then id ∷ x ∷ ids else x ∷ rest

unfoldable pub insert_citations : List Citation → List Bytes → List Bytes
insert_citations [] ids = ids
insert_citations (c ∷ citations) ids = insert_citations citations (set_insert c.page_id ids)

unfoldable pub insert_blocks : List ProposalBlock → List Bytes → List Bytes
insert_blocks [] ids = ids
insert_blocks (b ∷ blocks) ids = insert_blocks blocks (insert_citations b.citations ids)

unfoldable pub insert_sections : List ProposalSection → List Bytes → List Bytes
insert_sections [] ids = ids
insert_sections (s ∷ sections) ids = insert_sections sections (insert_blocks s.blocks ids)

unfoldable pub insert_concepts : List RelatedConcept → List Bytes → List Bytes
insert_concepts [] ids = ids
insert_concepts (r ∷ concepts) ids = insert_concepts concepts (insert_citations r.citations ids)

unfoldable pub ordered_page_ids : ArticleProposal → List Bytes
ordered_page_ids p = insert_concepts p.related_concepts (insert_sections p.sections [])

-- `while (rendered.ends_with('\n')) rendered.pop_back();`
unfoldable pub strip_newlines : Bytes → Bytes
strip_newlines [] = []
strip_newlines (c ∷ s) =
    let rest = strip_newlines s in if is_empty rest && c == b'\n' then [] else c ∷ rest

unfoldable pub is_pdf : SourceKind → Bool
is_pdf SourceKind.pdf = true
is_pdf SourceKind.markdown = false
is_pdf SourceKind.plain = false

-- The dash in the source, as UTF-8
unfoldable pub em_dash : Bytes
em_dash = 0xe2 ∷ 0x80 ∷ 0x94 ∷ []

module _ (u : Unicode) where
  unfoldable pub render_block : ProposalBlock → Result Bytes Bytes
  render_block b = do
    words ← markdown_literal u b.text
    ok (
        (if is_bullet b.kind then text "- " else [])
        ++ words
        ++ citation_references b.citations
        ++ text "\n\n")

  unfoldable pub render_blocks : List ProposalBlock → Result Bytes Bytes
  render_blocks [] = ok []
  render_blocks (b ∷ blocks) = do
    first ← render_block b
    rest ← render_blocks blocks
    ok (first ++ rest)

  unfoldable pub render_reason : Bytes → Result Bytes Bytes
  render_reason [] = ok []
  render_reason (c ∷ reason) = do
    words ← markdown_literal u (c ∷ reason)
    ok (b' ' ∷ em_dash ++ b' ' ∷ words)

  unfoldable pub render_related : List RelatedConcept → Result Bytes Bytes
  render_related [] = ok []
  render_related (r ∷ concepts) = do
    reason ← render_reason r.reason
    rest ← render_related concepts
    ok (
        text "- [["
        ++ r.title
        ++ text "]]"
        ++ reason
        ++ citation_references r.citations
        ++ text "\n"
        ++ rest)

  -- What a section adds after its blocks
  unfoldable pub section_concepts : SectionKey → List RelatedConcept → Result Bytes Bytes
  section_concepts key concepts =
      let rendered : Result Bytes Bytes = (do
        lines ← render_related concepts
        ok (lines ++ (if is_empty concepts then [] else text "\n"))) in
      if is_related key then rendered else ok []

  unfoldable pub render_sections : List RelatedConcept → List ProposalSection → Result Bytes Bytes
  render_sections concepts [] = ok []
  render_sections concepts (s ∷ sections) = do
    heading ← markdown_literal u s.heading
    blocks ← render_blocks s.blocks
    related ← section_concepts s.key concepts
    rest ← render_sections concepts sections
    ok (text "## " ++ heading ++ text "\n\n" ++ blocks ++ related ++ rest)

  -- `if (!rendered_related_section)`
  unfoldable pub render_missing : ArticleProposal → Result Bytes Bytes
  render_missing p =
      let rendered : Result Bytes Bytes = (do
        lines ← render_related p.related_concepts
        ok (text "## Related concepts\n\n" ++ lines ++ text "\n")) in
      if any (λ (s : ProposalSection). is_related s.key) p.sections then ok [] else rendered

  unfoldable pub render_found : Bytes → Option SourceReference → Result Bytes Bytes
  render_found id none = err (text "proposal citation has no source metadata: " ++ id)
  render_found id (some source) = do
    name ← markdown_literal u source.display_name
    let page = to_decimal source.page_number
    ok (
        text "[^"
        ++ id
        ++ text "]: ["
        ++ name
        ++ (if is_pdf source.source_kind then text ", p. " ++ page else [])
        ++ text "]("
        ++ encode_markdown_url source.vault_source_path
        ++ (if is_pdf source.source_kind then text "#page=" ++ page else [])
        ++ text ")\n")

  unfoldable pub render_sources : Pages → List Bytes → Result Bytes Bytes
  render_sources pages [] = ok []
  render_sources pages (id ∷ ids) = do
    line ← render_found id (pages id)
    rest ← render_sources pages ids
    ok (line ++ rest)

  unfoldable pub render_managed_content : ArticleProposal → Pages → Result Bytes Bytes
  render_managed_content p pages = do
    sections ← render_sections p.related_concepts p.sections
    missing ← render_missing p
    sources ← render_sources pages (ordered_page_ids p)
    ok (strip_newlines (sections ++ missing ++ text "## Sources\n\n" ++ sources))

  unfoldable pub render_aliases : (Bytes → Bytes) → List Bytes → Bytes
  render_aliases dump_string [] = []
  render_aliases dump_string (alias ∷ aliases) =
      text "  - " ++ dump_string alias ++ text "\n" ++ render_aliases dump_string aliases

  unfoldable pub render_new_article :
      (Bytes → Bytes) → ArticleProposal → Bytes → Bytes → Bytes → Bytes → Result Bytes Bytes
  render_new_article dump_string p article_id start_marker end_marker managed = do
    title ← markdown_literal u p.article.title
    ok (
        text "---\nkc_schema: 1\narticle_id: "
        ++ dump_string article_id
        ++ text "\ntitle: "
        ++ dump_string p.article.title
        ++ text "\n"
        ++ (if is_empty p.article.aliases then text "aliases: []\n" else text "aliases:\n")
        ++ render_aliases dump_string p.article.aliases
        ++ text "---\n\n# "
        ++ title
        ++ text "\n\n"
        ++ start_marker
        ++ text "\n\n"
        ++ managed
        ++ text "\n\n"
        ++ end_marker
        ++ text "\n")
