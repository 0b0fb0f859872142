-- ===== src/Vault/Render/Sources.antt =====
-- The list of sources at the end of a rendered article (libs/vault/src/rendering.cpp).
use wiki.Base.{
  ◌≡◌, refl, sym, subst, Option, none, some, List, [], ◌∷◌, ◌++◌, Bytes, ok, text, All, All-map,
  >>=-eq-ok, ok-cancel, err-ne-ok,
}
use wiki.Domain.Unicode.{Unicode}
use wiki.Domain.Types.{ArticleProposal}
use wiki.Vault.Render.{
  SourceReference, Pages, insert_sections, insert_concepts, ordered_page_ids, strip_newlines,
  render_sections, render_missing, render_found, render_sources, render_managed_content,
}
use wiki.Vault.Render.PageIds.{
  Ascending, SectionListed, ConceptListed, insert_concepts-Any, insert_sections-Listed,
  insert_concepts-Listed, SectionListed-map, insert_sections-Ascending, insert_concepts-Ascending,
}

module _ (u : Unicode) (pages : Pages) where
  -- One footnote for each identifier, from the source that the page has
  abbrev pub Footnotes : List Bytes → Bytes → Type 0
  Footnotes [] out = out ≡ []
  Footnotes (id ∷ ids) out =
      (source : SourceReference) × (line : Bytes) × (rest : Bytes) × (pages id ≡ some source)
      × (render_found u id (some source) ≡ ok line)
      × (out ≡ line ++ rest)
      × Footnotes ids rest

  render_found-some :
      (id : Bytes) (found : Option SourceReference) {line : Bytes}
      → render_found u id found ≡ ok line
      → (source : SourceReference) × (found ≡ some source)
  unfolding render_found
  render_found-some id none h = absurd (err-ne-ok h)
  render_found-some id (some source) h = (source, refl)

  render_sources-Footnotes :
      (ids : List Bytes) {out : Bytes} → render_sources u pages ids ≡ ok out → Footnotes ids out
  unfolding render_sources
  render_sources-Footnotes [] h = sym (ok-cancel h)
  render_sources-Footnotes (id ∷ ids) h =
      let (line, found, h1) = >>=-eq-ok (render_found u id (pages id)) _ h in
      let (rest, others, last) = >>=-eq-ok (render_sources u pages ids) _ h1 in
      let (source, known) = render_found-some id (pages id) found in
      (
        source,
        line,
        rest,
        known,
        subst (λ (x : Option SourceReference). render_found u id x ≡ ok line) known found,
        sym (ok-cancel last),
        render_sources-Footnotes ids others,
      )

  -- The sources of a rendered article
  pub record Sourced (p : ArticleProposal) (out : Bytes) : Type 0 where
    pub ids : List Bytes
    pub ascending : Ascending ids
    pub sections : All (SectionListed ids) p.sections
    pub concepts : All (ConceptListed ids) p.related_concepts
    pub body : Bytes
    pub notes : Bytes
    pub footnotes : Footnotes ids notes
    pub shown : out ≡ strip_newlines (body ++ text "## Sources\n\n" ++ notes)

  -- An article that is rendered ends with its sources: one footnote, in the order of the identifiers,
  -- for each page that a block or a related concept cites, made of the metadata that the page has.
  -- So no reference is without its footnote, and no page has two.
  pub render_managed_content-Sourced :
      (p : ArticleProposal) {out : Bytes}
      → render_managed_content u p pages ≡ ok out
      → Sourced p out
  unfolding render_managed_content ordered_page_ids
  render_managed_content-Sourced p h =
      let (sections, a, h1) = >>=-eq-ok (render_sections u p.related_concepts p.sections) _ h in
      let (missing, b, h2) = >>=-eq-ok (render_missing u p) _ h1 in
      let (notes, c, last) = >>=-eq-ok (render_sources u pages (ordered_page_ids p)) _ h2 in
      let between = insert_sections p.sections [] in
      let ids = insert_concepts p.related_concepts between in
      record {
        ids = ids;
        ascending =
            insert_concepts-Ascending p.related_concepts between
              (insert_sections-Ascending p.sections [] tt);
        sections =
            All-map (SectionListed between) (SectionListed ids)
              (SectionListed-map between ids
                (λ c k. insert_concepts-Any (λ x. x ≡ c.page_id) p.related_concepts between k))
              p.sections (insert_sections-Listed p.sections []);
        concepts = insert_concepts-Listed p.related_concepts between;
        body = sections ++ missing;
        notes = notes;
        footnotes = render_sources-Footnotes (ordered_page_ids p) c;
        shown = sym (ok-cancel last);
      }
