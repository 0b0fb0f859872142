-- ===== src/Compiler/Publish/Published.antt =====
-- What compile leaves behind (libs/compiler/src/compiler.cpp).
use wiki.Base.{
  ◌≡◌, refl, subst, Bool, true, false, not, ◌||◌, List, [], ◌∷◌, ◌++◌, ok, bytes_eq, opt_eq,
  opt_eq_lem, bytes_eq_lem, map, text, All, Pairwise, arith, >>=-eq-ok, ok-cancel, throw_if,
  throw_if-ok,
}
use wiki.Domain.Unicode.{Unicode}
use wiki.Domain.Types.{ExtractedPage, ArticleProposal}
use wiki.Domain.Types.Names.{operation_to_string}
use wiki.Domain.Json.Write.{proposal_to_json}
use wiki.Storage.Identity.{ConceptTarget, resolve_concept}
use wiki.Models.Runner.{RunRow}
use wiki.Compiler.{CompilerErrorKind, CompileOptions}
use wiki.Compiler.Select.{Evidence}
use wiki.Compiler.Select.Ordered.{Selected}
use wiki.Compiler.Store.{
  Store, ProposalRecord, catalog, supersede_open, proposal_slots, insert_slots, null_if_empty,
  evidence_record,
}
use wiki.Compiler.Publish.Superseded.{IsSuperseded, supersede_open-IsSuperseded}
use wiki.Compiler.Publish.Rechecked.{Rechecked, rethrow-ok, recheck_evidence-Rechecked}
use wiki.Compiler.Compile.{Services, Snapshots, Prepared, rethrow, check_destination, request_for}
use wiki.Compiler.Publish.{
  CompileResult, recheck_base, recheck_evidence, new_proposal, write_proposal, persist_proposal,
  result_for,
}
use wiki.Compiler.Publish.Accepted.{Accepted}

module _ (u : Unicode) (v : Services) where
  -- The store after a compilation that published. `prepared.snapshots` are the pages that were selected
  -- for the model; `snapshots` are those that are stored, to which an update adds pages that the
  -- earlier proposal cited.
  pub record Published (s t : Store) (options : CompileOptions) (result : CompileResult)
      : Type 0 where
    pub prepared : Prepared
    pub proposal : ArticleProposal
    pub snapshots : Snapshots
    pub current : ConceptTarget
    pub selected :
        Selected u v.owners s.sources
          (record options { concept_title = prepared.target.title })
          prepared.snapshots
    pub accepted :
        Accepted u v proposal
          (request_for prepared.target prepared.base options.regenerate snapshots)
    pub resolved : resolve_concept u (catalog s) proposal.article.title true ≡ ok current
    pub identity :
        (current.article_id ≡ prepared.target.article_id)
        × (current.title ≡ proposal.article.title)
        × (current.slug ≡ proposal.article.slug)
    pub rechecked : All (Rechecked u v s.sources prepared.snapshots) snapshots
    pub earlier : List ProposalRecord
    pub superseded :
        Pairwise
          (IsSuperseded prepared.target.article_id current.pending_creates)
          s.proposals
          earlier
    pub proposals :
        t.proposals
        ≡ earlier
          ++ record {
            proposal_id = v.proposal_id;
            article_id = prepared.target.article_id;
            model_run_id = v.run.run_id;
            operation = operation_to_string proposal.operation;
            payload = proposal_to_json proposal;
            status = text "pending";
            created_at = v.now;
          }
            ∷ []
    pub evidence :
        t.evidence
        ≡ s.evidence
          ++ map
              (λ (x : ExtractedPage × Evidence). record {
                proposal_id = v.proposal_id;
                page_id = x.1.page_id;
                evidence_revision = x.1.revision;
                text_sha256 = x.1.text_sha256;
                image_sha256 = null_if_empty x.1.image_sha256;
                source_sha256 = x.1.source_sha256;
              })
              snapshots
    pub citations : t.citations ≡ insert_slots v.proposal_id (proposal_slots proposal) s.citations
    pub kept :
        (t.sources ≡ s.sources) × (t.articles ≡ s.articles) × (t.active_sources ≡ s.active_sources)
    pub returned : result ≡ result_for u v prepared

  identity-checks :
      (a b c : Bool) → (not a || not b || not c) ≡ false → (a ≡ true) × (b ≡ true) × (c ≡ true)
  identity-checks a b c h = ground arith

  -- What stands after the pages were selected and the proposal reconciled
  module _ (s : Store) (options : CompileOptions) (prepared : Prepared)
      (selected : Selected u v.owners s.sources
        (record options { concept_title = prepared.target.title })
        prepared.snapshots) where
    pub persist-Published :
        (runs : List RunRow) (p : ArticleProposal) (kept : Snapshots) {t : Store}
        → Accepted u v p (request_for prepared.target prepared.base options.regenerate kept)
        → persist_proposal u v (record s { runs = runs }) prepared options.regenerate p kept ≡ ok t
        → Published s t options (result_for u v prepared)
    unfolding persist_proposal write_proposal new_proposal evidence_record catalog
    persist-Published runs p kept {t} accepted h =
        let (a, base_ok, h1) =
          >>=-eq-ok (recheck_base u v prepared.target.article_id prepared.base) _ h in
        let (b, evidence_ok, h2) =
          >>=-eq-ok (recheck_evidence u v s.sources prepared.snapshots kept) _ h1 in
        let (current, resolves, h3) =
          >>=-eq-ok
            (rethrow CompilerErrorKind.invalid_concept
              (resolve_concept u (catalog s) p.article.title true))
            _ h2 in
        let (c, free, h4) =
          >>=-eq-ok
            (check_destination u v (record s { runs = runs }) current prepared.target.article_id) _
            h3 in
        let (d, same, h5) =
          >>=-eq-ok
            (throw_if
              (not (opt_eq current.article_id prepared.target.article_id)
                || not (bytes_eq current.title p.article.title)
                || not (bytes_eq current.slug p.article.slug))
              _)
            _ h4 in
        let (f, written, last) = >>=-eq-ok (throw_if (not v.publish_ok) _) _ h5 in
        let (id, title, slug) = identity-checks _ _ _ (throw_if-ok _ _ same) in
        subst (λ x. Published s x options (result_for u v prepared)) (ok-cancel last)
          (record {
            prepared = prepared;
            proposal = p;
            snapshots = kept;
            current = current;
            selected = selected;
            accepted = accepted;
            resolved = rethrow-ok _ (resolve_concept u (catalog s) p.article.title true) resolves;
            identity = (
              opt_eq_lem current.article_id prepared.target.article_id id,
              bytes_eq_lem current.title p.article.title title,
              bytes_eq_lem current.slug p.article.slug slug,
            );
            rechecked =
                recheck_evidence-Rechecked u v s.sources prepared.snapshots kept evidence_ok;
            earlier = supersede_open prepared.target.article_id current.pending_creates s.proposals;
            superseded =
                supersede_open-IsSuperseded prepared.target.article_id current.pending_creates
                  s.proposals;
            proposals = refl;
            evidence = refl;
            citations = refl;
            kept = (refl, refl, refl);
            returned = refl;
          })
