-- ===== src/Updates/Review.antt =====
-- The review of an update: an additive update is never reported to remove what was approved.
use wiki.Base.{
  ◌≡◌, refl, subst, Bool, true, some, List, [], ◌∷◌, ◌++◌, arith, ok, any, all, All, All-append,
  All-map, append_assoc, bytes_eq_refl, length,
}
use wiki.Domain.Unicode.{Unicode}
use wiki.Domain.Types.{
  SectionKey, BlockKind, paragraph, bullet, Citation, ProposalBlock, ProposalSection,
  RelatedConcept, ArticleProposal,
}
use wiki.Updates.{
  kind_eq, key_eq, Claim, block_claim, related_claim, block_claims, section_claims, concept_claims,
  claims, citation_eq, cites_all, matches, contains_claim, missing, accumulate, BaseRow, changes,
  same_article, changes_from,
}
use wiki.Updates.Retains.{
  Extends, Cites, BlockGrows, SectionGrows, ConceptGrows, accumulate-Extends,
}

citation_eq_refl : (c : Citation) → citation_eq c c ≡ true
unfolding citation_eq
citation_eq_refl c = ground (arith, bytes_eq_refl c.page_id, bytes_eq_refl c.quote)

kind_eq_refl : (k : BlockKind) → kind_eq k k ≡ true
unfolding kind_eq
kind_eq_refl paragraph = refl
kind_eq_refl bullet = refl

key_eq_refl : (k : SectionKey) → key_eq k k ≡ true
unfolding key_eq
key_eq_refl k = ground arith

any-left {ℓ} :
    {A : Type ℓ} (p : A → Bool) (xs ys : List A) → any p xs ≡ true → any p (xs ++ ys) ≡ true
any-left p [] ys h = cc
any-left p (x ∷ xs) ys h = ground (arith, any-left p xs ys)

any-right {ℓ} :
    {A : Type ℓ} (p : A → Bool) (xs ys : List A) → any p ys ≡ true → any p (xs ++ ys) ≡ true
any-right p [] ys h = h
any-right p (x ∷ xs) ys h = ground (arith, any-right p xs ys)

-- Each citation is found in a list that has it in the middle.
cites_all-middle : (before cs extra : List Citation) → cites_all ((before ++ cs) ++ extra) cs ≡ true
unfolding cites_all
cites_all-middle before [] extra = refl
cites_all-middle before (c ∷ cs) extra = rw here (
    subst (λ t. all (λ x. any (citation_eq x) (t ++ extra)) cs ≡ true)
      (append_assoc before (c ∷ []) cs) (cites_all-middle (before ++ c ∷ []) cs extra))
  where
    here : any (citation_eq c) ((before ++ c ∷ cs) ++ extra) ≡ true
    here =
        any-left (citation_eq c) (before ++ c ∷ cs) extra
          (any-right (citation_eq c) before (c ∷ cs) (rw (citation_eq_refl c) refl))

cites_all-Cites : (cs ds : List Citation) → Cites cs ds → cites_all ds cs ≡ true
cites_all-Cites cs ds (extra, e) = rw e (cites_all-middle [] cs extra)

matches-block :
    (s t : ProposalSection) (b c : ProposalBlock)
    → t.key ≡ s.key
    → t.heading ≡ s.heading
    → BlockGrows b c
    → matches (block_claim t.key t.heading c) (block_claim s.key s.heading b) ≡ true
unfolding matches
matches-block s t b c k h (kind, words, cs) =
    rw (k, h, kind, words)
      (ground (
        arith,
        key_eq_refl s.key,
        bytes_eq_refl s.heading,
        kind_eq_refl b.kind,
        bytes_eq_refl b.text,
        cites_all-Cites b.citations c.citations cs,
      ))

abbrev Contained : List Claim → Claim → Type 0
Contained items claim = contains_claim items claim ≡ true

Contained-left : (xs ys : List Claim) (c : Claim) → Contained xs c → Contained (xs ++ ys) c
unfolding contains_claim
Contained-left xs ys c h = any-left (λ candidate. matches candidate c) xs ys h

Contained-right : (xs ys : List Claim) (c : Claim) → Contained ys c → Contained (xs ++ ys) c
unfolding contains_claim
Contained-right xs ys c h = any-right (λ candidate. matches candidate c) xs ys h

Contained-head : (d c : Claim) (xs : List Claim) → matches d c ≡ true → Contained (d ∷ xs) c
unfolding contains_claim
Contained-head d c xs h = rw h

blocks-Contained :
    (s t : ProposalSection) (bs cs : List ProposalBlock)
    → t.key ≡ s.key
    → t.heading ≡ s.heading
    → Extends BlockGrows bs cs
    → All (Contained (block_claims t.key t.heading cs)) (block_claims s.key s.heading bs)
unfolding block_claims
blocks-Contained s t [] cs k h e = tt
blocks-Contained s t (b ∷ bs) [] k h e = absurd e
blocks-Contained s t (b ∷ bs) (c ∷ cs) k h (g, e) = (
  Contained-head _ _ _ (matches-block s t b c k h g),
  All-map _ _ (Contained-right (block_claim t.key t.heading c ∷ []) _) _
      (blocks-Contained s t bs cs k h e),
)

sections-Contained :
    (ss ts : List ProposalSection)
    → Extends SectionGrows ss ts
    → All (Contained (section_claims ts)) (section_claims ss)
unfolding section_claims
sections-Contained [] ts e = tt
sections-Contained (s ∷ ss) [] e = absurd e
sections-Contained (s ∷ ss) (t ∷ ts) ((k, h, bs), e) =
    All-append _ (block_claims s.key s.heading s.blocks) (section_claims ss)
      (All-map _ _ (Contained-left (block_claims t.key t.heading t.blocks) (section_claims ts)) _
        (blocks-Contained s t s.blocks t.blocks k h bs))
      (All-map _ _ (Contained-right (block_claims t.key t.heading t.blocks) (section_claims ts)) _
        (sections-Contained ss ts e))

matches-concept :
    (r q : RelatedConcept) → ConceptGrows r q → matches (related_claim q) (related_claim r) ≡ true
unfolding matches
matches-concept r q (title, reason, cs) =
    rw (title, reason)
      (ground (
        arith,
        bytes_eq_refl r.title,
        bytes_eq_refl r.reason,
        cites_all-Cites r.citations q.citations cs,
      ))

concepts-Contained :
    (rs qs : List RelatedConcept)
    → Extends ConceptGrows rs qs
    → All (Contained (concept_claims qs)) (concept_claims rs)
unfolding concept_claims
concepts-Contained [] qs e = tt
concepts-Contained (r ∷ rs) [] e = absurd e
concepts-Contained (r ∷ rs) (q ∷ qs) (g, e) = (
  Contained-head _ _ _ (matches-concept r q g),
  All-map _ _ (Contained-right (related_claim q ∷ []) _) _ (concepts-Contained rs qs e),
)

missing-nil : (before items : List Claim) → All (Contained items) before → missing before items ≡ []
unfolding missing
missing-nil [] items h = refl
missing-nil (c ∷ before) items (p, h) = rw p (missing-nil before items h)

-- What `accumulate` makes of an approved proposal, the review finds to remove none of its claims.
pub missing-accumulate :
    (u : Unicode) (prior additions result : ArticleProposal)
    → accumulate u prior additions ≡ ok result
    → missing (claims prior) (claims result) ≡ []
unfolding claims
missing-accumulate u prior additions result h =
    let (ss, cs, article) = accumulate-Extends u prior additions result h in
    missing-nil _ _ (
      All-append _ (section_claims prior.sections) (concept_claims prior.related_concepts)
        (All-map _ _
          (Contained-left (section_claims result.sections) (concept_claims result.related_concepts))
          _ (sections-Contained prior.sections result.sections ss))
        (All-map _ _
          (Contained-right (section_claims result.sections)
            (concept_claims result.related_concepts))
          _ (concepts-Contained prior.related_concepts result.related_concepts cs)))

-- The review accepts every update that is accumulated on the stored base and is for the article of
-- its row, in either mode: it reports that
-- all the approved claims are retained and none is removed.
pub changes_from-accumulate :
    (u : Unicode) (base additions result : ArticleProposal) (row : BaseRow)
    → accumulate u base additions ≡ ok result
    → row.base ≡ ok base
    → same_article result.article.article_id row.article_id ≡ true
    → changes_from result row
      ≡ ok (
          some (
            changes row.update_mode row.base_apply_run_id row.managed_sha256
              (length (claims base))
              []
              (missing (claims result) (claims base))))
unfolding changes_from
changes_from-accumulate u base additions result row h e same =
    rw (same, e, missing-accumulate u base additions result h) (ground arith)
