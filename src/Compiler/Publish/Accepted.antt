-- ===== src/Compiler/Publish/Accepted.antt =====
-- When `compile` accepts an answer and what it merges it into (libs/compiler/src/compiler.cpp).
use wiki.Base.{
  ◌≡◌, refl, ap, subst, ◌∙◌, Bool, true, false, Option, none, some, [], ◌∷◌, ◌++◌, Bytes, Result,
  ok, err, append-eq-nil, >>=-eq-ok, ok-cancel, err-ne-ok,
}
use wiki.Domain.Unicode.{Unicode}
use wiki.Domain.Types.{ArticleProposal, Issues}
use wiki.Domain.Concept.{canonical_concept_slug}
use wiki.Domain.Validate.{validate_proposal}
use wiki.Storage.Identity.{ConceptTarget}
use wiki.Models.Validator.{ProposalGenerationRequest, validate_response, response_issues}
use wiki.Models.Validator.Grounded.{Answers, validate_response-Answers}
use wiki.Models.Runner.{ModelRunResult}
use wiki.Updates.{ArticleBase, accumulate}
use wiki.Compiler.Citations.{normalize_proposal_citations}
use wiki.Compiler.Compile.{Failure, Services, Snapshots, throwing, escaping, request_for}
use wiki.Compiler.Publish.{
  refusing, merge_base, reconcile_with, proposal_of, require_valid, require_retained, respond,
  retain_evidence,
}

pub throwing-ok : {A : Type 0} (m : Result _ A) {a : A} → throwing m ≡ ok a → m ≡ ok a
unfolding throwing
throwing-ok (ok a) h = ap ok (ok-cancel h)
throwing-ok (err e) h = absurd (err-ne-ok h)

escaping-ok : {A : Type 0} (m : Result Bytes A) {a : A} → escaping m ≡ ok a → m ≡ ok a
unfolding escaping
escaping-ok (ok a) h = ap ok (ok-cancel h)
escaping-ok (err e) h = absurd (err-ne-ok h)

refusing-ok : {A : Type 0} (m : Result Failure A) {a : A} → refusing m ≡ ok a → m ≡ ok a
unfolding refusing
refusing-ok (ok a) h = ap ok (ok-cancel h)
refusing-ok (err e) h = absurd (err-ne-ok h)

module _ (u : Unicode) where
  -- No issue of an answer means that the proposal has none itself.
  validate_response-valid :
      (p : ArticleProposal) (r : ProposalGenerationRequest)
      → validate_response u p r ≡ ok []
      → validate_proposal u p ≡ []
  unfolding validate_response response_issues
  validate_response-valid p r h =
      let (canonical, e, k) = >>=-eq-ok (canonical_concept_slug u r.concept_title) _ h in
      let upto = λ (xs ys : Issues) (e : xs ++ ys ≡ []). (append-eq-nil xs ys e).0 in
      upto _ _ (upto _ _ (upto _ _ (upto _ _ (upto _ _ (upto _ _ (ok-cancel k))))))

module _ (u : Unicode) (v : Services) where
  -- A proposal without issues that answers a request
  abbrev pub Accepted : ArticleProposal → ProposalGenerationRequest → Type 0
  Accepted p r = Answers u p r × (validate_proposal u p ≡ [])

  Accepted-valid :
      (p : ArticleProposal) (r : ProposalGenerationRequest) (issues : Issues)
      → escaping (validate_response u p r) ≡ ok issues
      → issues ≡ []
      → Accepted p r
  Accepted-valid p r issues h e =
      let clean : validate_response u p r ≡ ok [] =
        escaping-ok (validate_response u p r) h ∙ ap ok e in
      (validate_response-Answers u p r clean, validate_response-valid u p r clean)

  require_valid-ok :
      (p : ArticleProposal) (issues : Issues) {done : Unit {0}}
      → require_valid v.json p issues ≡ ok done
      → issues ≡ []
  unfolding require_valid
  require_valid-ok p [] h = refl
  require_valid-ok p (i ∷ issues) h = absurd (err-ne-ok h)

  pub respond-Accepted :
      (r : ProposalGenerationRequest) (result : ModelRunResult) {p : ArticleProposal}
      → respond u v r result ≡ ok p
      → Accepted p r
  unfolding respond
  respond-Accepted r result h =
      let (answer, completed_, h1) =
        >>=-eq-ok (proposal_of result.status result.proposal result.issues) _ h in
      let q : ArticleProposal = normalize_proposal_citations r.pages answer in
      let (issues, checked, h2) = >>=-eq-ok (refusing (escaping (validate_response u q r))) _ h1 in
      let (done, clean, last) = >>=-eq-ok (require_valid v.json q issues) _ h2 in
      subst (λ x. Accepted x r) (ok-cancel last)
        (Accepted-valid q r issues (refusing-ok (escaping (validate_response u q r)) checked)
          (require_valid-ok q issues clean))

  require_retained-ok :
      (issues : Issues) {done : Unit {0}} → require_retained issues ≡ ok done → issues ≡ []
  unfolding require_retained
  require_retained-ok [] h = refl
  require_retained-ok (i ∷ issues) h = absurd (err-ne-ok h)

  merge_base-Accepted :
      (target : ConceptTarget) (selected : Snapshots) (base : ArticleBase) (p q : ArticleProposal)
      (kept : Snapshots)
      → merge_base u v target selected base p ≡ ok (q, kept)
      → Accepted q (request_for target (some base) false kept)
  unfolding merge_base
  merge_base-Accepted target selected base p q kept h =
      let (merged, m, h1) = >>=-eq-ok (escaping (accumulate u base.proposal p)) _ h in
      let (snapshots, r, h2) =
        >>=-eq-ok (retain_evidence u v (v.cited_pages base.apply_run_id) selected) _ h1 in
      let (issues, checked, h3) =
        >>=-eq-ok
          (escaping (validate_response u merged (request_for target (some base) false snapshots))) _
          h2 in
      let (done, clean, last) = >>=-eq-ok (require_retained issues) _ h3 in
      subst
        (λ (x : ArticleProposal × Snapshots).
          Accepted x.0 (request_for target (some base) false x.1))
        (ok-cancel last)
        (Accepted-valid merged (request_for target (some base) false snapshots) issues checked
          (require_retained-ok issues clean))

  pub reconcile_with-Accepted :
      (target : ConceptTarget) (selected : Snapshots) (base : Option ArticleBase)
      (regenerate : Bool) (p q : ArticleProposal) (kept : Snapshots)
      → Accepted p (request_for target base regenerate selected)
      → reconcile_with u v target selected base regenerate p ≡ ok (q, kept)
      → Accepted q (request_for target base regenerate kept)
  unfolding reconcile_with
  reconcile_with-Accepted target selected none regenerate p q kept a h =
      subst
        (λ (x : ArticleProposal × Snapshots). Accepted x.0 (request_for target none regenerate x.1))
        (ok-cancel h) a
  reconcile_with-Accepted target selected (some base) true p q kept a h =
      subst
        (λ (x : ArticleProposal × Snapshots).
          Accepted x.0 (request_for target (some base) true x.1))
        (ok-cancel h) a
  reconcile_with-Accepted target selected (some base) false p q kept a h =
      merge_base-Accepted target selected base p q kept h
