-- ===== src/Compiler/Publish/Failed.antt =====
-- What a compilation that fails leaves behind (libs/compiler/src/compiler.cpp).
use wiki.Base.{
  ◌≡◌, refl, sym, ap, subst, ◌⊎◌, inl, inr, Bool, true, false, Option, none, some, List, Result, ok,
  err, ◌>>=◌, ◌∙◌, Bytes, text, if◌then◌else◌, length, Pairwise, Pairwise-map, bytes_eq,
  bytes_eq_lem, bytes_eq_refl, Bool-cases, false≢true, err-ne-ok, [], ◌∷◌,
}
use wiki.Domain.Unicode.{Unicode}
use wiki.Domain.Types.{ArticleProposal, Issues}
use wiki.Domain.Json.{Json}
use wiki.Domain.Json.Write.{proposal_to_json}
use wiki.Models.Validator.{ProposalGenerationRequest, validate_response}
use wiki.Models.Runner.{
  ModelFailure, model_error, escaped, RunRow, Recorded, ModelRunResult, ModelRunStatus,
  generate_concept,
}
use wiki.Models.Runner.Audit.{Redacted, Audited, generate_concept-Audited}
use wiki.Compiler.{CompileOptions}
use wiki.Compiler.Store.{Store}
use wiki.Compiler.Compile.{Failure, Services, Prepared, escaping, of_model, prepare}
use wiki.Compiler.Citations.{normalize_proposal_citations}
use wiki.Compiler.Publish.{
  Refusal, refusing, diagnostic_of, proposal_of, require_valid, Compiled, mark_run, respond,
  refuse_with, refuse, publish, published, answered, asked, prepared_compile, compile,
}

if-both :
    {A B : Type 0} (P : A → Type 0) (b : Bool) (x y : A × B)
    → P x.0
    → P y.0
    → P (if b then x else y).0
if-both P true x y p q = p
if-both P false x y p q = q

not_failed :
    {A B E : Type 0} {a b : A} {x : B} {f : E} → ◌≡◌ {A = A × Result E B} (a, ok x) (b, err f) → ⊥
not_failed h = err-ne-ok (sym (ap (λ c. c.1) h))

-- A row of the log, before and after the runs with an identifier were marked: another run is as it was,
-- and a run with it is now one with an invalid response, the diagnostic document and a fixed message.
pub record IsMarked (run_id : Bytes) (document : Json) (before after : RunRow) : Type 0 where
  pub other : (before.run_id ≡ run_id → ⊥) → after ≡ before
  pub own :
      before.run_id ≡ run_id
      → after ≡ record before {
        status = ModelRunStatus.invalid_response;
        response_json = some document;
        error_message = some (text "model response failed compiler validation");
      }

mark_run-IsMarked :
    (run_id : Bytes) (document : Json) (row : RunRow)
    → IsMarked run_id document row (mark_run run_id document row)
unfolding mark_run
mark_run-IsMarked run_id document row = elim (Bool-cases (bytes_eq row.run_id run_id)) [
  | inl e ↦ rw e (record {
    other = λ different. absurd (different (bytes_eq_lem row.run_id run_id e));
    own = λ same. refl;
  })
  | inr e ↦ rw e (record {
    other = λ different. refl;
    own = λ same. absurd (
        false≢true
          (sym e ∙ subst (λ x. bytes_eq x run_id ≡ true) (sym same) (bytes_eq_refl run_id)));
  })
]

module _ (u : Unicode) (v : Services) where
  -- What a diagnostic says of a proposal: how long its document is, its digest and its issues' number
  abbrev Diagnoses : Json → Type 0
  Diagnoses d = (p : ArticleProposal) × Redacted (v.json.dump (proposal_to_json p)) d

  abbrev IsClean : Option Json → Type 0
  IsClean none = Unit
  IsClean (some d) = Diagnoses d

  abbrev RefusesClean : {A : Type 0} → Result Refusal A → Type 0
  RefusesClean (ok a) = Unit
  RefusesClean (err refused) = IsClean refused.diagnostic

  RefusesClean-bind :
      {A B : Type 0} (m : Result Refusal A) (f : A → Result Refusal B)
      → RefusesClean m
      → ((a : A) → RefusesClean (f a))
      → RefusesClean (m >>= f)
  RefusesClean-bind (ok a) f h k = k a
  RefusesClean-bind (err refused) f h k = h

  RefusesClean-refusing : {A : Type 0} (m : Result Failure A) → RefusesClean (refusing m)
  unfolding refusing
  RefusesClean-refusing (ok a) = tt
  RefusesClean-refusing (err f) = tt

  RefusesClean-proposal_of :
      (status : ModelRunStatus) (p : Option ArticleProposal) (issues : Issues)
      → RefusesClean (proposal_of status p issues)
  unfolding proposal_of
  RefusesClean-proposal_of ModelRunStatus.failed p issues = tt
  RefusesClean-proposal_of ModelRunStatus.invalid_response p issues = tt
  RefusesClean-proposal_of ModelRunStatus.completed none issues = tt
  RefusesClean-proposal_of ModelRunStatus.completed (some p) issues = tt

  RefusesClean-require_valid :
      (p : ArticleProposal) (issues : Issues) → RefusesClean (require_valid v.json p issues)
  unfolding require_valid diagnostic_of Redacted
  RefusesClean-require_valid p [] = tt
  RefusesClean-require_valid p (i ∷ issues) = (p, (length (i ∷ issues), refl))

  RefusesClean-respond :
      (r : ProposalGenerationRequest) (result : ModelRunResult)
      → RefusesClean (respond u v r result)
  unfolding respond
  RefusesClean-respond r result =
      RefusesClean-bind (proposal_of result.status result.proposal result.issues) _
        (RefusesClean-proposal_of result.status result.proposal result.issues)
        (λ answer.
          let q : ArticleProposal = normalize_proposal_citations r.pages answer in
          RefusesClean-bind (refusing (escaping (validate_response u q r))) _
            (RefusesClean-refusing (escaping (validate_response u q r)))
            (λ issues.
              RefusesClean-bind (require_valid v.json q issues) _
                (RefusesClean-require_valid q issues) (λ done. tt)))

  -- The log of runs, that of a run which was recorded, or the same with that run marked
  abbrev Marked : List RunRow → List RunRow → Type 0
  Marked runs after =
      (after ≡ runs) ⊎ ((d : Json) × Diagnoses d × Pairwise (IsMarked v.run.run_id d) runs after)

  abbrev Logged : List RunRow → List RunRow → Type 0
  Logged runs after =
      (after ≡ runs)
      ⊎ ((r : ProposalGenerationRequest) × (recorded : Recorded) × Audited u v.json v.model v.run r
            runs recorded
          × Marked recorded.0 after)

  -- What a failure leaves
  pub record Failed (s t : Store) : Type 0 where
    pub untouched : t ≡ record s { runs = t.runs }
    pub logged : Logged s.runs t.runs

  abbrev Remarked : Store → Store → Type 0
  Remarked s w = (w ≡ record s { runs = w.runs }) × Marked s.runs w.runs

  refuse_with-Remarked :
      (s : Store) (failure : Failure) (d : Option Json)
      → IsClean d
      → Remarked s (refuse_with u v s failure d).0
  unfolding refuse_with
  refuse_with-Remarked s failure none clean = (refl, inl refl)
  refuse_with-Remarked s failure (some d) clean =
      if-both (Remarked s) v.mark_ok _ _
        (
          refl,
          inr (
            d,
            clean,
            Pairwise-map (IsMarked v.run.run_id d) (mark_run v.run.run_id d)
                (mark_run-IsMarked v.run.run_id d) s.runs,
          ),
        )
        (refl, inl refl)

  published-Remarked :
      (s : Store) (prepared : Prepared) (m : Result Failure Store) {t : Store} {f : Failure}
      → published u v s prepared m ≡ (t, err f)
      → Remarked s t
  unfolding published
  published-Remarked s prepared (err e) h =
      subst (Remarked s) (ap (λ (c : Compiled u v). c.0) h) (refl, inl refl)
  published-Remarked s prepared (ok w) h = absurd (not_failed h)

  answered-Remarked :
      (s : Store) (prepared : Prepared) (regenerate : Bool) (m : Result Refusal ArticleProposal)
      {t : Store} {f : Failure}
      → RefusesClean m
      → answered u v s prepared regenerate m ≡ (t, err f)
      → Remarked s t
  unfolding answered refuse
  answered-Remarked s prepared regenerate (err refused) clean h =
      subst (Remarked s) (ap (λ (c : Compiled u v). c.0) h)
        (refuse_with-Remarked s refused.failure refused.diagnostic clean)
  answered-Remarked s prepared regenerate (ok p) clean h =
      published-Remarked s prepared (publish u v s prepared regenerate p) h

  unchanged :
      {s t : Store} {f g : Failure} → ◌≡◌ {A = Compiled u v} (s, err f) (t, err g) → Failed s t
  unchanged {s} h =
      subst (Failed s) (ap (λ (c : Compiled u v). c.0) h)
        (record { untouched = refl; logged = inl refl })

  asked-Failed :
      (s : Store) (prepared : Prepared) (regenerate : Bool) (r : ProposalGenerationRequest)
      (m : Result ModelFailure Recorded) {t : Store} {f : Failure}
      → generate_concept u v.json v.model v.run r s.runs ≡ m
      → asked u v s prepared regenerate r (of_model m) ≡ (t, err f)
      → Failed s t
  unfolding asked of_model
  asked-Failed s prepared regenerate r (err (model_error kind message)) e h = unchanged h
  asked-Failed s prepared regenerate r (err (escaped message)) e h = unchanged h
  asked-Failed s prepared regenerate r (ok (runs, result)) e h =
      let (kept, marked) =
        answered-Remarked (record s { runs = runs }) prepared regenerate (respond u v r result)
          (RefusesClean-respond r result) h in
      record {
        untouched = kept;
        logged =
            inr (
              r,
              (runs, result),
              generate_concept-Audited u v.json v.model v.run r s.runs e,
              marked,
            );
      }

  prepared-Failed :
      (s : Store) (options : CompileOptions) (m : Result Failure Prepared) {t : Store} {f : Failure}
      → prepared_compile u v s options m ≡ (t, err f)
      → Failed s t
  unfolding prepared_compile
  prepared-Failed s options (err e) h = unchanged h
  prepared-Failed s options (ok prepared) h = asked-Failed s prepared options.regenerate _ _ refl h

  -- A compilation that fails leaves every table but the log of runs as it was. The log is as it
  -- was, or it has one more row, which records the answer of the model to a request. Of that log the
  -- runs with this compilation's identifier may then have been marked: all of them have an invalid
  -- response, a fixed message and one document, which has of a proposal only the digest and the length
  -- of its text; every other run is as it was, in its place.
  pub compile-Failed :
      (s t : Store) (options : CompileOptions) (f : Failure)
      → compile u v s options ≡ (t, err f)
      → Failed s t
  unfolding compile
  compile-Failed s t options f h = prepared-Failed s options (prepare u v s options) h
