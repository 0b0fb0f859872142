-- ===== src/Review/Decisions.antt =====
-- The decisions on proposals as steps (reject_proposal, revoke_approval, correct_page_text).
use wiki.Base.{
  ℕ, ◌≡◌, refl, sym, subst, ap, ◌∙◌, inl, inr, Bool, true, false, false≢true, not, ◌||◌, Option,
  List, [], ◌∷◌, Bytes, text, Result, ok, ok-cancel, >>=-eq-ok, throw_if, and-true, bytes_eq,
  if-cases, Bool-cases, ◌==◌, arith,
}
use wiki.Domain.Unicode.{Unicode, is_valid_source_text}
use wiki.Updates.Retains.{Extends, Extends-refl, Extends-trans}
use wiki.Review.{
  ReviewError, PageRow, ProposalRow, ReviewState, PageCorrectionResult, is_open, is_open_proposal,
  is_approved_proposal, reject_row, reopen_row, update_rows, count_rows, find_proposal, bad_reason,
  reject_proposal, revoke_approval, is_accepted, find_current, differs, has_visible_text,
  changed_pages, write_prepared, write_correction, correct_page_text,
}

-- One successful call of the service.
pub data Step : ReviewState → ReviewState → Type 0 where
  rejects :
      {s t : ReviewState} (now id : Bytes) (reason : Option Bytes)
      → reject_proposal now id reason s ≡ ok t
      → Step s t
  revokes : {s t : ReviewState} (id : Bytes) → revoke_approval id s ≡ ok t → Step s t
  corrects :
      {s t : ReviewState} (u : Unicode) (sha : Bytes → Bytes) (version : Result ReviewError Bytes)
      (fresh : Bytes) (number : ℕ) (corrected : Bytes)
      (expected_page_id expected_text_sha256 : Option Bytes) (r : PageCorrectionResult)
      → correct_page_text u sha version fresh number corrected expected_page_id expected_text_sha256
          s
        ≡ ok (t, r)
      → Step s t

pub data Reaches : ReviewState → ReviewState → Type 0 where
  here : {s : ReviewState} → Reaches s s
  next : {s t r : ReviewState} → Step s t → Reaches t r → Reaches s r

-- A closed proposal is as it was.
pub record IsFinal (p q : ProposalRow) : Type 0 where
  pub same_id : q.proposal_id ≡ p.proposal_id
  pub final : is_open p ≡ false → q ≡ p

IsFinal-refl : (p : ProposalRow) → IsFinal p p
IsFinal-refl p = record { same_id = refl; final = λ h. refl }

IsFinal-trans : (p q r : ProposalRow) → IsFinal p q → IsFinal q r → IsFinal p r
IsFinal-trans p q r h k = record {
  same_id = k.same_id ∙ h.same_id;
  final = λ c. let e = h.final c in k.final (subst (λ x. is_open x ≡ false) (sym e) c) ∙ e;
}

-- An update of open rows only, which keeps their identifiers.
update_rows-IsFinal :
    (cond : ProposalRow → Bool) (f : ProposalRow → ProposalRow)
    → ((p : ProposalRow) → cond p ≡ true → is_open p ≡ true)
    → ((p : ProposalRow) → (f p).proposal_id ≡ p.proposal_id)
    → (rows : List ProposalRow) → Extends IsFinal rows (update_rows cond f rows)
unfolding update_rows
update_rows-IsFinal cond f only keep [] = tt
update_rows-IsFinal cond f only keep (p ∷ rows) = (
  elim (Bool-cases (cond p)) [
    | inl e ↦ rw e record { same_id = keep p; final = λ c. absurd (false≢true (sym c ∙ only p e)) }
    | inr e ↦ rw e (IsFinal-refl p)
  ],
  update_rows-IsFinal cond f only keep rows,
)

open_is_open : (id : Bytes) (p : ProposalRow) → is_open_proposal id p ≡ true → is_open p ≡ true
unfolding is_open_proposal
open_is_open id p h = (and-true _ _ h).1

approved_is_open :
    (id : Bytes) (p : ProposalRow) → is_approved_proposal id p ≡ true → is_open p ≡ true
unfolding is_approved_proposal is_open
approved_is_open id p h =
    ground (arith, (and-true (bytes_eq p.proposal_id id) (bytes_eq p.status (text "approved")) h).1)

reject_proposal-IsFinal :
    (now id : Bytes) (reason : Option Bytes) (s t : ReviewState)
    → reject_proposal now id reason s ≡ ok t
    → Extends IsFinal s.proposals t.proposals
unfolding reject_proposal reject_row
reject_proposal-IsFinal now id reason s t h =
    let (a, _, h1) = >>=-eq-ok (bad_reason reason) _ h in
    let (found, _, h2) = >>=-eq-ok (find_proposal id s.proposals) _ h1 in
    let (b, _, h3) = >>=-eq-ok (throw_if (not (is_open found)) _) _ h2 in
    let (c, _, h4) =
      >>=-eq-ok (throw_if (not (count_rows (is_open_proposal id) s.proposals == 1)) _) _ h3 in
    subst (λ (o : ReviewState). Extends IsFinal s.proposals o.proposals) (ok-cancel h4)
      (update_rows-IsFinal (is_open_proposal id) (reject_row now reason) (open_is_open id)
        (λ p. refl) s.proposals)

revoke_approval-IsFinal :
    (id : Bytes) (s t : ReviewState)
    → revoke_approval id s ≡ ok t
    → Extends IsFinal s.proposals t.proposals
unfolding revoke_approval reopen_row
revoke_approval-IsFinal id s t h =
    let (c, _, h1) =
      >>=-eq-ok (throw_if (not (count_rows (is_approved_proposal id) s.proposals == 1)) _) _ h in
    subst (λ (o : ReviewState). Extends IsFinal s.proposals o.proposals) (ok-cancel h1)
      (update_rows-IsFinal (is_approved_proposal id) reopen_row (approved_is_open id) (λ p. refl)
        s.proposals)

write_correction-proposals :
    (s t : ReviewState) (r : PageCorrectionResult) (page : PageRow) (corrected hash fresh : Bytes)
    (referenced : Bool)
    → write_correction s page corrected hash fresh referenced ≡ ok (t, r)
    → s.proposals ≡ t.proposals
unfolding write_correction write_prepared
write_correction-proposals s t r page corrected hash fresh referenced h =
    let (x, g, k) =
      >>=-eq-ok (throw_if (not (changed_pages _ page.source_version_id _ == 1)) _) _ h in
    ap (λ (o : ReviewState × PageCorrectionResult). o.0.proposals) (ok-cancel k)

correct_page_text-proposals :
    (u : Unicode) (sha : Bytes → Bytes) (version : Result ReviewError Bytes) (fresh : Bytes)
    (number : ℕ) (corrected : Bytes) (expected_page_id expected_text_sha256 : Option Bytes)
    (s t : ReviewState) (r : PageCorrectionResult)
    → correct_page_text u sha version fresh number corrected expected_page_id expected_text_sha256 s
      ≡ ok (t, r)
    → s.proposals ≡ t.proposals
unfolding correct_page_text
correct_page_text-proposals u sha version fresh number corrected expected_page_id
      expected_text_sha256 s t r h =
    let (a, _, h1) = >>=-eq-ok (throw_if (number == 0) _) _ h in
    let (b, _, h2) =
      >>=-eq-ok
        (throw_if (not (is_valid_source_text u corrected) || not (has_visible_text corrected)) _) _
        h1 in
    let (v, _, h3) = >>=-eq-ok version _ h2 in
    let (page, _, h4) = >>=-eq-ok (find_current v number s.pages) _ h3 in
    let (c, _, h5) =
      >>=-eq-ok
        (throw_if
          (differs expected_page_id page.page_id || differs expected_text_sha256 page.text_sha256)
          _)
        _ h4 in
    elim (if-cases (is_accepted page (sha corrected)) h5) [
      | inl k ↦ ap (λ (o : ReviewState × PageCorrectionResult). o.0.proposals) (ok-cancel k)
      | inr k ↦ write_correction-proposals s t r page corrected (sha corrected) fresh _ k
    ]

Step-IsFinal : (s t : ReviewState) → Step s t → Extends IsFinal s.proposals t.proposals
Step-IsFinal s t (rejects now id reason h) = reject_proposal-IsFinal now id reason s t h
Step-IsFinal s t (revokes id h) = revoke_approval-IsFinal id s t h
Step-IsFinal s t
      (corrects u sha version fresh number corrected expected_page_id expected_text_sha256 r h) =
    subst (Extends IsFinal s.proposals)
      (correct_page_text-proposals u sha version fresh number corrected expected_page_id
        expected_text_sha256 s t r h)
      (Extends-refl IsFinal IsFinal-refl s.proposals)

-- Along any sequence of successful rejections, revocations and corrections: every proposal stays at its place with its
-- identifier, and one that is neither pending nor approved stays exactly as it was.
pub Reaches-IsFinal : (s t : ReviewState) → Reaches s t → Extends IsFinal s.proposals t.proposals
Reaches-IsFinal s t here = Extends-refl IsFinal IsFinal-refl s.proposals
Reaches-IsFinal s t (next {t = m} step rest) =
    Extends-trans IsFinal IsFinal-trans s.proposals m.proposals t.proposals (Step-IsFinal s m step)
      (Reaches-IsFinal m t rest)
