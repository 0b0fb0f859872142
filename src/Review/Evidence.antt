-- ===== src/Review/Evidence.antt =====
-- Pages that proposals cite are never rewritten (correct_page_text).
use wiki.Base.{
  ℕ, ◌≡◌, refl, sym, subst, ap, ◌∙◌, inl, inr, Bool, true, false, false≢true, not, ◌||◌, Option,
  List, [], ◌∷◌, ◌++◌, Bytes, Result, ok, ok-cancel, >>=-eq-ok, throw_if, map, All, bytes_eq,
  bytes_eq_lem, if-cases, Bool-cases, ◌==◌,
}
use wiki.Domain.Unicode.{Unicode, is_valid_source_text}
use wiki.Updates.Retains.{Extends, Extends-refl}
use wiki.Review.{
  ReviewError, PageRow, ReviewState, PageCorrectionResult, is_referenced, retire, copies_of,
  has_key, correct, prepare_pages, changed_pages, write_prepared, write_correction, is_accepted,
  find_current, differs, has_visible_text, correct_page_text,
}

-- What a citation rests on.
pub record SameEvidence (p q : PageRow) : Type 0 where
  pub page_id : q.page_id ≡ p.page_id
  pub image_path : q.image_path ≡ p.image_path
  pub text : q.text ≡ p.text
  pub text_status : q.text_status ≡ p.text_status
  pub text_sha256 : q.text_sha256 ≡ p.text_sha256
  pub image_sha256 : q.image_sha256 ≡ p.image_sha256
  pub evidence_revision : q.evidence_revision ≡ p.evidence_revision

-- The row of a page that is referenced stays with its evidence.
abbrev pub KeepsEvidence : List Bytes → PageRow → PageRow → Type 0
KeepsEvidence references p q = is_referenced references p.page_id ≡ true → SameEvidence p q

-- No page has the identifier.
abbrev pub IsFresh : Bytes → List PageRow → Type 0
IsFresh fresh pages = All (λ (p : PageRow). bytes_eq p.page_id fresh ≡ false) pages

SameEvidence-refl : (p : PageRow) → SameEvidence p p
SameEvidence-refl p = record {
  page_id = refl;
  text = refl;
  image_path = refl;
  text_status = refl;
  text_sha256 = refl;
  image_sha256 = refl;
  evidence_revision = refl;
}

SameEvidence-trans : (p q r : PageRow) → SameEvidence p q → SameEvidence q r → SameEvidence p r
SameEvidence-trans p q r h k = record {
  page_id = k.page_id ∙ h.page_id;
  image_path = k.image_path ∙ h.image_path;
  text = k.text ∙ h.text;
  text_status = k.text_status ∙ h.text_status;
  text_sha256 = k.text_sha256 ∙ h.text_sha256;
  image_sha256 = k.image_sha256 ∙ h.image_sha256;
  evidence_revision = k.evidence_revision ∙ h.evidence_revision;
}

retire-SameEvidence : (id : Bytes) (p : PageRow) → SameEvidence p (retire id p)
unfolding retire
retire-SameEvidence id p = elim (Bool-cases (bytes_eq p.page_id id)) [
  | inl e ↦ rw e record {
    page_id = refl;
    text = refl;
    image_path = refl;
    text_status = refl;
    text_sha256 = refl;
    image_sha256 = refl;
    evidence_revision = refl;
  }
  | inr e ↦ rw e (SameEvidence-refl p)
]

correct-SameEvidence :
    (id version corrected hash : Bytes) (p : PageRow)
    → bytes_eq p.page_id id ≡ false
    → SameEvidence p (correct id version corrected hash p)
unfolding correct has_key
correct-SameEvidence id version corrected hash p e = rw e (SameEvidence-refl p)

-- Each row of `pages` has its place in the result, and keeps what a reference needs.
retired-Extends :
    (references : List Bytes) (id version corrected hash fresh : Bytes) (pages extra : List PageRow)
    → IsFresh fresh pages
    → Extends
        (KeepsEvidence references)
        pages
        (map (correct fresh version corrected hash) (map (retire id) pages ++ extra))
retired-Extends references id version corrected hash fresh [] extra h = tt
retired-Extends references id version corrected hash fresh (p ∷ pages) extra (e, h) = (
  (λ r.
      let a = retire-SameEvidence id p in
      let b =
        correct-SameEvidence fresh version corrected hash (retire id p)
          (subst (λ x. bytes_eq x fresh ≡ false) (sym a.page_id) e) in
      SameEvidence-trans p (retire id p) _ a b),
  retired-Extends references id version corrected hash fresh pages extra h,
)

corrected-Extends :
    (references : List Bytes) (id version corrected hash : Bytes) (pages : List PageRow)
    → is_referenced references id ≡ false
    → Extends (KeepsEvidence references) pages (map (correct id version corrected hash) pages)
corrected-Extends references id version corrected hash [] h = tt
corrected-Extends references id version corrected hash (p ∷ pages) h = (
  (λ r. elim (Bool-cases (bytes_eq p.page_id id)) [
    | inl e ↦ absurd (
        false≢true
          (sym h ∙ subst (λ x. is_referenced references x ≡ true) (bytes_eq_lem p.page_id id e) r))
    | inr e ↦ correct-SameEvidence id version corrected hash p e
  ]),
  corrected-Extends references id version corrected hash pages h,
)

write_prepared-pages :
    (s t : ReviewState) (r : PageCorrectionResult) (page : PageRow) (corrected hash : Bytes)
    (pages : List PageRow) (id : Bytes)
    → write_prepared s page corrected hash pages id ≡ ok (t, r)
    → map (correct id page.source_version_id corrected hash) pages ≡ t.pages
unfolding write_prepared
write_prepared-pages s t r page corrected hash pages id h =
    let (x, g, k) =
      >>=-eq-ok (throw_if (not (changed_pages id page.source_version_id pages == 1)) _) _ h in
    ap (λ (o : ReviewState × PageCorrectionResult). o.0.pages) (ok-cancel k)

write_correction-Extends :
    (s t : ReviewState) (r : PageCorrectionResult) (page : PageRow) (corrected hash fresh : Bytes)
    (referenced : Bool)
    → IsFresh fresh s.pages
    → is_referenced s.references page.page_id ≡ referenced
    → write_correction s page corrected hash fresh referenced ≡ ok (t, r)
    → Extends (KeepsEvidence s.references) s.pages t.pages
unfolding write_correction prepare_pages
write_correction-Extends s t r page corrected hash fresh true f e h =
    subst (Extends (KeepsEvidence s.references) s.pages)
      (write_prepared-pages s t r page corrected hash _ fresh h)
      (retired-Extends s.references page.page_id page.source_version_id corrected hash fresh s.pages
        (copies_of page.page_id fresh (map (retire page.page_id) s.pages)) f)
write_correction-Extends s t r page corrected hash fresh false f e h =
    subst (Extends (KeepsEvidence s.references) s.pages)
      (write_prepared-pages s t r page corrected hash _ page.page_id h)
      (corrected-Extends s.references page.page_id page.source_version_id corrected hash s.pages e)

-- Where `correct_page_text` returns, with a new identifier that no page has: every page that a
-- proposal refers to is still at its place with its identifier, image, text, status, digests and
-- revision, and the table has no fewer rows.
pub correct_page_text-Extends :
    (u : Unicode) (sha : Bytes → Bytes) (version : Result ReviewError Bytes) (fresh : Bytes)
    (number : ℕ) (corrected : Bytes) (expected_page_id expected_text_sha256 : Option Bytes)
    (s t : ReviewState) (r : PageCorrectionResult)
    → IsFresh fresh s.pages
    → correct_page_text u sha version fresh number corrected expected_page_id expected_text_sha256 s
      ≡ ok (t, r)
    → Extends (KeepsEvidence s.references) s.pages t.pages
unfolding correct_page_text
correct_page_text-Extends u sha version fresh number corrected expected_page_id expected_text_sha256
      s t r f h =
    let (a, _, h1) = >>=-eq-ok (throw_if (number == 0) _) _ h in
    let (b, _, h2) =
      >>=-eq-ok
        (throw_if (not (is_valid_source_text u corrected) || not (has_visible_text corrected)) _) _
        h1 in
    let (v, _, h3) = >>=-eq-ok version _ h2 in
    let (page, _, h4) = >>=-eq-ok (find_current v number s.pages) _ h3 in
    let (c, _, h5) =
      >>=-eq-ok
        (throw_if
          (differs expected_page_id page.page_id || differs expected_text_sha256 page.text_sha256)
          _)
        _ h4 in
    elim (if-cases (is_accepted page (sha corrected)) h5) [
      | inl k ↦
          subst
            (λ (o : ReviewState × PageCorrectionResult).
              Extends (KeepsEvidence s.references) s.pages o.0.pages)
            (ok-cancel k)
            (Extends-refl (KeepsEvidence s.references) (λ p q. SameEvidence-refl p) s.pages)
      | inr k ↦ write_correction-Extends s t r page corrected (sha corrected) fresh _ f refl k
    ]
