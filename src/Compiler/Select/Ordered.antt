-- ===== src/Compiler/Select/Ordered.antt =====
-- What `select_evidence` selects, and in which order (libs/compiler/src/compiler.cpp).
use wiki.Base.{
  ◌≡◌, refl, sym, ap, subst, ◌∙◌, ◌⊎◌, inl, inr, Bool, true, false, not, ◌||◌, Option, none, some,
  List, [], ◌∷◌, Bytes, Result, ok, err, bytes_eq, bytes_eq_lem, is_empty, any, map, All, All-map,
  Any, InOrder, keep_if, keep_if-Any, sort_by, sort_by-All, sort_by-Any, sort_by-InOrder,
  Bool-cases, none-ne-some, some-cancel, >>=-eq-ok, ok-cancel, err-ne-ok, throw_if, throw_if-ok,
  arith,
}
use wiki.Domain.Unicode.{Unicode, is_valid_source_text}
use wiki.Domain.Types.{TextStatus, ExtractedPage}
use wiki.Domain.Sha256.{sha256_text}
use wiki.Compiler.{CompilerErrorKind, CompileOptions, as_compiler_error}
use wiki.Compiler.Select.{
  SourceRow, Evidence, CandidatePage, Files, Owners, is_selectable, candidate_of, collect,
  has_match, keep_lexical, comes_before, file_or, verify_retained_file, verify_image,
  check_candidate, check_candidates, ranked, validate_options, refuse_missing,
  validate_source_filters, select_evidence,
}
use wiki.Compiler.Select.Selected.{Stands, Fits, collect-Stands, collect-Fits}
use wiki.Compiler.Select.Order.{
  comes_before-asym, keep_lexical-All, keep_lexical-kept, keep_lexical-Any,
}

not-false : (b : Bool) → not b ≡ false → b ≡ true
not-false true h = refl
not-false false h = cc

as_compiler_error-ok :
    {A : Type 0} (kind : CompilerErrorKind) (m : Result Bytes A) {a : A}
    → as_compiler_error kind m ≡ ok a
    → m ≡ ok a
unfolding as_compiler_error
as_compiler_error-ok kind (ok a) h = ap ok (ok-cancel h)
as_compiler_error-ok kind (err message) h = absurd (err-ne-ok h)

file_or-ok :
    (content : Option Bytes) {bytes : Bytes} → file_or content ≡ ok bytes → content ≡ some bytes
unfolding file_or
file_or-ok none h = absurd (err-ne-ok h)
file_or-ok (some found) h = ap some (ok-cancel h)

or-not : (a b : Bool) → (a || not b) ≡ false → b ≡ true
or-not a b e = ground arith

-- A file below its owner whose bytes have the recorded digest
pub Retained : Files → Bytes → Bytes → Bytes → Type 0
Retained files owner file digest =
    (files.is_within owner file ≡ true)
    × ((bytes : Bytes) × (files.content file ≡ some bytes) × (sha256_text bytes ≡ digest))

pub verify_retained_file-Retained :
    (files : Files) (owner file digest : Bytes) {done : Unit {0}}
    → verify_retained_file files owner file digest ≡ ok done
    → Retained files owner file digest
unfolding verify_retained_file Retained
verify_retained_file-Retained files owner file digest h =
    let (a, within, h1) = >>=-eq-ok (throw_if (not (files.is_within owner file)) _) _ h in
    let (bytes, read, last) = >>=-eq-ok (file_or (files.content file)) _ h1 in
    (
      not-false _ (throw_if-ok _ _ within),
      (bytes, file_or-ok (files.content file) read, same bytes (throw_if-ok _ _ last)),
    )
  where
    same :
        (bytes : Bytes)
        → (is_empty digest || not (bytes_eq (sha256_text bytes) digest)) ≡ false
        → sha256_text bytes ≡ digest
    same bytes e = bytes_eq_lem (sha256_text bytes) digest (or-not (is_empty digest) _ e)

module _ (u : Unicode) (o : Owners) where
  -- The page's text is valid and has its digest, and so have the files that it came from.
  pub record IsWhole (page : ExtractedPage) (evidence : Evidence) : Type 0 where
    pub utf8 : is_valid_source_text u page.text ≡ true
    pub digest : sha256_text page.text ≡ evidence.text_sha256
    pub stored : Retained o.files o.sources evidence.stored_path evidence.source_sha256
    pub image :
        (path : Bytes)
        → page.image_path ≡ some path
        → Retained o.files o.cache path evidence.image_sha256

  verify_image-Retained :
      (image : Option Bytes) (digest : Bytes) {done : Unit {0}}
      → verify_image o.files o.cache image digest ≡ ok done
      → (path : Bytes) → image ≡ some path
      → Retained o.files o.cache path digest
  unfolding verify_image
  verify_image-Retained none digest h path e = absurd (none-ne-some e)
  verify_image-Retained (some image) digest h path e =
      subst (λ (p : Bytes). Retained o.files o.cache p digest) (some-cancel e)
        (verify_retained_file-Retained o.files o.cache image digest h)

  pub check_candidate-IsWhole :
      (page : ExtractedPage) (evidence : Evidence) {done : Unit {0}}
      → check_candidate u o page evidence ≡ ok done
      → IsWhole page evidence
  unfolding check_candidate
  check_candidate-IsWhole page evidence h =
      let (a, encoded, h1) =
        >>=-eq-ok
          (throw_if
            (not (is_valid_source_text u page.text)
              || not (bytes_eq (sha256_text page.text) evidence.text_sha256))
            _)
          _ h in
      let (b, stored, image) =
        >>=-eq-ok
          (verify_retained_file o.files o.sources evidence.stored_path evidence.source_sha256) _
          h1 in
      let (valid, digest) =
        both (is_valid_source_text u page.text)
          (bytes_eq (sha256_text page.text) evidence.text_sha256) (throw_if-ok _ _ encoded) in
      record {
        utf8 = valid;
        digest = bytes_eq_lem _ _ digest;
        stored =
            verify_retained_file-Retained o.files o.sources evidence.stored_path
              evidence.source_sha256 stored;
        image = verify_image-Retained page.image_path evidence.image_sha256 image;
      }
    where
      both : (a b : Bool) → (not a || not b) ≡ false → (a ≡ true) × (b ≡ true)
      both a b e = ground arith

  abbrev pub selected : CandidatePage → ExtractedPage × Evidence
  selected c = (c.page, c.evidence)

  check_candidates-All :
      (cs : List CandidatePage) {chosen : List (ExtractedPage × Evidence)}
      → check_candidates u o cs ≡ ok chosen
      → (chosen ≡ map selected cs) × All (λ c. IsWhole c.page c.evidence) cs
  unfolding check_candidates
  check_candidates-All [] h = (sym (ok-cancel h), tt)
  check_candidates-All (c ∷ cs) h =
      let (a, checked, h1) =
        >>=-eq-ok
          (as_compiler_error CompilerErrorKind.validation_failed
            (check_candidate u o c.page c.evidence))
          _ h in
      let (rest, others, last) = >>=-eq-ok (check_candidates u o cs) _ h1 in
      let (same, whole) = check_candidates-All cs others in
      (
        sym (ok-cancel last) ∙ ap (λ xs. selected c ∷ xs) same,
        (
          check_candidate-IsWhole c.page c.evidence
              (as_compiler_error-ok _ (check_candidate u o c.page c.evidence) checked),
          whole,
        ),
      )

  -- A page is selected, or it does not match the title while one that is selected does.
  abbrev pub Offered : CandidatePage → List CandidatePage → Type 0
  Offered d candidates =
      Any (λ c. c ≡ d) candidates
      ⊎ ((has_match d ≡ false) × Any (λ c. has_match c ≡ true) candidates)

  -- The pages that a model sees
  pub record Selected (rows : List SourceRow) (options : CompileOptions)
      (chosen : List (ExtractedPage × Evidence)) : Type 0 where
    pub candidates : List CandidatePage
    pub shown : chosen ≡ map selected candidates
    pub ordered : InOrder comes_before candidates
    pub standing :
        All
          (λ c.
            (row : SourceRow) × (Any (λ r. r ≡ row) rows × (is_selectable row ≡ true))
            × Stands u options.concept_title options.source_ids c row)
          candidates
    pub whole : All (λ c. IsWhole c.page c.evidence) candidates
    pub matched :
        All (λ c. has_match c ≡ true) candidates ⊎ All (λ c. has_match c ≡ false) candidates
    pub complete :
        (row : SourceRow) (status : TextStatus)
        → Any (λ r. r ≡ row) rows
        → Fits u options.concept_title options.source_ids row status
        → Offered (candidate_of u options.concept_title options.source_ids row status) candidates

  selectable-rows :
      (rows : List SourceRow)
      → All
          (λ row. Any (λ r. r ≡ row) rows × (is_selectable row ≡ true))
          (keep_if is_selectable rows)
  unfolding keep_if
  selectable-rows [] = tt
  selectable-rows (row ∷ rows) =
      let later =
        All-map (λ x. Any (λ r. r ≡ x) rows × (is_selectable x ≡ true))
          (λ x. Any (λ r. r ≡ x) (row ∷ rows) × (is_selectable x ≡ true)) (λ x p. (inr p.0, p.1))
          (keep_if is_selectable rows) (selectable-rows rows) in
      elim (Bool-cases (is_selectable row)) [
        | inl e ↦ rw e ((inl refl, e), later)
        | inr e ↦ rw e later
      ]

  refuse_missing-ok :
      (active ids result : List Bytes)
      → validate_source_filters active ids ≡ ok result
      → ids ≡ result
  unfolding validate_source_filters
  refuse_missing-ok active ids result h =
      let (a, present, last) =
        >>=-eq-ok (refuse_missing (keep_if (λ id. not (any (bytes_eq id) active)) ids)) _ h in
      ok-cancel last

  ordered_from :
      (rows : List SourceRow) (options : CompileOptions) (cs : List CandidatePage)
      (chosen : List (ExtractedPage × Evidence))
      → collect u options.concept_title options.source_ids (keep_if is_selectable rows) ≡ ok cs
      → check_candidates u o (sort_by comes_before (keep_lexical cs)) ≡ ok chosen
      → Selected rows options chosen
  ordered_from rows options cs chosen collected checked =
      let (shown, whole) = check_candidates-All (sort_by comes_before (keep_lexical cs)) checked in
      record {
        candidates = sort_by comes_before (keep_lexical cs);
        shown = shown;
        ordered = sort_by-InOrder comes_before comes_before-asym (keep_lexical cs);
        standing = sort_by-All _ comes_before (keep_lexical cs) (
            keep_lexical-kept _ cs (
              collect-Stands u options.concept_title options.source_ids
                (λ row. Any (λ r. r ≡ row) rows × (is_selectable row ≡ true))
                (keep_if is_selectable rows) (selectable-rows rows) collected));
        whole = whole;
        matched = sorted_matches (keep_lexical-All cs);
        complete = λ row status m f.
            let d = candidate_of u options.concept_title options.source_ids row status in
            sorted_offer d (
              keep_lexical-Any d cs (
                collect-Fits u options.concept_title options.source_ids row status
                  (keep_if is_selectable rows) f
                  (keep_if-Any (λ r. r ≡ row) is_selectable
                    (λ x e. subst (λ y. is_selectable y ≡ true) (sym e) f.selectable) rows m)
                  collected));
      }
    where
      sorted_offer :
          (d : CandidatePage)
          → Offered d (keep_lexical cs)
          → Offered d (sort_by comes_before (keep_lexical cs))
      sorted_offer d (inl h) = inl (sort_by-Any _ comes_before (keep_lexical cs) h)
      sorted_offer d (inr (e, h)) = inr (e, sort_by-Any _ comes_before (keep_lexical cs) h)

      sorted_matches :
          All (λ c. has_match c ≡ true) (keep_lexical cs)
            ⊎ All (λ c. has_match c ≡ false) (keep_lexical cs)
          → All (λ c. has_match c ≡ true) (sort_by comes_before (keep_lexical cs))
            ⊎ All (λ c. has_match c ≡ false) (sort_by comes_before (keep_lexical cs))
      sorted_matches (inl h) = inl (sort_by-All _ comes_before (keep_lexical cs) h)
      sorted_matches (inr h) = inr (sort_by-All _ comes_before (keep_lexical cs) h)

  -- The pages that `select_evidence` returns stand for current pages of the latest versions of
  -- active sources, of a requested source where sources are named, with native or reviewed text
  -- that is not empty; text and files have their recorded digests. They are in the order of
  -- relevance. Of the rows that pass these tests, every one that matches the title is among them, and
  -- where sources are named, every other one as well unless a selected page matches the title.
  pub select_evidence-Selected :
      (active : List Bytes) (rows : List SourceRow) (options : CompileOptions)
      {chosen : List (ExtractedPage × Evidence)}
      → select_evidence u o active rows options ≡ ok chosen
      → Selected rows options chosen
  unfolding select_evidence ranked
  select_evidence-Selected active rows options {chosen} h =
      let (a, valid, h1) = >>=-eq-ok (validate_options u options) _ h in
      let (requested, filters, h2) =
        >>=-eq-ok (validate_source_filters active options.source_ids) _ h1 in
      let (sorted, rank, checked) =
        >>=-eq-ok (ranked u o options.concept_title requested rows) _ h2 in
      let (cs, collected, last) =
        >>=-eq-ok (collect u options.concept_title requested (keep_if is_selectable rows)) _ rank in
      let same = refuse_missing-ok active options.source_ids requested filters in
      ordered_from rows options cs chosen
        (subst (λ ids. collect u options.concept_title ids (keep_if is_selectable rows) ≡ ok cs)
          (sym same) collected)
        (subst (λ l. check_candidates u o l ≡ ok chosen) (sym (ok-cancel last)) checked)
