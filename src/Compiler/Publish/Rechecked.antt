-- ===== src/Compiler/Publish/Rechecked.antt =====
-- What the second look at the evidence establishes (recheck_evidence of libs/compiler/src/compiler.cpp).
use wiki.Base.{
  ℕ, ◌≡◌, refl, sym, ap, subst, ◌∙◌, inl, inr, Bool, true, false, not, ◌&&◌, ◌||◌, Option, none,
  some, List, [], ◌∷◌, Bytes, Result, ok, err, ◌==◌, bytes_eq, bytes_eq_lem, bytes_eq_refl, All,
  Any, Bool-cases, >>=-eq-ok, err-ne-ok, none-ne-some, some-cancel, ok-cancel, if-true, if-false,
  throw_if, throw_if-ok, arith,
}
use wiki.Domain.Unicode.{Unicode}
use wiki.Domain.Types.{ExtractedPage}
use wiki.Compiler.{CompilerErrorKind, as_compiler_error}
use wiki.Compiler.Select.{
  SourceRow, Evidence, is_selectable, text_or_null, evidence_snapshot, verify_retained_file,
}
use wiki.Compiler.Select.Ordered.{Retained, verify_retained_file-Retained}
use wiki.Compiler.Compile.{Services, Snapshots, has_page, throwing, rethrow}
use wiki.Compiler.Publish.{
  evidence_eq, find_source, recheck_row, recheck_evidence, selected_changed,
}

-- The row still says what the snapshot took from it.
pub record Agrees (row : SourceRow) (e : Evidence) : Type 0 where
  pub page_id : row.page_id ≡ e.page_id
  pub version_id : row.source_version_id ≡ e.version_id
  pub page_number : row.page_number ≡ e.page_number
  pub image_path : text_or_null row.image_path ≡ e.image_path
  pub body : row.text ≡ e.text
  pub status : row.text_status ≡ e.status
  pub source_id : row.source_id ≡ e.source_id
  pub source_name : row.display_name ≡ e.source_name
  pub revision : row.evidence_revision ≡ e.revision
  pub text_digest : row.text_sha256 ≡ e.text_sha256
  pub image_digest : text_or_null row.image_sha256 ≡ e.image_sha256
  pub stored_path : row.stored_path ≡ e.stored_path
  pub source_digest : row.source_sha256 ≡ e.source_sha256

-- The page is a current one of the latest version of a source that is not archived.
pub record IsCurrent (row : SourceRow) : Type 0 where
  pub active : row.archived ≡ false
  pub current : row.is_current ≡ true
  pub latest : row.latest_version ≡ true

and-both : (a b : Bool) → (a && b) ≡ true → (a ≡ true) × (b ≡ true)
and-both a b h = ground arith

nat_eq_lem : (a b : ℕ) → (a == b) ≡ true → a ≡ b
nat_eq_lem a b h = ground arith

evidence_eq-Agrees :
    (row : SourceRow) (e : Evidence) → evidence_eq (evidence_snapshot row) e ≡ true → Agrees row e
unfolding evidence_eq evidence_snapshot
evidence_eq-Agrees row e h =
    let (h12, source_digest) = and-both _ _ h in
    let (h11, stored_path) = and-both _ _ h12 in
    let (h10, image_digest) = and-both _ _ h11 in
    let (h9, text_digest) = and-both _ _ h10 in
    let (h8, revision) = and-both _ _ h9 in
    let (h7, source_name) = and-both _ _ h8 in
    let (h6, source_id) = and-both _ _ h7 in
    let (h5, status) = and-both _ _ h6 in
    let (h4, body) = and-both _ _ h5 in
    let (h3, image_path) = and-both _ _ h4 in
    let (h2, page_number) = and-both _ _ h3 in
    let (page_id, version_id) = and-both _ _ h2 in
    record {
      page_id = bytes_eq_lem row.page_id e.page_id page_id;
      version_id = bytes_eq_lem row.source_version_id e.version_id version_id;
      page_number = nat_eq_lem row.page_number e.page_number page_number;
      image_path = bytes_eq_lem (text_or_null row.image_path) e.image_path image_path;
      body = bytes_eq_lem row.text e.text body;
      status = bytes_eq_lem row.text_status e.status status;
      source_id = bytes_eq_lem row.source_id e.source_id source_id;
      source_name = bytes_eq_lem row.display_name e.source_name source_name;
      revision = nat_eq_lem row.evidence_revision e.revision revision;
      text_digest = bytes_eq_lem row.text_sha256 e.text_sha256 text_digest;
      image_digest = bytes_eq_lem (text_or_null row.image_sha256) e.image_sha256 image_digest;
      stored_path = bytes_eq_lem row.stored_path e.stored_path stored_path;
      source_digest = bytes_eq_lem row.source_sha256 e.source_sha256 source_digest;
    }

is_selectable-IsCurrent : (row : SourceRow) → is_selectable row ≡ true → IsCurrent row
unfolding is_selectable
is_selectable-IsCurrent row h =
    let (ab, latest) = and-both _ _ h in
    let (active, current) = and-both _ _ ab in
    record { active = not-true row.archived active; current = current; latest = latest }
  where
    not-true : (b : Bool) → not b ≡ true → b ≡ false
    not-true b h = ground arith

-- A row is found under its identifier; where the latest is asked for, it is current.
find_source-lem :
    (latest : Bool) (id : Bytes) (rows : List SourceRow) (row : SourceRow)
    → find_source latest id rows ≡ some row
    → Any (λ r. r ≡ row) rows × (row.page_id ≡ id) × (latest ≡ true → IsCurrent row)
unfolding find_source
find_source-lem latest id [] row h = absurd (none-ne-some h)
find_source-lem latest id (r ∷ rows) row h =
    elim (Bool-cases (bytes_eq r.page_id id && (not latest || is_selectable r))) [
      | inl e ↦
          let same : r ≡ row = some-cancel (if-true _ _ _ e h) in
          let (page, usable) = and-both (bytes_eq r.page_id id) (not latest || is_selectable r) e in
          (
            inl same,
            ap (λ (x : SourceRow). x.page_id) (sym same) ∙ bytes_eq_lem r.page_id id page,
            λ l.
                subst IsCurrent same
                  (is_selectable-IsCurrent r (usable_latest latest (is_selectable r) l usable)),
          )
      | inr e ↦
          let (m, page, current) = find_source-lem latest id rows row (if-false _ _ _ e h) in
          (inr m, page, current)
    ]
  where
    usable_latest : (a b : Bool) → a ≡ true → (not a || b) ≡ true → b ≡ true
    usable_latest a b g h = ground arith

pub rethrow-ok :
    {A : Type 0} (kind : CompilerErrorKind) (m : Result Bytes A) {a : A}
    → rethrow kind m ≡ ok a
    → m ≡ ok a
unfolding rethrow throwing as_compiler_error
rethrow-ok kind (ok a) h = ap ok (ok-cancel h)
rethrow-ok kind (err e) h = absurd (err-ne-ok h)

module _ (u : Unicode) (v : Services) where
  -- The snapshot of a page and a row that it stands for, which is a current one where the page was
  -- selected for this compilation.
  pub record Rechecked (sources : List SourceRow) (latest : Snapshots)
      (snapshot : ExtractedPage × Evidence) : Type 0 where
    pub row : SourceRow
    pub stored : Any (λ r. r ≡ row) sources
    pub same_page : row.page_id ≡ snapshot.0.page_id
    pub agrees : Agrees row snapshot.1
    pub current :
        Any (λ (x : ExtractedPage × Evidence). x.0.page_id ≡ row.page_id) latest → IsCurrent row
    pub retained : Retained v.owners.files v.owners.sources row.stored_path row.source_sha256

  has_page-true :
      (latest : Snapshots) (id : Bytes)
      → Any (λ (x : ExtractedPage × Evidence). x.0.page_id ≡ id) latest
      → has_page latest id ≡ true
  unfolding has_page
  has_page-true [] id h = absurd h
  has_page-true (x ∷ latest) id (inl e) =
      or-left (bytes_eq x.0.page_id id) _
        (subst (λ y. bytes_eq x.0.page_id y ≡ true) e (bytes_eq_refl x.0.page_id))
    where
      or-left : (a b : Bool) → a ≡ true → (a || b) ≡ true
      or-left a b h = ground arith
  has_page-true (x ∷ latest) id (inr m) =
      or-right (bytes_eq x.0.page_id id) _ (has_page-true latest id m)
    where
      or-right : (a b : Bool) → b ≡ true → (a || b) ≡ true
      or-right a b h = ground arith

  recheck_row-Rechecked :
      (sources : List SourceRow) (latest : Snapshots) (page : ExtractedPage) (e : Evidence)
      (found : Option SourceRow) {done : Unit {0}}
      → find_source (has_page latest page.page_id) page.page_id sources ≡ found
      → recheck_row u v e found ≡ ok done
      → Rechecked sources latest (page, e)
  unfolding recheck_row
  recheck_row-Rechecked sources latest page e none f h = absurd (err-ne-ok h)
  recheck_row-Rechecked sources latest page e (some row) f h =
      let (a, agrees, h1) =
        >>=-eq-ok (throw_if (not (evidence_eq (evidence_snapshot row) e)) selected_changed) _ h in
      let (b, file, last) =
        >>=-eq-ok
          (verify_retained_file v.owners.files v.owners.sources row.stored_path row.source_sha256) _
          (rethrow-ok CompilerErrorKind.validation_failed _ h1) in
      let (m, same, current) =
        find_source-lem (has_page latest page.page_id) page.page_id sources row f in
      record {
        row = row;
        stored = m;
        same_page = same;
        agrees = evidence_eq-Agrees row e (not-false _ (throw_if-ok _ _ agrees));
        current = λ p. current (
            has_page-true latest page.page_id (
              subst (λ id. Any (λ (x : ExtractedPage × Evidence). x.0.page_id ≡ id) latest) same
                p));
        retained =
            verify_retained_file-Retained v.owners.files v.owners.sources row.stored_path
              row.source_sha256 file;
      }
    where
      not-false : (b : Bool) → not b ≡ false → b ≡ true
      not-false b h = ground arith

  pub recheck_evidence-Rechecked :
      (sources : List SourceRow) (latest snapshots : Snapshots) {done : Unit {0}}
      → recheck_evidence u v sources latest snapshots ≡ ok done
      → All (Rechecked sources latest) snapshots
  unfolding recheck_evidence
  recheck_evidence-Rechecked sources latest [] h = tt
  recheck_evidence-Rechecked sources latest ((page, e) ∷ snapshots) h =
      let (a, first, rest) =
        >>=-eq-ok
          (recheck_row u v e (find_source (has_page latest page.page_id) page.page_id sources)) _
          h in
      (
        recheck_row-Rechecked sources latest page e _ refl first,
        recheck_evidence-Rechecked sources latest snapshots rest,
      )
