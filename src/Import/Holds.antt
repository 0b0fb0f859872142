-- ===== src/Import/Holds.antt =====
-- The steps of an import that put a file in its place (libs/import/src/source_importer.cpp).
use wiki.Base.{
  ◌^◌, ◌-◌, ◌≡◌, refl, sym, ap, subst, inl, inr, Bool, true, false, not, ltb, Option, none, some,
  [], ◌∷◌, ◌++◌, Bytes, Result, ok, err, bytes_eq, bytes_eq_lem, bytes_eq_refl, Bool-cases,
  ok-cancel, none-ne-some, ◌∙◌, Option, err-ne-ok, if-true, if-false, throw_if-ok,
}
use wiki.Domain.Sha256.{sha256_text}
use wiki.Import.{ImportError, SourceVersion, Tables, ImportResult}
use wiki.Import.Act.{Entry, file, no_file, Files, Act, continue, removing}
use wiki.Import.File.{
  Services, renamed, check_existing_path, retain, check_retained, verify_or_repair, reuse,
  insert_version, commit_version, refuse_present, place_new, retain_new,
}

abbrev pub Ran : Type 0 → Type 0
Ran A = Files × Result ImportError A

-- A step that returned went through the one before it.
pub continue-ok :
    {A B : Type 0} (r : Ran A) (next : A → Act B) {files : Files} {b : B}
    → continue r next ≡ (files, ok b)
    → (between : Files) × (a : A) × (r ≡ (between, ok a)) × (next a between ≡ (files, ok b))
continue-ok (f, err e) next h = absurd (err-ne-ok (ap (λ (r : Ran _). r.1) h))
continue-ok (f, ok a) next h = (f, a, refl, h)

-- A check that returned changed no file.
pub lift-ok :
    {A B : Type 0} (m : Result ImportError A) (next : A → Act B) {start files : Files} {b : B}
    → continue (start, m) next ≡ (files, ok b)
    → (a : A) × (m ≡ ok a) × (next a start ≡ (files, ok b))
lift-ok (err e) next h = absurd (err-ne-ok (ap (λ (r : Ran _). r.1) h))
lift-ok (ok a) next h = (a, refl, h)

removing-ok :
    {A : Type 0} (path : Bytes) (r : Ran A) {files : Files} {a : A}
    → removing path r ≡ (files, ok a)
    → r ≡ (files, ok a)
removing-ok path (f, err e) h = absurd (err-ne-ok (ap (λ (r : Ran _). r.1) h))
removing-ok path (f, ok a) h = h

-- The retained file has the digest.
abbrev pub Holds : Bytes → Bytes → Files → Type 0
Holds path hash files =
    (bytes : Bytes) × (files path ≡ some (file bytes)) × (sha256_text bytes ≡ hash)

module _ (v : Services) (content hash : Bytes) (hashed : sha256_text content ≡ hash) where
  retain-Holds :
      (path : Bytes) (start : Files) {files : Files} {done : Unit {0}}
      → retain v path content start ≡ (files, ok done)
      → Holds path hash files
  unfolding retain
  retain-Holds path start h =
      let (a, e, h1) = lift-ok (renamed v) _ h in
      subst (Holds path hash) (ap (λ (r : Ran (Unit {0})). r.0) h1)
        (content, rw (bytes_eq_refl path) refl, hashed)

  repair-Holds :
      (path : Bytes) (entry : Option Entry) (start : Files) {files : Files} {done : Unit {0}}
      → start path ≡ entry
      → verify_or_repair v path content hash entry start ≡ (files, ok done)
      → Holds path hash files
  unfolding verify_or_repair check_retained
  repair-Holds path none start e h = retain-Holds path start h
  repair-Holds path (some no_file) start e h =
      absurd (err-ne-ok (ap (λ (r : Ran (Unit {0})). r.1) h))
  repair-Holds path (some (file bytes)) start e h =
      subst (Holds path hash) (ap (λ (r : Ran (Unit {0})). r.0) h) (
        bytes,
        e,
        bytes_eq_lem (sha256_text bytes) hash (
            negated (bytes_eq (sha256_text bytes) hash)
              (throw_if-ok _ _ (ap (λ (r : Ran (Unit {0})). r.1) h))),
      )
    where
      negated : (b : Bool) → not b ≡ false → b ≡ true
      negated true h = refl
      negated false h = cc

  pub reuse-Holds :
      (existing : ImportResult) (start : Files) {files : Files} {done : Unit {0}}
      → reuse v content hash (some existing) start ≡ (files, ok done)
      → Holds existing.version.stored_path hash files
  unfolding reuse
  reuse-Holds existing start h =
      let (a, e, h1) = lift-ok (check_existing_path v existing.version.stored_path) _ h in
      repair-Holds existing.version.stored_path (start existing.version.stored_path) start refl h1

  retain-Preserves :
      (path : Bytes) (start : Files) {files : Files} {done : Unit {0}}
      → start path ≡ none
      → retain v path content start ≡ (files, ok done)
      → (other : Bytes) (entry : Entry) → start other ≡ some entry
      → files other ≡ some entry
  unfolding retain
  retain-Preserves path start {files} absent h other entry e =
      let (a, r, h1) = lift-ok (renamed v) _ h in
      subst (λ (g : Files). g other ≡ some entry) (ap (λ (r : Ran (Unit {0})). r.0) h1)
        (elim (Bool-cases (bytes_eq other path)) [
          | inl same ↦ absurd (
              none-ne-some (
                sym absent
                ∙ subst (λ (p : Bytes). start p ≡ some entry) (bytes_eq_lem other path same) e))
          | inr apart ↦ rw apart e
        ])

  repair-Preserves :
      (path : Bytes) (found : Option Entry) (start : Files) {files : Files} {done : Unit {0}}
      → start path ≡ found
      → verify_or_repair v path content hash found start ≡ (files, ok done)
      → (other : Bytes) (entry : Entry) → start other ≡ some entry
      → files other ≡ some entry
  unfolding verify_or_repair
  repair-Preserves path none start absent h other entry e =
      retain-Preserves path start absent h other entry e
  repair-Preserves path (some found) start absent h other entry e =
      subst (λ (g : Files). g other ≡ some entry) (ap (λ (r : Ran (Unit {0})). r.0) h) e

  -- Where the retained file is there, nothing is written; where it is not, no other file changes.
  pub reuse-Preserves :
      (existing : Option ImportResult) (start : Files) {files : Files} {done : Unit {0}}
      → reuse v content hash existing start ≡ (files, ok done)
      → (other : Bytes) (entry : Entry) → start other ≡ some entry
      → files other ≡ some entry
  unfolding reuse
  reuse-Preserves none start h other entry e =
      subst (λ (g : Files). g other ≡ some entry) (ap (λ (r : Ran (Unit {0})). r.0) h) e
  reuse-Preserves (some existing) start h other entry e =
      let (a, safe, h1) = lift-ok (check_existing_path v existing.version.stored_path) _ h in
      repair-Preserves existing.version.stored_path (start existing.version.stored_path) start refl
        h1 other entry e

  pub retain_new-Holds :
      (path : Bytes) (version : SourceVersion) (t : Tables) (start : Files) {files : Files}
      {written : Tables}
      → retain_new v path content version t start ≡ (files, ok written)
      → Holds path hash files × (commit_version v version t ≡ ok written)
  unfolding retain_new place_new
  retain_new-Holds path version t start h =
      let placed = removing-ok path (place_new v path content version t start) h in
      let (a, e, h1) = lift-ok (refuse_present (start path)) _ placed in
      let (between, done, r, last) = continue-ok (retain v path content start) _ h1 in
      (
        subst (Holds path hash) (ap (λ (r : Ran Tables). r.0) last) (retain-Holds path start r),
        ap (λ (r : Ran Tables). r.1) last,
      )

pub commit_version-ok :
    (v : Services) (version : SourceVersion) (t : Tables) {written : Tables}
    → commit_version v version t ≡ ok written
    → written ≡ record t { versions = t.versions ++ version ∷ [] }
unfolding commit_version insert_version
commit_version-ok v version t h = elim (Bool-cases v.commit_ok) [
  | inr e ↦ absurd (err-ne-ok (if-false v.commit_ok _ _ e h))
  | inl e ↦ elim (Bool-cases (ltb (2 ^ 63 - 1) version.byte_size)) [
    | inl k ↦ absurd (
        err-ne-ok
          (if-true (ltb (2 ^ 63 - 1) version.byte_size) _ _ k (if-true v.commit_ok _ _ e h)))
    | inr k ↦ sym (
        ok-cancel
          (if-false (ltb (2 ^ 63 - 1) version.byte_size) _ _ k (if-true v.commit_ok _ _ e h)))
  ]
]
