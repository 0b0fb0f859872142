-- ===== src/Import/Imported.antt =====
-- What an import that returns has registered (libs/import/src/source_importer.cpp).
use wiki.Base.{
  ◌≡◌, refl, sym, ap, ap₂, subst, ◌∙◌, ◌⊎◌, inl, inr, Bool, true, false, Option, none, some, List,
  [], ◌∷◌, ◌++◌, Bytes, Result, ok, err, opt_eq, opt_eq_lem, Bool-cases, ok-cancel, none-ne-some,
  err-ne-ok, if-true, if-false,
}
use wiki.Domain.Unicode.{Unicode}
use wiki.Domain.Types.{SourceKind}
use wiki.Domain.Types.Names.{kind_to_string}
use wiki.Domain.Sha256.{sha256_text}
use wiki.Import.{
  ImportError, Source, SourceVersion, Tables, ImportResult, SourceFormat, filename_of,
  source_format, find_version_by_hash, latest_hash,
}
use wiki.Import.Act.{Entry, Files, lift}
use wiki.Import.File.{
  Services, Project, reuse, requested_source, source_for, stored_at, insert_source,
  check_stored_path, commit_version, new_version, created_result, retain_new, store_version,
  add_version, is_found, current_version, repeat_current, revise, register, check_content,
  staged_content, settle, import_steps, import_file,
}
use wiki.Import.Owner.{owner, requested_source-owner, requested_source-none}
use wiki.Import.Holds.{
  Ran, continue-ok, lift-ok, Holds, reuse-Holds, reuse-Preserves, retain_new-Holds,
  commit_version-ok,
}
use wiki.Import.Found.{find_version_by_hash-lem}

module _ (v : Services) (id : Option Bytes) (t : Tables) (hash filename : Bytes)
    (first : Files) where
  -- The sources after an import: as before where one was asked for, and with one more row where not.
  abbrev pub Registers : Option Bytes → SourceKind → Tables → Type 0
  Registers (some asked) kind after = after.sources ≡ t.sources
  Registers none kind after =
      after.sources
      ≡ t.sources
        ++ record {
          source_id = v.source_id;
          display_name = filename;
          source_kind = kind_to_string kind;
          created_at = v.now;
          archived_at = none;
        }
          ∷ []

  -- No file that was there is another one now.
  abbrev pub Preserves : Files → Type 0
  Preserves files =
      (path : Bytes) (entry : Entry) → first path ≡ some entry → files path ≡ some entry

  -- One version was added: it is the last row, and its file has the digest of the imported bytes.
  abbrev pub Added : Files → Tables → ImportResult → Type 0
  Added files after r =
      (r.version_created ≡ true)
      × (after.versions ≡ t.versions ++ r.version ∷ [])
      × (r.version.source_id ≡ owner v id)
      × Holds r.version.stored_path hash files
      × Registers id r.source.source_kind after

  -- The imported bytes are those of the source's latest version.
  abbrev pub Repeated : Files → Tables → ImportResult → Type 0
  Repeated files after r =
      (r.version_created ≡ false)
      × (after ≡ t)
      × (latest_hash (owner v id) t.versions ≡ some hash)
      × Preserves files

  pub record Imported (files : Files) (after : Tables) (r : ImportResult) : Type 0 where
    pub digest : r.version.sha256 ≡ hash
    pub owned : r.source.source_id ≡ owner v id
    pub outcome : Added files after r ⊎ Repeated files after r

  module _ (format : SourceFormat) (content : Bytes) (hashed : sha256_text content ≡ hash) where
    store_version-ok :
        (path : Bytes) (version : Bytes → SourceVersion) (existing : Option ImportResult)
        (w : Tables) (start : Files) {files : Files} {stored : Tables × SourceVersion}
        → ((e : ImportResult) → existing ≡ some e → Holds e.version.stored_path hash start)
        → store_version v path content version existing w start ≡ (files, ok stored)
        → (at : Bytes) × (stored.1 ≡ version at)
          × Holds at hash files
          × (stored.0 ≡ record w { versions = w.versions ++ version at ∷ [] })
    unfolding store_version
    store_version-ok path version (some e) w start {files} {stored} held h =
        let at = e.version.stored_path in
        let (written, committed, last) = lift-ok (commit_version v (version at) w) _ h in
        let same : ◌≡◌ {A = Tables × SourceVersion} (written, version at) stored =
          ok-cancel (ap (λ (r : Ran (Tables × SourceVersion)). r.1) last) in
        (
          at,
          ap (λ (x : Tables × SourceVersion). x.1) (sym same),
          subst (Holds at hash) (ap (λ (r : Ran (Tables × SourceVersion)). r.0) last) (held e refl),
          ap (λ (x : Tables × SourceVersion). x.0) (sym same)
              ∙ commit_version-ok v (version at) w committed,
        )
    store_version-ok path version none w start {files} {stored} held h =
        let (between, written, retained, last) =
          continue-ok (retain_new v path content (version path) w start) _ h in
        let (holds, committed) =
          retain_new-Holds v content hash hashed path (version path) w start retained in
        let same : ◌≡◌ {A = Tables × SourceVersion} (written, version path) stored =
          ok-cancel (ap (λ (r : Ran (Tables × SourceVersion)). r.1) last) in
        (
          path,
          ap (λ (x : Tables × SourceVersion). x.1) (sym same),
          subst (Holds path hash) (ap (λ (r : Ran (Tables × SourceVersion)). r.0) last) holds,
          ap (λ (x : Tables × SourceVersion). x.0) (sym same)
              ∙ commit_version-ok v (version path) w committed,
        )

    insert_source-versions :
        (source : Source) (created : Bool) → (insert_source source created t).versions ≡ t.versions
    unfolding insert_source
    insert_source-versions source true = refl
    insert_source-versions source false = refl

    Registers-sources :
        (kind : SourceKind) (w after : Tables)
        → after.sources ≡ w.sources
        → (asked : Option Bytes) → Registers asked kind w
        → Registers asked kind after
    Registers-sources kind w after e none h = e ∙ h
    Registers-sources kind w after e (some asked) h = e ∙ h

    requested_source-asked :
        (asked : Option Bytes) (source : Source)
        → requested_source t format asked ≡ ok (some source)
        → Registers asked source.source_kind (insert_source source false t)
    unfolding requested_source insert_source
    requested_source-asked none source h = absurd (none-ne-some (ok-cancel h))
    requested_source-asked (some i) source h = refl

    requested_source-new :
        (asked : Option Bytes)
        → asked ≡ none
        → Registers asked format.kind (insert_source (source_for v format filename none).0 true t)
    unfolding insert_source source_for
    requested_source-new none h = refl
    requested_source-new (some i) h = absurd (none-ne-some (sym h))

    add_version-Imported :
        (existing : Option ImportResult) (restored : Bool) (source : Source × Bool) (start : Files)
        {files : Files} {after : Tables} {r : ImportResult}
        → source.0.source_id ≡ owner v id
        → Registers id source.0.source_kind (insert_source source.0 source.1 t)
        → ((e : ImportResult) → existing ≡ some e → Holds e.version.stored_path hash start)
        → add_version v format filename content hash existing restored source t start
          ≡ (files, ok (after, r))
        → Imported files after r
    unfolding add_version created_result new_version
    add_version-Imported existing restored (source, created) start {files} {after} {r} owned known
          held h =
        let path = stored_at v source.source_id filename in
        let (a, safe, h1) = lift-ok (check_stored_path v path) _ h in
        let make = new_version v source format filename hash content in
        let (between, stored, e, last) =
          continue-ok
            (store_version v path content make existing (insert_source source created t) start) _
            h1 in
        let (at, version, holds, tables) =
          store_version-ok path make existing (insert_source source created t) start held e in
        let shown = created_result source stored.1 created (is_found existing) restored in
        let same : ◌≡◌ {A = Tables × ImportResult} (stored.0, shown) (after, r) =
          ok-cancel (ap (λ (x : Ran (Tables × ImportResult)). x.1) last) in
        subst (λ (x : Files × (Tables × ImportResult)). Imported x.0 x.1.0 x.1.1)
          (ap₂ (λ (f : Files) (x : Tables × ImportResult). (f, x))
            (ap (λ (x : Ran (Tables × ImportResult)). x.0) last) same)
          (record {
            digest = ap (λ (x : SourceVersion). x.sha256) version;
            owned = owned;
            outcome = inl (
              refl,
              ap (λ (x : Tables). x.versions) tables
                  ∙ ap₂ (λ (xs : List SourceVersion) (x : SourceVersion). xs ++ x ∷ [])
                      (insert_source-versions source created) (sym version),
              ap (λ (x : SourceVersion). x.source_id) version ∙ owned,
              subst (λ (x : Bytes). Holds x hash between)
                  (sym (ap (λ (x : SourceVersion). x.stored_path) version)) holds,
              Registers-sources source.source_kind (insert_source source created t) stored.0
                  (ap (λ (x : Tables). x.sources) tables) id known,
            );
          })

    repeat_current-Imported :
        (current : Option ImportResult) {after : Tables} {r : ImportResult}
        → ((c : ImportResult)
            → current ≡ some c
            → (c.version.sha256 ≡ hash)
              × (c.source.source_id ≡ owner v id)
              × (c.version_created ≡ false))
        → latest_hash (owner v id) t.versions ≡ some hash
        → repeat_current v t current ≡ ok (after, r)
        → (files : Files) → Preserves files
        → Imported files after r
    unfolding repeat_current current_version
    repeat_current-Imported none found latest h files same = elim (Bool-cases v.commit_ok) [
      | inl e ↦ absurd (err-ne-ok (if-true v.commit_ok _ _ e h))
      | inr e ↦ absurd (err-ne-ok (if-false v.commit_ok _ _ e h))
    ]
    repeat_current-Imported (some c) found latest h files same = elim (Bool-cases v.commit_ok) [
      | inl e ↦
          let (sha, owned, old) = found c refl in
          subst (λ (x : Tables × ImportResult). Imported files x.0 x.1)
            (ok-cancel (if-true v.commit_ok _ _ e h))
            (record { digest = sha; owned = owned; outcome = inr (old, refl, latest, same) })
      | inr e ↦ absurd (err-ne-ok (if-false v.commit_ok _ _ e h))
    ]

    revise-Imported :
        (existing : Option ImportResult) (source : Option Source) (start : Files) {files : Files}
        {after : Tables} {r : ImportResult}
        → ((e : ImportResult) → existing ≡ some e → Holds e.version.stored_path hash start)
        → Preserves start
        → requested_source t format id ≡ ok source
        → revise v format filename content hash existing t source start ≡ (files, ok (after, r))
        → Imported files after r
    unfolding revise source_for
    revise-Imported existing none start held kept requested h =
        add_version-Imported existing false (source_for v format filename none) start
          (subst (λ (i : Option Bytes). v.source_id ≡ owner v i)
            (sym (requested_source-none t format id requested)) refl)
          (requested_source-new id (requested_source-none t format id requested)) held h
    revise-Imported existing (some source) start {files} {after} {r} held kept requested h =
        let owned : source.source_id ≡ owner v id =
          requested_source-owner v t format id requested in
        let (current, found, h1) =
          lift-ok (find_version_by_hash t hash (some source.source_id)) _ h in
        let test = opt_eq (latest_hash source.source_id t.versions) (some hash) in
        elim (Bool-cases test) [
          | inl same ↦
              let repeated : lift (repeat_current v t current) start ≡ (files, ok (after, r)) =
                rw same at h1 in
              repeat_current-Imported current
                (λ c e.
                  let (sha, named, old) =
                    find_version_by_hash-lem t hash source.source_id (found ∙ ap ok e) in
                  (sha, named ∙ owned, old))
                (subst (λ (x : Bytes). latest_hash x t.versions ≡ some hash) owned
                  (opt_eq_lem (latest_hash source.source_id t.versions) (some hash) same))
                (ap (λ (x : Ran (Tables × ImportResult)). x.1) repeated) files
                (subst Preserves (ap (λ (x : Ran (Tables × ImportResult)). x.0) repeated) kept)
          | inr new ↦
              add_version-Imported existing (is_found current) (source, false) start owned
                (requested_source-asked id source requested) held (rw new at h1)
        ]

    register-Imported :
        {files : Files} {after : Tables} {r : ImportResult}
        → register v format filename content hash id t first ≡ (files, ok (after, r))
        → Imported files after r
    unfolding register
    register-Imported h =
        let (source, requested, h1) = lift-ok (requested_source t format id) _ h in
        let (existing, found, h2) = lift-ok (find_version_by_hash t hash none) _ h1 in
        let (between, done, reused, h3) = continue-ok (reuse v content hash existing first) _ h2 in
        revise-Imported existing source between
          (λ e same. reused_Holds existing first e same reused)
          (reuse-Preserves v content hash hashed existing first reused) requested h3
      where
        reused_Holds :
            (existing : Option ImportResult) (start : Files) {between : Files} {done : Unit {0}}
            (e : ImportResult)
            → existing ≡ some e
            → reuse v content hash existing start ≡ (between, ok done)
            → Holds e.version.stored_path hash between
        reused_Holds existing start {between} {done} e same h =
            reuse-Holds v content hash hashed e start (
              subst (λ (x : Option ImportResult). reuse v content hash x start ≡ (between, ok done))
                same h)

staged_content-ok :
    (v : Services) (path : Bytes) (input : Option Bytes) {content : Bytes}
    → staged_content v path input ≡ ok content
    → input ≡ some content
unfolding staged_content
staged_content-ok v path none h = absurd (err-ne-ok h)
staged_content-ok v path (some c) h = elim (Bool-cases v.staging_ok) [
  | inl e ↦ ap some (ok-cancel (if-true v.staging_ok _ _ e h))
  | inr e ↦ absurd (err-ne-ok (if-false v.staging_ok _ _ e h))
]

settle-ok :
    (t : Tables) (x : Ran (Tables × ImportResult)) {after : Project} {r : ImportResult}
    → settle t x ≡ (after, ok r)
    → x ≡ (after.files, ok (after.tables, r))
unfolding settle
settle-ok t (files, err e) h =
    absurd (err-ne-ok (ap (λ (y : Project × Result ImportError ImportResult). y.1) h))
settle-ok t (files, ok (written, result)) h =
    ap₂ (λ (p : Project) (y : ImportResult). (p.files, ok (p.tables, y)))
      (ap (λ (y : Project × Result ImportError ImportResult). y.0) h)
      (ok-cancel (ap (λ (y : Project × Result ImportError ImportResult). y.1) h))

-- An import that returns gives a version with the digest of the imported bytes, of the source that was
-- asked for or else of a new one. Either the source's latest version has that digest: then no table
-- changes, and every retained file that was there is as it was. Or the version is the one row that was
-- added, the file at its path has the digest, and the table of sources is as before where a source was
-- asked for, or else has one more row, that of the new source.
pub import_file-Imported :
    (u : Unicode) (v : Services) (path : Bytes) (input id : Option Bytes) (project : Project)
    {after : Project} {r : ImportResult}
    → import_file u v path input id project ≡ (after, ok r)
    → (content : Bytes) × (input ≡ some content)
      × Imported v id project.tables
          (sha256_text content)
          (filename_of path)
          project.files
          after.files
          after.tables
          r
unfolding import_file import_steps
import_file-Imported u v path input id project h =
    let steps =
      settle-ok project.tables (import_steps u v path input id project.tables project.files) h in
    let (format, known, h1) = lift-ok (source_format path) _ steps in
    let (content, staged, h2) = lift-ok (staged_content v path input) _ h1 in
    let (done, checked, h3) = lift-ok (check_content u format content) _ h2 in
    (
      content,
      staged_content-ok v path input staged,
      register-Imported v id project.tables (sha256_text content) (filename_of path) project.files
          format content refl h3,
    )
