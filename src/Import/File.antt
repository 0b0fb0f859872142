-- ===== src/Import/File.antt =====
-- import_file and import_files of libs/import/src/source_importer.cpp.
use wiki.Base.{
  ◌^◌, ◌-◌, Bool, true, false, not, ◌&&◌, ◌||◌, Option, none, some, List, [], ◌∷◌, ◌++◌, Bytes,
  Result, ok, err, text, bytes_eq, opt_eq, ltb, if◌then◌else◌, length, throw_if,
}
use wiki.Domain.Unicode.{Unicode, is_valid_source_text}
use wiki.Domain.Types.{SourceKind}
use wiki.Domain.Types.Names.{kind_to_string}
use wiki.Domain.Sha256.{sha256_text}
use wiki.Search.{is_safe_relative}
use wiki.Import.{
  ImportErrorKind, ImportError, import_error, other_error, Source, SourceVersion, Tables,
  ImportResult, SourceFormat, filename_of, source_format, kind_eq, find_source,
  find_version_by_hash, latest_hash,
}
use wiki.Import.Act.{Entry, file, no_file, Files, Act, ◌>>=◌, ◌>>◌, lift, look, write, removing}

-- What the call is given: fresh identifiers and the time, whether a path stays below the sources
-- directory, and which steps the system carries out.
pub record Services : Type 0 where
  pub sources : Bytes
  pub source_id : Bytes
  pub version_id : Bytes
  pub now : Bytes
  pub is_within : Bytes → Bool
  pub staging_ok : Bool
  pub rename_ok : Bool
  pub protect_ok : Bool
  pub commit_ok : Bool

unfoldable pub throw_import : ImportErrorKind → Bytes → ImportError
throw_import kind message = import_error kind message

unfoldable pub renamed : Services → Result ImportError (Unit {0})
renamed v = throw_if (not v.rename_ok) (other_error (text "filesystem error"))

unfoldable pub make_read_only : Services → Result ImportError (Unit {0})
make_read_only v = throw_if (not v.protect_ok) (
    throw_import ImportErrorKind.unavailable_input
      (text "could not make retained source read-only"))

-- `rename(staged.path(), path)`, and `make_read_only(path)`
unfoldable pub retain : Services → Bytes → Bytes → Act (Unit {0})
retain v path content = do lift (renamed v); write path content; lift (make_read_only v)

unfoldable pub check_existing_path : Services → Bytes → Result ImportError (Unit {0})
check_existing_path v path = throw_if (not (is_safe_relative path) || not (v.is_within path)) (
    throw_import ImportErrorKind.state_error
      (text "project database contains an unsafe retained source path"))

unfoldable pub check_retained : Bytes → Entry → Result ImportError (Unit {0})
check_retained hash no_file = err (
    throw_import ImportErrorKind.state_error
      (text "retained source does not match its recorded SHA-256"))
check_retained hash (file bytes) = throw_if (not (bytes_eq (sha256_text bytes) hash)) (
    throw_import ImportErrorKind.state_error
      (text "retained source does not match its recorded SHA-256"))

unfoldable pub verify_or_repair : Services → Bytes → Bytes → Bytes → Option Entry → Act (Unit {0})
verify_or_repair v path content hash (some entry) = lift (check_retained hash entry)
verify_or_repair v path content hash none = retain v path content

-- `if (existing) { … }`
unfoldable pub reuse : Services → Bytes → Bytes → Option ImportResult → Act (Unit {0})
reuse v content hash none = lift (ok tt)
reuse v content hash (some existing) = do
  lift (check_existing_path v existing.version.stored_path)
  entry ← look existing.version.stored_path
  verify_or_repair v existing.version.stored_path content hash entry

unfoldable pub is_archived : Source → Bool
is_archived source = elim source.archived_at [ none ↦ false | some at ↦ true ]

unfoldable pub check_revision :
    SourceFormat → Bytes → Option Source → Result ImportError (Option Source)
check_revision format id none = err (
    throw_import ImportErrorKind.invalid_input
      (text "revision source does not exist or is archived: " ++ id))
check_revision format id (some source) =
    if is_archived source
    then err (
        throw_import ImportErrorKind.invalid_input
          (text "revision source does not exist or is archived: " ++ id))
    else if not (kind_eq source.source_kind format.kind)
    then err (
        throw_import ImportErrorKind.invalid_input
          (text "revision must use the existing source kind"))
    else ok (some source)

unfoldable pub check_found :
    SourceFormat → Bytes → Result ImportError (Option Source) → Result ImportError (Option Source)
check_found format id (err e) = err e
check_found format id (ok source) = check_revision format id source

unfoldable pub requested_source :
    Tables → SourceFormat → Option Bytes → Result ImportError (Option Source)
requested_source t format none = ok none
requested_source t format (some id) = check_found format id (find_source t.sources id)

-- The source of the new version, and whether it is a new one
unfoldable pub source_for : Services → SourceFormat → Bytes → Option Source → Source × Bool
source_for v format filename (some source) = (source, false)
source_for v format filename none = (
  record {
    source_id = v.source_id;
    display_name = filename;
    source_kind = format.kind;
    created_at = v.now;
    archived_at = none;
  },
  true,
)

unfoldable pub stored_at : Services → Bytes → Bytes → Bytes
stored_at v source_id filename =
    v.sources ++ b'/' ∷ source_id ++ b'/' ∷ v.version_id ++ b'/' ∷ filename

unfoldable pub insert_source : Source → Bool → Tables → Tables
insert_source source false t = t
insert_source source true t = record t {
  sources =
      t.sources
      ++ record {
        source_id = source.source_id;
        display_name = source.display_name;
        source_kind = kind_to_string source.source_kind;
        created_at = source.created_at;
        archived_at = none;
      }
        ∷ [];
}

unfoldable pub insert_version : SourceVersion → Tables → Result ImportError Tables
insert_version version t =
    if ltb (2 ^ 63 - 1) version.byte_size
    then err
        (throw_import ImportErrorKind.invalid_input (text "source is too large for project state"))
    else ok (record t { versions = t.versions ++ version ∷ [] })

unfoldable pub is_found : Option ImportResult → Bool
is_found none = false
is_found (some r) = true

-- The version's path is safe, by its text and on the disk.
unfoldable pub check_stored_path : Services → Bytes → Result ImportError (Unit {0})
check_stored_path v path = throw_if (not (is_safe_relative path) || not (v.is_within path)) (
    throw_import ImportErrorKind.invalid_project
      (text "configured source directory is not project-relative"))

-- `insert_version` and `COMMIT`
unfoldable pub commit_version : Services → SourceVersion → Tables → Result ImportError Tables
commit_version v version t =
    if v.commit_ok then insert_version version t else err (other_error (text "database error"))

unfoldable pub new_version :
    Services → Source → SourceFormat → Bytes → Bytes → Bytes → Bytes → SourceVersion
new_version v source format filename hash content path = record {
  source_version_id = v.version_id;
  source_id = source.source_id;
  sha256 = hash;
  original_filename = filename;
  stored_path = path;
  media_type = format.media_type;
  byte_size = length content;
  imported_at = v.now;
}

unfoldable pub created_result : Source → SourceVersion → Bool → Bool → Bool → ImportResult
created_result source version source_created deduplicated restored = record {
  source = source;
  version = version;
  source_created = source_created;
  version_created = true;
  deduplicated = deduplicated;
  restored = restored;
}

unfoldable pub refuse_present : Option Entry → Result ImportError (Unit {0})
refuse_present none = ok tt
refuse_present (some entry) = err (
    throw_import ImportErrorKind.state_error (text "generated retained source path already exists"))

unfoldable pub place_new : Services → Bytes → Bytes → SourceVersion → Tables → Act Tables
place_new v path content version t = do
  entry ← look path
  lift (refuse_present entry)
  retain v path content
  lift (commit_version v version t)

-- The branch that has no retained copy: from its first line on, a failure removes `path`.
unfoldable pub retain_new : Services → Bytes → Bytes → SourceVersion → Tables → Act Tables
retain_new v path content version t files = removing path (place_new v path content version t files)

-- `if (existing) { … } else { … }` up to the commit
unfoldable pub store_version :
    Services
    → Bytes
    → Bytes
    → (Bytes → SourceVersion)
    → Option ImportResult
    → Tables
    → Act (Tables × SourceVersion)
store_version v path content version (some existing) t = do
  written ← lift (commit_version v (version existing.version.stored_path) t)
  lift (ok (written, version existing.version.stored_path))
store_version v path content version none t = do
  written ← retain_new v path content (version path) t
  lift (ok (written, version path))

-- From `source_created` on
unfoldable pub add_version :
    Services
    → SourceFormat
    → Bytes
    → Bytes
    → Bytes
    → Option ImportResult
    → Bool
    → Source × Bool
    → Tables
    → Act (Tables × ImportResult)
add_version v format filename content hash existing restored (source, created) t = do
  let path = stored_at v source.source_id filename
  lift (check_stored_path v path)
  stored ←
      store_version v path content (new_version v source format filename hash content) existing
        (insert_source source created t)
  lift (ok (stored.0, created_result source stored.1 created (is_found existing) restored))

unfoldable pub current_version :
    Tables → Option ImportResult → Result ImportError (Tables × ImportResult)
current_version t none = err (other_error (text "bad optional access"))
current_version t (some current) = ok (t, current)

-- `COMMIT` and `return *current`
unfoldable pub repeat_current :
    Services → Tables → Option ImportResult → Result ImportError (Tables × ImportResult)
repeat_current v t current =
    if v.commit_ok then current_version t current else err (other_error (text "database error"))

-- `if (source) { … }`, and what follows it
unfoldable pub revise :
    Services
    → SourceFormat
    → Bytes
    → Bytes
    → Bytes
    → Option ImportResult
    → Tables
    → Option Source
    → Act (Tables × ImportResult)
revise v format filename content hash existing t none =
    add_version v format filename content hash existing false (source_for v format filename none) t
revise v format filename content hash existing t (some source) = do
  current ← lift (find_version_by_hash t hash (some source.source_id))
  (if opt_eq (latest_hash source.source_id t.versions) (some hash)
      then lift (repeat_current v t current)
      else add_version v format filename content hash existing (is_found current) (source, false) t)

-- The transaction
unfoldable pub register :
    Services
    → SourceFormat
    → Bytes
    → Bytes
    → Bytes
    → Option Bytes
    → Tables
    → Act (Tables × ImportResult)
register v format filename content hash id t = do
  source ← lift (requested_source t format id)
  existing ← lift (find_version_by_hash t hash none)
  reuse v content hash existing
  revise v format filename content hash existing t source

-- What is checked of the staged copy
unfoldable pub check_content : Unicode → SourceFormat → Bytes → Result ImportError (Unit {0})
check_content u format content =
    throw_if (not (kind_eq format.kind SourceKind.pdf) && not (is_valid_source_text u content)) (
      throw_import ImportErrorKind.invalid_input
        (text "text input must be UTF-8 without embedded NULs"))

-- `input` is the content of the input path, none where it is no regular file.
unfoldable pub staged_content : Services → Bytes → Option Bytes → Result ImportError Bytes
staged_content v path none = err (
    throw_import ImportErrorKind.unavailable_input
      (text "source is not a readable regular file: " ++ path))
staged_content v path (some content) =
    if v.staging_ok
    then ok content
    else err (
        throw_import ImportErrorKind.unavailable_input
          (text "could not stage source file: " ++ path))

-- What is stored: the retained files by their paths, and the tables
pub record Project : Type 0 where
  pub files : Files
  pub tables : Tables

-- What was thrown leaves the tables as they were.
unfoldable pub settle :
    Tables
    → Files × Result ImportError (Tables × ImportResult)
    → Project × Result ImportError ImportResult
settle t (files, err e) = (record { files = files; tables = t }, err e)
settle t (files, ok (written, result)) = (record { files = files; tables = written }, ok result)

module _ (u : Unicode) where
  unfoldable pub import_steps :
      Services → Bytes → Option Bytes → Option Bytes → Tables → Act (Tables × ImportResult)
  import_steps v path input id t = do
    format ← lift (source_format path)
    content ← lift (staged_content v path input)
    lift (check_content u format content)
    register v format (filename_of path) content (sha256_text content) id t

  unfoldable pub import_file :
      Services
      → Bytes
      → Option Bytes
      → Option Bytes
      → Project
      → Project × Result ImportError ImportResult
  import_file v path input id p = settle p.tables (import_steps v path input id p.tables p.files)

  -- One file after the other, each with its own services and content; a failure is a result too.
  unfoldable pub import_files :
      List (Services × Bytes × Option Bytes)
      → Project
      → Project × List (Result ImportError ImportResult)
  import_files [] p = (p, [])
  import_files ((v, path, input) ∷ inputs) p =
      let (next, result) = import_file v path input none p in
      let (last, results) = import_files inputs next in (last, result ∷ results)
