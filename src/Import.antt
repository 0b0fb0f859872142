-- ===== src/Import.antt =====
-- libs/import/src/source_importer.cpp: a source file is retained below the project and registered.
-- Identifiers, times and what the system refuses are the record `Services`.
pub mod Act
pub mod File
pub mod Owner
pub mod Keeps
pub mod Holds
pub mod Found
pub mod Imported
use wiki.Base.{
  ℕ, ◌+◌, ◌==◌, ◌^◌, ◌-◌, ◌≡◌, Bool, true, false, not, ◌&&◌, ◌||◌, Option, none, some, List, [],
  ◌∷◌, ◌++◌, Bytes, Result, ok, err, text, bytes_eq, opt_eq, if◌then◌else◌, between, length, map,
  ◌>>=◌,
}
use wiki.Domain.Types.{SourceKind}
use wiki.Domain.Paths.{components}

pub data ImportErrorKind : Type 0 where
  invalid_project invalid_input unavailable_input state_error : ImportErrorKind

-- An `ImportError`, or another exception.
pub data ImportError : Type 0 where
  import_error : ImportErrorKind → Bytes → ImportError
  other_error : Bytes → ImportError

pub record Source : Type 0 where
  pub source_id : Bytes
  pub display_name : Bytes
  pub source_kind : SourceKind
  pub created_at : Bytes
  pub archived_at : Option Bytes

pub record SourceVersion : Type 0 where
  pub source_version_id : Bytes
  pub source_id : Bytes
  pub sha256 : Bytes
  pub original_filename : Bytes
  pub stored_path : Bytes
  pub media_type : Bytes
  pub byte_size : ℕ
  pub imported_at : Bytes

-- A row of `sources`, with the kind as its name. A row of `source_versions` is a `SourceVersion`.
pub record SourceRecord : Type 0 where
  pub source_id : Bytes
  pub display_name : Bytes
  pub source_kind : Bytes
  pub created_at : Bytes
  pub archived_at : Option Bytes

-- The rows in the order in which they were written
pub record Tables : Type 0 where
  pub sources : List SourceRecord
  pub versions : List SourceVersion

pub record ImportResult : Type 0 where
  pub source : Source
  pub version : SourceVersion
  pub source_created : Bool
  pub version_created : Bool
  pub deduplicated : Bool
  pub restored : Bool

pub record SourceFormat : Type 0 where
  pub kind : SourceKind
  pub media_type : Bytes

unfoldable pub lower_byte : ℕ → ℕ
lower_byte c = if between b'A' b'Z' c then c + 32 else c

unfoldable pub lowercase : Bytes → Bytes
lowercase value = map lower_byte value

unfoldable pub later_or : Option Bytes → ℕ → Bytes → Option Bytes
later_or (some later) c s = some later
later_or none c s = if c == b'.' then some (c ∷ s) else none

-- The text from the last dot on, none if there is no dot
unfoldable pub from_last_dot : Bytes → Option Bytes
from_last_dot [] = none
from_last_dot (c ∷ s) = later_or (from_last_dot s) c s

unfoldable pub bytes_or_empty : Option Bytes → Bytes
bytes_or_empty none = []
bytes_or_empty (some s) = s

-- `path.filename()` and `path.extension()`: a dot at the start of a name begins no extension.
unfoldable pub last_part : List Bytes → Bytes
last_part [] = []
last_part (part ∷ []) = part
last_part (part ∷ next ∷ parts) = last_part (next ∷ parts)

unfoldable pub filename_of : Bytes → Bytes
filename_of path = last_part (components path)

unfoldable pub extension_of : Bytes → Bytes
extension_of [] = []
extension_of (c ∷ s) = if bytes_eq (c ∷ s) (text "..") then [] else bytes_or_empty (from_last_dot s)

unfoldable pub source_format : Bytes → Result ImportError SourceFormat
source_format input =
    let extension = lowercase (extension_of (filename_of input)) in
    if bytes_eq extension (text ".pdf")
    then ok (record { kind = SourceKind.pdf; media_type = text "application/pdf" })
    else if bytes_eq extension (text ".md") || bytes_eq extension (text ".markdown")
    then ok (record { kind = SourceKind.markdown; media_type = text "text/markdown" })
    else if bytes_eq extension (text ".txt")
    then ok (record { kind = SourceKind.plain; media_type = text "text/plain" })
    else err (
        import_error ImportErrorKind.invalid_input (
          text "unsupported source type '"
          ++ extension_of (filename_of input)
          ++ text "'; expected .md, .markdown, .txt, or .pdf"))

unfoldable pub parse_kind : Bytes → Result ImportError SourceKind
parse_kind value =
    if bytes_eq value (text "pdf")
    then ok SourceKind.pdf
    else if bytes_eq value (text "markdown")
    then ok SourceKind.markdown
    else if bytes_eq value (text "text")
    then ok SourceKind.plain
    else err (
        import_error ImportErrorKind.state_error
          (text "project database contains an unknown source kind"))

unfoldable pub kind_eq : SourceKind → SourceKind → Bool
kind_eq SourceKind.pdf SourceKind.pdf = true
kind_eq SourceKind.markdown SourceKind.markdown = true
kind_eq SourceKind.plain SourceKind.plain = true
kind_eq a b = false

unfoldable pub read_source : SourceRecord → Result ImportError Source
read_source row = do
  kind ← parse_kind row.source_kind
  ok (record {
    source_id = row.source_id;
    display_name = row.display_name;
    source_kind = kind;
    created_at = row.created_at;
    archived_at = row.archived_at;
  })

-- The row of an identifier
unfoldable pub source_row : Bytes → List SourceRecord → Option SourceRecord
source_row id [] = none
source_row id (row ∷ rows) =
    let later = source_row id rows in if bytes_eq row.source_id id then some row else later

unfoldable pub read_optional : Option SourceRecord → Result ImportError (Option Source)
read_optional none = ok none
read_optional (some row) = do source ← read_source row; ok (some source)

unfoldable pub find_source : List SourceRecord → Bytes → Result ImportError (Option Source)
find_source sources id = read_optional (source_row id sources)

-- `WHERE v.sha256 = ? AND (? IS NULL OR s.source_id = ?)`
unfoldable pub has_hash : Bytes → Option Bytes → SourceVersion → Bool
has_hash hash none v = bytes_eq v.sha256 hash
has_hash hash (some id) v = bytes_eq v.sha256 hash && bytes_eq v.source_id id

unfoldable pub newest_version :
    Option (SourceVersion × SourceRecord)
    → SourceVersion
    → Bool
    → Option SourceRecord
    → Option (SourceVersion × SourceRecord)
newest_version (some later) v matches row = some later
newest_version none v true (some row) = some (v, row)
newest_version none v true none = none
newest_version none v false row = none

-- `JOIN sources`, `ORDER BY v.rowid DESC LIMIT 1`: the last version that has a source
unfoldable pub last_version :
    List SourceRecord
    → Bytes
    → Option Bytes
    → List SourceVersion
    → Option (SourceVersion × SourceRecord)
last_version sources hash id [] = none
last_version sources hash id (v ∷ versions) =
    newest_version (last_version sources hash id versions) v (has_hash hash id v)
      (source_row v.source_id sources)

unfoldable pub found_result :
    Option (SourceVersion × SourceRecord) → Result ImportError (Option ImportResult)
found_result none = ok none
found_result (some (v, row)) = do
  source ← read_source row
  ok (
      some (record {
        source = source;
        version = v;
        source_created = false;
        version_created = false;
        deduplicated = true;
        restored = false;
      }))

unfoldable pub find_version_by_hash :
    Tables → Bytes → Option Bytes → Result ImportError (Option ImportResult)
find_version_by_hash t hash id = found_result (last_version t.sources hash id t.versions)

unfoldable pub newest_hash : Option Bytes → Bytes → SourceVersion → Option Bytes
newest_hash (some later) id v = some later
newest_hash none id v = if bytes_eq v.source_id id then some v.sha256 else none

-- `SELECT sha256 FROM source_versions WHERE source_id = ? ORDER BY rowid DESC LIMIT 1`
unfoldable pub latest_hash : Bytes → List SourceVersion → Option Bytes
latest_hash id [] = none
latest_hash id (v ∷ versions) = newest_hash (latest_hash id versions) id v
