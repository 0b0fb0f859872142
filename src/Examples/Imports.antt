-- ===== src/Examples/Imports.antt =====
-- Theorems on the import of sources at concrete values.
use wiki.Base.{
  ℕ, ◌≡◌, refl, Bool, true, false, none, some, List, [], ◌∷◌, ◌++◌, Bytes, codes, ok, Option,
  bytes_eq, if◌then◌else◌,
}
use wiki.Domain.Sha256.{sha256_text}
use wiki.Domain.Types.{SourceKind}
use wiki.Import.{SourceVersion, SourceRecord, Tables, ImportResult}
use wiki.Import.Act.{file, put}
use wiki.Import.File.{Services, Project, import_file}
use wiki.Import.Keeps.{import_file-Keeps}
use wiki.Import.Imported.{Imported, import_file-Imported}
use wiki.Examples.Data.{ascii}

abbrev services : Services
services = record {
  sources = codes "sources";
  source_id = codes "src_2";
  version_id = codes "ver_2";
  now = codes "2";
  is_within = λ path. true;
  staging_ok = true;
  rename_ok = true;
  protect_ok = true;
  commit_ok = true;
}

abbrev digest : Bytes
digest = codes "ba7816bf8f01cfea414140de5dae2223b00361a396177a9cb410ff61f20015ad"

abbrev old_version : SourceVersion
old_version = record {
  source_version_id = codes "ver_1";
  source_id = codes "src_1";
  sha256 = digest;
  original_filename = codes "a.txt";
  stored_path = codes "sources/src_1/ver_1/a.txt";
  media_type = codes "text/plain";
  byte_size = 3;
  imported_at = codes "1";
}

abbrev old_source : SourceRecord
old_source = record {
  source_id = codes "src_1";
  display_name = codes "a.txt";
  source_kind = codes "text";
  created_at = codes "1";
  archived_at = none;
}

abbrev project : Project
project = record {
  files = put old_version.stored_path (some (file (codes "abc"))) (λ path. none);
  tables = record { sources = old_source ∷ []; versions = old_version ∷ [] };
}

-- Another source with the bytes of the first one shares its file.
abbrev new_version : SourceVersion
new_version = record {
  source_version_id = codes "ver_2";
  source_id = codes "src_2";
  sha256 = digest;
  original_filename = codes "b.txt";
  stored_path = old_version.stored_path;
  media_type = codes "text/plain";
  byte_size = 3;
  imported_at = codes "2";
}

abbrev imported : Project
imported = record {
  files = project.files;
  tables = record {
    sources =
        old_source
        ∷ record {
          source_id = codes "src_2";
          display_name = codes "b.txt";
          source_kind = codes "text";
          created_at = codes "2";
          archived_at = none;
        }
        ∷ [];
    versions = old_version ∷ new_version ∷ [];
  };
}

abbrev result : ImportResult
result = record {
  source = record {
    source_id = codes "src_2";
    display_name = codes "b.txt";
    source_kind = SourceKind.plain;
    created_at = codes "2";
    archived_at = none;
  };
  version = new_version;
  source_created = true;
  version_created = true;
  deduplicated = true;
  restored = false;
}

import_file-Imported_example :
    (content : Bytes) × (some (codes "abc") ≡ some content)
    × Imported services none project.tables
        (sha256_text content)
        (codes "b.txt")
        project.files
        imported.files
        imported.tables
        result
unfolding bytes_eq import_file sha256_text wiki.Base.opt_eq wiki.Base.text wiki.Domain.Paths.climbs
    wiki.Domain.Paths.components wiki.Domain.Paths.is_absolute wiki.Domain.Sha256.add_words
    wiki.Domain.Sha256.big_endian wiki.Domain.Sha256.digest_digit wiki.Domain.Sha256.digest_word
    wiki.Domain.Sha256.extend wiki.Domain.Sha256.finish wiki.Domain.Sha256.last_blocks
    wiki.Domain.Sha256.length_bytes wiki.Domain.Sha256.next_word wiki.Domain.Sha256.push
    wiki.Domain.Sha256.push_all wiki.Domain.Sha256.rotr wiki.Domain.Sha256.round
    wiki.Domain.Sha256.rounds wiki.Domain.Sha256.transform wiki.Domain.Sha256.transform_all
    wiki.Domain.Sha256.update wiki.Domain.Types.Names.kind_to_string
    wiki.Domain.Unicode.is_valid_source_text wiki.Domain.Unicode.walk wiki.Domain.Unicode.walk_next
    wiki.Import.File.add_version wiki.Import.File.check_content wiki.Import.File.check_existing_path
    wiki.Import.File.check_found wiki.Import.File.check_retained wiki.Import.File.check_revision
    wiki.Import.File.check_stored_path wiki.Import.File.commit_version
    wiki.Import.File.created_result wiki.Import.File.current_version wiki.Import.File.import_files
    wiki.Import.File.import_steps wiki.Import.File.insert_source wiki.Import.File.insert_version
    wiki.Import.File.is_archived wiki.Import.File.is_found wiki.Import.File.make_read_only
    wiki.Import.File.new_version wiki.Import.File.place_new wiki.Import.File.refuse_present
    wiki.Import.File.register wiki.Import.File.renamed wiki.Import.File.repeat_current
    wiki.Import.File.requested_source wiki.Import.File.retain wiki.Import.File.retain_new
    wiki.Import.File.reuse wiki.Import.File.revise wiki.Import.File.settle
    wiki.Import.File.source_for wiki.Import.File.staged_content wiki.Import.File.store_version
    wiki.Import.File.stored_at wiki.Import.File.throw_import wiki.Import.File.verify_or_repair
    wiki.Import.bytes_or_empty wiki.Import.extension_of wiki.Import.filename_of
    wiki.Import.find_source wiki.Import.find_version_by_hash wiki.Import.found_result
    wiki.Import.from_last_dot wiki.Import.has_hash wiki.Import.kind_eq wiki.Import.last_part
    wiki.Import.last_version wiki.Import.later_or wiki.Import.latest_hash wiki.Import.lower_byte
    wiki.Import.lowercase wiki.Import.newest_hash wiki.Import.newest_version wiki.Import.parse_kind
    wiki.Import.read_optional wiki.Import.read_source wiki.Import.source_format
    wiki.Import.source_row wiki.Search.is_safe_relative
import_file-Imported_example =
    import_file-Imported ascii services (codes "in/b.txt") (some (codes "abc")) none project
      {after = imported} {r = result} refl

-- A file that cannot be protected is removed again.
import_file-Keeps_example :
    (import_file ascii
        (record services { protect_ok = false })
        (codes "in/b.md")
        (some (codes "x"))
        none
        project).0.files
      old_version.stored_path
    ≡ some (file (codes "abc"))
unfolding bytes_eq wiki.Import.File.stored_at
import_file-Keeps_example =
    import_file-Keeps old_version.stored_path (file (codes "abc")) ascii
      (record services { protect_ok = false }) (codes "in/b.md") (some (codes "x")) none project
      refl refl
