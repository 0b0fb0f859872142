-- ===== src/Compiler/Select.antt =====
-- Which pages a compilation uses: select_evidence of libs/compiler/src/compiler.cpp. The joined rows
-- of the three source tables are an argument, with the conditions of the query as fields; so are the files.
pub mod Selected
pub mod Order
pub mod Ordered
use wiki.Base.{
  ℕ, ◌+◌, ◌%◌, ◌^◌, ◌≡◌, Bool, true, false, not, ◌&&◌, ◌||◌, Option, none, some, List, [], ◌∷◌,
  ◌++◌, Bytes, Result, ok, err, text, bytes_eq, bytes_lt, ltb, ◌==◌, if◌then◌else◌, is_empty, any,
  map, keep_if, sort_by, ◌>>=◌, ◌>>◌, throw_if,
}
use wiki.Domain.Unicode.{Unicode, is_valid_source_text}
use wiki.Domain.Types.{TextStatus, ExtractedPage}
use wiki.Domain.Sha256.{sha256_text}
use wiki.Domain.Concept.{normalize_concept_title}
use wiki.Compiler.{
  CompilerErrorKind, CompilerError, compiler_error, CompileOptions, as_compiler_error,
}
use wiki.Compiler.Relevance.{normalize_match_text, relevance_score}

-- A page with its version and its source.
pub record SourceRow : Type 0 where
  pub page_id : Bytes
  pub source_version_id : Bytes
  pub page_number : ℕ
  pub image_path : Option Bytes
  pub text : Bytes
  pub text_status : Bytes
  pub source_id : Bytes
  pub display_name : Bytes
  pub evidence_revision : ℕ
  pub text_sha256 : Bytes
  pub image_sha256 : Option Bytes
  pub stored_path : Bytes
  pub source_sha256 : Bytes
  pub archived : Bool
  pub is_current : Bool
  pub latest_version : Bool

-- `evidence_snapshot`: a column that is null is the empty text.
pub record Evidence : Type 0 where
  pub page_id : Bytes
  pub version_id : Bytes
  pub page_number : ℕ
  pub image_path : Bytes
  pub text : Bytes
  pub status : Bytes
  pub source_id : Bytes
  pub source_name : Bytes
  pub revision : ℕ
  pub text_sha256 : Bytes
  pub image_sha256 : Bytes
  pub stored_path : Bytes
  pub source_sha256 : Bytes

unfoldable pub text_or_null : Option Bytes → Bytes
text_or_null none = []
text_or_null (some s) = s

unfoldable pub evidence_snapshot : SourceRow → Evidence
evidence_snapshot row = record {
  page_id = row.page_id;
  version_id = row.source_version_id;
  page_number = row.page_number;
  image_path = text_or_null row.image_path;
  text = row.text;
  status = row.text_status;
  source_id = row.source_id;
  source_name = row.display_name;
  revision = row.evidence_revision;
  text_sha256 = row.text_sha256;
  image_sha256 = text_or_null row.image_sha256;
  stored_path = row.stored_path;
  source_sha256 = row.source_sha256;
}

-- The conditions of the query
unfoldable pub is_selectable : SourceRow → Bool
is_selectable row = not row.archived && row.is_current && row.latest_version

pub record CandidatePage : Type 0 where
  pub page : ExtractedPage
  pub source_id : Bytes
  pub source_name : Bytes
  pub normalized_source_name : Bytes
  pub relevance_score : ℕ
  pub evidence : Evidence

unfoldable pub parse_text_status : Bytes → Result CompilerError TextStatus
parse_text_status status =
    if bytes_eq status (text "native")
    then ok TextStatus.native
    else if bytes_eq status (text "ocr_unreviewed")
    then ok TextStatus.ocr_unreviewed
    else if bytes_eq status (text "reviewed")
    then ok TextStatus.reviewed
    else if bytes_eq status (text "failed")
    then ok TextStatus.failed
    else err (
        compiler_error CompilerErrorKind.state_error
          (text "project database contains an unknown page text status"))

unfoldable pub is_model_ready : TextStatus → Bool
is_model_ready TextStatus.native = true
is_model_ready TextStatus.reviewed = true
is_model_ready TextStatus.ocr_unreviewed = false
is_model_ready TextStatus.failed = false

-- `domain::ExtractedPage` of a row; the language keeps its default.
unfoldable pub page_of : SourceRow → TextStatus → ExtractedPage
page_of row status = record {
  page_id = row.page_id;
  source_version_id = row.source_version_id;
  page_number = row.page_number % 2 ^ 32;
  image_path = row.image_path;
  text = row.text;
  text_status = status;
  language = text "en";
}

module _ (u : Unicode) (concept_title : Bytes) (requested : List Bytes) where
  unfoldable pub candidate_of : SourceRow → TextStatus → CandidatePage
  candidate_of row status = record {
    page = page_of row status;
    source_id = row.source_id;
    source_name = row.display_name;
    normalized_source_name = normalize_match_text u row.display_name;
    relevance_score = relevance_score u row.display_name row.text concept_title;
    evidence = evidence_snapshot row;
  }

  unfoldable pub is_requested : SourceRow → Bool
  is_requested row = is_empty requested || any (bytes_eq row.source_id) requested

  -- What one row adds to the candidates
  unfoldable pub consider : SourceRow → Result CompilerError (List CandidatePage)
  consider row =
      let parsed : Result CompilerError (List CandidatePage) = (do
        status ← parse_text_status row.text_status
        let candidate = candidate_of row status
        ok (
            if not (is_model_ready status) || is_empty row.text
            then []
            else if not (candidate.relevance_score == 0) || not (is_empty requested)
            then candidate ∷ []
            else [])) in
      if is_requested row then parsed else ok []

  unfoldable pub collect : List SourceRow → Result CompilerError (List CandidatePage)
  collect [] = ok []
  collect (row ∷ rows) = do first ← consider row; rest ← collect rows; ok (first ++ rest)

unfoldable pub has_match : CandidatePage → Bool
has_match c = not (c.relevance_score == 0)

-- With a lexical match, the pages without one are dropped.
unfoldable pub keep_lexical : List CandidatePage → List CandidatePage
keep_lexical candidates =
    if any has_match candidates then keep_if has_match candidates else candidates

unfoldable pub comes_before : CandidatePage → CandidatePage → Bool
comes_before left right =
    if not (left.relevance_score == right.relevance_score)
    then ltb right.relevance_score left.relevance_score
    else if not (bytes_eq left.normalized_source_name right.normalized_source_name)
    then bytes_lt left.normalized_source_name right.normalized_source_name
    else if not (bytes_eq left.source_id right.source_id)
    then bytes_lt left.source_id right.source_id
    else if not (left.page.page_number == right.page.page_number)
    then ltb left.page.page_number right.page.page_number
    else bytes_lt left.page.page_id right.page.page_id

-- The file system: whether a path stays below its owner, and the bytes of a regular file
pub record Files : Type 0 where
  pub is_within : Bytes → Bytes → Bool
  pub content : Bytes → Option Bytes

unfoldable pub file_or : Option Bytes → Result Bytes Bytes
file_or none = err (text "retained evidence file is missing or unreadable")
file_or (some bytes) = ok bytes

-- libs/import/include/kc/import/integrity.hpp
unfoldable pub verify_retained_file : Files → Bytes → Bytes → Bytes → Result Bytes (Unit {0})
verify_retained_file files owner file digest = do
  throw_if (not (files.is_within owner file))
      (text "retained evidence path escapes its storage root")
  bytes ← file_or (files.content file)
  throw_if (is_empty digest || not (bytes_eq (sha256_text bytes) digest)) (
      text
        "retained evidence does not match its recorded SHA-256; restore it or re-extract uncited pages")

unfoldable pub verify_image : Files → Bytes → Option Bytes → Bytes → Result Bytes (Unit {0})
verify_image files cache none digest = ok tt
verify_image files cache (some path) digest = verify_retained_file files cache path digest

-- The directories that own the evidence, and the project's files by their paths from its root
pub record Owners : Type 0 where
  pub files : Files
  pub sources : Bytes
  pub cache : Bytes

module _ (u : Unicode) (o : Owners) where
  -- The body of the `try` over one candidate
  unfoldable pub check_candidate : ExtractedPage → Evidence → Result Bytes (Unit {0})
  check_candidate page evidence = do
    throw_if
        (not (is_valid_source_text u page.text)
          || not (bytes_eq (sha256_text page.text) evidence.text_sha256))
        (text "selected page has invalid encoding or text SHA-256")
    verify_retained_file o.files o.sources evidence.stored_path evidence.source_sha256
    verify_image o.files o.cache page.image_path evidence.image_sha256

  unfoldable pub check_candidates :
      List CandidatePage → Result CompilerError (List (ExtractedPage × Evidence))
  check_candidates [] = ok []
  check_candidates (c ∷ candidates) = do
    as_compiler_error CompilerErrorKind.validation_failed (check_candidate c.page c.evidence)
    rest ← check_candidates candidates
    ok ((c.page, c.evidence) ∷ rest)

  -- The candidates in the order in which a model sees them
  unfoldable pub ranked :
      Bytes → List Bytes → List SourceRow → Result CompilerError (List CandidatePage)
  ranked concept_title requested rows = do
    candidates ← collect u concept_title requested (keep_if is_selectable rows)
    ok (sort_by comes_before (keep_lexical candidates))

unfoldable pub no_empty_filter : List Bytes → Result CompilerError (Unit {0})
no_empty_filter [] = ok tt
no_empty_filter (id ∷ ids) = do
  throw_if (is_empty id)
      (compiler_error CompilerErrorKind.source_not_found (text "source filters must not be empty"))
  no_empty_filter ids

unfoldable pub validate_options : Unicode → CompileOptions → Result CompilerError (Unit {0})
validate_options u options = do
  as_compiler_error CompilerErrorKind.invalid_concept
      (do shown ← normalize_concept_title u options.concept_title; ok tt)
  no_empty_filter options.source_ids

-- `std::ranges::min_element` of the requested sources that are not active
unfoldable pub smallest : Bytes → List Bytes → Bytes
smallest least [] = least
smallest least (id ∷ ids) = smallest (if bytes_lt id least then id else least) ids

unfoldable pub refuse_missing : List Bytes → Result CompilerError (Unit {0})
refuse_missing [] = ok tt
refuse_missing (id ∷ ids) = err (
    compiler_error CompilerErrorKind.source_not_found
      (text "requested source does not exist or is archived: " ++ smallest id ids))

-- `active` are the identifiers of the sources that are not archived.
unfoldable pub validate_source_filters : List Bytes → List Bytes → Result CompilerError (List Bytes)
validate_source_filters active source_ids = do
  refuse_missing (keep_if (λ id. not (any (bytes_eq id) active)) source_ids)
  ok source_ids

unfoldable pub select_evidence :
    Unicode
    → Owners
    → List Bytes
    → List SourceRow
    → CompileOptions
    → Result CompilerError (List (ExtractedPage × Evidence))
select_evidence u o active rows options = do
  validate_options u options
  requested ← validate_source_filters active options.source_ids
  candidates ← ranked u o options.concept_title requested rows
  check_candidates u o candidates
