-- ===== src/Examples/Witnesses.antt =====
-- Each theorem at concrete values.
use wiki.Review.{
  changed_pages, copies_of, correct, correct_page_text, differs, find_current, has_key,
  has_visible_text, is_accepted, is_current_page, is_referenced, prepare_pages, retire,
  revoke_approval, write_correction, write_prepared, clear_approvals, count_rows,
  is_approved_proposal, reopen_row, update_rows,
}
use wiki.Domain.Types.Names.{block_to_string, key_to_string, operation_to_string, status_to_string}
use wiki.Domain.Paths.{climbs, components, is_absolute, is_project_relative}
use wiki.Base.{
  ℕ, ◌≡◌, ◌≢◌, refl, inr, ◌↔◌, true, false, Bytes, ok, none, some, List, [], ◌∷◌, codes, text,
  length, All, find, all, ltb, ltb→lt, and-true, ◌<◌, bytes_eq, find_from, has_any, opt_eq,
  starts_with, to_decimal,
}
use wiki.Domain.Unicode.{finish, scalar, walk, is_valid_source_text, walk_next}
use wiki.Domain.Unicode.Walk.{Reads, walk-Reads}
use wiki.Domain.Id.{generate_prefixed_ulid, is_valid_id, crockford_has, front_ok}
use wiki.Domain.Id.Value.{encode_ulid-injective}
use wiki.Domain.Id.Valid.{is_valid_id-generate_prefixed_ulid}
use wiki.Domain.Markdown.{
  inline_text, markdown_literal, reserved_marker, check_block, check_citations, check_related,
  check_section, check_text, escape, inline_loop, is_control, is_punctuation, is_whitespace,
  validate_markdown, validate_plain_text,
}
use wiki.Domain.Markdown.Literal.{unescape, NoBreak, markdown_literal_lem}
use wiki.Domain.Concept.{
  canonical_concept_slug, before_dot, concept_filename, concept_identity_key, device_suffix,
  display_loop, display_title, ends_with_byte, hash_loop, hex_digit, hex_loop, is_format,
  is_slug_byte, normalize_concept_title, reserved_stem, reserved_windows_name, separate, slug_loop,
  slug_of_key, slug_step, strip_back, symbol_word, unicode_normalize, visit,
}
use wiki.Domain.Concept.Slug.{is_slug, is_slug-canonical_concept_slug, slug_next, slug_run}
use wiki.Domain.Validate.{
  validate_citation, validate_proposal, all_distinct, prefixed, require, validate_block,
  validate_citations, validate_page, validate_related, validate_section, validate_title,
}
use wiki.Domain.Validate.Citations.{IsCited, validate_citation_lem}
use wiki.Domain.Validate.Proposals.{IsProposal, validate_proposal-IsProposal}
use wiki.Models.Whitespace.{
  normalize_whitespace, visible, normalize_whitespace_lem, is_space, normalize_loop,
}
use wiki.Models.Validator.{
  validate_request, validate_response, check_span, cited_text, find_page, ground_citation,
  ground_citations, ground_related, ground_section, id_eq, is_some, issue_when, operation_eq,
  page_issues, response_issues, status_issues, title_issues, value_or,
}
use wiki.Models.Validator.Grounded.{Answers, validate_response-Answers}
use wiki.Models.Validator.Requests.{IsEvidence, validate_request-IsEvidence}
use wiki.Updates.{
  accumulate, changes, changes_from, claims, missing, add_block, add_blocks, add_concept,
  add_concepts, add_sections, append_block, key_code, key_eq, kind_eq, merge_citations, place,
  retain, retain_block, retain_next, same_article, same_block, same_concept, same_literal,
  same_slot,
}
use wiki.Updates.Retains.{Extends, SectionGrows, ConceptGrows, accumulate-Extends}
use wiki.Updates.Review.{changes_from-accumulate}
use wiki.Storage.Migrations.{
  discover, discover_loop, insert_sorted, is_digit, is_name_byte, match_digits, matched,
  matches_name, read_file, sort, stoi,
}
use wiki.Storage.Migrations.Apply.{
  apply_all, applied_versions, apply_discovered, apply_loop, apply_one, attempt, begin_transaction,
  check_references, commit_transaction, record_migration, restore, roll_back_transaction,
  run_script, set_foreign_keys,
}
use wiki.Storage.Migrations.Steps.{idle}
use wiki.Storage.Migrations.History.{Completes, apply_all-Recorded}
use wiki.Storage.Migrations.Order.{Ascending, discover-Ascending}
use wiki.Examples.Engine.{
  engine, engine-IsLasting, migrations-KeepHistory, empty_store, directory, first_migration,
  second_migration,
}
use wiki.Review.Evidence.{KeepsEvidence, correct_page_text-Extends}
use wiki.Review.Decisions.{IsFinal, revokes, here, next, Reaches-IsFinal}
use wiki.Examples.Reviews.{before_review, after_correction, correction, after_revocation}
use wiki.Domain.Sha256.{new_hasher, update, last_blocks, sha256_text, sha256_file}
use wiki.Domain.Sha256.Chunks.{join, sha256_file-join, finish-bounds}
use wiki.Vault.Url.{encode_markdown_url}
use wiki.Vault.Url.Decode.{decode_url, is_url_byte, decode_url-encode_markdown_url}
use wiki.Vault.Markers.{replace_managed_content, found_or, is_found, starts_before}
use wiki.Vault.Markers.Replace.{Replaced, replace_managed_content-Replaced}
use wiki.Storage.Disk.{replacing, Journal, ◌>>=◌}
use wiki.Storage.Disk.Holds.{Holds}
use wiki.Storage.Operation.{file_operation, prepare, replace, recover_journal}
use wiki.Storage.Operation.Survives.{Survives, crash-recover_journal}
use wiki.Storage.Operation.Clobber.{Kept, recover_journal-Kept}
use wiki.Examples.Data.{
  ascii, citation, block, other_block, section, created, request, updated, base_row, old_text,
  new_text, source_copy, start_disk, saved_disk,
}

abbrev same : Bytes → Bytes
same s = s

abbrev write_journal : Journal
write_journal = file_operation same (some old_text) new_text (source_copy ∷ source_copy ∷ [])

-- The write of the backup, of the copy and of the staged article are each cut after two bytes.
crash-recover_journal_example :
    Holds
      (Survives 1 same (some old_text) new_text)
      (Survives 1 same (some old_text) new_text)
      (λ _ e. Survives 1 same (some old_text) new_text e × (e.article ≡ some new_text))
      ((prepare 2 same write_journal >>= λ _. replace 2 same write_journal) start_disk)
crash-recover_journal_example =
    crash-recover_journal 2 1 same (some old_text) new_text (source_copy ∷ source_copy ∷ [])
      start_disk
      (record {
        article_same = refl;
        no_recovery = refl;
        no_backup = refl;
        no_copies = λ i. refl;
        no_journal = refl;
      })

recover_journal-Kept_example :
    Holds
      (Kept (some (codes "mine")))
      (Kept (some (codes "mine")))
      (λ _. Kept (some (codes "mine")))
      (recover_journal 2 same false (record write_journal { phase = replacing }) saved_disk)
unfolding bytes_eq file_operation opt_eq
recover_journal-Kept_example =
    recover_journal-Kept 2 same false (record write_journal { phase = replacing }) saved_disk
      (inr refl)

accumulate-Extends_example :
    Extends SectionGrows (section (block ∷ []) ∷ []) (section (block ∷ other_block ∷ []) ∷ [])
    × Extends ConceptGrows [] []
    × ((updated (block ∷ other_block ∷ [])).article ≡ (updated (other_block ∷ [])).article)
unfolding accumulate add_block add_blocks add_concept add_concepts add_sections append_block
    bytes_eq concept_identity_key display_loop display_title escape inline_loop inline_text
    is_control is_format is_punctuation is_whitespace key_code key_eq kind_eq markdown_literal
    merge_citations place retain retain_block retain_next same_block same_concept same_literal
    same_slot text unicode_normalize walk walk_next
accumulate-Extends_example =
    accumulate-Extends ascii (updated (block ∷ [])) (updated (other_block ∷ []))
      (updated (block ∷ other_block ∷ [])) refl

validate_response-Answers_example : Answers ascii created request
unfolding all_distinct before_dot block_to_string bytes_eq canonical_concept_slug check_block
    check_citations check_related check_section check_span check_text cited_text concept_filename
    concept_identity_key crockford_has device_suffix display_loop display_title ends_with_byte find
    find_page front_ok ground_citation ground_citations ground_related ground_section has_any
    hash_loop hex_digit hex_loop id_eq inline_loop inline_text is_control is_format is_slug
    is_slug_byte is_space is_valid_id is_whitespace issue_when key_to_string normalize_concept_title
    normalize_loop normalize_whitespace operation_eq operation_to_string prefixed require
    reserved_stem reserved_windows_name response_issues separate slug_loop slug_next slug_of_key
    slug_run slug_step starts_with strip_back symbol_word text to_decimal unicode_normalize
    validate_block validate_citation validate_citations validate_markdown validate_plain_text
    validate_proposal validate_related validate_response validate_section validate_title value_or
    visit walk walk_next
validate_response-Answers_example = validate_response-Answers ascii created request refl

replace_managed_content-Replaced_example :
    Replaced
      (codes "mine[a]old[b]mine")
      (codes "[a]")
      (codes "[b]")
      (codes "new")
      (codes "mine[a]\n\nnew\n\n[b]mine")
unfolding find find_from found_or is_found replace_managed_content starts_before
replace_managed_content-Replaced_example =
    replace_managed_content-Replaced (codes "mine[a]old[b]mine") (codes "[a]") (codes "[b]")
      (codes "new") (codes "mine[a]\n\nnew\n\n[b]mine") refl

changes_from-accumulate_example :
    changes_from (updated (block ∷ other_block ∷ [])) base_row
    ≡ ok (
        some (
          changes base_row.update_mode base_row.base_apply_run_id base_row.managed_sha256
            (length (claims (updated (block ∷ []))))
            []
            (missing
              (claims (updated (block ∷ other_block ∷ [])))
              (claims (updated (block ∷ []))))))
unfolding accumulate add_block add_blocks add_concept add_concepts add_sections append_block
    bytes_eq concept_identity_key display_loop display_title escape inline_loop inline_text
    is_control is_format is_punctuation is_whitespace key_code key_eq kind_eq markdown_literal
    merge_citations place retain retain_block retain_next same_article same_block same_concept
    same_literal same_slot text unicode_normalize walk walk_next
changes_from-accumulate_example =
    changes_from-accumulate ascii (updated (block ∷ [])) (updated (other_block ∷ []))
      (updated (block ∷ other_block ∷ [])) base_row refl refl refl

markdown_literal_lem_example :
    (inline_text ascii (codes "a *b\n") ≡ ok (unescape (codes "a \\*b")))
    × (find (codes "a \\*b") reserved_marker ≡ none)
    × NoBreak (codes "a \\*b")
unfolding escape inline_loop inline_text is_control is_punctuation is_whitespace markdown_literal
    walk
markdown_literal_lem_example = markdown_literal_lem ascii (codes "a *b\n") (codes "a \\*b") refl

validate_request-IsEvidence_example : (request.pages ≢ []) × IsEvidence [] request.pages
unfolding before_dot bytes_eq canonical_concept_slug climbs components concept_filename
    concept_identity_key crockford_has device_suffix display_loop display_title ends_with_byte
    front_ok has_any hash_loop hex_digit hex_loop is_absolute is_format is_project_relative is_slug
    is_slug_byte is_some is_valid_id is_valid_source_text issue_when normalize_concept_title
    operation_eq operation_to_string page_issues prefixed require reserved_stem
    reserved_windows_name separate slug_loop slug_next slug_of_key slug_run slug_step starts_with
    status_issues status_to_string strip_back symbol_word text title_issues to_decimal
    unicode_normalize validate_page validate_request visit walk walk_next
validate_request-IsEvidence_example = validate_request-IsEvidence ascii request refl

validate_proposal-IsProposal_example : IsProposal ascii created
unfolding all_distinct before_dot block_to_string bytes_eq check_block check_citations check_related
    check_section check_text concept_filename crockford_has device_suffix display_loop display_title
    ends_with_byte find front_ok has_any inline_loop inline_text is_control is_format is_slug
    is_slug_byte is_valid_id is_whitespace key_to_string normalize_concept_title operation_to_string
    prefixed require reserved_stem reserved_windows_name slug_next slug_run starts_with strip_back
    text to_decimal unicode_normalize validate_block validate_citation validate_citations
    validate_markdown validate_plain_text validate_proposal validate_related validate_section
    validate_title visit walk walk_next
validate_proposal-IsProposal_example = validate_proposal-IsProposal ascii created refl

is_slug-canonical_concept_slug_example : is_slug (codes "a-b-c") ≡ true
unfolding canonical_concept_slug concept_identity_key display_loop display_title ends_with_byte
    is_format is_slug_byte separate slug_loop slug_of_key slug_step strip_back symbol_word
    unicode_normalize walk
is_slug-canonical_concept_slug_example =
    is_slug-canonical_concept_slug ascii (codes "A b C") (codes "a-b-c") refl

abbrev bytes16 : ℕ → List ℕ
bytes16 n = 0 ∷ 1 ∷ 2 ∷ 3 ∷ 4 ∷ 5 ∷ 6 ∷ 7 ∷ 8 ∷ 9 ∷ 10 ∷ 11 ∷ 12 ∷ 13 ∷ 14 ∷ n ∷ []

small : (bs : List ℕ) → all (λ b. ltb b 256) bs ≡ true → All (λ b. b < 256) bs
small [] h = tt
small (b ∷ bs) h = let (p, q) = and-true (ltb b 256) _ h in (ltb→lt b 256 p, small bs q)

encode_ulid-injective_example : bytes16 15 ≡ bytes16 15
encode_ulid-injective_example =
    encode_ulid-injective (bytes16 15) (bytes16 15) refl refl (small (bytes16 15) refl)
      (small (bytes16 15) refl) refl

is_valid_id-generate_prefixed_ulid_example :
    is_valid_id
      (generate_prefixed_ulid
        (codes "art_")
        1700000000000
        (0 ∷ 1 ∷ 2 ∷ 3 ∷ 4 ∷ 5 ∷ 6 ∷ 7 ∷ 8 ∷ 255 ∷ []))
      (codes "art_")
    ≡ true
is_valid_id-generate_prefixed_ulid_example =
    is_valid_id-generate_prefixed_ulid (codes "art_") 1700000000000
      (0 ∷ 1 ∷ 2 ∷ 3 ∷ 4 ∷ 5 ∷ 6 ∷ 7 ∷ 8 ∷ 255 ∷ []) refl

validate_citation_lem_example : (validate_citation ascii citation ≡ []) ↔ IsCited ascii citation
validate_citation_lem_example = validate_citation_lem ascii citation

normalize_whitespace_lem_example :
    (normalize_whitespace (normalize_whitespace (codes " a \n b "))
      ≡ normalize_whitespace (codes " a \n b "))
    × (visible (normalize_whitespace (codes " a \n b ")) ≡ visible (codes " a \n b "))
normalize_whitespace_lem_example = normalize_whitespace_lem (codes " a \n b ")

walk-Reads_example : Reads ascii (codes "leaf") (
    scalar b'l'
      (codes "l")
      (scalar b'e' (codes "e") (scalar b'a' (codes "a") (scalar b'f' (codes "f") finish))))
unfolding walk
walk-Reads_example = walk-Reads ascii (codes "leaf")

apply_all-Recorded_example :
    Completes engine
      (first_migration ∷ second_migration ∷ [])
      empty_store
      (apply_all engine directory (idle engine empty_store false)).0
    × (apply_all engine directory (apply_all engine directory (idle engine empty_store false)).0
        ≡ ((apply_all engine directory (idle engine empty_store false)).0, ok []))
unfolding applied_versions apply_all apply_discovered apply_loop apply_one attempt begin_transaction
    bytes_eq check_references commit_transaction discover discover_loop insert_sorted is_digit
    is_name_byte match_digits matched matches_name read_file record_migration restore
    roll_back_transaction run_script set_foreign_keys sort stoi text
apply_all-Recorded_example =
    apply_all-Recorded engine directory (first_migration ∷ second_migration ∷ []) (1 ∷ 2 ∷ [])
      empty_store false engine-IsLasting migrations-KeepHistory refl refl

discover-Ascending_example : Ascending (first_migration ∷ second_migration ∷ [])
unfolding bytes_eq discover discover_loop insert_sorted is_digit is_name_byte match_digits matched
    matches_name sort stoi
discover-Ascending_example =
    discover-Ascending directory (first_migration ∷ second_migration ∷ []) refl

correct_page_text-Extends_example :
    Extends (KeepsEvidence before_review.references) before_review.pages after_correction.pages
unfolding bytes_eq changed_pages copies_of correct correct_page_text differs find_current has_key
    has_visible_text is_accepted is_current_page is_referenced is_space is_valid_source_text
    prepare_pages retire text walk walk_next write_correction write_prepared
correct_page_text-Extends_example =
    correct_page_text-Extends ascii same (ok (codes "v")) (codes "p2") 1 (codes "new")
      (some (codes "p1")) none before_review after_correction correction (refl, tt) refl

Reaches-IsFinal_example : Extends IsFinal before_review.proposals after_revocation.proposals
unfolding bytes_eq clear_approvals count_rows is_approved_proposal reopen_row revoke_approval text
    update_rows
Reaches-IsFinal_example =
    Reaches-IsFinal before_review after_revocation
      (next (revokes {s = before_review} {t = after_revocation} (codes "a") refl) here)

sha256_file-join_example :
    sha256_file ((1 ∷ 2 ∷ []) ∷ [] ∷ (3 ∷ []) ∷ [])
    ≡ sha256_text (join ((1 ∷ 2 ∷ []) ∷ [] ∷ (3 ∷ []) ∷ []))
sha256_file-join_example = sha256_file-join ((1 ∷ 2 ∷ []) ∷ [] ∷ (3 ∷ []) ∷ [])

finish-bounds_example :
    (length (update new_hasher (codes "abc")).block < 64)
    × All (λ (block : List ℕ). length block ≡ 64) (last_blocks (update new_hasher (codes "abc")))
    × (length (sha256_text (codes "abc")) ≡ 64)
finish-bounds_example = finish-bounds (codes "abc")

decode_url-encode_markdown_url_example :
    (decode_url (encode_markdown_url (codes "sources/a (b).pdf")) ≡ codes "sources/a (b).pdf")
    × (all is_url_byte (encode_markdown_url (codes "sources/a (b).pdf")) ≡ true)
decode_url-encode_markdown_url_example =
    decode_url-encode_markdown_url (codes "sources/a (b).pdf")
      (small (codes "sources/a (b).pdf") refl)
