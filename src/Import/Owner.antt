-- ===== src/Import/Owner.antt =====
-- The source that an import belongs to (libs/import/src/source_importer.cpp).
use wiki.Base.{
  ◌≡◌, refl, sym, ap, subst, ◌∙◌, inl, inr, not, Option, none, some, List, [], ◌∷◌, Bytes, Result,
  ok, err, bytes_eq, bytes_eq_lem, Bool-cases, ok-cancel, err-ne-ok, none-ne-some, some-cancel,
  if-true, if-false, >>=-eq-ok,
}
use wiki.Import.{
  ImportError, Source, SourceRecord, Tables, SourceFormat, kind_eq, parse_kind, read_source,
  source_row, read_optional, find_source,
}
use wiki.Import.File.{Services, check_revision, check_found, requested_source, is_archived}

-- The source that the new version belongs to
abbrev pub owner : Services → Option Bytes → Bytes
owner v none = v.source_id
owner v (some id) = id

pub source_row-id :
    (id : Bytes) (rows : List SourceRecord) {row : SourceRecord}
    → source_row id rows ≡ some row
    → row.source_id ≡ id
unfolding source_row
source_row-id id [] h = absurd (none-ne-some h)
source_row-id id (r ∷ rows) {row} h = elim (Bool-cases (bytes_eq r.source_id id)) [
  | inl e ↦
      subst (λ x. x.source_id ≡ id) (some-cancel (if-true (bytes_eq r.source_id id) _ _ e h))
        (bytes_eq_lem r.source_id id e)
  | inr e ↦ source_row-id id rows (if-false (bytes_eq r.source_id id) _ _ e h)
]

pub read_source-id :
    (row : SourceRecord) {source : Source}
    → read_source row ≡ ok source
    → source.source_id ≡ row.source_id
unfolding read_source
read_source-id row h =
    let (kind, parsed, last) = >>=-eq-ok (parse_kind row.source_kind) _ h in
    ap (λ (s : Source). s.source_id) (sym (ok-cancel last))

read_optional-id :
    (id : Bytes) (row : Option SourceRecord) {source : Source}
    → ((r : SourceRecord) → row ≡ some r → r.source_id ≡ id)
    → read_optional row ≡ ok (some source)
    → source.source_id ≡ id
unfolding read_optional
read_optional-id id none same h = absurd (none-ne-some (ok-cancel h))
read_optional-id id (some r) same h =
    let (source, read, last) = >>=-eq-ok (read_source r) _ h in
    ap (λ (s : Source). s.source_id) (sym (some-cancel (ok-cancel last)))
    ∙ read_source-id r read
    ∙ same r refl

check_revision-same :
    (format : SourceFormat) (id : Bytes) (found : Option Source) {source : Option Source}
    → check_revision format id found ≡ ok source
    → (s : Source) × (found ≡ some s) × (source ≡ some s)
unfolding check_revision
check_revision-same format id none h = absurd (err-ne-ok h)
check_revision-same format id (some s) h = elim (Bool-cases (is_archived s)) [
  | inl e ↦ absurd (err-ne-ok (if-true (is_archived s) _ _ e h))
  | inr e ↦ elim (Bool-cases (not (kind_eq s.source_kind format.kind))) [
    | inl k ↦ absurd (
        err-ne-ok (
          if-true (not (kind_eq s.source_kind format.kind)) _ _ k
            (if-false (is_archived s) _ _ e h)))
    | inr k ↦ (
      s,
      refl,
      sym (
          ok-cancel (
            if-false (not (kind_eq s.source_kind format.kind)) _ _ k
              (if-false (is_archived s) _ _ e h))),
    )
  ]
]

check_found-id :
    (format : SourceFormat) (id : Bytes) (m : Result ImportError (Option Source)) {source : Source}
    → ((s : Source) → m ≡ ok (some s) → s.source_id ≡ id)
    → check_found format id m ≡ ok (some source)
    → source.source_id ≡ id
unfolding check_found
check_found-id format id (err e) same h = absurd (err-ne-ok h)
check_found-id format id (ok found) same h =
    let (s, found_s, source_s) = check_revision-same format id found h in
    ap (λ (x : Source). x.source_id) (some-cancel source_s) ∙ same s (ap ok found_s)

pub requested_source-owner :
    (v : Services) (t : Tables) (format : SourceFormat) (id : Option Bytes) {source : Source}
    → requested_source t format id ≡ ok (some source)
    → source.source_id ≡ owner v id
unfolding requested_source find_source
requested_source-owner v t format none h = absurd (none-ne-some (ok-cancel h))
requested_source-owner v t format (some id) h =
    check_found-id format id (find_source t.sources id)
      (λ s found.
        read_optional-id id (source_row id t.sources) (λ r e. source_row-id id t.sources e) found)
      h

-- A request without a source finds none.
pub requested_source-none :
    (t : Tables) (format : SourceFormat) (id : Option Bytes)
    → requested_source t format id ≡ ok none
    → id ≡ none
unfolding requested_source check_found
requested_source-none t format none h = refl
requested_source-none t format (some id) h = none_found (find_source t.sources id) h
  where
    none_found :
        (m : Result ImportError (Option Source))
        → check_found format id m ≡ ok none
        → some id ≡ none
    none_found (err e) h = absurd (err-ne-ok h)
    none_found (ok found) h =
        let (s, found_s, source_s) = check_revision-same format id found h in
        absurd (none-ne-some source_s)
