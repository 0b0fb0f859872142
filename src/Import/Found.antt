-- ===== src/Import/Found.antt =====
-- What the lookups by digest find (libs/import/src/source_importer.cpp).
use wiki.Base.{
  ◌≡◌, refl, subst, ◌∙◌, ◌⊎◌, inl, inr, Bool, true, false, ◌&&◌, Option, none, some, List, [], ◌∷◌,
  Bytes, ok, bytes_eq, bytes_eq_lem, ok-cancel, none-ne-some, some-cancel, >>=-eq-ok, arith,
}
use wiki.Import.{
  SourceVersion, SourceRecord, Tables, ImportResult, source_row, has_hash, newest_version,
  last_version, found_result, read_source, find_version_by_hash,
}
use wiki.Import.Owner.{read_source-id, source_row-id}

newest_version-cases :
    (later : Option (SourceVersion × SourceRecord)) (v : SourceVersion) (matches : Bool)
    (row : Option SourceRecord) {x : SourceVersion × SourceRecord}
    → newest_version later v matches row ≡ some x
    → (later ≡ some x) ⊎ ((matches ≡ true) × ((r : SourceRecord) × (row ≡ some r) × ((v, r) ≡ x)))
unfolding newest_version
newest_version-cases (some later) v matches row h = inl h
newest_version-cases none v true (some row) h = inr (refl, (row, refl, some-cancel h))
newest_version-cases none v true none h = absurd (none-ne-some h)
newest_version-cases none v false row h = absurd (none-ne-some h)

-- A version that was found, with its source
abbrev Found : List SourceRecord → Bytes → Option Bytes → SourceVersion × SourceRecord → Type 0
Found sources hash id x =
    (has_hash hash id x.0 ≡ true) × (source_row x.0.source_id sources ≡ some x.1)

last_version-Found :
    (sources : List SourceRecord) (hash : Bytes) (id : Option Bytes) (versions : List SourceVersion)
    {x : SourceVersion × SourceRecord}
    → last_version sources hash id versions ≡ some x
    → Found sources hash id x
unfolding last_version
last_version-Found sources hash id [] h = absurd (none-ne-some h)
last_version-Found sources hash id (v ∷ versions) h =
    elim (newest_version-cases (last_version sources hash id versions) v _ _ h) [
      | inl earlier ↦ last_version-Found sources hash id versions earlier
      | inr (matches, (row, has_row, same)) ↦ subst (Found sources hash id) same (matches, has_row)
    ]

found_result-version :
    (m : Option (SourceVersion × SourceRecord)) {r : ImportResult}
    → found_result m ≡ ok (some r)
    → (row : SourceRecord) × (m ≡ some (r.version, row))
      × (r.source.source_id ≡ row.source_id)
      × (r.version_created ≡ false)
unfolding found_result
found_result-version none h = absurd (none-ne-some (ok-cancel h))
found_result-version (some (v, row)) h =
    let (source, read, last) = >>=-eq-ok (read_source row) _ h in
    subst
      (λ (x : ImportResult).
        (w : SourceRecord) × (◌≡◌ {A = Option (SourceVersion × SourceRecord)} (some (v, row))
          (some (x.version, w)))
        × (x.source.source_id ≡ w.source_id)
        × (x.version_created ≡ false))
      (some-cancel (ok-cancel last)) (row, refl, read_source-id row read, refl)

both-true : (a b : Bool) → (a && b) ≡ true → (a ≡ true) × (b ≡ true)
both-true a b h = ground arith

-- What a source-scoped lookup finds is a version of that source with the digest.
pub find_version_by_hash-lem :
    (t : Tables) (hash id : Bytes) {r : ImportResult}
    → find_version_by_hash t hash (some id) ≡ ok (some r)
    → (r.version.sha256 ≡ hash) × (r.source.source_id ≡ id) × (r.version_created ≡ false)
unfolding find_version_by_hash has_hash
find_version_by_hash-lem t hash id {r} h =
    let (row, found, named, old) =
      found_result-version (last_version t.sources hash (some id) t.versions) h in
    let (matches, has_row) = last_version-Found t.sources hash (some id) t.versions found in
    let (sha, owned) =
      both-true (bytes_eq r.version.sha256 hash) (bytes_eq r.version.source_id id) matches in
    (
      bytes_eq_lem r.version.sha256 hash sha,
      named
          ∙ source_row-id r.version.source_id t.sources has_row
          ∙ bytes_eq_lem r.version.source_id id owned,
      old,
    )
