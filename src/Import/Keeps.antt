-- ===== src/Import/Keeps.antt =====
-- An import changes no file but that of its new version (libs/import/src/source_importer.cpp).
use wiki.Base.{
  ◌≡◌, refl, sym, ap, subst, ◌∙◌, inl, inr, Bool, false, Option, none, some, Bytes, Result, ok, err,
  bytes_eq, bytes_eq_lem, opt_eq, Bool-cases, none-ne-some,
}
use wiki.Domain.Unicode.{Unicode}
use wiki.Domain.Sha256.{sha256_text}
use wiki.Import.{
  ImportError, Source, SourceVersion, Tables, ImportResult, SourceFormat, filename_of,
  source_format, find_version_by_hash, latest_hash,
}
use wiki.Import.Act.{Entry, file, Files, Act, ◌>>=◌, put, continue, lift, look, write, removing}
use wiki.Import.File.{
  Services, Project, renamed, make_read_only, check_existing_path, created_result, retain,
  verify_or_repair, reuse, requested_source, source_for, stored_at, insert_source,
  check_stored_path, commit_version, new_version, refuse_present, place_new, retain_new,
  store_version, add_version, is_found, repeat_current, revise, register, check_content,
  staged_content, settle, import_steps, import_file,
}
use wiki.Import.Owner.{owner, requested_source-owner, requested_source-none}

put-other :
    (p path : Bytes) (entry : Option Entry) (files : Files)
    → bytes_eq p path ≡ false
    → put path entry files p ≡ files p
put-other p path entry files h = rw h refl

module _ (p : Bytes) (x : Entry) where
  abbrev Has : Files → Type 0
  Has files = files p ≡ some x

  record Keeps {A : Type 0} (act : Act A) : Type 0 where
    keeps : (files : Files) → Has files → Has (act files).0

  continue-Keeps :
      {A B : Type 0} (r : Files × Result ImportError A) (next : A → Act B)
      → Has r.0
      → ((a : A) → r.1 ≡ ok a → Keeps (next a))
      → Has (continue r next).0
  continue-Keeps (files, err e) next h k = h
  continue-Keeps (files, ok a) next h k = (k a refl).keeps files h

  bind-Keeps :
      {A B : Type 0} (act : Act A) (next : A → Act B)
      → Keeps act
      → ((a : A) → Keeps (next a))
      → Keeps (act >>= next)
  bind-Keeps act next first later = record {
    keeps = λ files h. continue-Keeps (act files) next (first.keeps files h) (λ a e. later a);
  }

  lift-Keeps :
      {A B : Type 0} (m : Result ImportError A) (next : A → Act B)
      → ((a : A) → m ≡ ok a → Keeps (next a))
      → Keeps (lift m >>= next)
  lift-Keeps m next later = record { keeps = λ files h. continue-Keeps (files, m) next h later }

  same-Keeps : {A : Type 0} (m : Result ImportError A) → Keeps (lift m)
  same-Keeps m = record { keeps = λ files h. h }

  write-Keeps : (path bytes : Bytes) → bytes_eq p path ≡ false → Keeps (write path bytes)
  write-Keeps path bytes other = record {
    keeps = λ files h. put-other p path (some (file bytes)) files other ∙ h;
  }

  retain-Keeps :
      (v : Services) (path content : Bytes)
      → bytes_eq p path ≡ false
      → Keeps (retain v path content)
  unfolding retain
  retain-Keeps v path content other = lift-Keeps (renamed v) _ (λ a e.
      bind-Keeps (write path content) _ (write-Keeps path content other)
        (λ b. same-Keeps (make_read_only v)))

  removing-Keeps :
      {A : Type 0} (path : Bytes) (r : Files × Result ImportError A)
      → bytes_eq p path ≡ false
      → Has r.0
      → Has (removing path r).0
  removing-Keeps path (files, err e) other h = put-other p path none files other ∙ h
  removing-Keeps path (files, ok a) other h = h

  -- Where nothing stands at the path, it is not the one that is kept.
  repair-Keeps :
      (v : Services) (path content hash : Bytes) (entry : Option Entry) (files : Files)
      → files path ≡ entry
      → Has files
      → Has (verify_or_repair v path content hash entry files).0
  unfolding verify_or_repair
  repair-Keeps v path content hash (some entry) files e h = h
  repair-Keeps v path content hash none files e h = elim (Bool-cases (bytes_eq p path)) [
    | inl same ↦ absurd (none-ne-some (sym e ∙ ap files (sym (bytes_eq_lem p path same)) ∙ h))
    | inr other ↦ (retain-Keeps v path content other).keeps files h
  ]

  reuse-Keeps :
      (v : Services) (content hash : Bytes) (existing : Option ImportResult)
      → Keeps (reuse v content hash existing)
  unfolding reuse
  reuse-Keeps v content hash none = same-Keeps (ok tt)
  reuse-Keeps v content hash (some existing) =
      lift-Keeps (check_existing_path v existing.version.stored_path) _ (λ a e. record {
        keeps = λ files h.
            repair-Keeps v existing.version.stored_path content hash
              (files existing.version.stored_path) files refl h;
      })

  place_new-Keeps :
      (v : Services) (path content : Bytes) (version : SourceVersion) (t : Tables)
      → bytes_eq p path ≡ false
      → Keeps (place_new v path content version t)
  unfolding place_new
  place_new-Keeps v path content version t other =
      bind-Keeps (look path) _ (record { keeps = λ f k. k })
        (λ entry. lift-Keeps (refuse_present entry) _ (λ a e.
          bind-Keeps (retain v path content) _ (retain-Keeps v path content other)
            (λ b. same-Keeps (commit_version v version t))))

  retain_new-Keeps :
      (v : Services) (path content : Bytes) (version : SourceVersion) (t : Tables)
      → bytes_eq p path ≡ false
      → Keeps (retain_new v path content version t)
  unfolding retain_new
  retain_new-Keeps v path content version t other = record {
    keeps = λ files h.
        removing-Keeps path (place_new v path content version t files) other
          ((place_new-Keeps v path content version t other).keeps files h);
  }

  store_version-Keeps :
      (v : Services) (path content : Bytes) (version : Bytes → SourceVersion)
      (existing : Option ImportResult) (t : Tables)
      → bytes_eq p path ≡ false
      → Keeps (store_version v path content version existing t)
  unfolding store_version
  store_version-Keeps v path content version (some existing) t other =
      lift-Keeps (commit_version v (version existing.version.stored_path) t) _
        (λ written e. same-Keeps (ok (written, version existing.version.stored_path)))
  store_version-Keeps v path content version none t other =
      bind-Keeps (retain_new v path content (version path) t) _
        (retain_new-Keeps v path content (version path) t other)
        (λ written. same-Keeps (ok (written, version path)))

  add_version-Keeps :
      (v : Services) (format : SourceFormat) (filename content hash : Bytes)
      (existing : Option ImportResult) (restored : Bool) (source : Source × Bool) (t : Tables)
      → bytes_eq p (stored_at v source.0.source_id filename) ≡ false
      → Keeps (add_version v format filename content hash existing restored source t)
  unfolding add_version
  add_version-Keeps v format filename content hash existing restored (source, created) t other =
      let path = stored_at v source.source_id filename in
      lift-Keeps (check_stored_path v path) _ (λ a e.
        bind-Keeps
          (store_version v path content (new_version v source format filename hash content) existing
            (insert_source source created t))
          _
          (store_version-Keeps v path content (new_version v source format filename hash content)
            existing (insert_source source created t) other)
          (λ stored.
            same-Keeps
              (ok (stored.0, created_result source stored.1 created (is_found existing) restored))))

  revise-Keeps :
      (v : Services) (format : SourceFormat) (filename content hash : Bytes) (id : Option Bytes)
      (existing : Option ImportResult) (t : Tables) (source : Option Source)
      → bytes_eq p (stored_at v (owner v id) filename) ≡ false
      → requested_source t format id ≡ ok source
      → Keeps (revise v format filename content hash existing t source)
  unfolding revise source_for
  revise-Keeps v format filename content hash id existing t none other r =
      add_version-Keeps v format filename content hash existing false
        (source_for v format filename none) t
        (subst (λ i. bytes_eq p (stored_at v (owner v i) filename) ≡ false)
          (requested_source-none t format id r) other)
  revise-Keeps v format filename content hash id existing t (some source) other r =
      lift-Keeps (find_version_by_hash t hash (some source.source_id)) _ (λ current e.
        elim (Bool-cases (opt_eq (latest_hash source.source_id t.versions) (some hash))) [
          | inl same ↦ rw same (same-Keeps (repeat_current v t current))
          | inr new ↦ rw new (
              add_version-Keeps v format filename content hash existing (is_found current)
                (source, false) t
                (subst (λ o. bytes_eq p (stored_at v o filename) ≡ false)
                  (sym (requested_source-owner v t format id r)) other))
        ])

  settle-Keeps :
      (t : Tables) (r : Files × Result ImportError (Tables × ImportResult))
      → Has r.0
      → Has (settle t r).0.files
  unfolding settle
  settle-Keeps t (files, err e) h = h
  settle-Keeps t (files, ok (written, result)) h = h

  register-Keeps :
      (v : Services) (format : SourceFormat) (filename content hash : Bytes) (id : Option Bytes)
      (t : Tables)
      → bytes_eq p (stored_at v (owner v id) filename) ≡ false
      → Keeps (register v format filename content hash id t)
  unfolding register
  register-Keeps v format filename content hash id t other =
      lift-Keeps (requested_source t format id) _ (λ source r.
        lift-Keeps (find_version_by_hash t hash none) _ (λ existing e.
          bind-Keeps (reuse v content hash existing) _ (reuse-Keeps v content hash existing)
            (λ done. revise-Keeps v format filename content hash id existing t source other r)))

  import_steps-Keeps :
      (u : Unicode) (v : Services) (path : Bytes) (input id : Option Bytes) (t : Tables)
      → bytes_eq p (stored_at v (owner v id) (filename_of path)) ≡ false
      → Keeps (import_steps u v path input id t)
  unfolding import_steps
  import_steps-Keeps u v path input id t other = lift-Keeps (source_format path) _ (λ format a.
      lift-Keeps (staged_content v path input) _ (λ content b.
        lift-Keeps (check_content u format content) _ (λ c d.
          register-Keeps v format (filename_of path) content (sha256_text content) id t other)))

  -- However an import ends, what stands at any other path than that of its new version stays there
  -- as it is: a retained file of another version, of the same source or not, is never changed.
  pub import_file-Keeps :
      (u : Unicode) (v : Services) (path : Bytes) (input id : Option Bytes) (project : Project)
      → bytes_eq p (stored_at v (owner v id) (filename_of path)) ≡ false
      → project.files p ≡ some x
      → (import_file u v path input id project).0.files p ≡ some x
  unfolding import_file
  import_file-Keeps u v path input id project other h =
      settle-Keeps project.tables (import_steps u v path input id project.tables project.files)
        ((import_steps-Keeps u v path input id project.tables other).keeps project.files h)
