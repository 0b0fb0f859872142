-- ===== src/Storage/Migrations/Steps.antt =====
-- How the statements of one migration end, from BEGIN to COMMIT (apply_all of
-- libs/storage/src/migration_runner.cpp).
use wiki.Base.{
  ℕ, ◌≡◌, refl, sym, subst, inl, inr, Bool, true, false, Option, none, some, Bytes, Result, ok, err,
  Result-cases, ◌==◌, Bool-cases, text,
}
use wiki.Storage.Migrations.{Migration, read_file}
use wiki.Storage.Migrations.Apply.{
  Engine, Connection, continue, begin_transaction, run_script, check_references, record_migration,
  commit_transaction, apply_one,
}

module _ {S : Type 0} (e : Engine S) where
  -- One migration, from the store that was committed before it to the one that it commits: its script
  -- ran without enforcement, no reference is broken, and its version was added to the history.
  pub record Step (m : Migration) (s t : S) : Type 0 where
    pub script : Bytes
    pub content : m.content ≡ some script
    pub changed : S
    pub executed : e.execute false script s ≡ (changed, ok tt)
    pub consistent : (e.foreign_key_check changed == 0) ≡ true
    pub added : e.insert_version m.version changed ≡ ok t
    pub committed : e.commit t ≡ ok tt

  abbrev pub idle : S → Bool → Connection S
  idle s on = record { committed = s; transaction = none; foreign_keys = on }

  abbrev pub within : S → S → Connection S
  within s w = record { committed = s; transaction = some w; foreign_keys = false }

  -- How the statements of a migration end: with a whole step, or with the old store committed and an
  -- error, in a transaction or out of it, without enforcement.
  pub data Ends (m : Migration) (s : S) : Connection S × Result Bytes (Unit {0}) → Type 0 where
    whole_step : {t : S} → Step m s t → Ends m s (idle t false, ok tt)
    outside : (message : Bytes) → Ends m s (idle s false, err message)
    inside : (w : S) (message : Bytes) → Ends m s (within s w, err message)

  commit_transaction-Ends :
      (m : Migration) (s t : S)
      → (e.commit t ≡ ok tt → Step m s t)
      → Ends m s (commit_transaction e (within s t))
  unfolding commit_transaction
  commit_transaction-Ends m s t k = elim (Result-cases (e.commit t)) [
    | inl (message, h) ↦ rw h (inside t message)
    | inr (done, h) ↦ rw h (whole_step (k h))
  ]

  -- What is left of `apply_one` after each of its statements
  abbrev after_check : Migration → Connection S → Connection S × Result Bytes (Unit {0})
  after_check m c = continue (record_migration e m.version c) (λ done. commit_transaction e)

  abbrev after_run : Migration → Connection S → Connection S × Result Bytes (Unit {0})
  after_run m c = continue (check_references e c) (λ done. after_check m)

  abbrev after_begin : Migration → Connection S → Connection S × Result Bytes (Unit {0})
  after_begin m c =
      continue (c, read_file m.content)
        (λ script d. continue (run_script e script d) (λ done. after_run m))

  record_migration-fails :
      (s w : S) (version : ℕ) (message : Bytes)
      → e.insert_version version w ≡ err message
      → record_migration e version (within s w) ≡ (within s w, err message)
  unfolding record_migration
  record_migration-fails s w version message h = rw (h, record_migration) refl

  record_migration-adds :
      (s w t : S) (version : ℕ)
      → e.insert_version version w ≡ ok t
      → record_migration e version (within s w) ≡ (within s t, ok tt)
  unfolding record_migration
  record_migration-adds s w t version h = rw (h, record_migration) refl

  added-Ends :
      (m : Migration) (s w : S)
      → ((t : S) → e.insert_version m.version w ≡ ok t → e.commit t ≡ ok tt → Step m s t)
      → Ends m s (after_check m (within s w))
  added-Ends m s w k = elim (Result-cases (e.insert_version m.version w)) [
    | inl (message, h) ↦
        subst (λ x. Ends m s (continue x (λ done. commit_transaction e)))
          (sym (record_migration-fails s w m.version message h)) (inside w message)
    | inr (t, h) ↦
        subst (λ x. Ends m s (continue x (λ done. commit_transaction e)))
          (sym (record_migration-adds s w t m.version h)) (commit_transaction-Ends m s t (k t h))
  ]

  checked-Ends :
      (m : Migration) (s w : S)
      → ((e.foreign_key_check w == 0) ≡ true
          → (t : S) → e.insert_version m.version w ≡ ok t
          → e.commit t ≡ ok tt
          → Step m s t)
      → Ends m s (after_run m (within s w))
  unfolding check_references
  checked-Ends m s w k = elim (Bool-cases (e.foreign_key_check w == 0)) [
    | inl h ↦ rw (h, continue) (added-Ends m s w (k h))
    | inr h ↦ rw (h, continue) (inside w (text "migration would break foreign-key references"))
  ]

  ran-Ends :
      (m : Migration) (s : S) (script : Bytes)
      → m.content ≡ some script
      → (ran : S × Result Bytes (Unit {0})) → e.execute false script s ≡ ran
      → Ends m s (continue (within s ran.0, ran.1) (λ done. after_run m))
  ran-Ends m s script c (w, err message) h = inside w message
  ran-Ends m s script c (w, ok done) h = checked-Ends m s w (λ consistent t added committed.
      record {
        script = script;
        content = c;
        changed = w;
        executed = h;
        consistent = consistent;
        added = added;
        committed = committed;
      })

  begun-Ends :
      (m : Migration) (s : S) (content : Option Bytes)
      → m.content ≡ content
      → Ends m s (
          continue
            (within s s, read_file content)
            (λ script d. continue (run_script e script d) (λ done. after_run m)))
  unfolding read_file run_script
  begun-Ends m s none c = inside s (text "could not read migration")
  begun-Ends m s (some script) c = ran-Ends m s script c (e.execute false script s) refl

  begin_transaction-fails :
      (s : S) (message : Bytes)
      → e.begin_immediate s ≡ err message
      → begin_transaction e (idle s false) ≡ (idle s false, err message)
  unfolding begin_transaction
  begin_transaction-fails s message h = rw h refl

  begin_transaction-opens :
      (s : S)
      → e.begin_immediate s ≡ ok tt
      → begin_transaction e (idle s false) ≡ (within s s, ok tt)
  unfolding begin_transaction
  begin_transaction-opens s h = rw h refl

  pub apply_one-Ends : (m : Migration) (s : S) → Ends m s (apply_one e m (idle s false))
  unfolding apply_one
  apply_one-Ends m s = elim (Result-cases (e.begin_immediate s)) [
    | inl (message, h) ↦
        subst (λ x. Ends m s (continue x (λ done. after_begin m)))
          (sym (begin_transaction-fails s message h)) (outside message)
    | inr (done, h) ↦
        subst (λ x. Ends m s (continue x (λ done. after_begin m)))
          (sym (begin_transaction-opens s h)) (begun-Ends m s m.content refl)
  ]
