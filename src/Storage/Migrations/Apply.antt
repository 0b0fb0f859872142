-- ===== src/Storage/Migrations/Apply.antt =====
-- MigrationRunner::apply_all (libs/storage/src/migration_runner.cpp) on one connection. SQLite is the
-- parameter `Engine`; what a transaction does to the pragma for foreign keys and to COMMIT and ROLLBACK is
-- as SQLite documents it. The two pragmas are taken to return, and journal_mode has no effect here.
use wiki.Base.{
  ℕ, Bool, true, false, not, Option, none, some, List, [], ◌∷◌, ◌++◌, Bytes, text, Result, ok, err,
  throw_if, ◌==◌, if◌then◌else◌, any,
}
use wiki.Storage.Migrations.{Entry, Migration, read_file, discover}

-- What SQLite does to a store. The first argument of `execute` is whether foreign keys are enforced; a
-- script that fails may have changed the store. `can_roll_back` is whether ROLLBACK returns.
pub record Engine (S : Type 0) : Type 0 where
  pub begin_immediate : S → Result Bytes (Unit {0})
  pub execute : Bool → Bytes → S → S × Result Bytes (Unit {0})
  pub foreign_key_check : S → ℕ
  pub has_migration_table : S → Bool
  pub versions : S → List ℕ
  pub insert_version : ℕ → S → Result Bytes S
  pub commit : S → Result Bytes (Unit {0})
  pub can_roll_back : S → Bool

-- The connection: what was committed, what an open transaction has made of it, and whether foreign keys
-- are enforced, which is a setting of the connection.
pub record Connection (S : Type 0) : Type 0 where
  pub committed : S
  pub transaction : Option S
  pub foreign_keys : Bool

abbrev pub Act : Type 0 → Type 0 → Type 0
Act S A = Connection S → Connection S × Result Bytes A

abbrev pub continue :
    {S A B : Type 0} → Connection S × Result Bytes A → (A → Act S B) → Connection S × Result Bytes B
continue (c, err message) next = (c, err message)
continue (c, ok a) next = next a c

infixl 5 ◌>>=◌ ◌>>◌
abbrev ◌>>=◌ : {S A B : Type 0} → Act S A → (A → Act S B) → Act S B
◌>>=◌ m next c = continue (m c) next

abbrev ◌>>◌ : {S A B : Type 0} → Act S A → Act S B → Act S B
m >> k = m >>= λ _. k

abbrev lift : {S A : Type 0} → Result Bytes A → Act S A
lift r c = (c, r)

module _ {S : Type 0} (e : Engine S) where
  -- The store that a statement sees, and what a change of it changes
  abbrev pub visible : Connection S → S
  visible c = elim c.transaction [ none ↦ c.committed | some s ↦ s ]

  abbrev pub change : S → Connection S → Connection S
  change t c = elim c.transaction [
    | none ↦ record c { committed = t }
    | some s ↦ record c { transaction = some t }
  ]

  -- `PRAGMA foreign_keys`, which does nothing inside a transaction
  unfoldable pub set_foreign_keys : Bool → Connection S → Connection S
  set_foreign_keys on c = elim c.transaction [ none ↦ record c { foreign_keys = on } | some s ↦ c ]

  unfoldable pub begin_transaction : Act S (Unit {0})
  begin_transaction c = elim c.transaction [
    | some s ↦ (c, err (text "cannot start a transaction within a transaction"))
    | none ↦ elim (e.begin_immediate c.committed) [
      | err message ↦ (c, err message)
      | ok done ↦ (record c { transaction = some c.committed }, ok tt)
    ]
  ]

  unfoldable pub run_script : Bytes → Act S (Unit {0})
  run_script script c =
      let ran = e.execute c.foreign_keys script (visible c) in (change ran.0 c, ran.1)

  unfoldable pub check_references : Act S (Unit {0})
  check_references c = (
    c,
    throw_if (not (e.foreign_key_check (visible c) == 0))
        (text "migration would break foreign-key references"),
  )

  unfoldable pub record_migration : ℕ → Act S (Unit {0})
  record_migration version c = elim (e.insert_version version (visible c)) [
    | err message ↦ (c, err message)
    | ok t ↦ (change t c, ok tt)
  ]

  unfoldable pub commit_transaction : Act S (Unit {0})
  commit_transaction c = elim c.transaction [
    | none ↦ (c, err (text "cannot commit - no transaction is active"))
    | some s ↦ elim (e.commit s) [
      | err message ↦ (c, err message)
      | ok done ↦ (record c { committed = s; transaction = none }, ok tt)
    ]
  ]

  -- ROLLBACK, of which an error is swallowed
  unfoldable pub roll_back_transaction : Connection S → Connection S
  roll_back_transaction c = elim c.transaction [
    | none ↦ c
    | some s ↦ if e.can_roll_back s then record c { transaction = none } else c
  ]

  -- The statements from BEGIN to COMMIT
  unfoldable pub apply_one : Migration → Act S (Unit {0})
  apply_one m = do
    begin_transaction
    script ← lift (read_file m.content)
    run_script script
    check_references
    record_migration m.version
    commit_transaction

  -- What follows COMMIT, and the `catch`
  unfoldable pub restore :
      Connection S × Result Bytes (Unit {0}) → Connection S × Result Bytes (Unit {0})
  restore (c, ok done) = (set_foreign_keys true c, ok tt)
  restore (c, err message) = (set_foreign_keys true (roll_back_transaction c), err message)

  unfoldable pub attempt : Migration → Act S (Unit {0})
  attempt m c = restore (apply_one m (set_foreign_keys false c))

  unfoldable pub applied_versions : S → List ℕ
  applied_versions s = if e.has_migration_table s then e.versions s else []

  unfoldable pub apply_loop : List Migration → List ℕ → List ℕ → Act S (List ℕ)
  apply_loop [] applied result c = (c, ok result)
  apply_loop (m ∷ migrations) applied result c = elim (any (λ v. v == m.version) applied) [
    | true ↦ apply_loop migrations applied result c
    | false ↦
        continue (attempt m c)
          (λ done. apply_loop migrations (m.version ∷ applied) (result ++ m.version ∷ []))
  ]

  unfoldable pub apply_discovered : Result Bytes (List Migration) → Act S (List ℕ)
  apply_discovered (err message) c = (c, err message)
  apply_discovered (ok migrations) c = apply_loop migrations (applied_versions (visible c)) [] c

  unfoldable pub apply_all : Option (List Entry) → Act S (List ℕ)
  apply_all directory c = apply_discovered (discover directory) (set_foreign_keys true c)
