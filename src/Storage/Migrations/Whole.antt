-- ===== src/Storage/Migrations/Whole.antt =====
-- What MigrationRunner::apply_all leaves on the connection: whole migrations, each committed with its row
-- of the history (libs/storage/src/migration_runner.cpp).
use wiki.Base.{
  ◌≡◌, refl, ◌⊎◌, inl, inr, true, false, none, some, Bytes, Result, ok, err, Bool-cases,
}
use wiki.Storage.Migrations.{Migration}
use wiki.Storage.Migrations.Apply.{
  Engine, Connection, set_foreign_keys, roll_back_transaction, restore, attempt,
}
use wiki.Storage.Migrations.Steps.{Step, idle, Ends, whole_step, outside, inside, apply_one-Ends}

module _ {S : Type 0} (e : Engine S) where
  pub data Migrated : S → S → Type 0 where
    same : {s : S} → Migrated s s
    step : {s t r : S} (m : Migration) → Step e m s t → Migrated t r → Migrated s r

  -- No transaction is open, and foreign keys are enforced.
  pub record IsSettled (c : Connection S) : Type 0 where
    pub closed : c.transaction ≡ none
    pub enforced : c.foreign_keys ≡ true

  -- ROLLBACK failed: the transaction is still open, so that the pragma had no effect.
  pub record IsStuck (c : Connection S) : Type 0 where
    pub pending : S
    pub still_open : c.transaction ≡ some pending
    pub refused : e.can_roll_back pending ≡ false
    pub unenforced : c.foreign_keys ≡ false

  abbrev pub Left : {A : Type 0} → Connection S → Result Bytes A → Type 0
  Left c (ok a) = IsSettled c
  Left c (err message) = IsSettled c ⊎ IsStuck c

  pub record IsMigrated {A : Type 0} (s : S) (o : Connection S × Result Bytes A) : Type 0 where
    pub whole : Migrated s o.0.committed
    pub left : Left o.0 o.1

  -- A migration that was tried: its step is committed, or the store is as it was.
  pub data Tried (m : Migration) (s : S) : Connection S × Result Bytes (Unit {0}) → Type 0 where
    succeeded : {t : S} → Step e m s t → Tried m s (idle e t true, ok tt)
    failed :
        (c : Connection S) (message : Bytes)
        → c.committed ≡ s
        → IsSettled c ⊎ IsStuck c
        → Tried m s (c, err message)

  restore-Tried :
      (m : Migration) (s : S) {o : Connection S × Result Bytes (Unit {0})}
      → Ends e m s o
      → Tried m s (restore e o)
  unfolding restore set_foreign_keys roll_back_transaction
  restore-Tried m s (whole_step k) = succeeded k
  restore-Tried m s (outside message) =
      failed _ message refl (inl record { closed = refl; enforced = refl })
  restore-Tried m s (inside w message) = elim (Bool-cases (e.can_roll_back w)) [
    | inl h ↦ rw h (failed _ message refl (inl record { closed = refl; enforced = refl }))
    | inr h ↦ rw h (
        failed _ message refl
          (inr record { pending = w; still_open = refl; refused = h; unenforced = refl }))
  ]

  pub attempt-Tried : (m : Migration) (s : S) → Tried m s (attempt e m (idle e s true))
  unfolding attempt set_foreign_keys
  attempt-Tried m s = restore-Tried m s (apply_one-Ends e m s)
