-- ===== src/Examples/Engine.antt =====
-- A store with nothing but the history, and a directory of two migrations.
use wiki.Base.{
  ℕ, ◌≡◌, ap, All, subst, Bool, true, false, false≢true, Option, some, List, [], ◌∷◌, Bytes, codes,
  text, Result, ok, err, ok-cancel, err-ne-ok, ◌==◌, any, if◌then◌else◌, arith,
}
use wiki.Storage.Migrations.{Entry, Migration}
use wiki.Storage.Migrations.Apply.{Engine, applied_versions}
use wiki.Storage.Migrations.History.{IsLasting, KeepsHistory, Recorded}

pub record Store : Type 0 where
  pub table : Bool
  pub rows : List ℕ

abbrev pub insert_row : ℕ → Store → Result Bytes Store
insert_row v s =
    if s.table
    then ok (record s { rows = v ∷ s.rows })
    else err (text "no such table: schema_migrations")

abbrev pub engine : Engine Store
engine = record {
  begin_immediate = λ s. ok tt;
  execute = λ enforced script s. (record s { table = true }, ok tt);
  foreign_key_check = λ s. 0;
  has_migration_table = λ s. s.table;
  versions = λ s. s.rows;
  insert_version = insert_row;
  commit = λ s. ok tt;
  can_roll_back = λ s. true;
}

has_row : ℕ → Bool → List ℕ → Bool
has_row w table rows = any (λ v. v == w) (if table then rows else [])

insert_row-adds :
    (v : ℕ) (table : Bool) (rows : List ℕ) (t : Store)
    → insert_row v (record { table = table; rows = rows }) ≡ ok t
    → has_row v t.table t.rows ≡ true
unfolding has_row
insert_row-adds v true rows t h =
    subst (λ (x : Store). any (λ u. u == v) (if x.table then x.rows else []) ≡ true) (ok-cancel h)
      (ground arith)
insert_row-adds v false rows t h = absurd (err-ne-ok h)

insert_row-keeps :
    (v w : ℕ) (table : Bool) (rows : List ℕ) (t : Store)
    → insert_row v (record { table = table; rows = rows }) ≡ ok t
    → has_row w table rows ≡ true
    → has_row w t.table t.rows ≡ true
unfolding has_row
insert_row-keeps v w true rows t h g =
    subst (λ (x : Store). any (λ u. u == w) (if x.table then x.rows else []) ≡ true) (ok-cancel h)
      (ground (arith, g))
insert_row-keeps v w false rows t h g = absurd (err-ne-ok h)

execute-keeps_row :
    (w : ℕ) (table : Bool) (rows : List ℕ)
    → has_row w table rows ≡ true
    → has_row w true rows ≡ true
unfolding has_row
execute-keeps_row w true rows g = g
execute-keeps_row w false rows g = absurd (false≢true g)

pub engine-IsLasting : IsLasting engine
unfolding applied_versions has_row
engine-IsLasting = record {
  insert-adds = λ v s t h. insert_row-adds v s.table s.rows t h;
  insert-keeps = λ v w s t h g. insert_row-keeps v w s.table s.rows t h g;
}

abbrev pub empty_store : Store
empty_store = record { table = false; rows = [] }

abbrev pub directory : Option (List Entry)
directory = some (
    record { name = codes "002_links.sql"; is_regular = true; content = some (codes "b") }
    ∷ record { name = codes "README.md"; is_regular = true; content = some [] }
    ∷ record { name = codes "001_first.sql"; is_regular = true; content = some (codes "a") }
    ∷ [])

abbrev pub first_migration : Migration
first_migration = record { version = 1; content = some (codes "a") }

abbrev pub second_migration : Migration
second_migration = record { version = 2; content = some (codes "b") }

keeps_history : (m : Migration) → KeepsHistory engine m
unfolding applied_versions has_row
keeps_history m = record {
  script-keeps = λ script w s t c h g.
      subst (λ (x : Store). Recorded engine x w)
        (ap (λ (r : Store × Result Bytes (Unit {0})). r.0) h)
        (execute-keeps_row w s.table s.rows g);
}

pub migrations-KeepHistory : All (KeepsHistory engine) (first_migration ∷ second_migration ∷ [])
migrations-KeepHistory = (keeps_history first_migration, (keeps_history second_migration, tt))
