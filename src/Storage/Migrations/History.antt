-- ===== src/Storage/Migrations/History.antt =====
-- What MigrationRunner::apply_all leaves in the history (libs/storage/src/migration_runner.cpp).
use wiki.Base.{
  ℕ, ◌≡◌, refl, sym, subst, inl, inr, Bool, true, false, Option, some, List, [], ◌∷◌, ◌++◌, Bytes,
  Result, ok, err-ne-ok, ◌==◌, ==_iff, any, All, Bool-cases,
}
use wiki.Storage.Migrations.{Entry, Migration, discover}
use wiki.Storage.Migrations.Apply.{
  Engine, Connection, continue, set_foreign_keys, attempt, applied_versions, apply_loop,
  apply_discovered, apply_all,
}
use wiki.Storage.Migrations.Steps.{Step, idle}
use wiki.Storage.Migrations.Whole.{Tried, succeeded, failed, attempt-Tried}

abbrev Has : List ℕ → ℕ → Type 0
Has vs v = any (λ w. w == v) vs ≡ true

module _ {S : Type 0} (e : Engine S) where
  -- The history of the store holds the version.
  abbrev pub Recorded : S → ℕ → Type 0
  Recorded s v = Has (applied_versions e s) v

  -- An inserted row is there to be read, and an insertion takes no row of the history away.
  pub record IsLasting : Type 0 where
    pub insert-adds : (v : ℕ) (s t : S) → e.insert_version v s ≡ ok t → Recorded t v
    pub insert-keeps :
        (v w : ℕ) (s t : S) → e.insert_version v s ≡ ok t → Recorded s w → Recorded t w

  -- The migration's own script, where it returns, takes no row of the history away.
  pub record KeepsHistory (m : Migration) : Type 0 where
    pub script-keeps :
        (script : Bytes) (w : ℕ) (s t : S)
        → m.content ≡ some script
        → e.execute false script s ≡ (t, ok tt)
        → Recorded s w
        → Recorded t w

  -- The committed store holds the versions of the migrations, and those that `s` held; the connection is
  -- as a new one.
  pub record Completes (migrations : List Migration) (s : S) (c : Connection S) : Type 0 where
    pub settled : c ≡ idle e c.committed true
    pub every : All (λ (m : Migration). Recorded c.committed m.version) migrations
    pub older : (w : ℕ) → Recorded s w → Recorded c.committed w

  Step-Recorded :
      (m : Migration) (s t : S)
      → IsLasting
      → KeepsHistory m
      → Step e m s t
      → Recorded t m.version × ((w : ℕ) → Recorded s w → Recorded t w)
  Step-Recorded m s t laws keeps k = (
    laws.insert-adds m.version k.changed t k.added,
    λ w g.
        laws.insert-keeps m.version w k.changed t k.added
          (keeps.script-keeps k.script w s k.changed k.content k.executed g),
  )

  after_attempt-Completes :
      (m : Migration) (migrations : List Migration) (s : S) (vs : List ℕ)
      (next : Connection S → Connection S × Result Bytes (List ℕ))
      {o : Connection S × Result Bytes (Unit {0})}
      → IsLasting
      → KeepsHistory m
      → Tried e m s o
      → ((t : S)
          → Recorded t m.version
          → ((w : ℕ) → Recorded s w → Recorded t w)
          → (next (idle e t true)).1 ≡ ok vs
          → Completes migrations t (next (idle e t true)).0)
      → (continue o (λ done. next)).1 ≡ ok vs
      → Completes (m ∷ migrations) s (continue o (λ done. next)).0
  after_attempt-Completes m migrations s vs next laws keeps (succeeded {t} k) rest h =
      let (new, older) = Step-Recorded m s t laws keeps k in
      let r = rest t new older h in
      record {
        settled = r.settled;
        every = (r.older m.version new, r.every);
        older = λ w g. r.older w (older w g);
      }
  after_attempt-Completes m migrations s vs next laws keeps (failed c message u l) rest h =
      absurd (err-ne-ok h)

  apply_loop-skip :
      (m : Migration) (migrations : List Migration) (applied result : List ℕ) (c : Connection S)
      → Has applied m.version
      → apply_loop e (m ∷ migrations) applied result c ≡ apply_loop e migrations applied result c
  unfolding apply_loop
  apply_loop-skip m migrations applied result c a = rw (a, apply_loop) refl

  apply_loop-next :
      (m : Migration) (migrations : List Migration) (applied result : List ℕ) (c : Connection S)
      → any (λ w. w == m.version) applied ≡ false
      → apply_loop e (m ∷ migrations) applied result c
        ≡ continue
            (attempt e m c)
            (λ done. apply_loop e migrations (m.version ∷ applied) (result ++ m.version ∷ []))
  unfolding apply_loop
  apply_loop-next m migrations applied result c a = rw (a, apply_loop) refl

  abbrev Finishes : List Migration → S → List ℕ → Connection S × Result Bytes (List ℕ) → Type 0
  Finishes migrations s vs o = o.1 ≡ ok vs → Completes migrations s o.0

  apply_loop-Completes :
      (migrations : List Migration) (applied result vs : List ℕ) (s : S)
      → IsLasting
      → All KeepsHistory migrations
      → ((w : ℕ) → Has applied w → Recorded s w)
      → Finishes migrations s vs (apply_loop e migrations applied result (idle e s true))
  unfolding apply_loop
  apply_loop-Completes [] applied result vs s laws keeps h =
      λ r. record { settled = refl; every = tt; older = λ w g. g }
  apply_loop-Completes (m ∷ migrations) applied result vs s laws (keep, keeps) h =
      elim (Bool-cases (any (λ v. v == m.version) applied)) [
        | inl a ↦
            subst (Finishes (m ∷ migrations) s vs)
              (sym (apply_loop-skip m migrations applied result (idle e s true) a))
              (λ r.
                let o = apply_loop-Completes migrations applied result vs s laws keeps h r in
                record {
                  settled = o.settled;
                  every = (o.older m.version (h m.version a), o.every);
                  older = o.older;
                })
        | inr a ↦
            subst (Finishes (m ∷ migrations) s vs)
              (sym (apply_loop-next m migrations applied result (idle e s true) a))
              (after_attempt-Completes m migrations s vs
                (apply_loop e migrations (m.version ∷ applied) (result ++ m.version ∷ [])) laws keep
                (attempt-Tried e m s)
                (λ t new older.
                  apply_loop-Completes migrations (m.version ∷ applied) (result ++ m.version ∷ [])
                    vs t laws keeps
                    (λ w g. elim (Bool-cases (m.version == w)) [
                      | inl q ↦ subst (Recorded t) ((==_iff m.version w).0 q) new
                      | inr q ↦ older w (h w (rw q at g))
                    ])))
      ]

  -- A history that holds every version leaves nothing to do.
  apply_loop-done :
      (migrations : List Migration) (applied result : List ℕ) (c : Connection S)
      → All (λ (m : Migration). Has applied m.version) migrations
      → apply_loop e migrations applied result c ≡ (c, ok result)
  unfolding apply_loop
  apply_loop-done [] applied result c h = refl
  apply_loop-done (m ∷ migrations) applied result c (a, h) =
      rw (a, apply_loop) (apply_loop-done migrations applied result c h)

  apply_all-done :
      (directory : Option (List Entry)) (migrations : List Migration) (s : S)
      → discover directory ≡ ok migrations
      → All (λ (m : Migration). Recorded s m.version) migrations
      → apply_all e directory (idle e s true) ≡ (idle e s true, ok [])
  unfolding apply_all apply_discovered set_foreign_keys
  apply_all-done directory migrations s d all =
      rw d (apply_loop-done migrations (applied_versions e s) [] (idle e s true) all)

  first_run-Completes :
      (directory : Option (List Entry)) (migrations : List Migration) (vs : List ℕ) (s : S)
      (on : Bool)
      → IsLasting
      → All KeepsHistory migrations
      → discover directory ≡ ok migrations
      → (apply_all e directory (idle e s on)).1 ≡ ok vs
      → Completes migrations s (apply_all e directory (idle e s on)).0
  unfolding apply_all apply_discovered set_foreign_keys
  first_run-Completes directory migrations vs s on laws keeps d h = rw d (
      apply_loop-Completes migrations (applied_versions e s) [] vs s laws keeps (λ w g. g)
        (rw d at h))

  -- On a connection without an open transaction, where an inserted row of the history can be read, and
  -- neither an insertion nor the script of a discovered migration removes a row of the history: if
  -- `discover` returns migrations and `apply_all` throws nothing, then the committed history holds the
  -- version of each, and those it held before; and a second run on that connection applies nothing and
  -- changes nothing.
  pub apply_all-Recorded :
      (directory : Option (List Entry)) (migrations : List Migration) (vs : List ℕ) (s : S)
      (on : Bool)
      → IsLasting
      → All KeepsHistory migrations
      → discover directory ≡ ok migrations
      → (apply_all e directory (idle e s on)).1 ≡ ok vs
      → Completes migrations s (apply_all e directory (idle e s on)).0
        × (apply_all e directory (apply_all e directory (idle e s on)).0
            ≡ ((apply_all e directory (idle e s on)).0, ok []))
  apply_all-Recorded directory migrations vs s on laws keeps d h =
      let c = (apply_all e directory (idle e s on)).0 in
      let k = first_run-Completes directory migrations vs s on laws keeps d h in
      (
        k,
        subst (λ (x : Connection S). apply_all e directory x ≡ (x, ok [])) (sym k.settled)
            (apply_all-done directory migrations c.committed d k.every),
      )
