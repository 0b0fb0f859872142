-- ===== src/Storage/Migrations/Order.antt =====
-- The order in which `discover` returns the migrations.
use wiki.Base.{
  ℕ, ◌<◌, ◌≡◌, ◌≢◌, refl, sym, subst, inl, inr, Bool, true, false, false≢true, Option, none, some,
  List, [], ◌∷◌, ◌++◌, Bytes, ok, ok-cancel, err-ne-ok, >>=-eq-ok, ◌==◌, leb, any, All, All-map,
  All-append, Bool-cases, Option-cases, throw_if, arith,
}
use wiki.Storage.Migrations.{
  Entry, Migration, matched, stoi, discover_loop, insert_sorted, sort, discover,
}

-- No two migrations have one version.
abbrev pub Distinct : List Migration → Type 0
Distinct [] = Unit
Distinct (m ∷ ms) = All (λ (n : Migration). m.version ≢ n.version) ms × Distinct ms

-- The versions grow.
abbrev pub Ascending : List Migration → Type 0
Ascending [] = Unit
Ascending (m ∷ ms) = All (λ (n : Migration). m.version < n.version) ms × Ascending ms

All-insert_sorted :
    (P : Migration → Type 0) (m : Migration) (ms : List Migration)
    → P m
    → All P ms
    → All P (insert_sorted m ms)
unfolding insert_sorted
All-insert_sorted P m [] p h = (p, tt)
All-insert_sorted P m (n ∷ ms) p (q, h) = elim (Bool-cases (leb m.version n.version)) [
  | inl e ↦ rw (e, insert_sorted) (p, (q, h))
  | inr e ↦ rw (e, insert_sorted) (q, All-insert_sorted P m ms p h)
]

All-sort : (P : Migration → Type 0) (ms : List Migration) → All P ms → All P (sort ms)
unfolding sort
All-sort P [] h = tt
All-sort P (m ∷ ms) (p, h) = All-insert_sorted P m (sort ms) p (All-sort P ms h)

insert_sorted-Ascending :
    (m : Migration) (ms : List Migration)
    → All (λ (n : Migration). m.version ≢ n.version) ms
    → Ascending ms
    → Ascending (insert_sorted m ms)
unfolding insert_sorted
insert_sorted-Ascending m [] d h = (tt, tt)
insert_sorted-Ascending m (n ∷ ms) (d, ds) (a, h) = elim (Bool-cases (leb m.version n.version)) [
  | inl e ↦
      rw (e, insert_sorted)
        (let less : m.version < n.version = ground arith in
          ((less, All-map _ _ (λ (x : Migration) g. omega arith) ms a), (a, h)))
  | inr e ↦
      rw (e, insert_sorted)
        (
          All-insert_sorted (λ (x : Migration). n.version < x.version) m ms (ground arith) a,
          insert_sorted-Ascending m ms ds h,
        )
]

sort-Ascending : (ms : List Migration) → Distinct ms → Ascending (sort ms)
unfolding sort
sort-Ascending [] h = tt
sort-Ascending (m ∷ ms) (d, h) =
    insert_sorted-Ascending m (sort ms) (All-sort (λ (n : Migration). m.version ≢ n.version) ms d)
      (sort-Ascending ms h)

-- What the loop has seen covers what it has collected.
abbrev Covers : List ℕ → List Migration → Type 0
Covers seen ms =
    (n : ℕ) → any (λ v. v == n) seen ≡ false → All (λ (m : Migration). m.version ≢ n) ms

Distinct-snoc :
    (ms : List Migration) (m : Migration)
    → Distinct ms
    → All (λ (n : Migration). n.version ≢ m.version) ms
    → Distinct (ms ++ m ∷ [])
Distinct-snoc [] m d h = (tt, tt)
Distinct-snoc (n ∷ ms) m (a, d) (b, h) = (
  All-append (λ (x : Migration). n.version ≢ x.version) ms (m ∷ []) a (b, tt),
  Distinct-snoc ms m d h,
)

Covers-snoc :
    (seen : List ℕ) (ms : List Migration) (m : Migration)
    → Covers seen ms
    → Covers (m.version ∷ seen) (ms ++ m ∷ [])
Covers-snoc seen ms m c n h = elim (Bool-cases (m.version == n)) [
  | inl e ↦ absurd (false≢true (sym (rw e at h)))
  | inr e ↦
      All-append (λ (x : Migration). x.version ≢ n) ms (m ∷ []) (c n (rw e at h)) (ground arith, tt)
]

discover_loop-Distinct :
    (entries : List Entry) (seen : List ℕ) (ms result : List Migration)
    → Covers seen ms
    → Distinct ms
    → discover_loop entries seen ms ≡ ok result
    → Distinct result
unfolding discover_loop
discover_loop-Distinct [] seen ms result c d h = subst Distinct (ok-cancel h) d
discover_loop-Distinct (entry ∷ entries) seen ms result c d h =
    elim (Option-cases (matched entry)) [
      | inl e ↦ discover_loop-Distinct entries seen ms result c d (rw (e, discover_loop) at h)
      | inr (value, e) ↦
          let (version, f, h1) = >>=-eq-ok (stoi value) _ (rw (e, discover_loop) at h) in
          let (t, g, h2) = >>=-eq-ok (throw_if (any (λ v. v == version) seen) _) _ h1 in
          let m : Migration = record { version = version; content = entry.content } in
          discover_loop-Distinct entries (version ∷ seen) (ms ++ m ∷ []) result
            (Covers-snoc seen ms m c) (Distinct-snoc ms m d (c version (throw_if-ok _ _ g))) h2
    ]
  where
    throw_if-ok :
        (b : Bool) (message : Bytes) {t : Unit {0}} → throw_if b message ≡ ok t → b ≡ false
    throw_if-ok true message h = absurd (err-ne-ok h)
    throw_if-ok false message h = refl

-- `discover` returns the migrations by growing versions, no version twice.
pub discover-Ascending :
    (directory : Option (List Entry)) (migrations : List Migration)
    → discover directory ≡ ok migrations
    → Ascending migrations
unfolding discover
discover-Ascending none migrations h = absurd (err-ne-ok h)
discover-Ascending (some entries) migrations h =
    let (found, e, k) = >>=-eq-ok (discover_loop entries [] []) _ h in
    subst Ascending (ok-cancel k)
      (sort-Ascending found (discover_loop-Distinct entries [] [] found (λ n g. tt) tt e))
