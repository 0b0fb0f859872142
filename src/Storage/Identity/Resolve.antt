-- ===== src/Storage/Identity/Resolve.antt =====
-- What the loops of `resolve_concept` find (libs/storage/src/concept_identity.cpp).
use wiki.Base.{
  ◌≡◌, refl, sym, ap, subst, ◌∙◌, ◌⊎◌, inl, inr, Bool, true, false, ◌&&◌, Option, none, some, List,
  [], ◌∷◌, ◌++◌, append-nil, append_assoc, Bytes, Result, ok, err, bytes_eq, if◌then◌else◌, arith,
  All, Bool-cases, >>=-eq-ok, ok-cancel, err-ne-ok, throw_if, throw_if-ok, if-true, if-false,
  none-ne-some, ◌>>=◌, false≢true,
}
use wiki.Domain.Unicode.{Unicode}
use wiki.Domain.Concept.{
  concept_identity_key, concept_filename, validate_concept_filename, normalize_concept_title,
  canonical_concept_slug,
}
use wiki.Storage.Identity.{
  IdentityRow, ConceptTarget, Search, has_value, filename, adopt, add_pending, matched, search_row,
  search_rows,
}

unfoldable pub key_is : Bytes → Result Bytes Bytes → Bool
key_is key (ok k) = bytes_eq k key
key_is key (err message) = false

module _ (u : Unicode) (key : Bytes) where
  -- The row's title has the key.
  unfoldable pub has_key : IdentityRow → Bool
  has_key row = key_is key (concept_identity_key u row.title)

  unfoldable pub matching_ids : List IdentityRow → List Bytes
  matching_ids [] = []
  matching_ids (row ∷ rows) = if has_key row then row.id ∷ matching_ids rows else matching_ids rows

  -- `row` is the only one of the rows with the key.
  abbrev pub Only : IdentityRow → List IdentityRow → Type 0
  Only row [] = ⊥
  Only row (r ∷ rows) =
      ((r ≡ row) × (has_key r ≡ true) × All (λ x. has_key x ≡ false) rows)
      ⊎ ((has_key r ≡ false) × Only row rows)

  take_row :
      (m : Result Bytes Bytes) (row : IdentityRow) (s : Search) {next : Search}
      → (m >>= λ k. if bytes_eq k key then matched u row s else ok s) ≡ ok next
      → (if key_is key m then matched u row s else ok s) ≡ ok next
  unfolding key_is
  take_row (ok k) row s h = h
  take_row (err message) row s h = absurd (err-ne-ok h)

  search_row-key :
      (row : IdentityRow) (s : Search) {next : Search}
      → search_row u key row s ≡ ok next
      → (if has_key row then matched u row s else ok s) ≡ ok next
  unfolding search_row has_key
  search_row-key row s h = take_row (concept_identity_key u row.title) row s h

  abbrev pub adopted : IdentityRow → ConceptTarget → Search
  adopted row target = record {
    target = record target {
      title = row.title;
      slug = row.slug;
      article_id = some row.id;
      vault_path = some row.vault_path;
    };
    found = true;
  }

  adopt-applied :
      (row : IdentityRow) (target : ConceptTarget) {t : ConceptTarget}
      → row.applied ≡ true
      → adopt u row target ≡ ok t
      → t ≡ (adopted row target).target
  unfolding adopt
  adopt-applied row target applied h =
      let (name, named, rest) =
        >>=-eq-ok (concept_filename u row.title) _ (if-true _ _ _ applied h) in
      let (done, valid, last) =
        >>=-eq-ok (validate_concept_filename u (filename row.vault_path)) _ rest in
      sym (ok-cancel last)

  has_value-none : (id : Option Bytes) → has_value id ≡ false → id ≡ none
  unfolding has_value
  has_value-none none h = refl
  has_value-none (some id) h = absurd (false≢true (sym h))

  and-false : (a b : Bool) → a ≡ true → (a && b) ≡ false → b ≡ false
  and-false a b h k = ground arith

  add_pending-applied :
      (row : IdentityRow) (target : ConceptTarget)
      → row.applied ≡ true
      → add_pending u row target ≡ target
  unfolding add_pending
  add_pending-applied row target applied = sym (if-true row.applied _ _ applied refl)

  matched-applied :
      (row : IdentityRow) (s : Search) {next : Search}
      → row.applied ≡ true
      → s.found ≡ has_value s.target.article_id
      → matched u row s ≡ ok next
      → (s.target.article_id ≡ none) × (next ≡ adopted row s.target)
  unfolding matched
  matched-applied row s applied found h =
      let (done, unique, rest) =
        >>=-eq-ok (throw_if (row.applied && has_value s.target.article_id) _) _ h in
      let (target, adopts, last) =
        >>=-eq-ok (if s.found then ok s.target else adopt u row s.target) _ rest in
      let free : has_value s.target.article_id ≡ false =
        and-false _ _ applied (throw_if-ok _ _ unique) in
      let same : target ≡ (adopted row s.target).target =
        adopt-applied row s.target applied (if-false s.found _ _ (found ∙ free) adopts) in
      (
        has_value-none s.target.article_id free,
        sym (ok-cancel last)
            ∙ ap (λ t. record { target = t; found = true })
                (add_pending-applied row target applied ∙ same),
      )

  -- What a search of applied rows did: nothing, or it took the only row with the key.
  abbrev pub Outcome : List IdentityRow → Search → Search → Type 0
  Outcome rows s t =
      (All (λ x. has_key x ≡ false) rows × (t ≡ s))
      ⊎ ((row : IdentityRow) × Only row rows
          × (s.target.article_id ≡ none)
          × (t ≡ adopted row s.target))

  -- After the row that was taken no other has the key.
  search-taken :
      (row : IdentityRow) (rows : List IdentityRow) (s t : Search)
      → has_key row ≡ true
      → s.target.article_id ≡ none
      → Outcome rows (adopted row s.target) t
      → Outcome (row ∷ rows) s t
  search-taken row rows s t hit free (inl (others, same)) =
      inr (row, inl (refl, hit, others), free, same)
  search-taken row rows s t hit free (inr (r, only, none_, same)) =
      absurd (none-ne-some (sym none_))

  search-left :
      (row : IdentityRow) (rows : List IdentityRow) (s t : Search)
      → has_key row ≡ false
      → Outcome rows s t
      → Outcome (row ∷ rows) s t
  search-left row rows s t miss (inl (others, same)) = inl ((miss, others), same)
  search-left row rows s t miss (inr (r, only, free, same)) = inr (r, inr (miss, only), free, same)

  pub search-applied :
      (rows : List IdentityRow) (s : Search) {t : Search}
      → All (λ row. row.applied ≡ true) rows
      → s.found ≡ has_value s.target.article_id
      → search_rows u key rows s ≡ ok t
      → Outcome rows s t
  unfolding search_rows has_value
  search-applied [] s tt found h = inl (tt, sym (ok-cancel h))
  search-applied (row ∷ rows) s {t} (a, as_) found h =
      let (next, step, rest) = >>=-eq-ok (search_row u key row s) _ h in
      elim (Bool-cases (has_key row)) [
        | inl yes_ ↦
            let (free, next_) =
              matched-applied row s a found (if-true _ _ _ yes_ (search_row-key row s step)) in
            search-taken row rows s t yes_ free (
              search-applied rows (adopted row s.target) as_ refl
                (subst (λ (n : Search). search_rows u key rows n ≡ ok t) next_ rest))
        | inr no_ ↦
            let same : s ≡ next = ok-cancel (if-false _ _ _ no_ (search_row-key row s step)) in
            search-left row rows s t no_ (
              search-applied rows s as_ found
                (subst (λ (n : Search). search_rows u key rows n ≡ ok t) (sym same) rest))
      ]

  -- A pending row never gives an article, and its identifier is kept.
  abbrev pub Pends : List Bytes → Search → Search → Type 0
  Pends ids s t =
      (t.target.article_id ≡ s.target.article_id)
      × (t.target.vault_path ≡ s.target.vault_path)
      × (t.target.pending_creates ≡ s.target.pending_creates ++ ids)
      × (s.found ≡ true → (t.target.title ≡ s.target.title) × (t.target.slug ≡ s.target.slug))

  -- `target` keeps the article and the pending rows of `old`.
  abbrev Keeps : ConceptTarget → ConceptTarget → Type 0
  Keeps old target =
      (target.article_id ≡ old.article_id)
      × (target.vault_path ≡ old.vault_path)
      × (target.pending_creates ≡ old.pending_creates)

  adopt-pending :
      (row : IdentityRow) (old : ConceptTarget) {t : ConceptTarget}
      → row.applied ≡ false
      → adopt u row old ≡ ok t
      → Keeps old t
  unfolding adopt
  adopt-pending row old pending h =
      let (title, named, rest) =
        >>=-eq-ok (normalize_concept_title u row.title) _ (if-false _ _ _ pending h) in
      let (slug, slugged, last) = >>=-eq-ok (canonical_concept_slug u row.title) _ rest in
      let same = ok-cancel last in
      (
        ap (λ (t : ConceptTarget). t.article_id) (sym same),
        ap (λ (t : ConceptTarget). t.vault_path) (sym same),
        ap (λ (t : ConceptTarget). t.pending_creates) (sym same),
      )

  chosen :
      (found : Bool) (row : IdentityRow) (old : ConceptTarget) {t : ConceptTarget}
      → row.applied ≡ false
      → (if found then ok old else adopt u row old) ≡ ok t
      → Keeps old t × (found ≡ true → (t.title ≡ old.title) × (t.slug ≡ old.slug))
  chosen true row old pending h =
      let same = sym (ok-cancel h) in
      (
        (
          ap (λ (t : ConceptTarget). t.article_id) same,
          ap (λ (t : ConceptTarget). t.vault_path) same,
          ap (λ (t : ConceptTarget). t.pending_creates) same,
        ),
        λ yes_. (ap (λ (t : ConceptTarget). t.title) same, ap (λ (t : ConceptTarget). t.slug) same),
      )
  chosen false row old pending h = (adopt-pending row old pending h, λ no_. absurd (false≢true no_))

  pended : Bytes → ConceptTarget → Search
  pended id target = record {
    target = record target { pending_creates = target.pending_creates ++ id ∷ [] };
    found = true;
  }

  Pends-pended :
      (id : Bytes) (s : Search) (target : ConceptTarget)
      → Keeps s.target target
      → (s.found ≡ true → (target.title ≡ s.target.title) × (target.slug ≡ s.target.slug))
      → Pends (id ∷ []) s (pended id target)
  unfolding pended
  Pends-pended id s target (article, path, creates) named =
      (article, path, ap (λ (ids : List Bytes). ids ++ id ∷ []) creates, named)

  matched-pending :
      (row : IdentityRow) (s : Search) {next : Search}
      → row.applied ≡ false
      → matched u row s ≡ ok next
      → Pends (row.id ∷ []) s next
  unfolding matched add_pending pended
  matched-pending row s {next} pending h =
      let (done, unique, rest) =
        >>=-eq-ok (throw_if (row.applied && has_value s.target.article_id) _) _ h in
      let (target, adopts, last) =
        >>=-eq-ok (if s.found then ok s.target else adopt u row s.target) _ rest in
      let same : pended row.id target ≡ next =
        ap (λ t. record { target = t; found = true }) (if-false row.applied _ _ pending refl)
        ∙ ok-cancel last in
      let (kept, named) = chosen s.found row s.target pending adopts in
      subst (Pends (row.id ∷ []) s) same (Pends-pended row.id s target kept named)

  matched-found :
      (row : IdentityRow) (s : Search) {next : Search}
      → matched u row s ≡ ok next
      → next.found ≡ true
  unfolding matched
  matched-found row s h =
      let (done, unique, rest) =
        >>=-eq-ok (throw_if (row.applied && has_value s.target.article_id) _) _ h in
      let (target, adopts, last) =
        >>=-eq-ok (if s.found then ok s.target else adopt u row s.target) _ rest in
      ap (λ (t : Search). t.found) (sym (ok-cancel last))

  -- The identifiers add up along a search.
  Pends-trans :
      (ids more : List Bytes) (s next t : Search)
      → next.found ≡ true
      → Pends ids s next
      → Pends more next t
      → Pends (ids ++ more) s t
  Pends-trans ids more s next t found (a, p, c, n) (a', p', c', n') = (
    a' ∙ a,
    p' ∙ p,
    c' ∙ ap (λ (l : List Bytes). l ++ more) c ∙ append_assoc s.target.pending_creates ids more,
    λ e. ((n' found).0 ∙ (n e).0, (n' found).1 ∙ (n e).1),
  )

  pub search-pending :
      (rows : List IdentityRow) (s : Search) {t : Search}
      → All (λ row. row.applied ≡ false) rows
      → search_rows u key rows s ≡ ok t
      → Pends (matching_ids rows) s t
  unfolding search_rows matching_ids
  search-pending [] s {t} pending h =
      subst (Pends [] s) (ok-cancel h)
        (refl, refl, sym (append-nil s.target.pending_creates), λ e. (refl, refl))
  search-pending (row ∷ rows) s {t} (p, ps) h =
      let (next, step, rest) = >>=-eq-ok (search_row u key row s) _ h in
      elim (Bool-cases (has_key row)) [
        | inl hit ↦
            let taken = if-true _ _ _ hit (search_row-key row s step) in
            rw hit (
              Pends-trans (row.id ∷ []) (matching_ids rows) s next t (matched-found row s taken)
                (matched-pending row s p taken) (search-pending rows next ps rest))
        | inr miss ↦
            let same : next ≡ s =
              sym (ok-cancel (if-false _ _ _ miss (search_row-key row s step))) in
            rw miss (
              search-pending rows s ps
                (subst (λ (n : Search). search_rows u key rows n ≡ ok t) same rest))
      ]

  -- Where no row has the key the search changes nothing.
  pub search-nothing :
      (rows : List IdentityRow) (s : Search) {t : Search}
      → matching_ids rows ≡ []
      → search_rows u key rows s ≡ ok t
      → t ≡ s
  unfolding search_rows matching_ids
  search-nothing [] s none_ h = sym (ok-cancel h)
  search-nothing (row ∷ rows) s {t} none_ h =
      let (next, step, rest) = >>=-eq-ok (search_row u key row s) _ h in
      elim (Bool-cases (has_key row)) [
        | inl hit ↦ absurd (cons-ne-nil (if-true _ _ _ hit none_))
        | inr miss ↦
            let same : next ≡ s =
              sym (ok-cancel (if-false _ _ _ miss (search_row-key row s step))) in
            search-nothing rows s (if-false _ _ _ miss none_)
              (subst (λ (n : Search). search_rows u key rows n ≡ ok t) same rest)
      ]
    where
      cons-ne-nil : {x : Bytes} {xs : List Bytes} → x ∷ xs ≡ [] → ⊥
      cons-ne-nil e = cc

  pub search-append :
      (rows more : List IdentityRow) (s : Search) {t : Search}
      → search_rows u key (rows ++ more) s ≡ ok t
      → (m : Search) × (search_rows u key rows s ≡ ok m) × (search_rows u key more m ≡ ok t)
  unfolding search_rows
  search-append [] more s h = (s, refl, h)
  search-append (row ∷ rows) more s h =
      let (next, step, rest) = >>=-eq-ok (search_row u key row s) _ h in
      let (m, first, second) = search-append rows more next rest in
      (m, ap (λ (r : Result Bytes Search). r >>= search_rows u key rows) step ∙ first, second)
