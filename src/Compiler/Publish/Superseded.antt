-- ===== src/Compiler/Publish/Superseded.antt =====
-- Which proposals a new one supersedes (libs/compiler/src/compiler.cpp, the updates of `proposals`).
use wiki.Base.{
  ◌≡◌, refl, sym, ap, subst, ◌∙◌, ◌⊎◌, inl, inr, Bool, true, false, ◌&&◌, ◌||◌, Option, none, some,
  List, [], ◌∷◌, Bytes, text, bytes_eq, bytes_eq_lem, bytes_eq_refl, opt_eq, opt_eq_lem,
  opt_eq_refl, map, Any, Pairwise, Pairwise-map, Bool-cases, false≢true, arith,
}
use wiki.Compiler.Store.{
  ProposalRecord, is_open, supersede, for_article, has_id, supersede_all, supersede_open,
}

-- A proposal that waits for a review, or for its application
abbrev pub IsOpen : ProposalRecord → Type 0
IsOpen p = (p.status ≡ text "pending") ⊎ (p.status ≡ text "approved")

-- A proposal for the article, or one of those that would create the concept
abbrev pub Competes : Option Bytes → List Bytes → ProposalRecord → Type 0
Competes article_id creates p =
    ((id : Bytes) × (article_id ≡ some id) × (p.article_id ≡ some id))
    ⊎ Any (λ id. p.proposal_id ≡ id) creates

-- A row before and after: an open one that competes differs in its status alone, any other not at all.
pub record IsSuperseded (article_id : Option Bytes) (creates : List Bytes)
    (before after : ProposalRecord) : Type 0 where
  pub closed :
      IsOpen before
      → Competes article_id creates before
      → after ≡ record before { status = text "superseded" }
  pub kept : (IsOpen before × Competes article_id creates before → ⊥) → after ≡ before

is_open-IsOpen : (p : ProposalRecord) → is_open p ≡ true → IsOpen p
unfolding is_open
is_open-IsOpen p h = elim (Bool-cases (bytes_eq p.status (text "pending"))) [
  | inl e ↦ inl (bytes_eq_lem p.status (text "pending") e)
  | inr e ↦ inr (
      bytes_eq_lem p.status (text "approved")
        (second (bytes_eq p.status (text "pending")) (bytes_eq p.status (text "approved")) e h))
]
  where
    second : (a b : Bool) → a ≡ false → (a || b) ≡ true → b ≡ true
    second a b e h = ground arith

same_bytes : (a b : Bytes) → a ≡ b → bytes_eq a b ≡ true
same_bytes a b e = subst (λ x. bytes_eq a x ≡ true) e (bytes_eq_refl a)

IsOpen-is_open : (p : ProposalRecord) → IsOpen p → is_open p ≡ true
unfolding is_open
IsOpen-is_open p (inl e) = rw (same_bytes p.status (text "pending") e) refl
IsOpen-is_open p (inr e) =
    after_or (bytes_eq p.status (text "pending")) _ (same_bytes p.status (text "approved") e)
  where
    after_or : (a b : Bool) → b ≡ true → (a || b) ≡ true
    after_or a b e = ground arith

-- The filters of all the updates together
chosen : List Bytes → (ProposalRecord → Bool) → ProposalRecord → Bool
chosen [] c p = c p
chosen (id ∷ ids) c p = chosen ids (λ q. c q || has_id id q) p

or-cases : (a b : Bool) → (a || b) ≡ true → (a ≡ true) ⊎ (b ≡ true)
or-cases true b h = inl refl
or-cases false b h = inr h

or-left : (a b : Bool) → a ≡ true → (a || b) ≡ true
or-left a b h = ground arith

or-right : (a b : Bool) → b ≡ true → (a || b) ≡ true
or-right a b h = ground arith

chosen-cases :
    (ids : List Bytes) (c : ProposalRecord → Bool) (p : ProposalRecord)
    → chosen ids c p ≡ true
    → (c p ≡ true) ⊎ Any (λ id. p.proposal_id ≡ id) ids
unfolding chosen has_id
chosen-cases [] c p h = inl h
chosen-cases (id ∷ ids) c p h = elim (chosen-cases ids (λ q. c q || has_id id q) p h) [
  | inr later ↦ inr (inr later)
  | inl first ↦ elim (or-cases (c p) (has_id id p) first) [
    | inl e ↦ inl e
    | inr e ↦ inr (inl (bytes_eq_lem p.proposal_id id e))
  ]
]

chosen-first :
    (ids : List Bytes) (c : ProposalRecord → Bool) (p : ProposalRecord)
    → c p ≡ true
    → chosen ids c p ≡ true
unfolding chosen
chosen-first [] c p h = h
chosen-first (id ∷ ids) c p h =
    chosen-first ids (λ q. c q || has_id id q) p (or-left (c p) (has_id id p) h)

chosen-Any :
    (ids : List Bytes) (c : ProposalRecord → Bool) (p : ProposalRecord)
    → Any (λ id. p.proposal_id ≡ id) ids
    → chosen ids c p ≡ true
unfolding chosen has_id
chosen-Any [] c p h = absurd h
chosen-Any (id ∷ ids) c p (inl e) =
    chosen-first ids (λ q. c q || has_id id q) p
      (or-right (c p) (has_id id p) (same_bytes p.proposal_id id e))
chosen-Any (id ∷ ids) c p (inr h) = chosen-Any ids (λ q. c q || has_id id q) p h

supersede-supersede :
    (c : ProposalRecord → Bool) (id : Bytes) (p : ProposalRecord)
    → supersede (has_id id) (supersede c p) ≡ supersede (λ q. c q || has_id id q) p
unfolding supersede is_open has_id text bytes_eq
supersede-supersede c id p = ground arith

map-supersede :
    (c : ProposalRecord → Bool) (id : Bytes) (rows : List ProposalRecord)
    → map (supersede (has_id id)) (map (supersede c) rows)
      ≡ map (supersede (λ q. c q || has_id id q)) rows
map-supersede c id [] = refl
map-supersede c id (p ∷ rows) = rw (supersede-supersede c id p, map-supersede c id rows) refl

supersede_all-map :
    (ids : List Bytes) (c : ProposalRecord → Bool) (rows : List ProposalRecord)
    → supersede_all ids (map (supersede c) rows) ≡ map (supersede (chosen ids c)) rows
unfolding supersede_all chosen
supersede_all-map [] c rows = refl
supersede_all-map (id ∷ ids) c rows =
    ap (supersede_all ids) (map-supersede c id rows)
    ∙ supersede_all-map ids (λ q. c q || has_id id q) rows

module _ (article_id : Option Bytes) (creates : List Bytes) where
  for_article-lem :
      (p : ProposalRecord)
      → for_article article_id p ≡ true
      → (id : Bytes) × (article_id ≡ some id) × (p.article_id ≡ some id)
  unfolding for_article
  for_article-lem p h = found article_id h
    where
      found :
          (wanted : Option Bytes)
          → for_article wanted p ≡ true
          → (id : Bytes) × (wanted ≡ some id) × (p.article_id ≡ some id)
      found none h = absurd (false≢true h)
      found (some id) h = (id, refl, opt_eq_lem p.article_id (some id) h)

  chosen-Competes :
      (p : ProposalRecord)
      → chosen creates (for_article article_id) p ≡ true
      → Competes article_id creates p
  chosen-Competes p h = elim (chosen-cases creates (for_article article_id) p h) [
    | inl e ↦ inl (for_article-lem p e)
    | inr m ↦ inr m
  ]

  Competes-chosen :
      (p : ProposalRecord)
      → Competes article_id creates p
      → chosen creates (for_article article_id) p ≡ true
  unfolding for_article
  Competes-chosen p (inl (id, e, f)) = chosen-first creates (for_article article_id) p (
      subst (λ x. for_article x p ≡ true) (sym e)
        (subst (λ x. opt_eq x (some id) ≡ true) (sym f) (opt_eq_refl (some id))))
  Competes-chosen p (inr m) = chosen-Any creates (for_article article_id) p m

  supersede-IsSuperseded :
      (p : ProposalRecord)
      → IsSuperseded article_id creates p (supersede (chosen creates (for_article article_id)) p)
  unfolding supersede
  supersede-IsSuperseded p =
      elim (Bool-cases (chosen creates (for_article article_id) p && is_open p)) [
        | inl e ↦
            let (competes, waits) =
              both (chosen creates (for_article article_id) p) (is_open p) e in
            rw e (record {
              closed = λ o c. refl;
              kept = λ other. absurd (other (is_open-IsOpen p waits, chosen-Competes p competes));
            })
        | inr e ↦ rw e (record {
          closed = λ o c. absurd (
              false≢true (
                sym e
                ∙ join (chosen creates (for_article article_id) p) (is_open p) (Competes-chosen p c)
                    (IsOpen-is_open p o)));
          kept = λ other. refl;
        })
      ]
    where
      both : (a b : Bool) → (a && b) ≡ true → (a ≡ true) × (b ≡ true)
      both a b h = ground arith

      join : (a b : Bool) → a ≡ true → b ≡ true → (a && b) ≡ true
      join a b g h = ground arith

  pub supersede_open-IsSuperseded :
      (rows : List ProposalRecord)
      → Pairwise (IsSuperseded article_id creates) rows (supersede_open article_id creates rows)
  unfolding supersede_open
  supersede_open-IsSuperseded rows =
      subst (Pairwise (IsSuperseded article_id creates) rows)
        (sym (supersede_all-map creates (for_article article_id) rows))
        (Pairwise-map (IsSuperseded article_id creates)
          (supersede (chosen creates (for_article article_id))) supersede-IsSuperseded rows)
