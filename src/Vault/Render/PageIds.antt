-- ===== src/Vault/Render/PageIds.antt =====
-- The pages that a proposal cites, as the set that the renderer walks (libs/vault/src/rendering.cpp).
use wiki.Base.{
  ◌≡◌, refl, sym, ◌⊎◌, inl, inr, true, false, List, [], ◌∷◌, Bytes, bytes_eq, bytes_eq_lem,
  bytes_lt, if◌then◌else◌, All, All-map, Any, Bool-cases, arith,
}
use wiki.Domain.Types.{Citation, ProposalBlock, ProposalSection, RelatedConcept}
use wiki.Vault.Render.{
  set_insert, insert_citations, insert_blocks, insert_sections, insert_concepts,
}

bytes_lt_total : (s t : Bytes) → bytes_eq s t ≡ false → bytes_lt s t ≡ false → bytes_lt t s ≡ true
unfolding bytes_eq bytes_lt
bytes_lt_total [] [] a b = cc
bytes_lt_total [] (d ∷ t) a b = cc
bytes_lt_total (c ∷ s) [] a b = refl
bytes_lt_total (c ∷ s) (d ∷ t) a b = ground (arith, bytes_lt_total s t)

-- Strictly growing, so every identifier stands once.
abbrev pub Ascending : List Bytes → Type 0
Ascending [] = Unit {0}
Ascending (x ∷ []) = Unit {0}
Ascending (x ∷ y ∷ ids) = (bytes_lt x y ≡ true) × Ascending (y ∷ ids)

set_insert-Ascending :
    (id : Bytes) (ids : List Bytes) → Ascending ids → Ascending (set_insert id ids)
unfolding set_insert
set_insert-Ascending id [] h = tt
set_insert-Ascending id (x ∷ []) h = elim (Bool-cases (bytes_eq id x)) [
  | inl e ↦ rw e h
  | inr e ↦ elim (Bool-cases (bytes_lt id x)) [
    | inl k ↦ rw e (rw k (k, tt))
    | inr k ↦ rw e (rw k (bytes_lt_total id x e k, tt))
  ]
]
set_insert-Ascending id (x ∷ y ∷ ids) (xy, h) = elim (Bool-cases (bytes_eq id x)) [
  | inl e ↦ rw e (xy, h)
  | inr e ↦ elim (Bool-cases (bytes_lt id x)) [
    | inl k ↦ rw e (rw k (k, (xy, h)))
    | inr k ↦ rw e (rw k (below (set_insert-Ascending id (y ∷ ids) h) (bytes_lt_total id x e k)))
  ]
]
  where
    below :
        Ascending (
          if bytes_eq id y
          then y ∷ ids
          else if bytes_lt id y
          then id ∷ y ∷ ids
          else y ∷ set_insert id ids)
        → bytes_lt x id ≡ true
        → Ascending (
            x
            ∷ (if bytes_eq id y
                then y ∷ ids
                else if bytes_lt id y
                then id ∷ y ∷ ids
                else y ∷ set_insert id ids))
    below rest lt = elim (Bool-cases (bytes_eq id y)) [
      | inl e ↦ rw e (xy, rw e at rest)
      | inr e ↦ elim (Bool-cases (bytes_lt id y)) [
        | inl k ↦ rw e (rw k (lt, rw k at (rw e at rest)))
        | inr k ↦ rw e (rw k (xy, rw k at (rw e at rest)))
      ]
    ]

-- The identifier is in the set.
abbrev pub Listed : List Bytes → Citation → Type 0
Listed ids c = Any (λ x. x ≡ c.page_id) ids

set_insert-here : (id : Bytes) (ids : List Bytes) → Any (λ x. x ≡ id) (set_insert id ids)
unfolding set_insert
set_insert-here id [] = inl refl
set_insert-here id (x ∷ ids) = elim (Bool-cases (bytes_eq id x)) [
  | inl e ↦ rw e (inl (sym (bytes_eq_lem id x e)))
  | inr e ↦ elim (Bool-cases (bytes_lt id x)) [
    | inl k ↦ rw e (rw k (inl refl))
    | inr k ↦ rw e (rw k (inr (set_insert-here id ids)))
  ]
]

module _ (P : Bytes → Type 0) where
  set_insert-Any : (id : Bytes) (ids : List Bytes) → Any P ids → Any P (set_insert id ids)
  unfolding set_insert
  set_insert-Any id [] h = inr h
  set_insert-Any id (x ∷ ids) h = elim (Bool-cases (bytes_eq id x)) [
    | inl e ↦ rw e h
    | inr e ↦ elim (Bool-cases (bytes_lt id x)) [
      | inl k ↦ rw e (rw k (inr h))
      | inr k ↦ rw e (rw k (later (set_insert-Any id ids) h))
    ]
  ]
    where
      later :
          (Any P ids → Any P (set_insert id ids))
          → P x ⊎ Any P ids
          → P x ⊎ Any P (set_insert id ids)
      later f (inl p) = inl p
      later f (inr k) = inr (f k)

  insert_citations-Any :
      (cs : List Citation) (ids : List Bytes) → Any P ids → Any P (insert_citations cs ids)
  unfolding insert_citations
  insert_citations-Any [] ids h = h
  insert_citations-Any (c ∷ cs) ids h =
      insert_citations-Any cs (set_insert c.page_id ids) (set_insert-Any c.page_id ids h)

  insert_blocks-Any :
      (bs : List ProposalBlock) (ids : List Bytes) → Any P ids → Any P (insert_blocks bs ids)
  unfolding insert_blocks
  insert_blocks-Any [] ids h = h
  insert_blocks-Any (b ∷ bs) ids h =
      insert_blocks-Any bs (insert_citations b.citations ids)
        (insert_citations-Any b.citations ids h)

  insert_sections-Any :
      (ss : List ProposalSection) (ids : List Bytes) → Any P ids → Any P (insert_sections ss ids)
  unfolding insert_sections
  insert_sections-Any [] ids h = h
  insert_sections-Any (s ∷ ss) ids h =
      insert_sections-Any ss (insert_blocks s.blocks ids) (insert_blocks-Any s.blocks ids h)

  pub insert_concepts-Any :
      (rs : List RelatedConcept) (ids : List Bytes) → Any P ids → Any P (insert_concepts rs ids)
  unfolding insert_concepts
  insert_concepts-Any [] ids h = h
  insert_concepts-Any (r ∷ rs) ids h =
      insert_concepts-Any rs (insert_citations r.citations ids)
        (insert_citations-Any r.citations ids h)

insert_citations-Listed :
    (cs : List Citation) (ids : List Bytes) → All (Listed (insert_citations cs ids)) cs
unfolding insert_citations
insert_citations-Listed [] ids = tt
insert_citations-Listed (c ∷ cs) ids = (
  insert_citations-Any (λ x. x ≡ c.page_id) cs (set_insert c.page_id ids)
      (set_insert-here c.page_id ids),
  insert_citations-Listed cs (set_insert c.page_id ids),
)

abbrev pub BlockListed : List Bytes → ProposalBlock → Type 0
BlockListed ids b = All (Listed ids) b.citations

abbrev pub SectionListed : List Bytes → ProposalSection → Type 0
SectionListed ids s = All (BlockListed ids) s.blocks

abbrev pub ConceptListed : List Bytes → RelatedConcept → Type 0
ConceptListed ids r = All (Listed ids) r.citations

insert_blocks-Listed :
    (bs : List ProposalBlock) (ids : List Bytes) → All (BlockListed (insert_blocks bs ids)) bs
unfolding insert_blocks
insert_blocks-Listed [] ids = tt
insert_blocks-Listed (b ∷ bs) ids =
    let between = insert_citations b.citations ids in
    (
      All-map (Listed between) (Listed (insert_blocks bs between))
          (λ c h. insert_blocks-Any (λ x. x ≡ c.page_id) bs between h) b.citations
          (insert_citations-Listed b.citations ids),
      insert_blocks-Listed bs between,
    )

pub SectionListed-map :
    (ids ids' : List Bytes)
    → ((c : Citation) → Listed ids c → Listed ids' c)
    → (s : ProposalSection) → SectionListed ids s
    → SectionListed ids' s
SectionListed-map ids ids' f s h =
    All-map (BlockListed ids) (BlockListed ids')
      (λ b k. All-map (Listed ids) (Listed ids') f b.citations k) s.blocks h

pub insert_sections-Listed :
    (ss : List ProposalSection) (ids : List Bytes) → All (SectionListed (insert_sections ss ids)) ss
unfolding insert_sections
insert_sections-Listed [] ids = tt
insert_sections-Listed (s ∷ ss) ids =
    let between = insert_blocks s.blocks ids in
    (
      SectionListed-map between (insert_sections ss between)
          (λ c h. insert_sections-Any (λ x. x ≡ c.page_id) ss between h) s
          (insert_blocks-Listed s.blocks ids),
      insert_sections-Listed ss between,
    )

pub insert_concepts-Listed :
    (rs : List RelatedConcept) (ids : List Bytes) → All (ConceptListed (insert_concepts rs ids)) rs
unfolding insert_concepts
insert_concepts-Listed [] ids = tt
insert_concepts-Listed (r ∷ rs) ids =
    let between = insert_citations r.citations ids in
    (
      All-map (Listed between) (Listed (insert_concepts rs between))
          (λ c h. insert_concepts-Any (λ x. x ≡ c.page_id) rs between h) r.citations
          (insert_citations-Listed r.citations ids),
      insert_concepts-Listed rs between,
    )

insert_citations-Ascending :
    (cs : List Citation) (ids : List Bytes) → Ascending ids → Ascending (insert_citations cs ids)
unfolding insert_citations
insert_citations-Ascending [] ids h = h
insert_citations-Ascending (c ∷ cs) ids h =
    insert_citations-Ascending cs (set_insert c.page_id ids) (set_insert-Ascending c.page_id ids h)

insert_blocks-Ascending :
    (bs : List ProposalBlock) (ids : List Bytes) → Ascending ids → Ascending (insert_blocks bs ids)
unfolding insert_blocks
insert_blocks-Ascending [] ids h = h
insert_blocks-Ascending (b ∷ bs) ids h =
    insert_blocks-Ascending bs (insert_citations b.citations ids)
      (insert_citations-Ascending b.citations ids h)

pub insert_sections-Ascending :
    (ss : List ProposalSection) (ids : List Bytes)
    → Ascending ids
    → Ascending (insert_sections ss ids)
unfolding insert_sections
insert_sections-Ascending [] ids h = h
insert_sections-Ascending (s ∷ ss) ids h =
    insert_sections-Ascending ss (insert_blocks s.blocks ids)
      (insert_blocks-Ascending s.blocks ids h)

pub insert_concepts-Ascending :
    (rs : List RelatedConcept) (ids : List Bytes)
    → Ascending ids
    → Ascending (insert_concepts rs ids)
unfolding insert_concepts
insert_concepts-Ascending [] ids h = h
insert_concepts-Ascending (r ∷ rs) ids h =
    insert_concepts-Ascending rs (insert_citations r.citations ids)
      (insert_citations-Ascending r.citations ids h)
