-- ===== src/Compiler/Store/Slots.antt =====
-- The places that publish_proposal gives to the citations of a proposal
-- (libs/compiler/src/compiler.cpp).
use wiki.Base.{
  ◌≤◌, ◌<◌, ◌≡◌, refl, sym, ap, ap₂, subst, ◌∙◌, append_assoc, List, [], ◌∷◌, ◌++◌, All, All-append,
  All-map, map, arith,
}
use wiki.Domain.Types.{
  SectionKey, Citation, ProposalBlock, ProposalSection, RelatedConcept, ArticleProposal,
}
use wiki.Updates.{key_eq}
use wiki.Compiler.Store.{
  Slot, Counter, count_block, block_slots, section_slots, concept_slots, proposal_slots,
}

abbrev Apart : Slot → Slot → Type 0
Apart a b = ¬ ((a.key ≡ b.key) × (a.index ≡ b.index))

abbrev pub Distinct : List Slot → Type 0
Distinct [] = Unit
Distinct (a ∷ slots) = All (Apart a) slots × Distinct slots

abbrev section_citations : List ProposalBlock → List (List Citation)
section_citations blocks = map (λ (b : ProposalBlock). b.citations) blocks

-- The citations of a proposal, block by block and then concept by concept
abbrev pub cited : List ProposalSection → List RelatedConcept → List (List Citation)
cited [] concepts = map (λ (r : RelatedConcept). r.citations) concepts
cited (s ∷ sections) concepts = section_citations s.blocks ++ cited sections concepts

abbrev citations_of : List Slot → List (List Citation)
citations_of slots = map (λ (a : Slot). a.citations) slots

-- The index is one that the counter gives between two states.
abbrev Within : Counter → Counter → Slot → Type 0
Within low high a = (low a.key ≤ a.index) × (a.index < high a.key)

record Allotted (low high : Counter) (slots : List Slot) : Type 0 where
  grows : (k : SectionKey) → low k ≤ high k
  within : All (Within low high) slots
  distinct : Distinct slots

Within-Apart :
    (low mid high : Counter) (a b : Slot) → Within low mid a → Within mid high b → Apart a b
Within-Apart low mid high a b (l, m) (m', h) (same_key, same_index) =
    let here : mid a.key ≤ b.index = subst (λ k. mid k ≤ b.index) (sym same_key) m' in omega arith

Distinct-append :
    (low mid high : Counter) (xs ys : List Slot)
    → All (Within low mid) xs
    → All (Within mid high) ys
    → Distinct xs
    → Distinct ys
    → Distinct (xs ++ ys)
Distinct-append low mid high [] ys w w' d d' = d'
Distinct-append low mid high (a ∷ xs) ys (w, ws) w' (d, ds) d' = (
  All-append (Apart a) xs ys d
      (All-map (Within mid high) (Apart a) (λ b. Within-Apart low mid high a b w) ys w'),
  Distinct-append low mid high xs ys ws w' ds d',
)

none-Allotted : (next : Counter) → Allotted next next []
none-Allotted next = record { grows = λ k. omega arith; within = tt; distinct = tt }

append-Allotted :
    (low mid high : Counter) (xs ys : List Slot)
    → Allotted low mid xs
    → Allotted mid high ys
    → Allotted low high (xs ++ ys)
append-Allotted low mid high xs ys a b = record {
  grows = λ k. omega (arith, a.grows k, b.grows k);
  within =
      All-append (Within low high) xs ys
        (All-map (Within low mid) (Within low high)
          (λ c w. (w.0, omega (arith, w.1, b.grows c.key))) xs a.within)
        (All-map (Within mid high) (Within low high)
          (λ c w. (omega (arith, w.0, a.grows c.key), w.1)) ys b.within);
  distinct = Distinct-append low mid high xs ys a.within b.within a.distinct b.distinct;
}

count_block-grows : (next : Counter) (key k : SectionKey) → next k ≤ count_block next key k
unfolding count_block
count_block-grows next key k = ground arith

count_block-same : (next : Counter) (key : SectionKey) → next key < count_block next key key
unfolding count_block key_eq
count_block-same next key = ground arith

one-Allotted :
    (next : Counter) (key : SectionKey) (citations : List Citation)
    → Allotted next
        (count_block next key)
        (record { key = key; index = next key; citations = citations } ∷ [])
one-Allotted next key citations = record {
  grows = count_block-grows next key;
  within = ((omega arith, count_block-same next key), tt);
  distinct = (tt, tt);
}

block_slots-Allotted :
    (key : SectionKey) (blocks : List ProposalBlock) (next : Counter)
    → Allotted next (block_slots key blocks next).1 (block_slots key blocks next).0
unfolding block_slots
block_slots-Allotted key [] next = none-Allotted next
block_slots-Allotted key (b ∷ blocks) next =
    append-Allotted next (count_block next key) _ _ _ (one-Allotted next key b.citations)
      (block_slots-Allotted key blocks (count_block next key))

section_slots-Allotted :
    (sections : List ProposalSection) (next : Counter)
    → Allotted next (section_slots sections next).1 (section_slots sections next).0
unfolding section_slots
section_slots-Allotted [] next = none-Allotted next
section_slots-Allotted (s ∷ sections) next =
    append-Allotted next (block_slots s.key s.blocks next).1 _ _ _
      (block_slots-Allotted s.key s.blocks next)
      (section_slots-Allotted sections (block_slots s.key s.blocks next).1)

concept_slots-Allotted :
    (concepts : List RelatedConcept) (next : Counter)
    → (high : Counter) × Allotted next high (concept_slots concepts next)
unfolding concept_slots
concept_slots-Allotted [] next = (next, none-Allotted next)
concept_slots-Allotted (r ∷ concepts) next =
    let counted = count_block next SectionKey.related_concepts in
    let (high, rest) = concept_slots-Allotted concepts counted in
    (
      high,
      append-Allotted next counted high _ _
          (one-Allotted next SectionKey.related_concepts r.citations) rest,
    )

map-append : {A B : Type 0} (f : A → B) (xs ys : List A) → map f (xs ++ ys) ≡ map f xs ++ map f ys
map-append f [] ys = refl
map-append f (x ∷ xs) ys = ap (◌∷◌ (f x)) (map-append f xs ys)

block_slots-cited :
    (key : SectionKey) (blocks : List ProposalBlock) (next : Counter)
    → citations_of (block_slots key blocks next).0 ≡ section_citations blocks
unfolding block_slots
block_slots-cited key [] next = refl
block_slots-cited key (b ∷ blocks) next =
    ap (◌∷◌ b.citations) (block_slots-cited key blocks (count_block next key))

concept_slots-cited :
    (concepts : List RelatedConcept) (next : Counter)
    → citations_of (concept_slots concepts next) ≡ cited [] concepts
unfolding concept_slots
concept_slots-cited [] next = refl
concept_slots-cited (r ∷ concepts) next =
    ap (◌∷◌ r.citations)
      (concept_slots-cited concepts (count_block next SectionKey.related_concepts))

slots-cited :
    (sections : List ProposalSection) (concepts : List RelatedConcept) (next : Counter)
    → citations_of
        ((section_slots sections next).0 ++ concept_slots concepts (section_slots sections next).1)
      ≡ cited sections concepts
unfolding section_slots
slots-cited [] concepts next = concept_slots-cited concepts next
slots-cited (s ∷ sections) concepts next =
    let (here, between) = block_slots s.key s.blocks next in
    let (others, last) = section_slots sections between in
    ap citations_of (append_assoc here others (concept_slots concepts last))
    ∙ map-append (λ (a : Slot). a.citations) here (others ++ concept_slots concepts last)
    ∙ ap₂ ◌++◌ (block_slots-cited s.key s.blocks next) (slots-cited sections concepts between)

-- The rows of a proposal's citations never share a place: no two of its blocks and related concepts
-- have both the section key and the index in common. The places hold the citations of all blocks, in
-- order, and after them those of the related concepts.
pub proposal_slots-Distinct :
    (p : ArticleProposal)
    → Distinct (proposal_slots p)
      × (citations_of (proposal_slots p) ≡ cited p.sections p.related_concepts)
unfolding proposal_slots
proposal_slots-Distinct p =
    let counted = section_slots p.sections (λ key. 0) in
    let (high, concepts) = concept_slots-Allotted p.related_concepts counted.1 in
    (
      (append-Allotted (λ key. 0) counted.1 high _ _ (section_slots-Allotted p.sections (λ key. 0))
          concepts).distinct,
      slots-cited p.sections p.related_concepts (λ key. 0),
    )
