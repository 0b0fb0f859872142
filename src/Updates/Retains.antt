-- ===== src/Updates/Retains.antt =====
-- `accumulate` only adds: every approved section, block, concept and citation stays where it was.
use mathlib.Core.Option
use wiki.Base.{
  ◌≡◌, refl, sym, ap, ◌∙◌, subst, inl, inr, not, ◌&&◌, Option, none, some, List, [], ◌∷◌, ◌++◌,
  append-nil, append_assoc, Bytes, Result, ok, err, ◌>>=◌, >>=-eq-ok, ok-cancel, some-cancel,
  none-ne-some, any, if-cases, Bool-cases, bytes_eq,
}
use wiki.Domain.Unicode.{Unicode}
use wiki.Domain.Types.{
  SectionKey, Citation, ProposalBlock, ProposalSection, RelatedConcept, ArticleProposal,
}
use wiki.Updates.{
  key_eq, same_slot, merge_citations, same_block, retain_block, retain_next, retain, append_block,
  place, add_block, add_blocks, add_sections, same_concept, add_concept, add_concepts, accumulate,
}

-- The second list begins with the first, item by item up to `R`, and may go on.
module _ {A : Type 0} (R : A → A → Type 0) where
  abbrev pub Extends : List A → List A → Type 0
  Extends [] ys = Unit
  Extends (x ∷ xs) [] = ⊥
  Extends (x ∷ xs) (y ∷ ys) = R x y × Extends xs ys

  pub Extends-append : ((x : A) → R x x) → (xs ys : List A) → Extends xs (xs ++ ys)
  Extends-append r [] ys = tt
  Extends-append r (x ∷ xs) ys = (r x, Extends-append r xs ys)

  pub Extends-refl : ((x : A) → R x x) → (xs : List A) → Extends xs xs
  Extends-refl r [] = tt
  Extends-refl r (x ∷ xs) = (r x, Extends-refl r xs)

  pub Extends-trans :
      ((x y z : A) → R x y → R y z → R x z)
      → (xs ys zs : List A) → Extends xs ys
      → Extends ys zs
      → Extends xs zs
  Extends-trans t [] ys zs h k = tt
  Extends-trans t (x ∷ xs) [] zs h k = absurd h
  Extends-trans t (x ∷ xs) (y ∷ ys) [] h k = absurd k
  Extends-trans t (x ∷ xs) (y ∷ ys) (z ∷ zs) (a, h) (b, k) =
      (t x y z a b, Extends-trans t xs ys zs h k)

abbrev pub Cites : List Citation → List Citation → Type 0
Cites cs ds = (extra : List Citation) × (ds ≡ cs ++ extra)

Cites-refl : (cs : List Citation) → Cites cs cs
Cites-refl cs = ([], sym (append-nil cs))

Cites-trans : (a b c : List Citation) → Cites a b → Cites b c → Cites a c
Cites-trans a b c (x, e) (y, f) = (x ++ y, f ∙ ap (λ t. t ++ y) e ∙ append_assoc a x y)

-- Merging appends to the citations that are there.
pub merge_citations-Cites :
    (retained incoming : List Citation) → Cites retained (merge_citations retained incoming)
unfolding merge_citations
merge_citations-Cites retained [] = Cites-refl retained
merge_citations-Cites retained (c ∷ incoming) =
    elim (Bool-cases (any (λ old. same_slot old c) retained)) [
      | inl h ↦ rw h (merge_citations-Cites retained incoming)
      | inr h ↦ rw h (
          Cites-trans retained (retained ++ c ∷ []) _ (c ∷ [], refl)
            (merge_citations-Cites (retained ++ c ∷ []) incoming))
    ]

abbrev pub BlockGrows : ProposalBlock → ProposalBlock → Type 0
BlockGrows b c = (c.kind ≡ b.kind) × (c.text ≡ b.text) × Cites b.citations c.citations

abbrev pub SectionGrows : ProposalSection → ProposalSection → Type 0
SectionGrows s t = (t.key ≡ s.key) × (t.heading ≡ s.heading) × Extends BlockGrows s.blocks t.blocks

abbrev pub ConceptGrows : RelatedConcept → RelatedConcept → Type 0
ConceptGrows r q = (q.title ≡ r.title) × (q.reason ≡ r.reason) × Cites r.citations q.citations

BlockGrows-refl : (b : ProposalBlock) → BlockGrows b b
BlockGrows-refl b = (refl, refl, Cites-refl b.citations)

BlockGrows-trans : (a b c : ProposalBlock) → BlockGrows a b → BlockGrows b c → BlockGrows a c
BlockGrows-trans a b c (k, t, cs) (k', t', cs') =
    (k' ∙ k, t' ∙ t, Cites-trans a.citations b.citations c.citations cs cs')

SectionGrows-refl : (s : ProposalSection) → SectionGrows s s
SectionGrows-refl s = (refl, refl, Extends-refl BlockGrows BlockGrows-refl s.blocks)

SectionGrows-trans :
    (a b c : ProposalSection) → SectionGrows a b → SectionGrows b c → SectionGrows a c
SectionGrows-trans a b c (k, t, bs) (k', t', bs') =
    (k' ∙ k, t' ∙ t, Extends-trans BlockGrows BlockGrows-trans a.blocks b.blocks c.blocks bs bs')

ConceptGrows-refl : (r : RelatedConcept) → ConceptGrows r r
ConceptGrows-refl r = (refl, refl, Cites-refl r.citations)

ConceptGrows-trans :
    (a b c : RelatedConcept) → ConceptGrows a b → ConceptGrows b c → ConceptGrows a c
ConceptGrows-trans a b c (k, t, cs) (k', t', cs') =
    (k' ∙ k, t' ∙ t, Cites-trans a.citations b.citations c.citations cs cs')

-- Inversion of `do rest ← m; ok (Option.map f rest)` with a result.
map-eq-some :
    {A B : Type 0} (m : Result Bytes (Option A)) (f : A → B) {b : B}
    → (m >>= λ o. ok (Option.map f o)) ≡ ok (some b)
    → (a : A) × (m ≡ ok (some a)) × (f a ≡ b)
map-eq-some (ok none) f h = absurd (none-ne-some (ok-cancel h))
map-eq-some (ok (some a)) f h = (a, refl, some-cancel (ok-cancel h))
map-eq-some (err e) f h = cc

module _ (u : Unicode) where
  retain_block-Extends :
      (block : ProposalBlock) (blocks next : List ProposalBlock)
      → retain_block u block blocks ≡ ok (some next)
      → Extends BlockGrows blocks next
  unfolding retain_block
  retain_block-Extends block [] next h = absurd (none-ne-some (ok-cancel h))
  retain_block-Extends block (old ∷ blocks) next h =
      let (same, e, k) = >>=-eq-ok (same_block u old block) _ h in
      elim (if-cases same k) [
        | inl found ↦ subst (Extends BlockGrows (old ∷ blocks)) (some-cancel (ok-cancel found)) (
          (refl, refl, merge_citations-Cites old.citations block.citations),
          Extends-refl BlockGrows BlockGrows-refl blocks,
        )
        | inr later ↦
            let (rest, r, eq) = map-eq-some (retain_block u block blocks) (λ bs. old ∷ bs) later in
            subst (Extends BlockGrows (old ∷ blocks)) eq
              (BlockGrows-refl old, retain_block-Extends block blocks rest r)
      ]

  skip-Extends :
      (old : ProposalSection) (sections next : List ProposalSection)
      (m : Result Bytes (Option (List ProposalSection)))
      → ((rest : List ProposalSection) → m ≡ ok (some rest) → Extends SectionGrows sections rest)
      → (m >>= λ rest. ok (Option.map (λ ss. old ∷ ss) rest)) ≡ ok (some next)
      → Extends SectionGrows (old ∷ sections) next
  skip-Extends old sections next m ih h =
      let (rest, r, eq) = map-eq-some m (λ ss. old ∷ ss) h in
      subst (Extends SectionGrows (old ∷ sections)) eq (SectionGrows-refl old, ih rest r)

  retain_next-Extends :
      (block : ProposalBlock) (old : ProposalSection) (sections next : List ProposalSection)
      (later : Result Bytes (Option (List ProposalSection))) (o : Option (List ProposalBlock))
      → retain_block u block old.blocks ≡ ok o
      → (later ≡ ok (some next) → Extends SectionGrows (old ∷ sections) next)
      → retain_next u old sections later o ≡ ok (some next)
      → Extends SectionGrows (old ∷ sections) next
  unfolding retain_next
  retain_next-Extends block old sections next later none e skip h = skip h
  retain_next-Extends block old sections next later (some blocks) e skip h =
      subst (Extends SectionGrows (old ∷ sections)) (some-cancel (ok-cancel h)) (
        (refl, refl, retain_block-Extends block old.blocks blocks e),
        Extends-refl SectionGrows SectionGrows-refl sections,
      )

  retain-Extends :
      (key : SectionKey) (block : ProposalBlock) (sections next : List ProposalSection)
      → retain u key block sections ≡ ok (some next)
      → Extends SectionGrows sections next
  unfolding retain
  retain-Extends key block [] next h = absurd (none-ne-some (ok-cancel h))
  retain-Extends key block (old ∷ sections) next h =
      let skip =
        skip-Extends old sections next (retain u key block sections)
          (retain-Extends key block sections) in
      elim (if-cases (not (key_eq old.key key)) h) [
        | inl later ↦ skip later
        | inr here ↦
            let (o, e, k) = >>=-eq-ok (retain_block u block old.blocks) _ here in
            retain_next-Extends block old sections next _ o e skip k
      ]

  append_block-Extends :
      (key : SectionKey) (heading : Bytes) (block : ProposalBlock) (sections : List ProposalSection)
      → Extends SectionGrows sections (append_block key heading block sections)
  unfolding append_block
  append_block-Extends key heading block [] = tt
  append_block-Extends key heading block (old ∷ sections) =
      elim (Bool-cases (key_eq old.key key && bytes_eq old.heading heading)) [
        | inl e ↦ rw e (
          (refl, refl, Extends-append BlockGrows BlockGrows-refl old.blocks (block ∷ [])),
          Extends-refl SectionGrows SectionGrows-refl sections,
        )
        | inr e ↦ rw e (SectionGrows-refl old, append_block-Extends key heading block sections)
      ]

  place-Extends :
      (key : SectionKey) (heading : Bytes) (block : ProposalBlock) (sections : List ProposalSection)
      (o : Option (List ProposalSection))
      → retain u key block sections ≡ ok o
      → Extends SectionGrows sections (place key heading block sections o)
  unfolding place
  place-Extends key heading block sections none e = append_block-Extends key heading block sections
  place-Extends key heading block sections (some next) e = retain-Extends key block sections next e

  add_block-Extends :
      (key : SectionKey) (heading : Bytes) (sections next : List ProposalSection)
      (block : ProposalBlock)
      → add_block u key heading sections block ≡ ok next
      → Extends SectionGrows sections next
  unfolding add_block
  add_block-Extends key heading sections next block h =
      let (o, e, k) = >>=-eq-ok (retain u key block sections) _ h in
      subst (Extends SectionGrows sections) (ok-cancel k)
        (place-Extends key heading block sections o e)

  add_blocks-Extends :
      (key : SectionKey) (heading : Bytes) (sections next : List ProposalSection)
      (blocks : List ProposalBlock)
      → add_blocks u key heading sections blocks ≡ ok next
      → Extends SectionGrows sections next
  unfolding add_blocks
  add_blocks-Extends key heading sections next [] h =
      subst (Extends SectionGrows sections) (ok-cancel h)
        (Extends-refl SectionGrows SectionGrows-refl sections)
  add_blocks-Extends key heading sections next (block ∷ blocks) h =
      let (mid, e, k) = >>=-eq-ok (add_block u key heading sections block) _ h in
      Extends-trans SectionGrows SectionGrows-trans sections mid next
        (add_block-Extends key heading sections mid block e)
        (add_blocks-Extends key heading mid next blocks k)

  add_sections-Extends :
      (sections next additions : List ProposalSection)
      → add_sections u sections additions ≡ ok next
      → Extends SectionGrows sections next
  unfolding add_sections
  add_sections-Extends sections next [] h =
      subst (Extends SectionGrows sections) (ok-cancel h)
        (Extends-refl SectionGrows SectionGrows-refl sections)
  add_sections-Extends sections next (s ∷ additions) h =
      let (mid, e, k) = >>=-eq-ok (add_blocks u s.key s.heading sections s.blocks) _ h in
      Extends-trans SectionGrows SectionGrows-trans sections mid next
        (add_blocks-Extends s.key s.heading sections mid s.blocks e)
        (add_sections-Extends mid next additions k)

  add_concept-Extends :
      (concepts next : List RelatedConcept) (related : RelatedConcept)
      → add_concept u concepts related ≡ ok next
      → Extends ConceptGrows concepts next
  unfolding add_concept
  add_concept-Extends [] next related h = tt
  add_concept-Extends (old ∷ concepts) next related h =
      let (same, e, k) = >>=-eq-ok (same_concept u old related) _ h in
      elim (if-cases same k) [
        | inl found ↦ subst (Extends ConceptGrows (old ∷ concepts)) (ok-cancel found) (
          (refl, refl, merge_citations-Cites old.citations related.citations),
          Extends-refl ConceptGrows ConceptGrows-refl concepts,
        )
        | inr later ↦
            let (rest, r, eq) = >>=-eq-ok (add_concept u concepts related) _ later in
            subst (Extends ConceptGrows (old ∷ concepts)) (ok-cancel eq)
              (ConceptGrows-refl old, add_concept-Extends concepts rest related r)
      ]

  add_concepts-Extends :
      (concepts next additions : List RelatedConcept)
      → add_concepts u concepts additions ≡ ok next
      → Extends ConceptGrows concepts next
  unfolding add_concepts
  add_concepts-Extends concepts next [] h =
      subst (Extends ConceptGrows concepts) (ok-cancel h)
        (Extends-refl ConceptGrows ConceptGrows-refl concepts)
  add_concepts-Extends concepts next (r ∷ additions) h =
      let (mid, e, k) = >>=-eq-ok (add_concept u concepts r) _ h in
      Extends-trans ConceptGrows ConceptGrows-trans concepts mid next
        (add_concept-Extends concepts mid r e) (add_concepts-Extends mid next additions k)

-- An additive update keeps what was approved: each old section is still at its place with its key
-- and heading, each old block with its kind and text, each old related concept with its title and
-- reason, and all of their citations; new ones only follow. The article descriptor is the new one.
pub accumulate-Extends :
    (u : Unicode) (prior additions result : ArticleProposal)
    → accumulate u prior additions ≡ ok result
    → Extends SectionGrows prior.sections result.sections
      × Extends ConceptGrows prior.related_concepts result.related_concepts
      × (result.article ≡ additions.article)
unfolding accumulate
accumulate-Extends u prior additions result h =
    let (ss, e, k) = >>=-eq-ok (add_sections u prior.sections additions.sections) _ h in
    let (cs, f, l) =
      >>=-eq-ok (add_concepts u prior.related_concepts additions.related_concepts) _ k in
    subst
      (λ (r : ArticleProposal).
        Extends SectionGrows prior.sections r.sections
        × Extends ConceptGrows prior.related_concepts r.related_concepts
        × (r.article ≡ additions.article))
      (ok-cancel l)
      (
        add_sections-Extends u prior.sections ss additions.sections e,
        add_concepts-Extends u prior.related_concepts cs additions.related_concepts f,
        refl,
      )
