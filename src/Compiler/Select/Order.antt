-- ===== src/Compiler/Select/Order.antt =====
-- The order of the candidates and the filter on lexical matches (libs/compiler/src/compiler.cpp).
use wiki.Base.{
  ℕ, ◌≡◌, refl, sym, subst, ◌⊎◌, inl, inr, Bool, true, false, not, List, [], ◌∷◌, Bytes, bytes_eq,
  bytes_lt, ltb, ◌==◌, if◌then◌else◌, any, All, Any, keep_if, keep_if-All, keep_if-Any, Bool-cases,
  arith,
}
use wiki.Compiler.Select.{CandidatePage, has_match, keep_lexical, comes_before}

bytes_lt-asym : (s t : Bytes) → bytes_lt s t ≡ true → bytes_lt t s ≡ false
unfolding bytes_lt
bytes_lt-asym [] [] h = cc
bytes_lt-asym [] (d ∷ t) h = refl
bytes_lt-asym (c ∷ s) [] h = cc
bytes_lt-asym (c ∷ s) (d ∷ t) h = ground (arith, bytes_lt-asym s t)

bytes_eq_comm : (s t : Bytes) → bytes_eq s t ≡ bytes_eq t s
unfolding bytes_eq
bytes_eq_comm [] [] = refl
bytes_eq_comm [] (d ∷ t) = refl
bytes_eq_comm (c ∷ s) [] = refl
bytes_eq_comm (c ∷ s) (d ∷ t) = ground (arith, bytes_eq_comm s t)

-- One key of a lexicographic order, seen from both sides.
level :
    (e e' lt gt later earlier : Bool)
    → e ≡ e'
    → (lt ≡ true → gt ≡ false)
    → (later ≡ true → earlier ≡ false)
    → (if not e then lt else later) ≡ true
    → (if not e' then gt else earlier) ≡ false
level true true lt gt later earlier s a b h = b h
level false false lt gt later earlier s a b h = a h
level true false lt gt later earlier s a b h = cc
level false true lt gt later earlier s a b h = cc

ltb-asym : (a b : ℕ) → ltb a b ≡ true → ltb b a ≡ false
ltb-asym a b h = ground arith

nat_eq_comm : (a b : ℕ) → (a == b) ≡ (b == a)
nat_eq_comm a b = ground arith

pub comes_before-asym : (x y : CandidatePage) → comes_before x y ≡ true → comes_before y x ≡ false
unfolding comes_before
comes_before-asym x y =
    level (x.relevance_score == y.relevance_score) (y.relevance_score == x.relevance_score) _ _ _ _
      (nat_eq_comm x.relevance_score y.relevance_score)
      (ltb-asym y.relevance_score x.relevance_score)
      (level (bytes_eq x.normalized_source_name y.normalized_source_name)
        (bytes_eq y.normalized_source_name x.normalized_source_name) _ _ _ _
        (bytes_eq_comm x.normalized_source_name y.normalized_source_name)
        (bytes_lt-asym x.normalized_source_name y.normalized_source_name)
        (level (bytes_eq x.source_id y.source_id) (bytes_eq y.source_id x.source_id) _ _ _ _
          (bytes_eq_comm x.source_id y.source_id) (bytes_lt-asym x.source_id y.source_id)
          (level (x.page.page_number == y.page.page_number)
            (y.page.page_number == x.page.page_number) _ _ _ _
            (nat_eq_comm x.page.page_number y.page.page_number)
            (ltb-asym x.page.page_number y.page.page_number)
            (bytes_lt-asym x.page.page_id y.page.page_id))))

keep_if-true : {A : Type 0} (p : A → Bool) (xs : List A) → All (λ x. p x ≡ true) (keep_if p xs)
unfolding keep_if
keep_if-true p [] = tt
keep_if-true p (x ∷ xs) = elim (Bool-cases (p x)) [
  | inl e ↦ rw e (e, keep_if-true p xs)
  | inr e ↦ rw e (keep_if-true p xs)
]

any-false : {A : Type 0} (p : A → Bool) (xs : List A) → any p xs ≡ false → All (λ x. p x ≡ false) xs
any-false p [] h = tt
any-false p (x ∷ xs) h = (ground arith, any-false p xs (ground arith))

-- Every page matches the concept's title, or none does.
pub keep_lexical-All :
    (cs : List CandidatePage)
    → All (λ c. has_match c ≡ true) (keep_lexical cs)
      ⊎ All (λ c. has_match c ≡ false) (keep_lexical cs)
unfolding keep_lexical
keep_lexical-All cs = elim (Bool-cases (any has_match cs)) [
  | inl some_ ↦ rw some_ (inl (keep_if-true has_match cs))
  | inr none_ ↦ rw none_ (inr (any-false has_match cs none_))
]

module _ (P : CandidatePage → Type 0) where
  pub keep_lexical-kept : (cs : List CandidatePage) → All P cs → All P (keep_lexical cs)
  unfolding keep_lexical
  keep_lexical-kept cs h = elim (Bool-cases (any has_match cs)) [
    | inl e ↦ rw e (keep_if-All P has_match cs h)
    | inr e ↦ rw e h
  ]

any-Any : {A : Type 0} (p : A → Bool) (xs : List A) → any p xs ≡ true → Any (λ x. p x ≡ true) xs
any-Any p [] h = cc
any-Any p (x ∷ xs) h = elim (Bool-cases (p x)) [
  | inl e ↦ inl e
  | inr e ↦ inr (any-Any p xs (ground arith))
]

-- A candidate is left out only if it does not match the title and one that is kept does.
pub keep_lexical-Any :
    (d : CandidatePage) (cs : List CandidatePage)
    → Any (λ c. c ≡ d) cs
    → Any (λ c. c ≡ d) (keep_lexical cs)
      ⊎ ((has_match d ≡ false) × Any (λ c. has_match c ≡ true) (keep_lexical cs))
unfolding keep_lexical
keep_lexical-Any d cs h = elim (Bool-cases (any has_match cs)) [
  | inr none_ ↦ rw none_ (inl h)
  | inl some_ ↦ elim (Bool-cases (has_match d)) [
    | inl e ↦ rw some_ (
        inl (
          keep_if-Any (λ c. c ≡ d) has_match
            (λ c same. subst (λ x. has_match x ≡ true) (sym same) e) cs h))
    | inr e ↦ rw some_ (
        inr (
          e,
          keep_if-Any (λ c. has_match c ≡ true) has_match (λ c m. m) cs
              (any-Any has_match cs some_),
        ))
  ]
]
