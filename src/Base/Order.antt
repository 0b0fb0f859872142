-- ===== src/Base/Order.antt =====
-- `std::ranges::sort`, `std::erase_if` and the order of `std::string`.

use mathlib.Core.Path.{◌≡◌}
use mathlib.Core.Logic.{◌⊎◌, inl, inr}
use mathlib.Core.Bool.{Bool, true, false, ◌&&◌, ◌||◌}
use mathlib.Core.List.{List, [], ◌∷◌}
use wiki.Base.Tests.{ltb, ◌==◌, if◌then◌else◌, Bool-cases}
use wiki.Base.Lists.{All}
use wiki.Base.Text.{Bytes}

-- Bytes are compared as unsigned values.
unfoldable pub bytes_lt : Bytes → Bytes → Bool
bytes_lt [] [] = false
bytes_lt [] (d ∷ t) = true
bytes_lt (c ∷ s) [] = false
bytes_lt (c ∷ s) (d ∷ t) = ltb c d || (c == d && bytes_lt s t)

module _ {ℓ} {A : Type ℓ} where
  unfoldable pub keep_if : (A → Bool) → List A → List A
  keep_if p [] = []
  keep_if p (x ∷ xs) = let rest = keep_if p xs in if p x then x ∷ rest else rest

  -- Equal elements may stand in any order after the C++ sort; here the first one stays first.
  unfoldable pub insert_by : (A → A → Bool) → A → List A → List A
  insert_by before x [] = x ∷ []
  insert_by before x (y ∷ ys) =
      let rest = insert_by before x ys in if before y x then y ∷ rest else x ∷ y ∷ ys

  unfoldable pub sort_by : (A → A → Bool) → List A → List A
  sort_by before [] = []
  sort_by before (x ∷ xs) = insert_by before x (sort_by before xs)

module _ {ℓ} {A : Type ℓ} (P : A → Type 0) where
  -- An element of the list has the property.
  abbrev pub Any : List A → Type 0
  Any [] = ⊥
  Any (x ∷ xs) = P x ⊎ Any xs

module _ {ℓ} {A : Type ℓ} (P : A → Type 0) (before : A → A → Bool) where
  insert_by-All : (x : A) (xs : List A) → P x → All P xs → All P (insert_by before x xs)
  unfolding insert_by
  insert_by-All x [] p h = (p, tt)
  insert_by-All x (y ∷ ys) p (q, h) = elim (Bool-cases (before y x)) [
    | inl e ↦ rw e (q, insert_by-All x ys p h)
    | inr e ↦ rw e (p, (q, h))
  ]

  pub sort_by-All : (xs : List A) → All P xs → All P (sort_by before xs)
  unfolding sort_by
  sort_by-All [] h = tt
  sort_by-All (x ∷ xs) (p, h) = insert_by-All x (sort_by before xs) p (sort_by-All xs h)

  insert_by-Any : (x : A) (xs : List A) → Any P (x ∷ xs) → Any P (insert_by before x xs)
  unfolding insert_by
  insert_by-Any x [] h = h
  insert_by-Any x (y ∷ ys) h = elim (Bool-cases (before y x)) [
    | inl e ↦ rw e (swap (insert_by-Any x ys) h)
    | inr e ↦ rw e h
  ]
    where
      swap :
          (Any P (x ∷ ys) → Any P (insert_by before x ys))
          → P x ⊎ (P y ⊎ Any P ys)
          → P y ⊎ Any P (insert_by before x ys)
      swap later (inl p) = inr (later (inl p))
      swap later (inr (inl q)) = inl q
      swap later (inr (inr k)) = inr (later (inr k))

  pub sort_by-Any : (xs : List A) → Any P xs → Any P (sort_by before xs)
  unfolding sort_by
  sort_by-Any [] h = absurd h
  sort_by-Any (x ∷ xs) (inl p) = insert_by-Any x (sort_by before xs) (inl p)
  sort_by-Any (x ∷ xs) (inr h) = insert_by-Any x (sort_by before xs) (inr (sort_by-Any xs h))

module _ {ℓ} {A : Type ℓ} (before : A → A → Bool) where
  -- No element stands after one that it comes before.
  abbrev pub InOrder : List A → Type 0
  InOrder [] = Unit {0}
  InOrder (x ∷ []) = Unit {0}
  InOrder (x ∷ y ∷ xs) = (before y x ≡ false) × InOrder (y ∷ xs)

  insert_by-InOrder :
      ((x y : A) → before x y ≡ true → before y x ≡ false)
      → (x : A) (xs : List A) → InOrder xs
      → InOrder (insert_by before x xs)
  unfolding insert_by
  insert_by-InOrder strict x [] h = tt
  insert_by-InOrder strict x (y ∷ []) h = elim (Bool-cases (before y x)) [
    | inl e ↦ rw e (strict y x e, tt)
    | inr e ↦ rw e (e, tt)
  ]
  insert_by-InOrder strict x (y ∷ z ∷ ys) (p, h) = elim (Bool-cases (before y x)) [
    | inl e ↦ rw e (next (insert_by-InOrder strict x (z ∷ ys) h) e)
    | inr e ↦ rw e (e, (p, h))
  ]
    where
      next :
          InOrder (if before z x then z ∷ insert_by before x ys else x ∷ z ∷ ys)
          → before y x ≡ true
          → InOrder (y ∷ (if before z x then z ∷ insert_by before x ys else x ∷ z ∷ ys))
      next rest e = elim (Bool-cases (before z x)) [
        | inl k ↦ rw k (p, rw k at rest)
        | inr k ↦ rw k (strict y x e, rw k at rest)
      ]

  pub sort_by-InOrder :
      ((x y : A) → before x y ≡ true → before y x ≡ false)
      → (xs : List A) → InOrder (sort_by before xs)
  unfolding sort_by
  sort_by-InOrder strict [] = tt
  sort_by-InOrder strict (x ∷ xs) =
      insert_by-InOrder strict x (sort_by before xs) (sort_by-InOrder strict xs)

module _ {ℓ} {A : Type ℓ} (P : A → Type 0) (p : A → Bool) where
  pub keep_if-All : (xs : List A) → All P xs → All P (keep_if p xs)
  unfolding keep_if
  keep_if-All [] h = tt
  keep_if-All (x ∷ xs) (q, h) = elim (Bool-cases (p x)) [
    | inl e ↦ rw e (q, keep_if-All xs h)
    | inr e ↦ rw e (keep_if-All xs h)
  ]

  pub keep_if-Any : ((x : A) → P x → p x ≡ true) → (xs : List A) → Any P xs → Any P (keep_if p xs)
  unfolding keep_if
  keep_if-Any good [] h = absurd h
  keep_if-Any good (x ∷ xs) (inl q) = rw (good x q) (inl q)
  keep_if-Any good (x ∷ xs) (inr h) = elim (Bool-cases (p x)) [
    | inl e ↦ rw e (inr (keep_if-Any good xs h))
    | inr e ↦ rw e (keep_if-Any good xs h)
  ]
