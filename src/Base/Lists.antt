-- ===== src/Base/Lists.antt =====
-- Lists measured and indexed by native numbers, under the library's names.
use Prim.Native.Nat.{ℕ, zero, suc, ◌+◌, ◌-◌, min}
use mathlib.Core.Path.{◌≡◌, refl, sym, ap}
use mathlib.Core.Bool.{Bool, true, false, ◌&&◌, ◌||◌}
use mathlib.Core.List.{map, List, [], ◌∷◌, ◌++◌}
use native.Mathlib.Omega.{arith}

module _ {ℓ} {A : Type ℓ} where
  abbrev pub length : List A → ℕ
  length [] = 0
  length (x ∷ xs) = suc (length xs)

  -- `xs.empty()`
  abbrev pub is_empty : List A → Bool
  is_empty [] = true
  is_empty (x ∷ xs) = false

  abbrev pub take : ℕ → List A → List A
  take zero xs = []
  take (suc n) [] = []
  take (suc n) (x ∷ xs) = x ∷ take n xs

  abbrev pub drop : ℕ → List A → List A
  drop zero xs = xs
  drop (suc n) [] = []
  drop (suc n) (x ∷ xs) = drop n xs

  abbrev pub get_or : List A → ℕ → A → A
  get_or [] i d = d
  get_or (x ∷ xs) zero d = x
  get_or (x ∷ xs) (suc i) d = get_or xs i d

  abbrev pub replicate : ℕ → A → List A
  replicate zero a = []
  replicate (suc n) a = a ∷ replicate n a

  abbrev pub any : (A → Bool) → List A → Bool
  any p [] = false
  any p (x ∷ xs) = p x || any p xs

  abbrev pub all : (A → Bool) → List A → Bool
  all p [] = true
  all p (x ∷ xs) = p x && all p xs

module _ {ℓ} {A : Type ℓ} where
  pub length-append : (xs ys : List A) → length (xs ++ ys) ≡ length xs + length ys
  length-append [] ys = omega arith
  length-append (x ∷ xs) ys = omega (arith, length-append xs ys)

  pub take-append-drop : (n : ℕ) (xs : List A) → take n xs ++ drop n xs ≡ xs
  take-append-drop zero xs = refl
  take-append-drop (suc n) [] = refl
  take-append-drop (suc n) (x ∷ xs) = ap (◌∷◌ x) (take-append-drop n xs)

  pub length-take : (n : ℕ) (xs : List A) → length (take n xs) ≡ min n (length xs)
  length-take zero xs = omega arith
  length-take (suc n) [] = omega arith
  length-take (suc n) (x ∷ xs) = omega (arith, length-take n xs)

  pub length-drop : (n : ℕ) (xs : List A) → length (drop n xs) ≡ length xs - n
  length-drop zero xs = omega arith
  length-drop (suc n) [] = omega arith
  length-drop (suc n) (x ∷ xs) = omega (arith, length-drop n xs)

  pub length-replicate : (n : ℕ) (a : A) → length (replicate n a) ≡ n
  length-replicate zero a = refl
  length-replicate (suc n) a = ap suc (length-replicate n a)

  pub take-length-append : (xs ys : List A) → take (length xs) (xs ++ ys) ≡ xs
  take-length-append [] ys = refl
  take-length-append (x ∷ xs) ys = ap (◌∷◌ x) (take-length-append xs ys)

  pub drop-length-append : (xs ys : List A) → drop (length xs) (xs ++ ys) ≡ ys
  drop-length-append [] ys = refl
  drop-length-append (x ∷ xs) ys = drop-length-append xs ys

  pub all-append : (p : A → Bool) (xs ys : List A) → all p (xs ++ ys) ≡ (all p xs && all p ys)
  all-append p [] ys = refl
  all-append p (x ∷ xs) ys = ground (arith, all-append p xs ys)

  pub all-concat :
      (p : A → Bool) (xs : List A) (x : A)
      → all p xs ≡ true
      → p x ≡ true
      → all p (xs ++ x ∷ []) ≡ true
  all-concat p [] x h k = ground arith
  all-concat p (y ∷ xs) x h k = ground (arith, all-concat p xs x)

module _ {ℓ κ} {A : Type ℓ} (P : A → Type κ) where
  abbrev pub All : List A → Type κ
  All [] = Unit
  All (x ∷ xs) = P x × All xs

  pub All-append : (xs ys : List A) → All xs → All ys → All (xs ++ ys)
  All-append [] ys _ hy = hy
  All-append (x ∷ xs) ys (px, hx) hy = (px, All-append xs ys hx hy)

-- Two lists of one length whose members are related place by place
module _ {ℓ} {A : Type ℓ} (R : A → A → Type 0) where
  abbrev pub Pairwise : List A → List A → Type 0
  Pairwise [] [] = Unit
  Pairwise [] (y ∷ ys) = ⊥
  Pairwise (x ∷ xs) [] = ⊥
  Pairwise (x ∷ xs) (y ∷ ys) = R x y × Pairwise xs ys

  pub Pairwise-map : (f : A → A) → ((x : A) → R x (f x)) → (xs : List A) → Pairwise xs (map f xs)
  Pairwise-map f r [] = tt
  Pairwise-map f r (x ∷ xs) = (r x, Pairwise-map f r xs)

-- `for (i = first; i < xs.size(); ++i) out.append(f(i, xs[i]));`
module _ {ℓ κ} {A : Type ℓ} {B : Type κ} where
  abbrev pub for_index : (ℕ → A → List B) → ℕ → List A → List B
  for_index f i [] = []
  for_index f i (x ∷ xs) = f i x ++ for_index f (i + 1) xs

pub append-eq-nil {ℓ} : {A : Type ℓ} (xs ys : List A) → xs ++ ys ≡ [] → (xs ≡ []) × (ys ≡ [])
append-eq-nil [] ys h = (refl, h)
append-eq-nil (x ∷ xs) ys h = cc

-- Nothing was appended: every round appended nothing.
module _ {ℓ κ} {A : Type ℓ} {B : Type κ} where
  pub for_index-nil :
      (f : ℕ → A → List B) (P : A → Type 0)
      → ((i : ℕ) (x : A) → f i x ≡ [] → P x)
      → (i : ℕ) (xs : List A) → for_index f i xs ≡ []
      → All P xs
  for_index-nil f P each i [] h = tt
  for_index-nil f P each i (x ∷ xs) h =
      let (a, b) = append-eq-nil (f i x) (for_index f (i + 1) xs) h in
      (each i x a, for_index-nil f P each (i + 1) xs b)

  pub nil-for_index :
      (f : ℕ → A → List B) (P : A → Type 0)
      → ((i : ℕ) (x : A) → P x → f i x ≡ [])
      → (i : ℕ) (xs : List A) → All P xs
      → for_index f i xs ≡ []
  nil-for_index f P each i [] h = refl
  nil-for_index f P each i (x ∷ xs) (p, h) = rw (each i x p) (nil-for_index f P each (i + 1) xs h)

pub All-map {ℓ κ} :
    {A : Type ℓ} (P Q : A → Type κ) → ((x : A) → P x → Q x) → (xs : List A) → All P xs → All Q xs
All-map P Q f [] h = tt
All-map P Q f (x ∷ xs) (p, h) = (f x p, All-map P Q f xs h)

add_suc : (a b : ℕ) → suc a + b ≡ suc (a + b)
add_suc a b = omega arith

module _ {ℓ} {A : Type ℓ} where
  pub drop-drop : (a b : ℕ) (xs : List A) → drop (a + b) xs ≡ drop b (drop a xs)
  drop-drop zero b xs = ap (λ (n : ℕ). drop n xs) (omega arith)
  drop-drop (suc a) b [] = rw (add_suc a b) (sym (drop-nil b))
    where
      drop-nil : (n : ℕ) → drop {A = A} n [] ≡ []
      drop-nil zero = refl
      drop-nil (suc n) = refl
  drop-drop (suc a) b (x ∷ xs) = rw (add_suc a b) (drop-drop a b xs)

  pub take-add : (a b : ℕ) (xs : List A) → take (a + b) xs ≡ take a xs ++ take b (drop a xs)
  take-add zero b xs = ap (λ (n : ℕ). take n xs) (omega arith)
  take-add (suc a) zero [] = rw (add_suc a zero) refl
  take-add (suc a) (suc b) [] = rw (add_suc a (suc b)) refl
  take-add (suc a) b (x ∷ xs) = rw (add_suc a b) (ap (◌∷◌ x) (take-add a b xs))
