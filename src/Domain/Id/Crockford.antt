-- ===== src/Domain/Id/Crockford.antt =====
-- The 32 digits: facts checked digit by digit.
use wiki.Base.{
  ℕ, suc, ◌<◌, ◌%◌, ◌≡◌, refl, true, List, [], ◌∷◌, arith, between, ◌==◌, ==_iff, checked,
  checked-below, if◌then◌else◌,
}
use wiki.Domain.Id.{crockford, crockford_at, crockford_has}

has_table : checked (λ x. crockford_has (crockford_at x)) 32 ≡ true
unfolding checked crockford_has crockford_at
has_table = refl

-- Every digit that is written is one of the 32.
pub crockford_has-crockford_at : (n : ℕ) → crockford_has (crockford_at (n % 32)) ≡ true
crockford_has-crockford_at n =
    checked-below (λ x. crockford_has (crockford_at x)) 32 (n % 32) (omega arith) has_table

front_table : checked (λ x. between 48 55 (crockford_at x)) 8 ≡ true
unfolding checked crockford_at
front_table = refl

-- The first eight digits are the decimal ones up to 7.
pub crockford_at_front : (n : ℕ) → n < 8 → between 48 55 (crockford_at n) ≡ true
crockford_at_front n h = checked-below (λ x. between 48 55 (crockford_at x)) 8 n h front_table

-- `crockford.find(character)`, 32 where it is missing
index_in : List ℕ → ℕ → ℕ
index_in [] c = 0
index_in (d ∷ ds) c = let rest = index_in ds c in if d == c then 0 else suc rest

unfoldable pub digit_value : ℕ → ℕ
unfolding index_in
digit_value c = index_in crockford c

value_table : checked (λ x. digit_value (crockford_at x) == x) 32 ≡ true
unfolding checked digit_value crockford_at
value_table = refl

pub digit_value-crockford_at : (n : ℕ) → n < 32 → digit_value (crockford_at n) ≡ n
digit_value-crockford_at n h =
    (==_iff _ n).0 (checked-below (λ x. digit_value (crockford_at x) == x) 32 n h value_table)
