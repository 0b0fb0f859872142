-- ===== src/Domain/Unicode.antt =====
-- utf8proc, which the repository does not contain, is the parameter `Unicode`. This file models the
-- loops that walk a text scalar by scalar (libs/domain/src/concept.cpp, text.cpp).
pub mod Walk
use mathlib.Core.Option
use wiki.Base.{
  ℕ, zero, suc, ◌+◌, ◌≤◌, ◌<◌, ◌≡◌, Bool, true, false, ◌||◌, Option, none, some, List, [], ◌∷◌,
  ◌++◌, Bytes, length, take, drop, ◌==◌, if◌then◌else◌, All, Result, ok, err,
}

-- `utf8proc_iterate` on what is left of a text: the scalar and the number of bytes read, or `none`
-- where the C function returns a length that is not positive. The laws are its documentation:
-- bytes below 128 are scalars of their own, and no byte of a longer sequence is below 128.
pub record Unicode : Type 0 where
  pub iterate : Bytes → Option (ℕ × ℕ)
  pub category : ℕ → ℕ
  -- `utf8proc_map` with STABLE | COMPOSE, and CASEFOLD where the flag is set
  pub normalize : Bytes → Bool → Option Bytes
  pub iterate-ascii : (c : ℕ) (s : Bytes) → c < 128 → iterate (c ∷ s) ≡ some (c, 1)
  pub iterate-length : (s : Bytes) (x n : ℕ) → iterate s ≡ some (x, n) → (0 < n) × (n ≤ length s)
  pub iterate-wide :
      (c : ℕ) (s : Bytes) (x n : ℕ)
      → 128 ≤ c
      → iterate (c ∷ s) ≡ some (x, n)
      → (128 ≤ x) × All (λ b. 128 ≤ b) (take n (c ∷ s))

-- utf8proc_category_t
abbrev pub category_lu : ℕ
category_lu = 1

abbrev pub category_no : ℕ
category_no = 11

abbrev pub category_zs : ℕ
category_zs = 23

abbrev pub category_zl : ℕ
category_zl = 24

abbrev pub category_zp : ℕ
category_zp = 25

abbrev pub category_cc : ℕ
category_cc = 26

abbrev pub category_cf : ℕ
category_cf = 27

-- What a loop over the scalars of a text meets: each scalar with its bytes, until the end or until
-- bytes that are no UTF-8.
pub data Scalars : Type 0 where
  finish : Scalars
  invalid : Scalars
  scalar : ℕ → Bytes → Scalars → Scalars

unfoldable pub walk_next : Bytes → (Bytes → Scalars) → Option (ℕ × ℕ) → Scalars
walk_next s rest none = invalid
walk_next s rest (some (x, n)) = scalar x (take n s) (rest (drop n s))

module _ (u : Unicode) where
  open u use {iterate}

  -- `for (offset = 0; offset < text.size(); offset += length)`; the fuel bounds the rounds
  walk_loop : ℕ → Bytes → Scalars
  unfolding walk_next
  walk_loop zero [] = finish
  walk_loop zero (c ∷ s) = invalid
  walk_loop (suc fuel) [] = finish
  walk_loop (suc fuel) (c ∷ s) = walk_next (c ∷ s) (walk_loop fuel) (iterate (c ∷ s))

  -- Every round reads a byte at least, so as many rounds as bytes are enough.
  unfoldable pub walk : Bytes → Scalars
  unfolding walk_loop
  walk s = walk_loop (length s) s

-- libs/domain/src/text.cpp: valid UTF-8 with no NUL
source_loop : Scalars → Bool
source_loop finish = true
source_loop invalid = false
source_loop (scalar x bs rest) = if x == 0 then false else source_loop rest

unfoldable pub is_valid_source_text : Unicode → Bytes → Bool
unfolding source_loop
is_valid_source_text u text = source_loop (walk u text)
