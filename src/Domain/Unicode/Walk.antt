-- ===== src/Domain/Unicode/Walk.antt =====
-- The walk over a text: enough fuel, what is read where, and an ASCII byte.
use wiki.Base.{
  ℕ, zero, suc, ◌≤◌, ◌<◌, ◌≡◌, refl, sym, ap, ◌∙◌, Option, none, some, [], ◌∷◌, arith, Bytes,
  length, length-drop, take, drop,
}
use wiki.Domain.Unicode.{Unicode, Scalars, finish, invalid, scalar, walk_next, walk_loop, walk}

walk_next-cong :
    (s : Bytes) (r r' : Bytes → Scalars) (o : Option (ℕ × ℕ))
    → ((x n : ℕ) → o ≡ some (x, n) → r (drop n s) ≡ r' (drop n s))
    → walk_next s r o ≡ walk_next s r' o
unfolding walk_next
walk_next-cong s r r' none h = refl
walk_next-cong s r r' (some (x, n)) h = ap (scalar x (take n s)) (h x n refl)

module _ (u : Unicode) where
  walk_loop-nil : (f : ℕ) → walk_loop u f [] ≡ finish
  unfolding walk_loop
  walk_loop-nil zero = refl
  walk_loop-nil (suc f) = refl

  -- More fuel changes nothing: the walk never stops for want of it.
  walk_loop-fuel :
      (f g : ℕ) (s : Bytes) → length s ≤ f → length s ≤ g → walk_loop u f s ≡ walk_loop u g s
  unfolding walk_loop
  walk_loop-fuel f g [] hf hg = walk_loop-nil f ∙ sym (walk_loop-nil g)
  walk_loop-fuel zero g (c ∷ s) hf hg = absurd (omega arith)
  walk_loop-fuel (suc f) zero (c ∷ s) hf hg = absurd (omega arith)
  walk_loop-fuel (suc f) (suc g) (c ∷ s) hf hg =
      walk_next-cong (c ∷ s) (walk_loop u f) (walk_loop u g) (u.iterate (c ∷ s)) λ x n e.
        walk_loop-fuel f g (drop n (c ∷ s))
          (omega (arith, length-drop n (c ∷ s), u.iterate-length (c ∷ s) x n e))
          (omega (arith, length-drop n (c ∷ s), u.iterate-length (c ∷ s) x n e))

  -- One round of the walk.
  pub walk-cons :
      (c : ℕ) (s : Bytes) → walk u (c ∷ s) ≡ walk_next (c ∷ s) (walk u) (u.iterate (c ∷ s))
  unfolding walk walk_loop
  walk-cons c s =
      walk_next-cong (c ∷ s) (walk_loop u (length s)) (λ t. walk_loop u (length t) t)
        (u.iterate (c ∷ s))
        λ x n e.
          walk_loop-fuel (length s) (length (drop n (c ∷ s))) (drop n (c ∷ s))
            (omega (arith, length-drop n (c ∷ s), u.iterate-length (c ∷ s) x n e)) (omega arith)

  pub walk-nil : walk u [] ≡ finish
  unfolding walk walk_loop
  walk-nil = refl

  -- An ASCII byte is a scalar of its own, wherever it stands.
  pub walk-ascii : (c : ℕ) (s : Bytes) → c < 128 → walk u (c ∷ s) ≡ scalar c (c ∷ []) (walk u s)
  unfolding walk_next
  walk-ascii c s h = rw (walk-cons, u.iterate-ascii c s h) refl

-- What is read of a text from one offset on: nothing at its end; where `iterate` reads no scalar, the text
-- is invalid; where it reads one of `n` bytes, that scalar, those bytes, and what is read after them.
pub data Reads (u : Unicode) : Bytes → Scalars → Type 0 where
  at_end : Reads u [] finish
  malformed : (c : ℕ) (s : Bytes) → u.iterate (c ∷ s) ≡ none → Reads u (c ∷ s) invalid
  reads :
      (c : ℕ) (s : Bytes) (x n : ℕ) (rest : Scalars)
      → u.iterate (c ∷ s) ≡ some (x, n)
      → Reads u (drop n (c ∷ s)) rest
      → Reads u (c ∷ s) (scalar x (take n (c ∷ s)) rest)

walk_next-Reads :
    (u : Unicode) (c : ℕ) (s : Bytes) (r : Bytes → Scalars) (o : Option (ℕ × ℕ))
    → u.iterate (c ∷ s) ≡ o
    → ((x n : ℕ) → o ≡ some (x, n) → Reads u (drop n (c ∷ s)) (r (drop n (c ∷ s))))
    → Reads u (c ∷ s) (walk_next (c ∷ s) r o)
unfolding walk_next
walk_next-Reads u c s r none e h = malformed c s e
walk_next-Reads u c s r (some (x, n)) e h = reads c s x n (r (drop n (c ∷ s))) e (h x n refl)

walk_loop-Reads : (u : Unicode) (f : ℕ) (s : Bytes) → length s ≤ f → Reads u s (walk_loop u f s)
unfolding walk_loop
walk_loop-Reads u zero [] l = at_end
walk_loop-Reads u zero (c ∷ s) l = absurd (omega arith)
walk_loop-Reads u (suc f) [] l = at_end
walk_loop-Reads u (suc f) (c ∷ s) l =
    walk_next-Reads u c s (walk_loop u f) (u.iterate (c ∷ s)) refl λ x n e.
      walk_loop-Reads u f (drop n (c ∷ s))
        (omega (arith, length-drop n (c ∷ s), u.iterate-length (c ∷ s) x n e))

-- The walk over a text reads it from the first byte to the last, each scalar with its bytes where
-- the one before it ends. It stops early exactly where `iterate` reads no scalar, and never because
-- its fuel, the length of the text, is used up.
pub walk-Reads : (u : Unicode) (s : Bytes) → Reads u s (walk u s)
unfolding walk
walk-Reads u s = walk_loop-Reads u (length s) s (omega arith)

-- Induction over a walk: what holds of the ends, and of one more scalar that `iterate` has read.
module _ (u : Unicode) (P : Scalars → Type 0) (at_finish : P finish) (at_invalid : P invalid)
    (at_scalar : (c : ℕ) (s : Bytes) (x n : ℕ) (rest : Scalars)
      → u.iterate (c ∷ s) ≡ some (x, n)
      → P rest
      → P (scalar x (take n (c ∷ s)) rest)) where
  at_next :
      (c : ℕ) (s : Bytes) (r : Bytes → Scalars) (o : Option (ℕ × ℕ))
      → u.iterate (c ∷ s) ≡ o
      → ((t : Bytes) → P (r t))
      → P (walk_next (c ∷ s) r o)
  unfolding walk_next
  at_next c s r none e h = at_invalid
  at_next c s r (some (x, n)) e h = at_scalar c s x n (r (drop n (c ∷ s))) e (h (drop n (c ∷ s)))

  at_loop : (f : ℕ) (s : Bytes) → P (walk_loop u f s)
  unfolding walk_loop
  at_loop zero [] = at_finish
  at_loop zero (c ∷ s) = at_invalid
  at_loop (suc f) [] = at_finish
  at_loop (suc f) (c ∷ s) = at_next c s (walk_loop u f) (u.iterate (c ∷ s)) refl (at_loop f)

  pub walk_induction : (s : Bytes) → P (walk u s)
  unfolding walk
  walk_induction s = at_loop (length s) s
