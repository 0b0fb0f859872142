-- ===== src/Domain/Markdown/Literal.antt =====
-- What `markdown_literal` promises: the prose comes back, and no ownership marker and no line break
-- can be written through it.
use wiki.Base.{
  ℕ, ◌≤◌, ◌<◌, ◌≡◌, ◌≢◌, refl, ap, ◌∙◌, ◌⊎◌, inl, inr, Bool, true, false, not, ◌||◌, none, some, [],
  ◌∷◌, ◌++◌, arith, Bytes, ok, codes, ◌==◌, if◌then◌else◌, is_empty, all, all-append, Bool-cases,
  >>=-eq-ok, ok-cancel, subst, starts_with, find, find-cons-none, take, All,
}
use native.Mathlib.Decide.{dec_lt}
use wiki.Domain.Unicode.Walk.{walk_induction}
use wiki.Domain.Unicode.{Unicode, Scalars, finish, invalid, scalar, walk}
use wiki.Domain.Markdown.{
  is_whitespace, inline_loop, inline_text, is_punctuation, escape, markdown_literal,
  reserved_marker,
}

-- What a CommonMark reader does with backslashes before punctuation.
unfoldable pub unescape : Bytes → Bytes
unescape [] = []
unescape (c ∷ []) = c ∷ []
unescape (c ∷ d ∷ s) = elim (c == b'\\') [ true ↦ d ∷ unescape s | false ↦ c ∷ unescape (d ∷ s) ]

unescape_plain : (c : ℕ) (s : Bytes) → c ≢ b'\\' → unescape (c ∷ s) ≡ c ∷ unescape s
unfolding unescape
unescape_plain c [] h = refl
unescape_plain c (d ∷ s) h = ground arith

unescape-escape : (s : Bytes) → unescape (escape s) ≡ s
unfolding unescape escape is_punctuation
unescape-escape [] = refl
unescape-escape (c ∷ s) = elim (Bool-cases (is_punctuation c)) [
  | inl h ↦ rw h (unfold unescape in ap (◌∷◌ c) (unescape-escape s))
  | inr h ↦ rw h (unescape_plain c (escape s) (ground arith) ∙ ap (◌∷◌ c) (unescape-escape s))
]

-- A colon is never the first byte of escaped text.
escape-colon : (s t : Bytes) → starts_with (escape s) (b':' ∷ t) ≡ false
unfolding starts_with escape is_punctuation
escape-colon [] t = refl
escape-colon (c ∷ s) t = ground arith

escape-marker_here : (s : Bytes) → starts_with (escape s) reserved_marker ≡ false
unfolding starts_with escape is_punctuation
escape-marker_here [] = refl
escape-marker_here (c ∷ []) = ground arith
escape-marker_here (c ∷ d ∷ s) = ground (arith, escape-colon s (codes "managed:"))

punctuation_marker :
    (c : ℕ) (s : Bytes) → is_punctuation c ≡ true → starts_with (c ∷ s) reserved_marker ≡ false
unfolding starts_with is_punctuation
punctuation_marker c s h = ground arith

find-escape : (s : Bytes) → find (escape s) reserved_marker ≡ none
unfolding escape
find-escape [] = unfold find starts_with in refl
find-escape (c ∷ s) = elim (Bool-cases (is_punctuation c)) [
  | inl h ↦ rw h (
      find-cons-none b'\\' (c ∷ escape s) reserved_marker (unfold starts_with in refl) (
        find-cons-none c (escape s) reserved_marker (punctuation_marker c (escape s) h)
          (find-escape s)))
  | inr h ↦ rw h (
      find-cons-none c (escape s) reserved_marker
        (subst (λ t. starts_with t reserved_marker ≡ false) (rw h refl)
          (escape-marker_here (c ∷ s)))
        (find-escape s))
]

-- Bytes that end or break a line.
unfoldable pub breaks_line : ℕ → Bool
breaks_line c = c == b'\n' || c == b'\r' || c == b'\t'

abbrev pub NoBreak : Bytes → Type 0
NoBreak s = all (λ c. not (breaks_line c)) s ≡ true

-- What the walk says of each scalar: an ASCII byte alone, or bytes that are all above.
abbrev Faithful : Scalars → Type 0
Faithful finish = Unit
Faithful invalid = Unit
Faithful (scalar x bs rest) = ((bs ≡ x ∷ []) ⊎ NoBreak bs) × Faithful rest

wide-NoBreak : (s : Bytes) → All (λ b. 128 ≤ b) s → NoBreak s
unfolding breaks_line
wide-NoBreak [] h = refl
wide-NoBreak (c ∷ s) (h, hs) = ground (arith, wide-NoBreak s hs)

take_one : (x : ℕ) (s : Bytes) → take 1 (x ∷ s) ≡ x ∷ []
take_one x s = refl

ascii_scalar :
    (u : Unicode) (c : ℕ) (s : Bytes) (x n : ℕ)
    → u.iterate (c ∷ s) ≡ some (x, n)
    → c < 128
    → take n (c ∷ s) ≡ x ∷ []
ascii_scalar u c s x n e h =
    let both : (c ≡ x) × (1 ≡ n) = ground (arith, u.iterate-ascii c s h) in
    rw (← both.1, ← both.0) refl

walk-Faithful : (u : Unicode) (s : Bytes) → Faithful (walk u s)
walk-Faithful u = walk_induction u Faithful tt tt λ c s x n rest e h. elim (dec_lt c 128) [
  | yes lt ↦ (inl (ascii_scalar u c s x n e lt), h)
  | no ge ↦ (inr (wide-NoBreak (take n (c ∷ s)) (u.iterate-wide c s x n (omega arith) e).1), h)
]

NoBreak-append : (s t : Bytes) → NoBreak s → NoBreak t → NoBreak (s ++ t)
NoBreak-append s t h k = rw (all-append (λ c. not (breaks_line c)) s t, h) k

scalar-NoBreak :
    (u : Unicode) (x : ℕ) (bs : Bytes)
    → is_whitespace u x ≡ false
    → (bs ≡ x ∷ []) ⊎ NoBreak bs
    → NoBreak bs
unfolding is_whitespace breaks_line
scalar-NoBreak u x bs w (inl e) = rw e (ground arith)
scalar-NoBreak u x bs w (inr h) = h

inline_loop-NoBreak :
    (u : Unicode) (w : Scalars) (pending : Bool) (output t : Bytes)
    → Faithful w
    → NoBreak output
    → inline_loop u w pending output ≡ ok t
    → NoBreak t
unfolding inline_loop
inline_loop-NoBreak u finish pending output t f o h = subst NoBreak (ok-cancel h) o
inline_loop-NoBreak u invalid pending output t f o h = cc
inline_loop-NoBreak u (scalar x bs rest) pending output t (f, fs) o h =
    elim (Bool-cases (is_whitespace u x)) [
      | inl w ↦
          inline_loop-NoBreak u rest (not (is_empty output)) output t fs o
            (rw (w, inline_loop) at h)
      | inr w ↦
          inline_loop-NoBreak u rest false (spaced ++ bs) t fs
            (NoBreak-append spaced bs spaced_ok (scalar-NoBreak u x bs w f)) (ground arith)
    ]
  where
    spaced : Bytes
    spaced = if pending then output ++ b' ' ∷ [] else output

    spaced_ok : NoBreak spaced
    spaced_ok = elim (Bool-cases pending) [
      | inl e ↦ rw e (NoBreak-append output (b' ' ∷ []) o (unfold breaks_line in refl))
      | inr e ↦ rw e o
    ]

inline_text-NoBreak : (u : Unicode) (s t : Bytes) → inline_text u s ≡ ok t → NoBreak t
unfolding inline_text
inline_text-NoBreak u s t h = inline_loop-NoBreak u (walk u s) false [] t (walk-Faithful u s) refl h

escape-NoBreak : (s : Bytes) → NoBreak s → NoBreak (escape s)
unfolding escape breaks_line
escape-NoBreak [] h = refl
escape-NoBreak (c ∷ s) h = ground (arith, escape-NoBreak s)

-- What `markdown_literal` returns: undoing the escapes gives the flattened prose back, the text
-- cannot hold the ownership marker, and it stays on one line (no newline, return or tab).
pub markdown_literal_lem :
    (u : Unicode) (s t : Bytes)
    → markdown_literal u s ≡ ok t
    → (inline_text u s ≡ ok (unescape t)) × (find t reserved_marker ≡ none) × NoBreak t
unfolding markdown_literal
markdown_literal_lem u s t h =
    let (flat, e, k) = >>=-eq-ok (inline_text u s) (λ f. ok (escape f)) h in
    let t_eq : escape flat ≡ t = ok-cancel k in
    subst (λ t. (inline_text u s ≡ ok (unescape t)) × (find t reserved_marker ≡ none) × NoBreak t)
      t_eq
      (rw unescape-escape e, find-escape flat, escape-NoBreak flat (inline_text-NoBreak u s flat e))
