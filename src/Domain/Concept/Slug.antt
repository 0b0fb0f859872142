-- ===== src/Domain/Concept/Slug.antt =====
-- The form of a slug: the regular expression of libs/domain/src/types.cpp and
-- libs/models/src/proposal_validator.cpp, and the slugs that concept.cpp makes.
use wiki.Base.{
  ℕ, zero, suc, ◌*◌, ◌/◌, ◌%◌, ◌^◌, ◌<◌, ◌≡◌, ◌≢◌, refl, ap, ◌∙◌, ◌⊎◌, inl, inr, Bool, true, false,
  not, [], ◌∷◌, ◌++◌, arith, Bytes, ok, codes, ◌==◌, if◌then◌else◌, is_empty, all, subst, ok-cancel,
  checked, checked-below, Bool-cases, >>=-eq-ok, append-nil,
}
use wiki.Domain.Unicode.{Unicode}
use wiki.Domain.Concept.{
  ends_with_byte, strip_back, separate, symbol_word, is_slug_byte, slug_step, slug_loop, hash_loop,
  hex_digit, hex_loop, slug_of_key, canonical_concept_slug, concept_identity_key,
}

-- The automaton of `^[a-z0-9]+(?:-[a-z0-9]+)*$`.
pub data SlugState : Type 0 where
  start word dash reject : SlugState

unfoldable pub slug_next : SlugState → ℕ → SlugState
slug_next start c = if is_slug_byte c then word else reject
slug_next word c = if is_slug_byte c then word else if c == b'-' then dash else reject
slug_next dash c = if is_slug_byte c then word else reject
slug_next reject c = reject

unfoldable pub slug_run : SlugState → Bytes → SlugState
slug_run q [] = q
slug_run q (c ∷ s) = slug_run (slug_next q c) s

is_word : SlugState → Bool
is_word word = true
is_word start = false
is_word dash = false
is_word reject = false

-- `std::regex_match(slug, …)`
unfoldable pub is_slug : Bytes → Bool
unfolding is_word
is_slug s = is_word (slug_run start s)

slug_run-append : (q : SlugState) (s t : Bytes) → slug_run q (s ++ t) ≡ slug_run (slug_run q s) t
unfolding slug_run
slug_run-append q [] t = refl
slug_run-append q (c ∷ s) t = slug_run-append (slug_next q c) s t

abbrev IsWord : Bytes → Type 0
IsWord s = slug_run start s ≡ word

-- What the loop has built: nothing, a slug, or a slug and one dash.
abbrev Partial : Bytes → Type 0
Partial s = (s ≡ []) ⊎ IsWord s ⊎ ((w : Bytes) × (s ≡ w ++ b'-' ∷ []) × IsWord w)

-- From any state but `reject`, slug bytes lead to `word`.
run-word : (t : Bytes) → all is_slug_byte t ≡ true → slug_run word t ≡ word
unfolding slug_run slug_next
run-word [] h = refl
run-word (c ∷ t) h = ground (arith, run-word t)

slug_next-word : (q : SlugState) (c : ℕ) → q ≢ reject → is_slug_byte c ≡ true → slug_next q c ≡ word
unfolding slug_next
slug_next-word start c n h = rw h
slug_next-word word c n h = rw h
slug_next-word dash c n h = rw h
slug_next-word reject c n h = absurd (n refl)

run-dash : (w : Bytes) → IsWord w → slug_run start (w ++ b'-' ∷ []) ≡ dash
unfolding slug_run slug_next is_slug_byte
run-dash w h = rw (slug_run-append start w, h) refl

Partial-run : (s : Bytes) → Partial s → slug_run start s ≢ reject
unfolding slug_run
Partial-run s (inl e) h = cc (ap (slug_run start) e)
Partial-run s (inr (inl w)) h = cc
Partial-run s (inr (inr (w, e, k))) h = cc (ap (slug_run start) e, run-dash w k)

push-IsWord :
    (c : ℕ) (s t : Bytes)
    → is_slug_byte c ≡ true
    → all is_slug_byte t ≡ true
    → Partial s
    → IsWord (s ++ c ∷ t)
push-IsWord c s t h a p =
    rw (slug_run-append start s) (
      unfold slug_run in
      rw (slug_next-word (slug_run start s) c (Partial-run s p) h) (run-word t a))

push-Partial : (s t : Bytes) → all is_slug_byte t ≡ true → Partial s → Partial (s ++ t)
push-Partial s [] a p = rw append-nil p
push-Partial s (c ∷ t) a p = inr (inl (push-IsWord c s t (ground arith) (ground arith) p))

-- A slug is not empty and does not end in a dash.
run_end : (q : SlugState) (s : Bytes) → slug_run q s ≡ word → ends_with_byte b'-' s ≡ false
unfolding slug_run ends_with_byte slug_next is_slug_byte
run_end q [] h = refl
run_end start (c ∷ []) h = ground arith
run_end word (c ∷ []) h = ground arith
run_end dash (c ∷ []) h = ground arith
run_end reject (c ∷ []) h = cc
run_end q (c ∷ d ∷ s) h = run_end (slug_next q c) (d ∷ s) h

run_strip : (q : SlugState) (s : Bytes) → slug_run q s ≡ word → strip_back b'-' s ≡ s
unfolding slug_run strip_back slug_next is_slug_byte
run_strip q [] h = refl
run_strip start (c ∷ []) h = ground arith
run_strip word (c ∷ []) h = ground arith
run_strip dash (c ∷ []) h = ground arith
run_strip reject (c ∷ []) h = cc
run_strip q (c ∷ d ∷ s) h = ground (arith, run_strip (slug_next q c) (d ∷ s))

ends_with_byte-append : (c : ℕ) (w : Bytes) → ends_with_byte c (w ++ c ∷ []) ≡ true
unfolding ends_with_byte
ends_with_byte-append c [] = ground arith
ends_with_byte-append c (d ∷ []) = ground arith
ends_with_byte-append c (d ∷ e ∷ w) = ends_with_byte-append c (e ∷ w)

strip_back-append : (c : ℕ) (w : Bytes) → strip_back c (w ++ c ∷ []) ≡ strip_back c w
unfolding strip_back
strip_back-append c [] = ground arith
strip_back-append c (d ∷ w) = rw (strip_back-append c w)

separate-word : (s : Bytes) → IsWord s → separate s ≡ s ++ b'-' ∷ []
unfolding separate
separate-word [] w = unfold slug_run in cc
separate-word (c ∷ s) w = ground (arith, run_end start (c ∷ s))

separate-dash : (w : Bytes) → separate (w ++ b'-' ∷ []) ≡ w ++ b'-' ∷ []
unfolding separate
separate-dash w = ground (arith, ends_with_byte-append b'-' w)

separate-Partial : (s : Bytes) → Partial s → Partial (separate s)
unfolding separate
separate-Partial s (inl e) = rw e (inl refl)
separate-Partial s (inr (inl w)) = inr (inr (s, separate-word s w, w))
separate-Partial s (inr (inr (w, e, k))) = inr (inr (w, ap separate e ∙ separate-dash w, k))

symbol_word-all : (c : ℕ) → all is_slug_byte (symbol_word c) ≡ true
unfolding symbol_word is_slug_byte
symbol_word-all c = ground arith

slug_step-Partial : (c : ℕ) (s : Bytes) → Partial s → Partial (slug_step c s)
unfolding slug_step
slug_step-Partial c s p = elim (Bool-cases (is_slug_byte c)) [
  | inl h ↦ rw h (push-Partial s (c ∷ []) (rw h) p)
  | inr h ↦ rw h (elim (Bool-cases (c == 39)) [
    | inl q ↦ rw q p
    | inr q ↦
        rw q (push-Partial (separate s) (symbol_word c) (symbol_word-all c) (separate-Partial s p))
  ])
]

slug_loop-Partial : (key s : Bytes) → Partial s → Partial (slug_loop key s)
unfolding slug_loop
slug_loop-Partial [] s p = p
slug_loop-Partial (c ∷ key) s p = slug_loop-Partial key (slug_step c s) (slug_step-Partial c s p)

strip-Partial : (s : Bytes) → Partial s → (strip_back b'-' s ≡ []) ⊎ IsWord (strip_back b'-' s)
strip-Partial s (inl e) = inl (unfold strip_back in rw e)
strip-Partial s (inr (inl w)) = inr (rw (run_strip start s w) w)
strip-Partial s (inr (inr (w, e, k))) = inr (rw (e, strip_back-append, run_strip start w k) k)

hex_table : checked (λ n. is_slug_byte (hex_digit n)) 16 ≡ true
unfolding checked is_slug_byte hex_digit
hex_table = refl

hex_digit-slug : (n : ℕ) → n < 16 → is_slug_byte (hex_digit n) ≡ true
hex_digit-slug n h = checked-below (λ n. is_slug_byte (hex_digit n)) 16 n h hex_table

hex_loop-all : (n hash : ℕ) → all is_slug_byte (hex_loop n hash) ≡ true
unfolding hex_loop
hex_loop-all zero hash = refl
hex_loop-all (suc n) hash =
    rw (hex_digit-slug (hash / 2 ^ (4 * n) % 16) (omega arith)) (hex_loop-all n hash)

concept_Partial : Partial (codes "concept-")
unfolding slug_run slug_next is_slug_byte
concept_Partial = inr (inr (codes "concept", refl, refl))

fallback-IsWord : (n hash : ℕ) → IsWord (codes "concept-" ++ hex_loop (suc n) hash)
unfolding hex_loop
fallback-IsWord n hash =
    push-IsWord (hex_digit (hash / 2 ^ (4 * n) % 16)) (codes "concept-") (hex_loop n hash)
      (hex_digit-slug (hash / 2 ^ (4 * n) % 16) (omega arith)) (hex_loop-all n hash) concept_Partial

choose-IsWord :
    (slug fallback : Bytes)
    → (slug ≡ []) ⊎ IsWord slug
    → IsWord fallback
    → IsWord (if not (is_empty slug) then slug else fallback)
choose-IsWord [] fallback p f = f
choose-IsWord (c ∷ slug) fallback (inl e) f = cc
choose-IsWord (c ∷ slug) fallback (inr w) f = w

-- Whatever the key, its slug has the form that proposals are held to.
slug_of_key-IsWord : (key : Bytes) → IsWord (slug_of_key key)
unfolding slug_of_key
slug_of_key-IsWord key =
    choose-IsWord (strip_back b'-' (slug_loop key [])) _
      (strip-Partial (slug_loop key []) (slug_loop-Partial key [] (inl refl)))
      (fallback-IsWord 15 (hash_loop key 14695981039346656037))

-- Every slug that is made from a title matches the regular expression that proposals and requests
-- are checked against.
pub is_slug-canonical_concept_slug :
    (u : Unicode) (title slug : Bytes)
    → canonical_concept_slug u title ≡ ok slug
    → is_slug slug ≡ true
unfolding canonical_concept_slug is_slug is_word
is_slug-canonical_concept_slug u title slug h =
    let (key, e, k) = >>=-eq-ok (concept_identity_key u title) (λ key. ok (slug_of_key key)) h in
    ap is_word (subst IsWord (ok-cancel k) (slug_of_key-IsWord key))
