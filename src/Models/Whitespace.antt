-- ===== src/Models/Whitespace.antt =====
-- `normalize_whitespace`, of which libs/models/src/proposal_validator.cpp,
-- libs/review/src/review_service.cpp, libs/compiler/src/compiler.cpp and
-- libs/vault/src/vault_writer.cpp each have a copy.
use wiki.Base.{
  ℕ, ◌≡◌, refl, sym, ap, Bool, true, false, not, ◌||◌, [], ◌∷◌, ◌++◌, append-nil, append_assoc,
  arith, Bytes, between, ◌==◌, if◌then◌else◌, is_empty, Bool-cases, inl, inr,
}

-- `std::isspace` in the C locale
unfoldable pub is_space : ℕ → Bool
is_space c = c == b' ' || between 9 13 c

-- The loop, over its variables `pending_space` and `normalized`.
unfoldable pub normalize_loop : Bytes → Bool → Bytes → Bytes
normalize_loop [] pending normalized = normalized
normalize_loop (c ∷ s) pending normalized = elim (is_space c) [
  | true ↦ normalize_loop s (not (is_empty normalized)) normalized
  | false ↦
      normalize_loop s false ((if pending then normalized ++ b' ' ∷ [] else normalized) ++ c ∷ [])
]

unfoldable pub normalize_whitespace : Bytes → Bytes
normalize_whitespace s = normalize_loop s false []

-- What the loop still appends: `started` says whether anything was written.
emit : Bool → Bool → Bytes → Bytes
emit started pending [] = []
emit started pending (c ∷ s) = elim (is_space c) [
  | true ↦ emit started started s
  | false ↦ if pending then b' ' ∷ c ∷ emit true false s else c ∷ emit true false s
]

started-append : (s t : Bytes) (c : ℕ) → not (is_empty (s ++ c ∷ t)) ≡ true
started-append [] t c = refl
started-append (d ∷ s) t c = refl

normalize_loop-emit :
    (s : Bytes) (pending : Bool) (out : Bytes)
    → normalize_loop s pending out ≡ out ++ emit (not (is_empty out)) pending s
unfolding normalize_loop emit
normalize_loop-emit [] pending out = sym (append-nil out)
normalize_loop-emit (c ∷ s) true out = elim (Bool-cases (is_space c)) [
  | inl h ↦ rw (h, normalize_loop, emit) (normalize_loop-emit s (not (is_empty out)) out)
  | inr h ↦
      rw (h, normalize_loop, emit)
        (rw
          (
            normalize_loop-emit s false ((out ++ b' ' ∷ []) ++ c ∷ []),
            started-append (out ++ b' ' ∷ []) [] c,
          )
          (simp append_assoc))
]
normalize_loop-emit (c ∷ s) false out = elim (Bool-cases (is_space c)) [
  | inl h ↦ rw (h, normalize_loop, emit) (normalize_loop-emit s (not (is_empty out)) out)
  | inr h ↦
      rw (h, normalize_loop, emit)
        (rw (normalize_loop-emit s false (out ++ c ∷ []), started-append out [] c)
          (simp append_assoc))
]

abbrev Settled : Bytes → Type 0
Settled t = emit true false t ≡ t

blank_is_space : is_space b' ' ≡ true
unfolding is_space
blank_is_space = refl

-- Normal text passes through, whether it comes right after a word or after a pending space.
emit-emit : (s : Bytes) → Settled (emit true false s) × Settled (emit true true s)
unfolding emit
emit-emit [] = (refl, refl)
emit-emit (c ∷ s) = elim (Bool-cases (is_space c)) [
  | inl h ↦ rw (h, emit) ((emit-emit s).1, (emit-emit s).1)
  | inr h ↦
      rw (h, emit)
        (
          rw (h, emit) (ap (◌∷◌ c) (emit-emit s).0),
          rw (blank_is_space, emit) (rw (h, emit) (ap (λ t. b' ' ∷ c ∷ t) (emit-emit s).0)),
        )
]

emit-first : (s : Bytes) → emit false false (emit false false s) ≡ emit false false s
unfolding emit
emit-first [] = refl
emit-first (c ∷ s) = elim (Bool-cases (is_space c)) [
  | inl h ↦ rw (h, emit) (emit-first s)
  | inr h ↦ rw (h, emit) (rw (h, emit) (ap (◌∷◌ c) (emit-emit s).0))
]

-- The bytes that are no white space.
unfoldable pub visible : Bytes → Bytes
visible [] = []
visible (c ∷ s) = if is_space c then visible s else c ∷ visible s

visible-emit : (started pending : Bool) (s : Bytes) → visible (emit started pending s) ≡ visible s
unfolding visible emit
visible-emit started pending [] = refl
visible-emit started pending (c ∷ s) =
    ground (arith, blank_is_space, visible-emit started started s, visible-emit true false s)

emit-normalize_whitespace : (s : Bytes) → normalize_whitespace s ≡ emit false false s
unfolding normalize_whitespace
emit-normalize_whitespace s = normalize_loop-emit s false []

-- Normalising white space twice is normalising it once, and it changes no other byte: what is
-- visible stays, in order.
pub normalize_whitespace_lem :
    (s : Bytes)
    → (normalize_whitespace (normalize_whitespace s) ≡ normalize_whitespace s)
      × (visible (normalize_whitespace s) ≡ visible s)
normalize_whitespace_lem s = (
  rw (emit-normalize_whitespace s, emit-normalize_whitespace (emit false false s)) (emit-first s),
  rw (emit-normalize_whitespace s) (visible-emit false false s),
)
