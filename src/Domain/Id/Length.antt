-- ===== src/Domain/Id/Length.antt =====
-- The encoder writes one digit for every five bits, and writes digits only.
use wiki.Base.{
  ℕ, zero, suc, ◌+◌, ◌*◌, ◌/◌, ◌%◌, ◌^◌, ◌-◌, ◌<◌, ◌≤◌, ◌≡◌, refl, List, [], ◌∷◌, arith, length,
  length-append, all, all-concat, true,
}
use wiki.Domain.Id.{
  Encoder, crockford_has, take_digit, drain, push_byte, push_bytes, flush, fresh, encode_ulid,
}
use wiki.Domain.Id.Crockford.{crockford_has-crockford_at}

-- `bits` counts what is not yet written; two leading zero bits are counted as read.
abbrev pub Digits : ℕ → Encoder → Type 0
Digits total e = 5 * length e.encoded + e.bits ≡ total

take_digit-Digits :
    (total : ℕ) (e : Encoder) → 5 ≤ e.bits → Digits total e → Digits total (take_digit e)
unfolding take_digit
take_digit-Digits total e le h = omega (arith, length-append {0} e.encoded)

bits-take_digit :
    (e : Encoder) (fuel : ℕ) → 5 ≤ e.bits → e.bits < 5 * suc fuel → (take_digit e).bits < 5 * fuel
unfolding take_digit
bits-take_digit e fuel le h = omega arith

drain-Digits :
    (fuel total : ℕ) (e : Encoder)
    → Digits total e
    → e.bits < 5 * fuel
    → Digits total (drain fuel e) × ((drain fuel e).bits < 5)
unfolding drain
drain-Digits zero total e h lt = absurd (omega arith)
drain-Digits (suc fuel) total e h lt = ground (
  arith,
  take_digit-Digits total e,
  bits-take_digit e fuel,
  drain-Digits fuel total (take_digit e),
)

pub push_byte-Digits :
    (total byte : ℕ) (e : Encoder)
    → Digits total e
    → e.bits < 5
    → Digits (total + 8) (push_byte e byte) × ((push_byte e byte).bits < 5)
unfolding push_byte
push_byte-Digits total byte e h lt = drain-Digits 3 (total + 8) _ (omega arith) (omega arith)

pub push_bytes-Digits :
    (total : ℕ) (e : Encoder) (bytes : List ℕ)
    → Digits total e
    → e.bits < 5
    → Digits (total + 8 * length bytes) (push_bytes e bytes) × ((push_bytes e bytes).bits < 5)
unfolding push_bytes
push_bytes-Digits total e [] h lt = omega arith
push_bytes-Digits total e (byte ∷ bytes) h lt =
    ground
      (arith, push_byte-Digits total byte e, push_bytes-Digits (total + 8) (push_byte e byte) bytes)

-- Sixteen bytes give 26 digits, and no bit is left over.
pub length-encode_ulid : (bytes : List ℕ) → length bytes ≡ 16 → length (encode_ulid bytes) ≡ 26
unfolding encode_ulid flush
length-encode_ulid bytes h = ground (arith, push_bytes-Digits 2 fresh bytes)

drain-all :
    (fuel : ℕ) (e : Encoder)
    → all crockford_has e.encoded ≡ true
    → all crockford_has (drain fuel e).encoded ≡ true
unfolding drain take_digit
drain-all zero e h = h
drain-all (suc fuel) e h = ground (
  arith,
  drain-all fuel (take_digit e),
  all-concat crockford_has e.encoded _ h (crockford_has-crockford_at (e.buffer / 2 ^ (e.bits - 5))),
)

push_bytes-all :
    (e : Encoder) (bytes : List ℕ)
    → all crockford_has e.encoded ≡ true
    → all crockford_has (push_bytes e bytes).encoded ≡ true
unfolding push_bytes push_byte
push_bytes-all e [] h = h
push_bytes-all e (byte ∷ bytes) h = push_bytes-all (push_byte e byte) bytes (drain-all 3 _ h)

pub all-encode_ulid : (bytes : List ℕ) → all crockford_has (encode_ulid bytes) ≡ true
unfolding encode_ulid flush
all-encode_ulid bytes = ground (
  arith,
  push_bytes-all fresh bytes refl,
  all-concat crockford_has e.encoded _ (push_bytes-all fresh bytes refl)
      (crockford_has-crockford_at (e.buffer * 2 ^ (5 - e.bits) % 2 ^ 32)),
)
  where
    e : Encoder
    e = push_bytes fresh bytes
