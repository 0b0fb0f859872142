-- ===== src/Domain/Id/Value.antt =====
-- The encoder keeps the number that the bytes spell, so that no two byte arrays share a text.

use wiki.Base.{
  ℕ, zero, suc, ◌+◌, ◌*◌, ◌/◌, ◌%◌, ◌^◌, ◌<◌, ◌≡◌, refl, sym, ap, ap₂, ◌∙◌, List, [], ◌∷◌, ◌++◌,
  arith, Bytes, length, All,
}
use wiki.Domain.Id.{
  Encoder, crockford_at, take_digit, drain, push_byte, push_bytes, flush, fresh, encode_ulid,
}
use wiki.Domain.Id.Crockford.{digit_value, digit_value-crockford_at}
use wiki.Domain.Id.Length.{Digits, push_byte-Digits, push_bytes-Digits}

-- The number that digits spell in base 32, and bytes in base 256.
unfoldable pub digits_value : ℕ → Bytes → ℕ
digits_value v [] = v
digits_value v (c ∷ s) = digits_value (v * 32 + digit_value c) s

unfoldable pub bytes_value : ℕ → List ℕ → ℕ
bytes_value v [] = v
bytes_value v (b ∷ bs) = bytes_value (v * 256 + b) bs

digits_value-append :
    (v : ℕ) (s t : Bytes) → digits_value v (s ++ t) ≡ digits_value (digits_value v s) t
unfolding digits_value
digits_value-append v [] t = refl
digits_value-append v (c ∷ s) t = digits_value-append (v * 32 + digit_value c) s t

-- The digits written and the `bits` low bits of the buffer spell what was read.
abbrev Spells : ℕ → Encoder → Type 0
Spells v e = digits_value 0 e.encoded * 2 ^ e.bits + e.buffer % 2 ^ e.bits ≡ v

-- One round at a number of bits that the loop meets.
take_digit_value :
    (buffer r : ℕ) (s : Bytes)
    → digits_value 0 (s ++ crockford_at (buffer / r % 32) ∷ [])
      ≡ digits_value 0 s * 32 + buffer / r % 32
unfolding digits_value
take_digit_value buffer r s = rw (digits_value-append 0 s) (
    ap (λ (d : ℕ). digits_value 0 s * 32 + d)
      (digit_value-crockford_at (buffer / r % 32) (omega arith)))

push_byte-Spells :
    (v byte bits buffer : ℕ) (s : Bytes)
    → bits < 5
    → byte < 256
    → Spells v (record { buffer = buffer; bits = bits; encoded = s })
    → Spells
        (v * 256 + byte)
        (push_byte (record { buffer = buffer; bits = bits; encoded = s }) byte)
unfolding push_byte drain take_digit
push_byte-Spells v byte zero buffer s lt b h = rw take_digit_value (omega arith)
push_byte-Spells v byte (suc zero) buffer s lt b h = rw take_digit_value (omega arith)
push_byte-Spells v byte (suc (suc zero)) buffer s lt b h =
    rw (take_digit_value, take_digit_value) (omega arith)
push_byte-Spells v byte (suc (suc (suc zero))) buffer s lt b h =
    rw (take_digit_value, take_digit_value) (omega arith)
push_byte-Spells v byte (suc (suc (suc (suc zero)))) buffer s lt b h =
    rw (take_digit_value, take_digit_value) (omega arith)
push_byte-Spells v byte (suc (suc (suc (suc (suc n))))) buffer s lt b h = absurd (omega arith)

push_bytes-Spells :
    (v total : ℕ) (e : Encoder) (bytes : List ℕ)
    → Digits total e
    → e.bits < 5
    → All (λ b. b < 256) bytes
    → Spells v e
    → Spells (bytes_value v bytes) (push_bytes e bytes)
unfolding push_bytes bytes_value
push_bytes-Spells v total e [] d lt small h = h
push_bytes-Spells v total e (byte ∷ bytes) d lt (b, small) h =
    let next = push_byte-Digits total byte e d lt in
    push_bytes-Spells (v * 256 + byte) (total + 8) (push_byte e byte) bytes next.0 next.1 small
      (push_byte-Spells v byte e.bits e.buffer e.encoded lt b h)

flush-zero : (e : Encoder) → e.bits ≡ 0 → flush e ≡ e.encoded
unfolding flush
flush-zero e h = ground arith

Spells-zero :
    (v bits buffer : ℕ) (s : Bytes)
    → bits ≡ 0
    → Spells v (record { buffer = buffer; bits = bits; encoded = s })
    → digits_value 0 s ≡ v
Spells-zero v zero buffer s z h = omega arith
Spells-zero v (suc n) buffer s z h = absurd (omega arith)

-- The digits of sixteen bytes spell, in base 32, the number that the bytes spell in base 256.
pub digits_value-encode_ulid :
    (bytes : List ℕ)
    → length bytes ≡ 16
    → All (λ b. b < 256) bytes
    → digits_value 0 (encode_ulid bytes) ≡ bytes_value 0 bytes
unfolding encode_ulid
digits_value-encode_ulid bytes len small =
    rw (flush-zero e bits) (Spells-zero (bytes_value 0 bytes) e.bits e.buffer e.encoded bits spells)
  where
    e : Encoder
    e = push_bytes fresh bytes

    d : Digits (2 + 8 * length bytes) e × (e.bits < 5)
    d = push_bytes-Digits 2 fresh bytes (omega arith) (omega arith)

    spells : Spells (bytes_value 0 bytes) e
    spells =
        push_bytes-Spells 0 2 fresh bytes (omega arith) (omega arith) small
          (unfold digits_value in omega arith)

    bits : e.bits ≡ 0
    bits = omega (arith, d)

bytes_value-injective :
    (v w : ℕ) (bs cs : List ℕ)
    → length bs ≡ length cs
    → All (λ b. b < 256) bs
    → All (λ b. b < 256) cs
    → bytes_value v bs ≡ bytes_value w cs
    → (v ≡ w) × (bs ≡ cs)
unfolding bytes_value
bytes_value-injective v w [] [] l hb hc h = (h, refl)
bytes_value-injective v w [] (c ∷ cs) l hb hc h = absurd (omega arith)
bytes_value-injective v w (b ∷ bs) [] l hb hc h = absurd (omega arith)
bytes_value-injective v w (b ∷ bs) (c ∷ cs) l (hb, hbs) (hc, hcs) h =
    let (e, t) = bytes_value-injective (v * 256 + b) (w * 256 + c) bs cs (omega arith) hbs hcs h in
    (omega arith, ap₂ ◌∷◌ (omega arith) t)

-- Two arrays of sixteen bytes with the same text are the same: no bit of the clock or of the random
-- values is lost.
pub encode_ulid-injective :
    (bs cs : List ℕ)
    → length bs ≡ 16
    → length cs ≡ 16
    → All (λ b. b < 256) bs
    → All (λ b. b < 256) cs
    → encode_ulid bs ≡ encode_ulid cs
    → bs ≡ cs
encode_ulid-injective bs cs lb lc hb hc h =
    (bytes_value-injective 0 0 bs cs (omega arith) hb hc (
      sym (digits_value-encode_ulid bs lb hb)
      ∙ ap (digits_value 0) h
      ∙ digits_value-encode_ulid cs lc hc)).1
