-- ===== src/Domain/Id.antt =====
-- libs/domain/src/id.cpp: prefixed ULIDs. The clock and the random generator are arguments.
pub mod Crockford
pub mod Length
pub mod Value
pub mod Valid
use wiki.Base.{
  ℕ, zero, suc, ◌+◌, ◌-◌, ◌*◌, ◌/◌, ◌%◌, ◌^◌, Bool, true, false, not, ◌&&◌, ◌||◌, List, [], ◌∷◌,
  ◌++◌, Bytes, codes, ltb, leb, between, ◌==◌, if◌then◌else◌, length, take, drop, get_or, any, all,
  starts_with,
}

abbrev pub crockford : Bytes
crockford = codes "0123456789ABCDEFGHJKMNPQRSTVWXYZ"

-- `crockford[index]`
unfoldable pub crockford_at : ℕ → ℕ
crockford_at index = get_or crockford index 0

-- `crockford.find(character) != npos`
unfoldable pub crockford_has : ℕ → Bool
crockford_has character = any (λ c. c == character) crockford

-- The six timestamp bytes, most significant first: `(milliseconds >> (5 - index) * 8) & 0xff`.
unfoldable pub timestamp_bytes : ℕ → List ℕ
timestamp_bytes milliseconds =
    (milliseconds / 2 ^ 40 % 256)
    ∷ (milliseconds / 2 ^ 32 % 256)
    ∷ (milliseconds / 2 ^ 24 % 256)
    ∷ (milliseconds / 2 ^ 16 % 256)
    ∷ (milliseconds / 2 ^ 8 % 256)
    ∷ (milliseconds % 256)
    ∷ []

-- The ten random bytes fill the rest of the array.
unfoldable pub make_ulid_bytes : ℕ → List ℕ → List ℕ
make_ulid_bytes milliseconds random = timestamp_bytes milliseconds ++ random

pub record Encoder : Type 0 where
  pub buffer : ℕ
  pub bits : ℕ
  pub encoded : Bytes

-- One round of the inner loop takes five bits. `encoded[output++] = c` appends `c`.
unfoldable pub take_digit : Encoder → Encoder
take_digit e = record {
  buffer = e.buffer;
  bits = e.bits - 5;
  encoded = e.encoded ++ crockford_at (e.buffer / 2 ^ (e.bits - 5) % 32) ∷ [];
}

-- `while (bits >= 5)`, on fuel
unfoldable pub drain : ℕ → Encoder → Encoder
drain zero e = e
drain (suc fuel) e = let rest = drain fuel (take_digit e) in if leb 5 e.bits then rest else e

-- One byte: `buffer` is a `uint32_t`, so what `<< 8` pushes out is lost.
unfoldable pub push_byte : Encoder → ℕ → Encoder
push_byte e byte =
    drain 3
      (record { buffer = (e.buffer * 256 + byte) % 2 ^ 32; bits = e.bits + 8; encoded = e.encoded })

unfoldable pub push_bytes : Encoder → List ℕ → Encoder
push_bytes e [] = e
push_bytes e (byte ∷ bytes) = push_bytes (push_byte e byte) bytes

-- The last, incomplete digit.
unfoldable pub flush : Encoder → Bytes
flush e =
    if e.bits == 0
    then e.encoded
    else e.encoded ++ crockford_at (e.buffer * 2 ^ (5 - e.bits) % 2 ^ 32 % 32) ∷ []

abbrev pub fresh : Encoder
fresh = record { buffer = 0; bits = 2; encoded = [] }

unfoldable pub encode_ulid : List ℕ → Bytes
encode_ulid bytes = flush (push_bytes fresh bytes)

-- `body.front() < '0' || body.front() > '7'`, negated
unfoldable pub front_ok : Bytes → Bool
front_ok [] = false
front_ok (c ∷ body) = between 48 55 c

unfoldable pub is_valid_id : Bytes → Bytes → Bool
is_valid_id value prefix =
    let body = drop (length prefix) value in
    if not (starts_with value prefix) || not (length value == length prefix + 26)
    then false
    else front_ok body && all crockford_has body

unfoldable pub generate_prefixed_ulid : Bytes → ℕ → List ℕ → Bytes
generate_prefixed_ulid prefix milliseconds random =
    prefix ++ encode_ulid (make_ulid_bytes milliseconds random)
