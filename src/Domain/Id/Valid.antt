-- ===== src/Domain/Id/Valid.antt =====
-- What the generator makes, the test accepts.
use wiki.Base.{
  ℕ, zero, suc, ◌+◌, ◌-◌, ◌*◌, ◌/◌, ◌%◌, ◌^◌, ◌<◌, ◌≡◌, refl, true, List, [], ◌∷◌, ◌++◌, arith,
  Bytes, length, length-append, drop-length-append, starts_with,
}
use wiki.Domain.Id.{
  Encoder, crockford_at, take_digit, drain, push_byte, push_bytes, flush, fresh, encode_ulid,
  make_ulid_bytes, timestamp_bytes, front_ok, is_valid_id, generate_prefixed_ulid,
}
use wiki.Domain.Id.Crockford.{crockford_at_front}
use wiki.Domain.Id.Length.{length-encode_ulid, all-encode_ulid}

front_ok-append : (s t : Bytes) → front_ok s ≡ true → front_ok (s ++ t) ≡ true
unfolding front_ok
front_ok-append [] t h = cc
front_ok-append (c ∷ s) t h = h

-- Digits that are written stay in front.
drain-front :
    (fuel : ℕ) (e : Encoder) → front_ok e.encoded ≡ true → front_ok (drain fuel e).encoded ≡ true
unfolding drain take_digit
drain-front zero e h = h
drain-front (suc fuel) e h = ground (
  arith,
  drain-front fuel (take_digit e),
  front_ok-append e.encoded (crockford_at (e.buffer / 2 ^ (e.bits - 5) % 32) ∷ []) h,
)

push_bytes-front :
    (e : Encoder) (bytes : List ℕ)
    → front_ok e.encoded ≡ true
    → front_ok (push_bytes e bytes).encoded ≡ true
unfolding push_bytes push_byte
push_bytes-front e [] h = h
push_bytes-front e (byte ∷ bytes) h = push_bytes-front (push_byte e byte) bytes (drain-front 3 _ h)

first_front : (byte : ℕ) → byte < 256 → front_ok (push_byte fresh byte).encoded ≡ true
unfolding push_byte drain take_digit front_ok
first_front byte h = crockford_at_front ((0 + byte) % 4294967296 / 32 % 32) (omega arith)

encode_ulid-front :
    (byte : ℕ) (bytes : List ℕ) → byte < 256 → front_ok (encode_ulid (byte ∷ bytes)) ≡ true
unfolding encode_ulid flush push_bytes
encode_ulid-front byte bytes h = ground (
  arith,
  front,
  front_ok-append e.encoded (crockford_at (e.buffer * 2 ^ (5 - e.bits) % 2 ^ 32 % 32) ∷ []) front,
)
  where
    e : Encoder
    e = push_bytes fresh (byte ∷ bytes)

    front : front_ok e.encoded ≡ true
    front = push_bytes-front (push_byte fresh byte) bytes (first_front byte h)

starts_with-append : (s t : Bytes) → starts_with (s ++ t) s ≡ true
unfolding starts_with
starts_with-append [] [] = refl
starts_with-append [] (c ∷ t) = refl
starts_with-append (c ∷ s) t = ground (arith, starts_with-append s t)

-- A prefix and the encoding of 16 bytes, the first a byte, form a valid identifier.
pub is_valid_id-encode_ulid :
    (prefix : Bytes) (byte : ℕ) (bytes : List ℕ)
    → byte < 256
    → length bytes ≡ 15
    → is_valid_id (prefix ++ encode_ulid (byte ∷ bytes)) prefix ≡ true
unfolding is_valid_id
is_valid_id-encode_ulid prefix byte bytes b h = rw drop-length-append (
    ground (
      arith,
      starts_with-append prefix (encode_ulid (byte ∷ bytes)),
      length-append prefix (encode_ulid (byte ∷ bytes)),
      length-encode_ulid (byte ∷ bytes),
      encode_ulid-front byte bytes,
      all-encode_ulid (byte ∷ bytes),
    ))

-- Every generated identifier passes `is_valid_id` for its own prefix, whatever the clock says and
-- whatever ten random values were drawn.
pub is_valid_id-generate_prefixed_ulid :
    (prefix : Bytes) (milliseconds : ℕ) (random : List ℕ)
    → length random ≡ 10
    → is_valid_id (generate_prefixed_ulid prefix milliseconds random) prefix ≡ true
unfolding generate_prefixed_ulid make_ulid_bytes timestamp_bytes
is_valid_id-generate_prefixed_ulid prefix milliseconds random h =
    is_valid_id-encode_ulid prefix _ _ (omega arith) (omega arith)
