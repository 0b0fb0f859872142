-- ===== src/Domain/Sha256.antt =====
-- libs/domain/src/sha256.cpp. A word is a number below 2 ^ 32. `block` holds the bytes of `block_` that are
-- written, so `block_size_` is its length.
pub mod Chunks
use Prim.Native.Nat.{bit_and, bit_xor}
use wiki.Base.{
  ℕ, zero, suc, ◌+◌, ◌-◌, ◌*◌, ◌/◌, ◌%◌, ◌^◌, Bool, true, false, List, [], ◌∷◌, ◌++◌, Bytes, ltb,
  leb, ◌==◌, if◌then◌else◌, length, get_or, replicate,
}

abbrev pub word : ℕ
word = 4294967296

abbrev pub round_constants : List ℕ
round_constants =
    0x428a2f98 ∷ 0x71374491 ∷ 0xb5c0fbcf ∷ 0xe9b5dba5 ∷ 0x3956c25b ∷ 0x59f111f1 ∷ 0x923f82a4
    ∷ 0xab1c5ed5 ∷ 0xd807aa98 ∷ 0x12835b01 ∷ 0x243185be ∷ 0x550c7dc3 ∷ 0x72be5d74 ∷ 0x80deb1fe
    ∷ 0x9bdc06a7 ∷ 0xc19bf174 ∷ 0xe49b69c1 ∷ 0xefbe4786 ∷ 0x0fc19dc6 ∷ 0x240ca1cc ∷ 0x2de92c6f
    ∷ 0x4a7484aa ∷ 0x5cb0a9dc ∷ 0x76f988da ∷ 0x983e5152 ∷ 0xa831c66d ∷ 0xb00327c8 ∷ 0xbf597fc7
    ∷ 0xc6e00bf3 ∷ 0xd5a79147 ∷ 0x06ca6351 ∷ 0x14292967 ∷ 0x27b70a85 ∷ 0x2e1b2138 ∷ 0x4d2c6dfc
    ∷ 0x53380d13 ∷ 0x650a7354 ∷ 0x766a0abb ∷ 0x81c2c92e ∷ 0x92722c85 ∷ 0xa2bfe8a1 ∷ 0xa81a664b
    ∷ 0xc24b8b70 ∷ 0xc76c51a3 ∷ 0xd192e819 ∷ 0xd6990624 ∷ 0xf40e3585 ∷ 0x106aa070 ∷ 0x19a4c116
    ∷ 0x1e376c08 ∷ 0x2748774c ∷ 0x34b0bcb5 ∷ 0x391c0cb3 ∷ 0x4ed8aa4a ∷ 0x5b9cca4f ∷ 0x682e6ff3
    ∷ 0x748f82ee ∷ 0x78a5636f ∷ 0x84c87814 ∷ 0x8cc70208 ∷ 0x90befffa ∷ 0xa4506ceb ∷ 0xbef9a3f7
    ∷ 0xc67178f2 ∷ []

pub record Words : Type 0 where
  pub a : ℕ
  pub b : ℕ
  pub c : ℕ
  pub d : ℕ
  pub e : ℕ
  pub f : ℕ
  pub g : ℕ
  pub h : ℕ

abbrev pub initial_state : Words
initial_state = record {
  a = 0x6a09e667;
  b = 0xbb67ae85;
  c = 0x3c6ef372;
  d = 0xa54ff53a;
  e = 0x510e527f;
  f = 0x9b05688c;
  g = 0x1f83d9ab;
  h = 0x5be0cd19;
}

pub record Hasher : Type 0 where
  pub state : Words
  pub block : List ℕ
  pub total_bytes : ℕ

abbrev pub new_hasher : Hasher
new_hasher = record { state = initial_state; block = []; total_bytes = 0 }

-- `std::rotr` for 0 < n < 32; the two parts have no bit in common
unfoldable pub rotr : ℕ → ℕ → ℕ
rotr x n = x / 2 ^ n + x * 2 ^ (32 - n) % word

unfoldable pub big_endian : List ℕ → List ℕ
big_endian [] = []
big_endian (x ∷ []) = []
big_endian (x ∷ y ∷ []) = []
big_endian (x ∷ y ∷ z ∷ []) = []
big_endian (x ∷ y ∷ z ∷ w ∷ bytes) = (x * 16777216 + y * 65536 + z * 256 + w) ∷ big_endian bytes

unfoldable pub next_word : List ℕ → ℕ → ℕ
next_word words index =
    let x = get_or words (index - 15) 0 in
    let y = get_or words (index - 2) 0 in
    let first = bit_xor (bit_xor (rotr x 7) (rotr x 18)) (x / 8) in
    let second = bit_xor (bit_xor (rotr y 17) (rotr y 19)) (y / 1024) in
    (get_or words (index - 16) 0 + first + get_or words (index - 7) 0 + second) % word

unfoldable pub extend : ℕ → List ℕ → List ℕ
extend zero words = words
extend (suc n) words = extend n (words ++ next_word words (length words) ∷ [])

unfoldable pub round : ℕ → ℕ → Words → Words
round constant w s =
    let sum_one = bit_xor (bit_xor (rotr s.e 6) (rotr s.e 11)) (rotr s.e 25) in
    let choice = bit_xor (bit_and s.e s.f) (bit_and (word - 1 - s.e) s.g) in
    let temporary_one = (s.h + sum_one + choice + constant + w) % word in
    let sum_zero = bit_xor (bit_xor (rotr s.a 2) (rotr s.a 13)) (rotr s.a 22) in
    let majority = bit_xor (bit_xor (bit_and s.a s.b) (bit_and s.a s.c)) (bit_and s.b s.c) in
    let temporary_two = (sum_zero + majority) % word in
    record {
      a = (temporary_one + temporary_two) % word;
      b = s.a;
      c = s.b;
      d = s.c;
      e = (s.d + temporary_one) % word;
      f = s.e;
      g = s.f;
      h = s.g;
    }

unfoldable pub rounds : List ℕ → List ℕ → Words → Words
rounds [] words s = s
rounds (k ∷ constants) [] s = s
rounds (k ∷ constants) (w ∷ words) s = rounds constants words (round k w s)

unfoldable pub add_words : Words → Words → Words
add_words s t = record {
  a = (s.a + t.a) % word;
  b = (s.b + t.b) % word;
  c = (s.c + t.c) % word;
  d = (s.d + t.d) % word;
  e = (s.e + t.e) % word;
  f = (s.f + t.f) % word;
  g = (s.g + t.g) % word;
  h = (s.h + t.h) % word;
}

unfoldable pub transform : List ℕ → Words → Words
transform block s = add_words s (rounds round_constants (extend 48 (big_endian block)) s)

-- One round of the loop of `update`.
unfoldable pub push : Hasher → ℕ → Hasher
push hasher byte =
    let block = hasher.block ++ byte ∷ [] in
    if length block == 64
    then record hasher { state = transform block hasher.state; block = [] }
    else record hasher { block = block }

unfoldable pub push_all : Hasher → List ℕ → Hasher
push_all hasher [] = hasher
push_all hasher (byte ∷ bytes) = push_all (push hasher byte) bytes

unfoldable pub update : Hasher → List ℕ → Hasher
update hasher bytes =
    push_all (record hasher { total_bytes = (hasher.total_bytes + length bytes) % 2 ^ 64 }) bytes

unfoldable pub length_bytes : ℕ → List ℕ
length_bytes bits =
    (bits / 2 ^ 56 % 256)
    ∷ (bits / 2 ^ 48 % 256)
    ∷ (bits / 2 ^ 40 % 256)
    ∷ (bits / 2 ^ 32 % 256)
    ∷ (bits / 2 ^ 24 % 256)
    ∷ (bits / 2 ^ 16 % 256)
    ∷ (bits / 2 ^ 8 % 256)
    ∷ (bits % 256)
    ∷ []

-- The blocks that `finish` transforms: one, or two where the length does not fit into the first.
unfoldable pub last_blocks : Hasher → List (List ℕ)
last_blocks hasher =
    let bits = hasher.total_bytes * 8 % 2 ^ 64 in
    let block = hasher.block ++ 128 ∷ [] in
    if ltb 56 (length block)
    then (block ++ replicate (64 - length block) 0) ∷ (replicate 56 0 ++ length_bytes bits) ∷ []
    else (block ++ replicate (56 - length block) 0 ++ length_bytes bits) ∷ []

unfoldable pub transform_all : List (List ℕ) → Words → Words
transform_all [] s = s
transform_all (block ∷ blocks) s = transform_all blocks (transform block s)

unfoldable pub digest_digit : ℕ → ℕ
digest_digit n = if ltb n 10 then 48 + n else 87 + n

-- `std::hex << std::setw(8)`, the last `n` digits
unfoldable pub digest_word : ℕ → ℕ → Bytes
digest_word zero w = []
digest_word (suc n) w = digest_word n (w / 16) ++ digest_digit (w % 16) ∷ []

unfoldable pub finish : Hasher → Bytes
finish hasher =
    let s = transform_all (last_blocks hasher) hasher.state in
    digest_word 8 s.a
    ++ (digest_word 8 s.b
        ++ (digest_word 8 s.c
            ++ (digest_word 8 s.d
                ++ (digest_word 8 s.e
                    ++ (digest_word 8 s.f ++ (digest_word 8 s.g ++ digest_word 8 s.h))))))

unfoldable pub sha256_text : Bytes → Bytes
sha256_text text = finish (update new_hasher text)

-- The chunks that `input.read` fills the buffer with, an empty one skipped.
unfoldable pub update_chunks : Hasher → List (List ℕ) → Hasher
update_chunks hasher [] = hasher
update_chunks hasher ([] ∷ chunks) = update_chunks hasher chunks
update_chunks hasher ((byte ∷ bytes) ∷ chunks) = update_chunks (update hasher (byte ∷ bytes)) chunks

unfoldable pub sha256_file : List (List ℕ) → Bytes
sha256_file chunks = finish (update_chunks new_hasher chunks)
