-- ===== src/Vault/Url.antt =====
-- `encode_markdown_url` of libs/vault/src/rendering.cpp.
pub mod Decode
use wiki.Base.{
  ℕ, ◌/◌, ◌%◌, Bool, true, false, ◌||◌, List, [], ◌∷◌, Bytes, codes, ◌==◌, between, get_or,
}

abbrev pub hexadecimal : Bytes
hexadecimal = codes "0123456789ABCDEF"

unfoldable pub is_plain : ℕ → Bool
is_plain byte =
    between b'a' b'z' byte
    || between b'A' b'Z' byte
    || between b'0' b'9' byte
    || byte == b'/'
    || byte == b'-'
    || byte == b'_'
    || byte == b'.'
    || byte == b'~'

unfoldable pub encode_markdown_url : Bytes → Bytes
encode_markdown_url [] = []
encode_markdown_url (byte ∷ value) =
    let encoded = encode_markdown_url value in
    elim (is_plain byte) [
      | true ↦ byte ∷ encoded
      | false ↦
          b'%' ∷ get_or hexadecimal (byte / 16 % 16) 0 ∷ get_or hexadecimal (byte % 16) 0 ∷ encoded
    ]
