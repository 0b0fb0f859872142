-- ===== src/Vault/Url/Decode.antt =====
-- A link names the file that it was made for: percent decoding undoes `encode_markdown_url`.
use wiki.Base.{
  ℕ, ◌+◌, ◌-◌, ◌*◌, ◌/◌, ◌%◌, ◌<◌, ◌≡◌, refl, ap, ap₂, ◌∙◌, inl, inr, Bool, true, false, ◌||◌, ◌&&◌,
  [], ◌∷◌, Bytes, ◌==◌, ==_iff, ltb, get_or, if◌then◌else◌, All, all, checked, checked-below,
  Bool-cases, arith, and-true,
}
use wiki.Vault.Url.{hexadecimal, is_plain, encode_markdown_url}

unfoldable pub hex_value : ℕ → ℕ
hex_value c = if ltb c b'A' then c - b'0' else c - 55

-- Percent decoding (RFC 3986, 2.1), for two upper-case digits.
unfoldable pub decode_url : Bytes → Bytes
decode_url [] = []
decode_url (c ∷ []) = c ∷ []
decode_url (c ∷ x ∷ []) = c ∷ x ∷ []
decode_url (c ∷ x ∷ y ∷ s) =
    let plain = c ∷ decode_url (x ∷ y ∷ s) in
    let escaped = (hex_value x * 16 + hex_value y) ∷ decode_url s in
    if c == b'%' then escaped else plain

-- Bytes that a URL holds as they are.
unfoldable pub is_url_byte : ℕ → Bool
is_url_byte c = is_plain c || c == b'%'

hex_table :
    checked
      (λ n. hex_value (get_or hexadecimal n 0) == n && is_url_byte (get_or hexadecimal n 0))
      16
    ≡ true
unfolding checked hex_value is_url_byte is_plain
hex_table = refl

hex_ok :
    (n : ℕ)
    → n < 16
    → (hex_value (get_or hexadecimal n 0) ≡ n) × (is_url_byte (get_or hexadecimal n 0) ≡ true)
hex_ok n h =
    let both = and-true (hex_value (get_or hexadecimal n 0) == n) _ (
      checked-below
        (λ n. hex_value (get_or hexadecimal n 0) == n && is_url_byte (get_or hexadecimal n 0)) 16 n
        h hex_table) in
    ((==_iff _ n).0 both.0, both.1)

decode_url-plain : (c : ℕ) (s : Bytes) → (c == b'%') ≡ false → decode_url (c ∷ s) ≡ c ∷ decode_url s
unfolding decode_url
decode_url-plain c [] h = refl
decode_url-plain c (x ∷ []) h = refl
decode_url-plain c (x ∷ y ∷ s) h = rw h refl

decode_url-escaped :
    (x y : ℕ) (s : Bytes)
    → decode_url (b'%' ∷ x ∷ y ∷ s) ≡ (hex_value x * 16 + hex_value y) ∷ decode_url s
unfolding decode_url
decode_url-escaped x y s = refl

plain-is_url_byte : (c : ℕ) → is_plain c ≡ true → is_url_byte c ≡ true
unfolding is_url_byte
plain-is_url_byte c h = rw h refl

percent_is_url_byte : is_url_byte b'%' ≡ true
unfolding is_url_byte is_plain
percent_is_url_byte = refl

plain_no_percent : (c : ℕ) → is_plain c ≡ true → (c == b'%') ≡ false
unfolding is_plain
plain_no_percent c h = ground arith

-- Decoding gives the bytes of the path back, and a link holds only letters, digits and the characters
-- / - _ . ~ %, so that no byte of it ends the link in Markdown.
pub decode_url-encode_markdown_url :
    (value : Bytes)
    → All (λ b. b < 256) value
    → (decode_url (encode_markdown_url value) ≡ value)
      × (all is_url_byte (encode_markdown_url value) ≡ true)
unfolding encode_markdown_url
decode_url-encode_markdown_url [] h = (unfold decode_url in refl, refl)
decode_url-encode_markdown_url (b ∷ value) (small, h) =
    let (same, safe) = decode_url-encode_markdown_url value h in
    elim (Bool-cases (is_plain b)) [
      | inl e ↦
          rw (e, encode_markdown_url)
            (
              decode_url-plain b (encode_markdown_url value) (plain_no_percent b e)
                  ∙ ap (◌∷◌ b) same,
              rw (plain-is_url_byte b e) safe,
            )
      | inr e ↦
          rw (e, encode_markdown_url)
            (let (high, high_safe) = hex_ok (b / 16 % 16) (omega arith) in
              let (low, low_safe) = hex_ok (b % 16) (omega arith) in
              (
                decode_url-escaped (get_or hexadecimal (b / 16 % 16) 0)
                      (get_or hexadecimal (b % 16) 0) (encode_markdown_url value)
                    ∙ ap₂ ◌∷◌ (omega (arith, high, low, small)) same,
                rw (percent_is_url_byte, high_safe, low_safe) safe,
              ))
    ]
