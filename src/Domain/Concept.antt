-- ===== src/Domain/Concept.antt =====
-- libs/domain/src/concept.cpp: titles, identity keys, slugs and file names of concepts. An
-- exception (`std::invalid_argument`) is its message.
pub mod Slug
use Prim.Native.Nat.{bit_xor}
use wiki.Base.{
  ℕ, zero, suc, ◌+◌, ◌-◌, ◌*◌, ◌/◌, ◌%◌, ◌^◌, ◌≡◌, Bool, true, false, not, ◌&&◌, ◌||◌, Option, none,
  some, List, [], ◌∷◌, ◌++◌, Bytes, Result, ok, err, text, codes, bytes_eq, ltb, leb, between, ◌==◌,
  if◌then◌else◌, length, is_empty, take, drop, get_or, starts_with, find, has_any, ◌>>=◌, ◌>>◌,
  throw_if,
}
use wiki.Domain.Unicode.{
  Unicode, Scalars, finish, invalid, scalar, walk, category_lu, category_no, category_zs,
  category_zl, category_zp, category_cc, category_cf,
}

abbrev not_utf8 : Bytes
not_utf8 = text "concept text must be valid UTF-8"

-- `text.back()` of a text that is not empty, tested
unfoldable pub ends_with_byte : ℕ → Bytes → Bool
ends_with_byte c [] = false
ends_with_byte c (d ∷ []) = d == c
ends_with_byte c (d ∷ e ∷ s) = ends_with_byte c (e ∷ s)

-- `while (!text.empty() && text.back() == c) text.pop_back();`
unfoldable pub strip_back : ℕ → Bytes → Bytes
strip_back c [] = []
strip_back c (d ∷ s) = let rest = strip_back c s in if is_empty rest && d == c then [] else d ∷ rest

-- `text.substr(0, text.find('.'))`
unfoldable pub before_dot : Bytes → Bytes
before_dot [] = []
before_dot (c ∷ s) = let rest = before_dot s in if c == b'.' then [] else c ∷ rest

module _ (u : Unicode) where
  open u use {category, normalize}

  unfoldable pub unicode_normalize : Bytes → Bool → Result Bytes Bytes
  unicode_normalize s fold = elim (normalize s fold) [ none ↦ err not_utf8 | some t ↦ ok t ]

  unfoldable pub is_format : ℕ → Bool
  is_format x =
      category x == category_cc
      || category x == category_cf
      || category x == category_zl
      || category x == category_zp

  -- The visitor of `display_title`, over its variables `space` and `output`.
  unfoldable pub display_loop : Scalars → Bool → Bytes → Result Bytes Bytes
  display_loop finish space output = ok output
  display_loop invalid space output = err not_utf8
  display_loop (scalar x bs rest) space output = elim (category x == category_zs || x == b'\t') [
    | true ↦ display_loop rest (not (is_empty output)) output
    | false ↦ elim (is_format x) [
      | true ↦ err (text "concept title must not contain control, format, or line-break characters")
      | false ↦ display_loop rest false ((if space then output ++ b' ' ∷ [] else output) ++ bs)
    ]
  ]

  unfoldable pub display_title : Bytes → Result Bytes Bytes
  display_title title = do
    normalized ← unicode_normalize title false
    display_loop (walk u normalized) false []

  unfoldable pub device_suffix : Bytes → Bool
  device_suffix [] = false
  device_suffix (c ∷ []) = between b'1' b'9' c
  device_suffix (c ∷ d ∷ s) =
      bytes_eq (c ∷ d ∷ s) (0xc2 ∷ 0xb9 ∷ [])
      || bytes_eq (c ∷ d ∷ s) (0xc2 ∷ 0xb2 ∷ [])
      || bytes_eq (c ∷ d ∷ s) (0xc2 ∷ 0xb3 ∷ [])

  unfoldable pub reserved_stem : Bytes → Bool
  reserved_stem stem =
      if bytes_eq stem (text "con")
        || bytes_eq stem (text "prn")
        || bytes_eq stem (text "aux")
        || bytes_eq stem (text "nul")
        || bytes_eq stem (text "conin$")
        || bytes_eq stem (text "conout$")
      then true
      else if not (starts_with stem (text "com")) && not (starts_with stem (text "lpt"))
      then false
      else device_suffix (drop 3 stem)

  unfoldable pub reserved_windows_name : Bytes → Result Bytes Bool
  reserved_windows_name title = do
    stem ← unicode_normalize (before_dot title) true
    ok (reserved_stem (strip_back b' ' stem))

  unfoldable pub fold_unicode_text : Bytes → Result Bytes Bytes
  fold_unicode_text s = unicode_normalize s true

abbrev forbidden : Bytes
forbidden = codes "/\\<>:\"|?*"

abbrev not_portable : Bytes
not_portable =
    text
      "concept title must be a portable filename: no reserved device names, trailing dots, or /\\<>:\"|?* characters"

module _ (u : Unicode) where
  open u use {category}

  unfoldable pub normalize_concept_title : Bytes → Result Bytes Bytes
  normalize_concept_title title = do
    normalized ← display_title u title
    throw_if (is_empty normalized || ltb 200 (length normalized))
        (text "concept title must be 1-200 UTF-8 bytes after normalization")
    throw_if (has_any normalized forbidden || ends_with_byte b'.' normalized) not_portable
    reserved ← reserved_windows_name u normalized
    throw_if reserved not_portable
    ok normalized

  unfoldable pub concept_identity_key : Bytes → Result Bytes Bytes
  concept_identity_key title = do shown ← display_title u title; unicode_normalize u shown true

  -- `visit_unicode` with a visitor that throws at a scalar that `bad` holds for
  unfoldable pub visit : (ℕ → Bool) → Bytes → Scalars → Result Bytes (Unit {0})
  visit bad message finish = ok tt
  visit bad message invalid = err not_utf8
  visit bad message (scalar x bs rest) =
      let later = visit bad message rest in if bad x then err message else later

  unfoldable pub concept_filename : Bytes → Result Bytes Bytes
  concept_filename title = do
    portable ← normalize_concept_title title
    visit (λ x. category x == category_cc)
        (text "stored concept filename contains a control character") (walk u title)
    throw_if (is_empty title || ends_with_byte b' ' title || ends_with_byte b'.' title)
        (text "stored concept filename has trailing spaces or dots")
    ok (title ++ codes ".md")

  -- The argument is the path's last component.
  unfoldable pub validate_concept_filename : Bytes → Result Bytes (Unit {0})
  validate_concept_filename name = do
    throw_if
        (is_empty name
          || ltb 255 (length name)
          || ends_with_byte b' ' name
          || ends_with_byte b'.' name
          || has_any name forbidden)
        (text "stored article filename is not portable")
    reserved ← reserved_windows_name u name
    throw_if reserved (text "stored article filename is not portable")
    visit (is_format u) (text "stored article filename contains control/format characters")
        (walk u name)

-- `separator()` of `canonical_concept_slug`
unfoldable pub separate : Bytes → Bytes
separate slug =
    if not (is_empty slug) && not (ends_with_byte b'-' slug) then slug ++ b'-' ∷ [] else slug

unfoldable pub symbol_word : ℕ → Bytes
symbol_word c =
    if c == b'+'
    then codes "plus"
    else if c == b'#'
    then codes "sharp"
    else if c == b'&'
    then codes "and"
    else if c == b'@'
    then codes "at"
    else []

unfoldable pub is_slug_byte : ℕ → Bool
is_slug_byte c = between b'a' b'z' c || between b'0' b'9' c

-- One round of the loop over the key.
unfoldable pub slug_step : ℕ → Bytes → Bytes
slug_step c slug =
    if is_slug_byte c
    then slug ++ c ∷ []
    else if c == 39
    then slug
    else separate slug ++ symbol_word c

unfoldable pub slug_loop : Bytes → Bytes → Bytes
slug_loop [] slug = slug
slug_loop (c ∷ key) slug = slug_loop key (slug_step c slug)

-- 64-bit FNV-1a over the key
unfoldable pub hash_loop : Bytes → ℕ → ℕ
hash_loop [] hash = hash
hash_loop (c ∷ key) hash = hash_loop key (bit_xor hash c * 1099511628211 % 2 ^ 64)

unfoldable pub hex_digit : ℕ → ℕ
hex_digit n = get_or (codes "0123456789abcdef") n 0

-- `for (shift = 60; shift >= 0; shift -= 4)`: the rounds left are `shift / 4 + 1`
unfoldable pub hex_loop : ℕ → ℕ → Bytes
hex_loop zero hash = []
hex_loop (suc n) hash = hex_digit (hash / 2 ^ (4 * n) % 16) ∷ hex_loop n hash

unfoldable pub slug_of_key : Bytes → Bytes
slug_of_key key =
    let slug : Bytes = strip_back b'-' (slug_loop key []) in
    if not (is_empty slug)
    then slug
    else codes "concept-" ++ hex_loop 16 (hash_loop key 14695981039346656037)

unfoldable pub canonical_concept_slug : Unicode → Bytes → Result Bytes Bytes
canonical_concept_slug u title = do key ← concept_identity_key u title; ok (slug_of_key key)

module _ (u : Unicode) where
  open u use {category}

  -- The visitor of `normalize_lexical_text`, over its variables `space` and `output`.
  unfoldable pub lexical_loop : Scalars → Bool → Bytes → Result Bytes Bytes
  lexical_loop finish space output = ok output
  lexical_loop invalid space output = err not_utf8
  lexical_loop (scalar x bs rest) space output =
      elim (leb category_lu (category x) && leb (category x) category_no) [
        | true ↦
            lexical_loop rest false
              ((if space && not (is_empty output) then output ++ b' ' ∷ [] else output) ++ bs)
        | false ↦
            let symbol : Bytes = symbol_word x in
            let padded : Bytes =
              if is_empty symbol
              then output
              else (if is_empty output then output else output ++ b' ' ∷ []) ++ symbol in
            lexical_loop rest (not (is_empty padded)) padded
      ]

  unfoldable pub normalize_lexical_text : Bytes → Result Bytes Bytes
  normalize_lexical_text s = do
    folded ← unicode_normalize u s true
    lexical_loop (walk u folded) false []
