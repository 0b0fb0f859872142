-- ===== src/Domain/Markdown.antt =====
-- libs/domain/src/markdown.cpp: prose that reaches a Markdown page. Exceptions are messages.
pub mod Literal
use wiki.Base.{
  ℕ, ◌≡◌, Bool, true, false, not, ◌&&◌, ◌||◌, Option, none, some, List, [], ◌∷◌, ◌++◌, Bytes,
  Result, ok, err, text, codes, ltb, leb, between, ◌==◌, if◌then◌else◌, length, is_empty, all, find,
  has_any, for_index, to_decimal, ◌>>=◌,
}
use wiki.Domain.Unicode.{
  Unicode, Scalars, finish, invalid, scalar, walk, category_zs, category_zl, category_zp,
  category_cc, category_cf,
}
use wiki.Domain.Concept.{concept_filename}
use wiki.Domain.Types.{
  Citation, ProposalBlock, ProposalSection, RelatedConcept, ArticleProposal, ValidationIssue,
  Issues, issue,
}

module _ (u : Unicode) where
  open u use {category}

  unfoldable pub is_whitespace : ℕ → Bool
  is_whitespace x =
      x == b'\n'
      || x == b'\r'
      || x == b'\t'
      || category x == category_zs
      || category x == category_zl
      || category x == category_zp

  unfoldable pub is_control : ℕ → Bool
  is_control x = category x == category_cc || category x == category_cf

  -- The loop of `inline_text`: `pending_space` and `output` are its variables.
  unfoldable pub inline_loop : Scalars → Bool → Bytes → Result Bytes Bytes
  inline_loop finish pending output = ok output
  inline_loop invalid pending output = err (text "Markdown text must be valid UTF-8")
  inline_loop (scalar x bs rest) pending output = elim (is_whitespace x) [
    | true ↦ inline_loop rest (not (is_empty output)) output
    | false ↦ elim (is_control x) [
      | true ↦ err (text "Markdown text must not contain control or format characters")
      | false ↦ inline_loop rest false ((if pending then output ++ b' ' ∷ [] else output) ++ bs)
    ]
  ]

  unfoldable pub inline_text : Bytes → Result Bytes Bytes
  inline_text s = inline_loop (walk u s) false []

-- The ASCII punctuation
unfoldable pub is_punctuation : ℕ → Bool
is_punctuation c =
    between b'!' b'/' c || between b':' b'@' c || between b'[' b'`' c || between b'{' b'~' c

unfoldable pub escape : Bytes → Bytes
escape [] = []
escape (c ∷ s) = if is_punctuation c then b'\\' ∷ c ∷ escape s else c ∷ escape s

unfoldable pub markdown_literal : Unicode → Bytes → Result Bytes Bytes
markdown_literal u s = do flattened ← inline_text u s; ok (escape flattened)

unfoldable pub safe_managed_section_id : Bytes → Bool
safe_managed_section_id id =
    not (is_empty id)
    && leb (length id) 128
    && all
        (λ c.
          between b'a' b'z' c
          || between b'A' b'Z' c
          || between b'0' b'9' c
          || c == b'-'
          || c == b'_'
          || c == b'.')
        id

abbrev pub reserved_marker : Bytes
reserved_marker = codes "kc:managed:"

is_found : Option ℕ → Bool
is_found none = false
is_found (some i) = true

-- U+2028 and U+2029 in UTF-8
abbrev line_separator : Bytes
line_separator = 0xe2 ∷ 0x80 ∷ 0xa8 ∷ []

abbrev paragraph_separator : Bytes
paragraph_separator = 0xe2 ∷ 0x80 ∷ 0xa9 ∷ []

issue_if : Bool → Bytes → Bytes → Issues
issue_if true path message = issue path message ∷ []
issue_if false path message = []

-- What follows `inline_text` in the `try` block, or the handler's only issue.
checks : Bytes → Bytes → Bool → Bool → Result Bytes Bytes → Issues
unfolding issue_if is_found
checks path s single_line allow_empty (err message) = issue path message ∷ []
checks path s single_line allow_empty (ok flattened) =
    issue_if (not allow_empty && is_empty flattened) path (text "must contain visible text")
    ++ issue_if (single_line && has_any s (codes "\r\n\t")) path (text "must be a single line")
    ++ issue_if
        (single_line && (is_found (find s line_separator) || is_found (find s paragraph_separator)))
        path (text "must be a single line")
    ++ issue_if (is_found (find s reserved_marker)) path
        (text "must not contain a reserved ownership marker")

module _ (u : Unicode) where
  -- `check_text` returns the issues that the C++ function appends to `result`.
  unfoldable pub check_text : Bytes → Bytes → Bool → Bool → Issues
  unfolding checks
  check_text path s single_line allow_empty =
      checks path s single_line allow_empty (inline_text u s)

  unfoldable pub check_citations : Bytes → List Citation → Issues
  check_citations path citations =
      for_index
        (λ index c.
          check_text (path ++ text "/" ++ to_decimal index ++ text "/quote") c.quote false false)
        0 citations

  unfoldable pub validate_plain_text : Bytes → Bool → Bool → Issues
  validate_plain_text s single_line allow_empty = check_text [] s single_line allow_empty

  unfoldable pub check_block : Bytes → ℕ → ProposalBlock → Issues
  check_block path index block =
      let block_path : Bytes = path ++ text "/blocks/" ++ to_decimal index in
      check_text (block_path ++ text "/text") block.text false false
      ++ check_citations (block_path ++ text "/citations") block.citations

  unfoldable pub check_section : ℕ → ProposalSection → Issues
  check_section index section =
      let path : Bytes = text "/sections/" ++ to_decimal index in
      check_text (path ++ text "/heading") section.heading true false
      ++ for_index (check_block path) 0 section.blocks

  message_issue : Bytes → Result Bytes Bytes → Issues
  message_issue path (ok filename) = []
  message_issue path (err message) = issue path message ∷ []

  unfoldable pub check_related : ℕ → RelatedConcept → Issues
  unfolding message_issue issue_if
  check_related index related =
      let path : Bytes = text "/related_concepts/" ++ to_decimal index in
      check_text (path ++ text "/title") related.title true false
      ++ check_text (path ++ text "/reason") related.reason false true
      ++ issue_if (has_any related.title (codes "[]#|^")) (path ++ text "/title")
          (text "must be an unambiguous wiki-link destination (no []#|^)")
      ++ message_issue (path ++ text "/title") (concept_filename u related.title)
      ++ check_citations (path ++ text "/citations") related.citations

  unfoldable pub validate_markdown : ArticleProposal → Issues
  validate_markdown p =
      check_text (text "/article/title") p.article.title true false
      ++ for_index
          (λ index alias.
            check_text (text "/article/aliases/" ++ to_decimal index) alias true false)
          0 p.article.aliases
      ++ for_index check_section 0 p.sections
      ++ for_index check_related 0 p.related_concepts
