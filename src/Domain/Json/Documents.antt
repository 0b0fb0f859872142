-- ===== src/Domain/Json/Documents.antt =====
-- Written values are read back, list by list: the parts of a proposal in libs/domain/src/json.cpp.
use wiki.Base.{
  ℕ, ◌+◌, ◌≤◌, ◌≡◌, refl, false, Option, none, some, List, [], ◌∷◌, ◌++◌, Bytes, Result, ok, arith,
  text, min, ltb, All, to_decimal,
}
use wiki.Domain.Types.{
  ProposalOperation, SectionKey, BlockKind, Citation, ProposalBlock, ProposalSection,
  RelatedConcept, ArticleDescriptor,
}
use wiki.Domain.Types.Names.{operation_to_string, key_to_string, block_to_string}
use wiki.Domain.Json.{
  Json, Thrown, unsigned, string, checked_number, read_unsigned, parse_enum, parse_items,
  require_keys, at, parse_enum, require_array, get_string,
}
use wiki.Domain.Json.Write.{
  items, citation_json, block_json, section_json, concept_json, article_json, optional_field,
}
use wiki.Domain.Json.Read.{
  size_max, string_at, parse_citation_value, parse_citations, parse_block, parse_section,
  parse_concept, parse_article, kind_names, key_names, operation_names, get_strings,
  string_if_present, strings_or_none,
}
use wiki.Domain.Validate.{max_citation_end, max_citation_start}

not-ltb : (a b : ℕ) → b ≤ a → ltb a b ≡ false
not-ltb a b h = ground arith

pub read_unsigned_lem :
    (top n limit : ℕ) (path : Bytes)
    → n ≤ min limit top
    → read_unsigned top (unsigned n) path limit ≡ ok n
unfolding read_unsigned checked_number
read_unsigned_lem top n limit path h = rw (not-ltb (min limit top) n h) refl

-- What SQLite can store
pub record Fits (c : Citation) : Type 0 where
  pub start : c.start_char ≤ min max_citation_start size_max
  pub stop : c.end_char ≤ min max_citation_end size_max

pub parse_citation_value-citation_json :
    (path : Bytes) (c : Citation) → Fits c → parse_citation_value path (citation_json c) ≡ ok c
unfolding parse_citation_value citation_json require_keys string_at at
parse_citation_value-citation_json path c h =
    rw
      (
        read_unsigned_lem size_max c.start_char max_citation_start (path ++ text "/start_char")
            h.start,
        read_unsigned_lem size_max c.end_char max_citation_end (path ++ text "/end_char") h.stop,
      )
      refl

module _ {A : Type 0} (parse : Json → ℕ → Result Thrown A) (write : A → Json) (P : A → Type 0) where
  -- A list is read back where each of its values is.
  pub parse_items-items :
      ((x : A) (i : ℕ) → P x → parse (write x) i ≡ ok x)
      → (i : ℕ) (xs : List A) → All P xs
      → parse_items parse i (items write xs) ≡ ok xs
  unfolding parse_items items
  parse_items-items each i [] h = refl
  parse_items-items each i (x ∷ xs) (p, h) =
      rw (each x i p) (rw (parse_items-items each (i + 1) xs h) refl)

parse_citations-items :
    (path : Bytes) (cs : List Citation)
    → All Fits cs
    → parse_citations path (items citation_json cs) ≡ ok cs
unfolding parse_citations
parse_citations-items path cs h =
    parse_items-items _ citation_json Fits
      (λ c i p. parse_citation_value-citation_json (path ++ text "/citations/" ++ to_decimal i) c p)
      0 cs h

parse_kind :
    (k : BlockKind) (path : Bytes) → parse_enum (string (block_to_string k)) kind_names path ≡ ok k
unfolding parse_enum block_to_string kind_names
parse_kind BlockKind.paragraph path = refl
parse_kind BlockKind.bullet path = refl

parse_key :
    (k : SectionKey) (path : Bytes) → parse_enum (string (key_to_string k)) key_names path ≡ ok k
unfolding parse_enum key_to_string key_names
parse_key SectionKey.working_explanation path = refl
parse_key SectionKey.key_ideas path = refl
parse_key SectionKey.example path = refl
parse_key SectionKey.related_concepts path = refl

pub parse_operation :
    (o : ProposalOperation) (path : Bytes)
    → parse_enum (string (operation_to_string o)) operation_names path ≡ ok o
unfolding parse_enum operation_to_string operation_names
parse_operation ProposalOperation.create_article path = refl
parse_operation ProposalOperation.update_article path = refl

abbrev pub BlockFits : ProposalBlock → Type 0
BlockFits b = All Fits b.citations

parse_block-block_json :
    (path : Bytes) (b : ProposalBlock) → BlockFits b → parse_block path (block_json b) ≡ ok b
unfolding parse_block block_json require_keys string_at at require_array
parse_block-block_json path b h =
    rw (parse_kind b.kind (path ++ text "/kind"), parse_citations-items path b.citations h) refl

abbrev pub SectionFits : ProposalSection → Type 0
SectionFits s = All BlockFits s.blocks

pub parse_section-section_json :
    (s : ProposalSection) (i : ℕ) → SectionFits s → parse_section (section_json s) i ≡ ok s
unfolding parse_section section_json require_keys string_at at require_array
parse_section-section_json s i h =
    let path : Bytes = text "/sections/" ++ to_decimal i in
    rw
      (
        parse_key s.key (path ++ text "/key"),
        parse_items-items (λ x j. parse_block (path ++ text "/blocks/" ++ to_decimal j) x)
            block_json BlockFits
            (λ b j p. parse_block-block_json (path ++ text "/blocks/" ++ to_decimal j) b p) 0
            s.blocks h,
      )
      refl

abbrev pub ConceptFits : RelatedConcept → Type 0
ConceptFits r = All Fits r.citations

pub parse_concept-concept_json :
    (r : RelatedConcept) (i : ℕ) → ConceptFits r → parse_concept (concept_json r) i ≡ ok r
unfolding parse_concept concept_json require_keys string_at at require_array
parse_concept-concept_json r i h =
    rw (parse_citations-items (text "/related_concepts/" ++ to_decimal i) r.citations h) refl

get_strings-items :
    (i : ℕ) (xs : List Bytes) → parse_items (λ x index. get_string x) i (items string xs) ≡ ok xs
unfolding parse_items items get_string
get_strings-items i [] = refl
get_strings-items i (x ∷ xs) = rw (get_strings-items (i + 1) xs) refl

read_article :
    (id : Option Bytes) (title slug : Bytes) (aliases : List Bytes) (a : ArticleDescriptor)
    → a ≡ record { article_id = id; title = title; slug = slug; aliases = aliases }
    → parse_article (article_json a) ≡ ok a
unfolding parse_article article_json require_keys string_at at optional_field string_if_present
    strings_or_none get_strings get_string
read_article none title slug aliases a e = rw e (rw (get_strings-items 0 aliases) refl)
read_article (some id) title slug aliases a e = rw e (rw (get_strings-items 0 aliases) refl)

pub parse_article-article_json : (a : ArticleDescriptor) → parse_article (article_json a) ≡ ok a
parse_article-article_json a = read_article a.article_id a.title a.slug a.aliases a refl
