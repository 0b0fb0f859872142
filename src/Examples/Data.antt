-- ===== src/Examples/Data.antt =====
-- Test data: ASCII in place of utf8proc, pages, proposals and files.
use wiki.Base.{
  ℕ, ◌+◌, ◌<◌, ◌≤◌, ◌≡◌, refl, ap, inl, inr, false, ◌&&◌, map, Option, none, some, some-cancel,
  none-ne-some, List, [], ◌∷◌, Bytes, codes, ltb, lt→ltb, ltb→lt, length, take, if◌then◌else◌, All,
  ok, arith, Bool-cases,
}
use wiki.Domain.Unicode.{Unicode}
use wiki.Domain.Types.{
  TextStatus, ProposalOperation, SectionKey, BlockKind, ExtractedPage, Citation, ProposalBlock,
  ProposalSection, ArticleProposal,
}
use wiki.Updates.{BaseRow}
use wiki.Storage.Disk.{FileCopy, Disk}
use wiki.Models.Validator.{ProposalGenerationRequest}

abbrev pub ascii_iterate : Bytes → Option (ℕ × ℕ)
ascii_iterate [] = none
ascii_iterate (c ∷ s) = if ltb c 128 then some (c, 1) else none

pub ascii-length : (s : Bytes) (x n : ℕ) → ascii_iterate s ≡ some (x, n) → (0 < n) × (n ≤ length s)
ascii-length [] x n h = absurd (none-ne-some h)
ascii-length (c ∷ s) x n h = elim (Bool-cases (ltb c 128)) [
  | inl e ↦
      let one : 1 ≡ n = ap (λ (p : ℕ × ℕ). p.1) (some-cancel (rw e at h)) in
      (omega arith, omega arith)
  | inr e ↦ absurd (none-ne-some (rw e at h))
]

pub ascii-wide :
    (c : ℕ) (s : Bytes) (x n : ℕ)
    → 128 ≤ c
    → ascii_iterate (c ∷ s) ≡ some (x, n)
    → (128 ≤ x) × All (λ b. 128 ≤ b) (take n (c ∷ s))
ascii-wide c s x n wide h = elim (Bool-cases (ltb c 128)) [
  | inl e ↦ absurd (omega (arith, ltb→lt c 128 e))
  | inr e ↦ absurd (none-ne-some (rw e at h))
]

abbrev pub lower : ℕ → ℕ
lower c = if ltb 64 c && ltb c 91 then c + 32 else c

abbrev pub ascii : Unicode
ascii = record {
  iterate = ascii_iterate;
  category = λ x. 0;
  normalize = λ s fold. some (if fold then map lower s else s);
  iterate-ascii = λ c s h. rw (lt→ltb c 128 h) refl;
  iterate-length = ascii-length;
  iterate-wide = ascii-wide;
}

abbrev pub page_id : Bytes
page_id = codes "pg_01ARZ3NDEKTSV4RRFFQ69G5FAV"

abbrev pub page : ExtractedPage
page = record {
  page_id = page_id;
  source_version_id = codes "ver_01ARZ3NDEKTSV4RRFFQ69G5FAV";
  page_number = 1;
  image_path = none;
  text = codes "a leaf is\ngreen";
  text_status = TextStatus.native;
  language = codes "en";
}

abbrev pub citation : Citation
citation = record {
  page_id = page_id;
  start_char = 2;
  end_char = 15;
  quote = codes "leaf is green";
}

abbrev pub block : ProposalBlock
block = record { kind = BlockKind.paragraph; text = codes "Leaves"; citations = citation ∷ [] }

abbrev pub other_block : ProposalBlock
other_block = record { kind = BlockKind.paragraph; text = codes "Green"; citations = citation ∷ [] }

abbrev pub section : List ProposalBlock → ProposalSection
section blocks = record { key = SectionKey.key_ideas; heading = codes "Key ideas"; blocks = blocks }

abbrev pub proposal : Option Bytes → ProposalOperation → List ProposalBlock → ArticleProposal
proposal id operation blocks = record {
  schema_version = 1;
  operation = operation;
  article = record { article_id = id; title = codes "Leaf"; slug = codes "leaf"; aliases = [] };
  sections = section blocks ∷ [];
  related_concepts = [];
}

abbrev pub created : ArticleProposal
created = proposal none ProposalOperation.create_article (block ∷ [])

abbrev pub request : ProposalGenerationRequest
request = record {
  concept_title = codes "Leaf";
  operation = ProposalOperation.create_article;
  article_id = none;
  concept_slug = none;
  pages = page ∷ [];
  additive_update = false;
}

abbrev pub article_id : Bytes
article_id = codes "art_01ARZ3NDEKTSV4RRFFQ69G5FAV"

abbrev pub updated : List ProposalBlock → ArticleProposal
updated blocks = proposal (some article_id) ProposalOperation.update_article blocks

abbrev pub base_row : BaseRow
base_row = record {
  base_apply_run_id = codes "run_01ARZ3NDEKTSV4RRFFQ69G5FAV";
  managed_sha256 = codes "00";
  update_mode = codes "additive";
  base = ok (updated (block ∷ []));
  article_id = article_id;
}

abbrev pub old_text : Bytes
old_text = codes "old"

abbrev pub new_text : Bytes
new_text = codes "new"

abbrev pub source_copy : FileCopy
source_copy = record { index = 0; sha256 = codes "pdf" }

abbrev pub start_disk : Disk
start_disk = record {
  article = some old_text;
  temporary_file = none;
  recovery_file = none;
  backup_file = none;
  journal = none;
  pending = false;
  retained = λ i. some (codes "pdf");
  staged_files = λ i. none;
  published_files = λ i. none;
  archive = λ digest. none;
}

-- A disk on which the user has saved the article again after a crash.
abbrev pub saved_disk : Disk
saved_disk = record start_disk { article = some (codes "mine"); temporary_file = some old_text }
