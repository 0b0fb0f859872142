-- ===== src/Domain/Json/Write.antt =====
-- The `to_json` family of libs/domain/src/json.cpp.
use wiki.Base.{Option, none, some, List, [], ◌∷◌, Bytes, text}
use wiki.Domain.Types.{
  ProjectConfig, ExtractedPage, Citation, ProposalBlock, ProposalSection, RelatedConcept,
  ArticleDescriptor, ArticleProposal,
}
use wiki.Domain.Types.Names.{status_to_string, operation_to_string, key_to_string, block_to_string}
use wiki.Domain.Json.{Json, Items, Fields, unsigned, string, array, object, nil, item, end, field}

-- `for (const auto& value : values) array.push_back(write(value));`
unfoldable pub items : {A : Type 0} → (A → Json) → List A → Items
items write [] = nil
items write (value ∷ values) = item (write value) (items write values)

unfoldable pub citation_json : Citation → Json
citation_json c = object (
    field (text "end_char") (unsigned c.end_char) (
      field (text "page_id") (string c.page_id) (
        field (text "quote") (string c.quote)
          (field (text "start_char") (unsigned c.start_char) end))))

unfoldable pub block_json : ProposalBlock → Json
block_json b = object (
    field (text "citations") (array (items citation_json b.citations)) (
      field (text "kind") (string (block_to_string b.kind))
        (field (text "text") (string b.text) end)))

unfoldable pub section_json : ProposalSection → Json
section_json s = object (
    field (text "blocks") (array (items block_json s.blocks)) (
      field (text "heading") (string s.heading)
        (field (text "key") (string (key_to_string s.key)) end)))

unfoldable pub concept_json : RelatedConcept → Json
concept_json r = object (
    field (text "citations") (array (items citation_json r.citations))
      (field (text "reason") (string r.reason) (field (text "title") (string r.title) end)))

unfoldable pub optional_field : Bytes → Option Bytes → Fields → Fields
optional_field key none fields = fields
optional_field key (some value) fields = field key (string value) fields

unfoldable pub article_json : ArticleDescriptor → Json
article_json a = object (
    field (text "aliases") (array (items string a.aliases)) (
      optional_field (text "article_id") a.article_id
        (field (text "slug") (string a.slug) (field (text "title") (string a.title) end))))

unfoldable pub proposal_to_json : ArticleProposal → Json
proposal_to_json p = object (
    field (text "article") (article_json p.article) (
      field (text "operation") (string (operation_to_string p.operation)) (
        field (text "related_concepts") (array (items concept_json p.related_concepts)) (
          field (text "schema_version") (unsigned p.schema_version)
            (field (text "sections") (array (items section_json p.sections)) end)))))

unfoldable pub page_to_json : ExtractedPage → Json
page_to_json p = object (
    optional_field (text "image_path") p.image_path (
      field (text "language") (string p.language) (
        field (text "page_id") (string p.page_id) (
          field (text "page_number") (unsigned p.page_number) (
            field (text "source_version_id") (string p.source_version_id) (
              field (text "text") (string p.text)
                (field (text "text_status") (string (status_to_string p.text_status)) end)))))))

unfoldable pub config_to_json : ProjectConfig → Json
config_to_json c = object (
    field (text "paths")
      (object (
        field (text "cache") (string c.paths.cache) (
          field (text "sources") (string c.paths.sources) (
            field (text "state") (string c.paths.state)
              (field (text "vault") (string c.paths.vault) end)))))
      (field (text "project_id") (string c.project_id) (
        field (text "providers")
          (object (
            field (text "llm")
              (object (
                field (text "default") (string c.llm.default_provider) (
                  field (text "ollama")
                    (object (
                      field (text "base_url") (string c.llm.ollama.base_url) (
                        field (text "model") (string c.llm.ollama.model) (
                          field (text "timeout_seconds") (unsigned c.llm.ollama.timeout_seconds)
                            end))))
                    end)))
              (field (text "ocr")
                (object (
                  field (text "default") (string c.ocr.default_provider)
                    (field (text "language") (string c.ocr.language) end)))
                end)))
          (field (text "schema_version") (unsigned c.schema_version) (
            field (text "vault")
              (object (
                field (text "generated_section_id") (string c.vault.generated_section_id)
                  (field (text "source_directory") (string c.vault.source_directory) end)))
              end)))))
