-- ===== src/Lib.antt =====
-- A verification library of the knowledge compiler `kc`: a program that imports sources, has a
-- language model propose articles with citations, lets a person review them and writes the approved
-- ones into a vault of Markdown files that the user edits too.
--
-- The parts and how they interact. libs/import retains source files and registers them. The domain
-- library (libs/domain) holds identifiers, values, text and their validation, which every other
-- part uses. libs/models sends pages to a language model and accepts or refuses the answer.
-- libs/updates merges an accepted answer into the article that was applied before. libs/vault
-- renders the result, shows the difference to the reviewer and exchanges the managed region of the
-- article. libs/storage writes it to the disk in a way that a crash can undo, and libs/review keeps
-- the decisions. libs/compiler runs a whole compilation: it resolves the concept, selects the
-- pages, has libs/models ask, reconciles the answer with what was applied and publishes a proposal
-- in one transaction. libs/search looks up the articles. The command line apps/kc calls them.
--
-- Files, by the code that they model:
--   Base/*                 shared: tests, lists and texts over the native numbers, results of code that throws
--   Domain/Id              libs/domain/src/id.cpp: make_ulid_bytes, encode_ulid, is_valid_id
--   Domain/Unicode         the loops over utf8proc_iterate (concept.cpp visit_unicode, text.cpp)
--   Domain/Types           libs/domain/include/kc/domain/types.hpp; Types/Names: to_string and the
--                          parse functions of libs/review/src/review_service.cpp
--   Domain/Paths           is_project_relative of libs/domain/src/types.cpp, on paths as texts
--   Domain/Validate        the validate overloads of libs/domain/src/types.cpp
--   Domain/Markdown        libs/domain/src/markdown.cpp
--   Domain/Sha256          libs/domain/src/sha256.cpp
--   Domain/Concept         libs/domain/src/concept.cpp
--   Domain/Json            libs/domain/src/json.cpp: Json/Write has to_json, Json/Read from_json and the parse functions
--   Import                 libs/import/src/source_importer.cpp: Import/Act has the steps that change files, Import/File import_file
--   Storage/Identity       libs/storage/src/concept_identity.cpp
--   Models/Prompt, Models/Runner   libs/models/src/concept_prompt.cpp and model_runner.cpp
--   Search                 libs/search/src/search_index.cpp
--   Compiler               libs/compiler/src/compiler.cpp: Relevance and Select for select_evidence, Citations,
--                          Store for the tables, Compile up to the request, Publish from the answer on
--   Models/Whitespace, Models/Validator   libs/models/src/proposal_validator.cpp
--   Updates                libs/updates/src/article_updates.cpp
--   Vault/Url              encode_markdown_url (libs/vault/src/rendering.cpp)
--   Vault/Markers, Vault/Diff   managed_region (article_updates.cpp), replace_managed_content, lines and
--                          rendered_diff (libs/vault/src/rendering.cpp)
--   Vault/Render           render_managed_content and render_new_article (libs/vault/src/rendering.cpp)
--   Storage/Disk, Storage/Operation   libs/storage/src/file_operation.cpp
--   Review                 libs/review/src/review_service.cpp: correct_page_text, reject_proposal, revoke_approval
--   Storage/Migrations     libs/storage/src/migration_runner.cpp: Apply has apply_all; SQLite is the record `Engine`
--   Examples/*             tests and the theorems at concrete values
--
-- How code becomes definitions. Texts are lists of byte codes, sizes and offsets are native
-- numbers, and arithmetic that wraps has its `%` written out. A function that throws returns a
-- `Result`, its exception the message. A validation returns the list of issues, empty where the
-- object is valid. Loops that append to an output keep that output as an argument. utf8proc is the
-- record `Unicode` of Domain/Unicode with the laws that its documentation gives: an ASCII byte is a
-- scalar of its own, a step reads one byte at least and no more than there are, and the bytes of a
-- longer sequence are not ASCII. The digest is a function argument of Storage/Operation and is
-- assumed to have no law. Clock and random values are arguments.
--
-- A file operation acts on a `Disk`, which names every file by its role: the article, the staged
-- `.kc-ID.tmp` file, `.recovery`, the backup, the journal and the copies. A run gives the state
-- after every primitive step that a crash can stop at: renames, exchanges and removals are atomic,
-- as the code asks of the system, and a write leaves any prefix (`cut` bytes) before it is whole. A
-- write that fails for lack of space leaves such a prefix too.
--
-- A JSON document is the value of the data type `Json` whose numbers keep the kinds of nlohmann's
-- tokens; the schema check is a parameter `shape` that returns issues, and JSON text the functions
-- `parse` and `dump` of a `JsonLibrary`, of which no law is assumed. A compilation acts on a
-- `Store`, the tables as lists of rows; the model, the files, load_base, the rows that an apply run
-- cites, new identifiers, the time and whether the database takes the writes are the record
-- `Services`. A transaction that throws leaves the store that it began with. An import acts on a
-- `Project`, the retained files by their paths and two tables; the staged copy is its content, and
-- a step that the system refuses is a flag. libs/search gets the rows of its queries from an
-- `Index`, whose only law is the LIMIT of the query.
--
-- Fuel. `walk` runs once per byte of the text, and each round reads a byte at least; `drain` runs
-- once per bit in the buffer, and each round takes five. No other loop needs fuel.
--
-- Not modelled. Where it is not said otherwise, queries of SQLite are arguments where a modelled
-- function reads their rows; the database, the HTTP client, JSON text, YAML, the extraction
-- adapters, path resolution with symbolic links and the command line are outside. Of
-- file_operation.cpp, recover_on_open, the extraction leases and keep_recovery_conflicts are not
-- modelled, of libs/domain/src/schema.cpp nothing is, of the model runner, the search index and the
-- compiler the constructors and the repeated reading of kc.json are left out, nor are the checks
-- that a path stays below its owner: a role stands for a path that passed them.
pub mod Base
pub mod Compiler
pub mod Domain
pub mod Examples
pub mod Import
pub mod Models
pub mod Review
pub mod Search
pub mod Storage
pub mod Updates
pub mod Vault
