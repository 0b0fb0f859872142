-- ===== src/Domain.antt =====
-- libs/domain: identifiers, values, text and their validation.
pub mod Id
pub mod Unicode
pub mod Types
pub mod Paths
pub mod Markdown
pub mod Concept
pub mod Validate
pub mod Json
pub mod Sha256
