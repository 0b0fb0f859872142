-- ===== src/Examples.antt =====
-- Tests on concrete values.
pub mod Data
pub mod Digests
pub mod Reviews
pub mod Engine
pub mod Witnesses
pub mod Imports
pub mod Documents
pub mod Compilation
