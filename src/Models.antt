-- ===== src/Models.antt =====
-- libs/models: what a language model is asked and what of its answer is accepted.
pub mod Whitespace
pub mod Validator
pub mod Prompt
pub mod Runner
