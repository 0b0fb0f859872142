-- ===== src/Vault.antt =====
-- libs/vault: the articles of the vault, their ownership markers, rendering and preview.
pub mod Diff
pub mod Markers
pub mod Url
pub mod Render
