-- ===== src/Storage.antt =====
-- libs/storage: durable file operations, schema migrations and concept identities.
pub mod Disk
pub mod Operation
pub mod Migrations
pub mod Identity
