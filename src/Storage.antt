-- ===== src/Storage.antt =====
-- internal/storage/postgres: the task store, its page tokens and listing, and the migrations.
pub mod Table
pub mod Store
pub mod Cursor
pub mod Listing
pub mod Isolation
pub mod Migrations
pub mod Pool
