-- ===== src/Store.antt =====
-- internal/storage and internal/storage/sqlite: the lifecycle of retained relays.
pub mod Schema
pub mod Transaction
pub mod Rows
pub mod Lifecycle
pub mod Moderation
pub mod Enrollment
pub mod Pruning
pub mod Checks
pub mod Health
pub mod History
pub mod Fixture
pub mod Examples
