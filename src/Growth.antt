-- ===== src/Growth.antt =====
-- internal/storage/growth.go and internal/storage/sqlite/growth.go: the guard that keeps the database files
-- within their budget.
pub mod Percent
pub mod State
pub mod Limits
pub mod Sample
pub mod Row
pub mod Guard
pub mod Examples
