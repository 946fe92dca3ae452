-- ===== src/Maintenance.antt =====
-- internal/pruning: the bounded run that prunes relays, page by page, over a repository.
pub mod Pruning
pub mod Examples
