-- ===== src/Resolution.antt =====
-- internal/actorresolver: the cache of actor keys.
pub mod Cache
pub mod Examples
