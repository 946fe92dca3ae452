-- ===== src/Identity.antt =====
-- internal/protocol/v1/identity.go: canonical relay actors and public base URLs.
pub mod Escapes
pub mod Library
pub mod Utf8
pub mod Path
pub mod Authority
pub mod Normalize
pub mod Examples
