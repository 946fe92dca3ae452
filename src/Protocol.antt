-- ===== src/Protocol.antt =====
-- internal/protocol/v1: the version 1 vocabulary.
pub mod Vocabulary
