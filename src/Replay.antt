-- ===== src/Replay.antt =====
-- internal/storage/sqlite/replay.go and internal/protocol/v1/replay.go: the reservations that keep a signed
-- request from being accepted twice.
pub mod Live
pub mod Table
pub mod Memory
pub mod Agreement
pub mod History
pub mod Examples
