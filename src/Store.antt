-- ===== src/Store.antt =====
-- internal/persistence: the collections of the authoritative matches, the snapshots in them, and the
-- transaction that applies a command.
pub mod Documents
pub mod Utf8
pub mod Driver
pub mod Snapshot
pub mod Commands
pub mod Laws
pub mod Outbox
pub mod Replay
pub mod Recover
pub mod Conflict
