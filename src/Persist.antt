-- ===== src/Persist.antt =====
-- Durability: the write-ahead log (src/persist).
pub mod Encoding
pub mod Wal
pub mod Snapshot
pub mod Tests
mod SnapshotTests
