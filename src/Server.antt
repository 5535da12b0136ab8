-- ===== src/Server.antt =====
-- The server: the Go code under internal/ and cmd/server/.
pub mod Router
pub mod Cache
pub mod Wal
pub mod Memory
pub mod Bloom
pub mod Sstable
pub mod Store
pub mod Ingestion
pub mod Api
pub mod Compaction
pub mod Rotation
