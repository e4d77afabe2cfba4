-- ===== src/Archiver.antt =====
-- The archiver (archiver/): batches of rows out of Tarantool.
pub mod Batcher
pub mod Snapshot
pub mod Tests
