-- ===== src/Persistence.antt =====
-- persistence/records.py and persistence/recovery.py: the records of the append-only file, and the
-- replay of the journal after a restart.
pub mod Records
pub mod Layout
pub mod Codec
pub mod Whole
pub mod Torn
pub mod Replay
pub mod Idle
pub mod Lost
pub mod Examples
