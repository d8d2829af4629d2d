-- ===== src/Core.antt =====
-- The small modules of src/oneopen_broker/core on which the engines stand.
pub mod Names
pub mod Message
pub mod Results
pub mod Retry
pub mod Qos
pub mod Heap
pub mod Entries
pub mod Examples
