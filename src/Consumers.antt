-- ===== src/Consumers.antt =====
-- core/consumers.py: the registry of connected consumers and the fair delivery to them.
pub mod State
pub mod Delivery
pub mod Consistent
pub mod Window
pub mod Rotation
pub mod Turn
pub mod Index
pub mod Departure
pub mod Drain
pub mod Examples
