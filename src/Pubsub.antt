-- ===== src/Pubsub.antt =====
-- pubsub/channels.py: channels, their subscribers, and the fan-out of a message to them.
pub mod State
pub mod Fanout
pub mod Symmetry
pub mod Spec
pub mod Examples
