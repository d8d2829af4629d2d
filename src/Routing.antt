-- ===== src/Routing.antt =====
-- core/routing.py, core/exchange.py, core/bindings.py and `Message.create`: which queues a published
-- message goes to, and its way there.
pub mod State
pub mod Publish
pub mod Snapshot
pub mod Targets
pub mod Consistent
pub mod Examples
