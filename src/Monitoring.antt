-- ===== src/Monitoring.antt =====
-- src/oneopen_broker/monitoring: the rows and sums that are reported.
pub mod Metrics
pub mod Introspection
