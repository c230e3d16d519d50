-- ===== src/Hub.antt =====
-- The hub, which watches several nodes: hub/.
pub mod Failover
pub mod Scheduling
