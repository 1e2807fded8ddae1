-- ===== src/StatusMonitor.antt =====
-- The health of the availability zone (statusmonitor/types.go, statusmonitor.go and zk.go).
pub mod ZooKeeper
pub mod State
pub mod Failover
pub mod Leak
pub mod Invariant
pub mod Zones
pub mod Response
pub mod Samples
mod Tests
