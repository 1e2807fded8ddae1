-- ===== src/ControlPlane.antt =====
-- The control plane (package controlplane): rules, regions, the extractor of request values, the
-- router over them and the loading of the configuration.
pub mod Types
pub mod Float
pub mod Hash
pub mod HostMap
pub mod Extractor
pub mod Rules
pub mod Regions
pub mod Router
pub mod Config
pub mod Run
pub mod Samples
mod Tests
