-- ===== src/Handler.antt =====
-- The handlers (package handler) around the router: the dispatch of a request to a backend or to a
-- refusal, and the headers that pin a client to the host name of its region.
pub mod Refusals
pub mod Pinning
pub mod Dispatch
pub mod H1
pub mod Rpc
pub mod Cors
pub mod Pci
pub mod Endpoint
pub mod EndpointsPage
pub mod Marshal
pub mod Common
pub mod RealIp
pub mod Mux
pub mod Server
pub mod H2
mod Tests
