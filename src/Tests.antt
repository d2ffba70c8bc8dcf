-- ===== src/Tests.antt =====
-- Runs of the modelled code, and the theorems applied to concrete connections.
pub mod Peers
pub mod Scans
pub mod Talks
pub mod Typings
pub mod Transfers
pub mod Requests
pub mod Exchanges
pub mod Servers
pub mod Sockets
pub mod Turns
pub mod Consoles
pub mod Buffers
