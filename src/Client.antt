-- ===== src/Client.antt =====
-- crates/proxy-client: the client that routes networks through the proxy server.
pub mod Config
pub mod Transport
pub mod Fallback
pub mod Route
pub mod Quic
pub mod Grpc
pub mod Frames
pub mod Defaults
pub mod Locate
pub mod Load
pub mod Dispatch
pub mod Forwarding
pub mod Relays
pub mod Delivery
pub mod Commands
pub mod Device
pub mod Opening
pub mod Accepted
pub mod Running
