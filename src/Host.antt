-- ===== src/Host.antt =====
-- crates/host: the agent on the host.
pub mod Tunnel
pub mod Handshakes
pub mod Dns
pub mod Answers
pub mod Config
pub mod Route
pub mod Startup
pub mod Pinned
pub mod Lookup
pub mod Defaults
pub mod Uplink
pub mod Locate
pub mod Load
pub mod Dispatch
pub mod Forwarding
pub mod Downlink
pub mod Delivery
pub mod Commands
pub mod Forwarder
pub mod Device
pub mod Running
