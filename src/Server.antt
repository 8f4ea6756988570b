-- ===== src/Server.antt =====
-- crates/proxy-server: the QUIC and gRPC proxy server.
pub mod Config
pub mod Handler
pub mod Idle
pub mod Defaults
pub mod Certificate
pub mod Relay
pub mod Frames
pub mod Copy
pub mod Flow
pub mod Endpoint
pub mod Grpc
pub mod Locate
pub mod Load
pub mod Program
pub mod Startup
