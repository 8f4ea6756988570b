-- ===== src/Vm/Server.antt =====
-- crates/vm/src/server.rs: one connection of the host, from its request to the relay. Its theorems
-- are in the modules below. What the network answers is the parameter `net`; log lines are left out.
pub mod Defs
pub mod Verdict
pub mod Safety
unfoldable pub use Defs.*
