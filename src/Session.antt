-- ===== src/Session.antt =====
-- One proxied flow on the server side, as both servers run it: what the network answers is a
-- parameter, and what the server does is a list of events (Session/Defs.antt). Rules for what can
-- stand in such a list are in Session/Rules.antt; Session/Dial.antt is the code for names, sources
-- and connects that crates/vm/src/server.rs and crates/proxy-server/src/server.rs both hold.
mod Defs
mod Rules
pub mod Dial
pub mod Verdict
pub mod Reach
pub mod Relay
pub mod Own
unfoldable pub use Defs.*
pub use Rules.*
