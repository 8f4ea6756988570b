-- ===== src/Access.antt =====
-- What both servers ask before they dial: is the token right, and may the destination be reached?
-- crates/vm/src/config.rs and crates/proxy-server/src/config.rs hold the same two functions.
pub mod Token
pub mod Policy
