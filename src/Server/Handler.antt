-- ===== src/Server/Handler.antt =====
-- crates/proxy-server/src/server.rs: one proxied stream of the proxy server (Handler/Defs.antt), the
-- answer that a client gets (Handler/Verdict.antt), and where a stream can reach out to
-- (Handler/Safety.antt).
pub mod Defs
pub mod Verdict
pub mod Safety
