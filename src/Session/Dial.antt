-- ===== src/Session/Dial.antt =====
-- `dial_tcp`, the loop over the candidates of `serve_tcp`, the source of `serve_udp`, and `resolve`
-- (Session/Dial/Defs.antt), with what holds of them (Session/Dial/Laws.antt).
use vpn_bridge.Prelude.{◌*◌}
mod Defs
mod Laws
unfoldable pub use Defs.*
unfoldable pub use Laws.*
