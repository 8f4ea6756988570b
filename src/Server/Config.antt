-- ===== src/Server/Config.antt =====
-- crates/proxy-server/src/config.rs: the configuration of the proxy server.
use vpn_bridge.Access.Policy.{permits_by}
use vpn_bridge.Access.Token.{token_difference, token_difference-same}
use vpn_bridge.Checks.{
  either_iff, not_empty_iff, not_long_iff, not_zero_iff, refuse_if, refuse_if-and, refuse_if-last,
  same_iff,
}
use vpn_bridge.Io.{Result, ok}
use vpn_bridge.Io.Text.{text}
use vpn_bridge.Io.Text.Blank.{is_blank}
use vpn_bridge.Net.{IpAddr, SocketAddr}
use vpn_bridge.Prelude.{
  Bool, List, Option, false, is_empty, length, ltb, none, not, same_bytes, some, true, ℕ, ◌&&◌, ◌<◌,
  ◌==◌, ◌↔◌, ◌≡◌, ◌⊎◌,
}

-- A path is its bytes, as on Unix.
pub record ServerConfig (IpNet : Type 0) : Type 0 where
  pub listen : SocketAddr
  pub quic_enabled : Bool
  pub grpc_enabled : Bool
  pub quic_listen : Option SocketAddr
  pub grpc_listen : Option SocketAddr
  pub token : List ℕ
  pub server_name : List ℕ
  pub certificate : List ℕ
  pub private_key : List ℕ
  pub allow : List IpNet
  pub deny : List IpNet
  pub bind_ip : Option IpAddr
  pub connect_timeout_ms : ℕ
  pub dns_timeout_ms : ℕ
  pub tcp_idle_timeout_secs : ℕ
  pub udp_timeout_secs : ℕ
  pub max_concurrent_streams : ℕ

-- `unwrap_or`
abbrev pub or_listen : Option SocketAddr → SocketAddr → SocketAddr
or_listen none listen = listen
or_listen (some own) listen = own

module _ {IpNet : Type 0} where
  unfoldable pub validate : ServerConfig IpNet → Result (Unit {0})
  unfolding is_blank
  validate cfg =
      refuse_if (not cfg.quic_enabled && not cfg.grpc_enabled)
        (text "at least one of quic_enabled or grpc_enabled must be true")
        (refuse_if (is_empty cfg.token) (text "token must not be empty") (
          refuse_if (ltb 255 (length cfg.token)) (text "token must be at most 255 bytes") (
            refuse_if (is_blank cfg.server_name) (text "server_name must not be empty") (
              refuse_if (cfg.max_concurrent_streams == 0)
                (text "max_concurrent_streams must be greater than zero")
                (refuse_if (cfg.connect_timeout_ms == 0)
                  (text "connect_timeout_ms must be greater than zero")
                  (refuse_if (cfg.dns_timeout_ms == 0)
                    (text "dns_timeout_ms must be greater than zero")
                    (refuse_if (cfg.tcp_idle_timeout_secs == 0)
                      (text "tcp_idle_timeout_secs must be greater than zero")
                      (refuse_if (cfg.udp_timeout_secs == 0)
                        (text "udp_timeout_secs must be greater than zero") (ok tt)))))))))

  -- What the server relies on in a configuration.
  abbrev pub IsValid : ServerConfig IpNet → Type 0
  IsValid cfg =
      ((cfg.quic_enabled ≡ true) ⊎ (cfg.grpc_enabled ≡ true))
      × ((0 < length cfg.token)
          × ((length cfg.token < 256)
              × ((is_blank cfg.server_name ≡ false)
                  × ((0 < cfg.max_concurrent_streams)
                      × ((0 < cfg.connect_timeout_ms)
                          × ((0 < cfg.dns_timeout_ms)
                              × ((0 < cfg.tcp_idle_timeout_secs)
                                  × ((0 < cfg.udp_timeout_secs)))))))))

  unfoldable pub quic_listen_of : ServerConfig IpNet → SocketAddr
  quic_listen_of cfg = or_listen cfg.quic_listen cfg.listen

  unfoldable pub grpc_listen_of : ServerConfig IpNet → SocketAddr
  grpc_listen_of cfg = or_listen cfg.grpc_listen cfg.listen

  unfoldable pub permits : (IpNet → IpAddr → Bool) → ServerConfig IpNet → IpAddr → Bool
  unfolding permits_by
  permits contains cfg = permits_by contains cfg.deny cfg.allow

  -- `validate` accepts a configuration exactly when a transport is enabled, the token has 1 to 255
  -- bytes, the server name is not blank, and the stream limit and all timeouts are not 0.
  pub server_validate_iff : (cfg : ServerConfig IpNet) → (validate cfg ≡ ok tt) ↔ IsValid cfg
  unfolding validate
  server_validate_iff cfg = refuse_if-and _ _ _ (either_iff cfg.quic_enabled cfg.grpc_enabled) (
      refuse_if-and _ _ _ (not_empty_iff cfg.token) (
        refuse_if-and _ _ _ (not_long_iff cfg.token) (
          refuse_if-and _ _ _ (same_iff (is_blank cfg.server_name)) (
            refuse_if-and _ _ _ (not_zero_iff cfg.max_concurrent_streams) (
              refuse_if-and _ _ _ (not_zero_iff cfg.connect_timeout_ms) (
                refuse_if-and _ _ _ (not_zero_iff cfg.dns_timeout_ms) (
                  refuse_if-and _ _ _ (not_zero_iff cfg.tcp_idle_timeout_secs)
                    (refuse_if-last _ _ (not_zero_iff cfg.udp_timeout_secs)))))))))

unfoldable pub token_matches : List ℕ → List ℕ → Bool
token_matches expected got = token_difference expected got == 0

-- Between tokens that the configuration and the wire admit, the comparison is equality.
pub token_matches-same :
    (expected got : List ℕ)
    → length expected < 256
    → length got < 256
    → token_matches expected got ≡ same_bytes expected got
unfolding token_matches
token_matches-same = token_difference-same
