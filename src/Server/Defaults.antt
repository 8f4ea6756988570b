-- ===== src/Server/Defaults.antt =====
-- crates/proxy-server/src/config.rs: the defaults of a configuration, which serde fills in.
use vpn_bridge.Io.{ok}
use vpn_bridge.Io.Text.{text}
use vpn_bridge.Io.Text.Blank.{is_blank}
use vpn_bridge.Net.{IpAddr, SocketAddr}
use vpn_bridge.Prelude.{Bool, List, [], arith, inl, length, none, refl, true, ℕ, ◌<◌, ◌≡◌}
use vpn_bridge.Server.Config.{
  ServerConfig, grpc_listen_of, permits, quic_listen_of, server_validate_iff, validate,
}

abbrev pub default_true : Bool
default_true = true

abbrev pub default_server_name : List ℕ
default_server_name = text "vpnbridge.local"

abbrev pub default_certificate : List ℕ
default_certificate = text "proxy-server-cert.pem"

abbrev pub default_private_key : List ℕ
default_private_key = text "proxy-server-key.pem"

abbrev pub default_connect_timeout : ℕ
default_connect_timeout = 8000

abbrev pub default_dns_timeout : ℕ
default_dns_timeout = 5000

abbrev pub default_tcp_idle_timeout : ℕ
default_tcp_idle_timeout = 300

abbrev pub default_udp_timeout : ℕ
default_udp_timeout = 60

abbrev pub default_max_streams : ℕ
default_max_streams = 4096

-- A file that gives nothing but the listen address and the token.
unfoldable pub minimal_config : {IpNet : Type 0} → SocketAddr → List ℕ → ServerConfig IpNet
minimal_config listen token = record {
  listen = listen;
  quic_enabled = default_true;
  grpc_enabled = default_true;
  quic_listen = none;
  grpc_listen = none;
  token = token;
  server_name = default_server_name;
  certificate = default_certificate;
  private_key = default_private_key;
  allow = [];
  deny = [];
  bind_ip = none;
  connect_timeout_ms = default_connect_timeout;
  dns_timeout_ms = default_dns_timeout;
  tcp_idle_timeout_secs = default_tcp_idle_timeout;
  udp_timeout_secs = default_udp_timeout;
  max_concurrent_streams = default_max_streams;
}

-- A configuration that leaves all but the listen address and the token to the defaults is accepted,
-- listens there with both transports, and permits every destination. Condition: the token has 1 to
-- 255 bytes.
minimal_config-valid :
    {IpNet : Type 0} (contains : IpNet → IpAddr → Bool) (listen : SocketAddr) (token : List ℕ)
    → 0 < length token
    → length token < 256
    → (validate (minimal_config {IpNet = IpNet} listen token) ≡ ok tt)
      × (quic_listen_of (minimal_config {IpNet = IpNet} listen token) ≡ listen)
      × (grpc_listen_of (minimal_config {IpNet = IpNet} listen token) ≡ listen)
      × ((destination : IpAddr) → permits contains (minimal_config listen token) destination ≡ true)
unfolding minimal_config quic_listen_of grpc_listen_of permits is_blank
minimal_config-valid contains listen token some_byte few = (
  (server_validate_iff (minimal_config listen token)).1 (
    inl refl,
    (
      some_byte,
      (few, (refl, (omega arith, (omega arith, (omega arith, (omega arith, omega arith)))))),
    ),
  ),
  refl,
  refl,
  λ destination. refl,
)
