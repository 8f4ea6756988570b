-- ===== src/Client/Defaults.antt =====
-- crates/proxy-client/src/config.rs: the defaults of a configuration, which serde fills in.
use vpn_bridge.Client.Config.{
  ClientConfig, TunConfig, client_validate_iff, enabled_servers, grpc_server_of, quic_server_of,
  validate,
}
use vpn_bridge.Io.{ok}
use vpn_bridge.Io.Text.{text}
use vpn_bridge.Io.Text.Blank.{is_blank}
use vpn_bridge.Net.{IpAddr, SocketAddr, ip_of, is_ipv4}
use vpn_bridge.Prelude.{
  All, Bool, List, [], arith, false, inl, length, none, refl, true, ℕ, ◌<◌, ◌∷◌, ◌≡◌,
}

abbrev pub default_true : Bool
default_true = true

abbrev pub default_server_name : List ℕ
default_server_name = text "vpnbridge.local"

abbrev pub default_connect_timeout : ℕ
default_connect_timeout = 5000

abbrev pub default_reconnect_interval : ℕ
default_reconnect_interval = 3000

abbrev pub default_tun_name : List ℕ
default_tun_name = text "vpnquic0"

abbrev pub default_tun_address : List ℕ
default_tun_address = 10 ∷ 212 ∷ 0 ∷ 1 ∷ []

abbrev pub default_tun_netmask : List ℕ
default_tun_netmask = 255 ∷ 255 ∷ 255 ∷ 0 ∷ []

abbrev pub default_mtu : ℕ
default_mtu = 1400

-- `TunConfig::default`
abbrev pub default_tun : TunConfig
default_tun = record {
  name = default_tun_name;
  address = default_tun_address;
  netmask = default_tun_netmask;
  mtu = default_mtu;
  auto_route = default_true;
}

-- A file that gives nothing but what has no default.
unfoldable pub minimal_client :
    {IpNet : Type 0} → SocketAddr → List ℕ → List ℕ → List IpNet → ClientConfig IpNet
minimal_client server token certificate routes = record {
  server = server;
  quic_enabled = default_true;
  grpc_enabled = default_true;
  quic_server = none;
  grpc_server = none;
  token = token;
  server_name = default_server_name;
  certificate = certificate;
  routes = routes;
  connect_timeout_ms = default_connect_timeout;
  reconnect_interval_ms = default_reconnect_interval;
  tun = default_tun;
}

-- The defaults of the proxy client are accepted with any IPv4 routes that do not hold the server.
-- Conditions: the token has 1 to 255 bytes, and there is a route.
minimal_client-valid :
    {IpNet : Type 0} (contains : IpNet → IpAddr → Bool) (net_addr : IpNet → IpAddr)
    (show_ip : IpAddr → List ℕ) (server : SocketAddr) (token certificate : List ℕ)
    (routes : List IpNet)
    → 0 < length token
    → length token < 256
    → 0 < length routes
    → All (λ net. is_ipv4 (net_addr net) ≡ true) routes
    → All (λ net. contains net (ip_of server) ≡ false) routes
    → validate contains net_addr show_ip (minimal_client server token certificate routes) ≡ ok tt
unfolding minimal_client is_blank enabled_servers quic_server_of grpc_server_of
minimal_client-valid contains net_addr show_ip server token certificate routes byte few some_route
      v4s out =
    (client_validate_iff contains net_addr show_ip
        (minimal_client server token certificate routes)).1
      (
        inl refl,
        (byte, (few, (refl, (some_route, (v4s, ((out, (out, tt)), (omega arith, omega arith))))))),
      )
