-- ===== src/Host/Defaults.antt =====
-- crates/host/src/config.rs: the defaults of a configuration, which serde fills in.
use vpn_bridge.Host.Config.{HostConfig, TunConfig, host_validate_iff, validate}
use vpn_bridge.Io.{ok}
use vpn_bridge.Io.Text.{text}
use vpn_bridge.Net.{IpAddr, SocketAddr}
use vpn_bridge.Prelude.{Bool, List, [], arith, length, none, true, ℕ, ◌<◌, ◌∷◌, ◌≡◌}

abbrev pub default_true : Bool
default_true = true

abbrev pub default_connect_timeout : ℕ
default_connect_timeout = 5000

abbrev pub default_reconnect_interval : ℕ
default_reconnect_interval = 10000

abbrev pub default_tun_name : List ℕ
default_tun_name = text "vpnbr0"

abbrev pub default_tun_address : List ℕ
default_tun_address = 10 ∷ 211 ∷ 0 ∷ 1 ∷ []

abbrev pub default_tun_netmask : List ℕ
default_tun_netmask = 255 ∷ 255 ∷ 255 ∷ 0 ∷ []

abbrev pub default_mtu : ℕ
default_mtu = 1500

abbrev pub default_dns_timeout : ℕ
default_dns_timeout = 5000

-- `TunConfig::default`
abbrev pub default_tun : TunConfig
default_tun = record {
  name = default_tun_name;
  address = default_tun_address;
  netmask = default_tun_netmask;
  mtu = default_mtu;
  auto_route = default_true;
}

-- A file that gives nothing but the agent's address and the routes.
unfoldable pub minimal_host : {IpNet : Type 0} → SocketAddr → List IpNet → HostConfig IpNet
minimal_host address routes = record {
  server = record {
    address = address;
    token = [];
    connect_timeout_ms = default_connect_timeout;
    reconnect_interval_ms = default_reconnect_interval;
    tcp_nodelay = default_true;
  };
  tun = default_tun;
  routes = routes;
  exclude = [];
  dns = none;
}

-- The defaults of the host agent are accepted with any routes. Condition: there is one.
minimal_host-valid :
    {IpNet : Type 0} (contains : IpNet → IpAddr → Bool) (show_ipv4 : List ℕ → List ℕ)
    (address : SocketAddr) (routes : List IpNet)
    → 0 < length routes
    → validate contains show_ipv4 (minimal_host address routes) ≡ ok tt
unfolding minimal_host
minimal_host-valid contains show_ipv4 address routes some_route =
    (host_validate_iff contains show_ipv4 (minimal_host address routes)).1
      (some_route, (omega arith, (omega arith, (λ e. cc, λ e. cc))))
