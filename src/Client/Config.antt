-- ===== src/Client/Config.antt =====
-- crates/proxy-client/src/config.rs: the configuration of the proxy client.
use vpn_bridge.Checks.{
  either_iff, not_below_iff, not_empty_iff, not_long_iff, not_zero_iff, refuse_if, refuse_if-and,
  refuse_if-last, same_iff,
}
use vpn_bridge.Io.{Result, ok}
use vpn_bridge.Io.Text.{text}
use vpn_bridge.Io.Text.Blank.{is_blank}
use vpn_bridge.Net.{IpAddr, SocketAddr, ip_of, is_ipv4}
use vpn_bridge.Prelude.{
  All, Bool, List, Option, [], any, any-false_iff, arith, false, if◌then◌else◌, is_empty, length,
  ltb, none, not, refl, some, true, ℕ, ◌&&◌, ◌++◌, ◌<◌, ◌==◌, ◌↔◌, ◌∷◌, ◌≡◌, ◌≤◌, ◌⊎◌,
}

pub record TunConfig : Type 0 where
  pub name : List ℕ
  pub address : List ℕ
  pub netmask : List ℕ
  pub mtu : ℕ
  pub auto_route : Bool

pub record ClientConfig (IpNet : Type 0) : Type 0 where
  pub server : SocketAddr
  pub quic_enabled : Bool
  pub grpc_enabled : Bool
  pub quic_server : Option SocketAddr
  pub grpc_server : Option SocketAddr
  pub token : List ℕ
  pub server_name : List ℕ
  pub certificate : List ℕ
  pub routes : List IpNet
  pub connect_timeout_ms : ℕ
  pub reconnect_interval_ms : ℕ
  pub tun : TunConfig

-- `unwrap_or`
abbrev pub or_server : Option SocketAddr → SocketAddr → SocketAddr
or_server none server = server
or_server (some own) server = own

-- `IpNet::contains` and `IpNet::addr` of ipnet, and `Display` of an address.
module _ {IpNet : Type 0} (contains : IpNet → IpAddr → Bool) (net_addr : IpNet → IpAddr)
    (show_ip : IpAddr → List ℕ) where
  unfoldable pub quic_server_of : ClientConfig IpNet → SocketAddr
  quic_server_of cfg = or_server cfg.quic_server cfg.server

  unfoldable pub grpc_server_of : ClientConfig IpNet → SocketAddr
  grpc_server_of cfg = or_server cfg.grpc_server cfg.server

  abbrev when : Bool → SocketAddr → List SocketAddr
  when enabled a = if enabled then a ∷ [] else []

  unfoldable pub enabled_servers : ClientConfig IpNet → List SocketAddr
  unfolding quic_server_of grpc_server_of
  enabled_servers cfg =
      when cfg.quic_enabled (quic_server_of cfg) ++ when cfg.grpc_enabled (grpc_server_of cfg)

  unfoldable pub captures : List IpNet → SocketAddr → Bool
  captures routes server = any (λ net. contains net (ip_of server)) routes

  -- `for server in self.enabled_servers()`, in front of the rest of the checks.
  unfoldable pub check_servers :
      List IpNet → List SocketAddr → Result (Unit {0}) → Result (Unit {0})
  unfolding captures
  check_servers routes [] rest = rest
  check_servers routes (server ∷ more) rest =
      refuse_if (captures routes server)
        (text "proxy server "
          ++ show_ip (ip_of server)
          ++ text " is inside a proxy route; this would capture the tunnel itself")
        (check_servers routes more rest)

  unfoldable pub validate : ClientConfig IpNet → Result (Unit {0})
  unfolding is_blank enabled_servers check_servers
  validate cfg =
      refuse_if (not cfg.quic_enabled && not cfg.grpc_enabled)
        (text "at least one of quic_enabled or grpc_enabled must be true")
        (refuse_if (is_empty cfg.token) (text "token must not be empty") (
          refuse_if (ltb 255 (length cfg.token)) (text "token must be at most 255 bytes") (
            refuse_if (is_blank cfg.server_name) (text "server_name must not be empty") (
              refuse_if (is_empty cfg.routes) (text "routes must not be empty") (
                refuse_if (any (λ net. not (is_ipv4 (net_addr net))) cfg.routes)
                  (text "IPv6 routes are not supported until the TUN has an IPv6 address")
                  (check_servers cfg.routes (enabled_servers cfg) (
                    refuse_if (ltb cfg.tun.mtu 1280) (text "tun.mtu must be at least 1280") (
                      refuse_if (cfg.reconnect_interval_ms == 0)
                        (text "reconnect_interval_ms must be greater than zero") (ok tt)))))))))

  -- What the client relies on: among others, no enabled server is inside a route.
  abbrev pub IsValid : ClientConfig IpNet → Type 0
  IsValid cfg =
      ((cfg.quic_enabled ≡ true) ⊎ (cfg.grpc_enabled ≡ true))
      × ((0 < length cfg.token)
          × ((length cfg.token < 256)
              × ((is_blank cfg.server_name ≡ false)
                  × ((0 < length cfg.routes)
                      × (All (λ net. is_ipv4 (net_addr net) ≡ true) cfg.routes
                          × (All
                                (λ server.
                                  All (λ net. contains net (ip_of server) ≡ false) cfg.routes)
                                (enabled_servers cfg)
                              × ((1280 ≤ cfg.tun.mtu) × (0 < cfg.reconnect_interval_ms))))))))

  not_captured_iff :
      (routes : List IpNet) (server : SocketAddr)
      → (captures routes server ≡ false) ↔ All (λ net. contains net (ip_of server) ≡ false) routes
  unfolding captures
  not_captured_iff routes server = any-false_iff (λ net. contains net (ip_of server)) routes

  check_servers_iff :
      {Q : Type 0} (routes : List IpNet) (servers : List SocketAddr) (rest : Result (Unit {0}))
      → ((rest ≡ ok tt) ↔ Q)
      → (check_servers routes servers rest ≡ ok tt)
        ↔ (All (λ server. All (λ net. contains net (ip_of server) ≡ false) routes) servers × Q)
  unfolding check_servers
  check_servers_iff routes [] rest q = (λ h. (tt, q.0 h), λ h. q.1 h.1)
  check_servers_iff routes (server ∷ more) rest q =
      let both =
        refuse_if-and (captures routes server) _ _ (not_captured_iff routes server)
          (check_servers_iff routes more rest q) in
      (λ h. let (a, (b, c)) = both.0 h in ((a, b), c), λ ((a, b), c). both.1 (a, (b, c)))

  routes_ipv4_iff :
      (routes : List IpNet)
      → (any (λ net. not (is_ipv4 (net_addr net))) routes ≡ false)
        ↔ All (λ net. is_ipv4 (net_addr net) ≡ true) routes
  routes_ipv4_iff [] = (λ h. tt, λ h. refl)
  routes_ipv4_iff (net ∷ routes) = ground (arith, routes_ipv4_iff routes)

  -- `validate` accepts a configuration exactly when a transport is enabled, the token has 1 to 255
  -- bytes, the server name is not blank, there are routes, all of them IPv4, no enabled server is
  -- inside a route, the MTU is at least 1280 and the reconnect interval is not 0.
  pub client_validate_iff : (cfg : ClientConfig IpNet) → (validate cfg ≡ ok tt) ↔ IsValid cfg
  unfolding validate
  client_validate_iff cfg = refuse_if-and _ _ _ (either_iff cfg.quic_enabled cfg.grpc_enabled) (
      refuse_if-and _ _ _ (not_empty_iff cfg.token) (
        refuse_if-and _ _ _ (not_long_iff cfg.token) (
          refuse_if-and _ _ _ (same_iff (is_blank cfg.server_name)) (
            refuse_if-and _ _ _ (not_empty_iff cfg.routes) (
              refuse_if-and _ _ _ (routes_ipv4_iff cfg.routes) (
                check_servers_iff cfg.routes (enabled_servers cfg) _ (
                  refuse_if-and _ _ _ (not_below_iff cfg.tun.mtu 1280)
                    (refuse_if-last _ _ (not_zero_iff cfg.reconnect_interval_ms)))))))))
