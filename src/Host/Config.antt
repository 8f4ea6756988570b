-- ===== src/Host/Config.antt =====
-- crates/host/src/config.rs: the configuration of the host agent.
use vpn_bridge.Checks.{
  not_below_iff, not_empty_iff, not_zero_iff, refuse_if, refuse_if-and, refuse_if-last,
}
use vpn_bridge.Host.Dns.{DnsConfig}
use vpn_bridge.Host.Tunnel.{ServerConfig}
use vpn_bridge.Io.{Result, ok}
use vpn_bridge.Io.Text.{text}
use vpn_bridge.Net.{IpAddr, ip_of}
use vpn_bridge.Prelude.{
  Bool, List, Option, any, arith, false, is_empty, length, ltb, not, replicate, same_bytes,
  same_bytes_iff, ℕ, ◌&&◌, ◌++◌, ◌<◌, ◌==◌, ◌||◌, ◌↔◌, ◌≡◌, ◌≢◌, ◌≤◌,
}

pub record TunConfig : Type 0 where
  pub name : List ℕ
  pub address : List ℕ
  pub netmask : List ℕ
  pub mtu : ℕ
  pub auto_route : Bool

pub record HostConfig (IpNet : Type 0) : Type 0 where
  pub server : ServerConfig
  pub tun : TunConfig
  pub routes : List IpNet
  pub exclude : List IpNet
  pub dns : Option DnsConfig

module _ {IpNet : Type 0} (contains : IpNet → IpAddr → Bool) where
  -- `captures` and `excludes`
  unfoldable pub captures : HostConfig IpNet → IpAddr → Bool
  captures cfg addr = any (λ net. contains net addr) cfg.routes

  unfoldable pub excludes : HostConfig IpNet → IpAddr → Bool
  excludes cfg addr = any (λ net. contains net addr) cfg.exclude

  abbrev pub is_broadcast : List ℕ → Bool
  is_broadcast octets = same_bytes octets (replicate 4 255)

  abbrev pub is_unspecified : List ℕ → Bool
  is_unspecified octets = same_bytes octets (replicate 4 0)

  -- The outcome of the check.
  unfoldable pub validate : (show_ipv4 : List ℕ → List ℕ) → HostConfig IpNet → Result (Unit {0})
  validate show_ipv4 cfg =
      refuse_if (is_empty cfg.routes)
        (text "`routes` is empty: there is nothing to forward to the VM")
        (refuse_if (ltb cfg.tun.mtu 1280) (text "tun.mtu must be at least 1280 (ipstack minimum)") (
          refuse_if (cfg.server.reconnect_interval_ms == 0)
            (text "server.reconnect_interval_ms must be greater than zero")
            (refuse_if (is_broadcast cfg.tun.address || is_unspecified cfg.tun.address)
              (text "tun.address "
                ++ show_ipv4 cfg.tun.address
                ++ text " is not a usable interface address")
              (ok tt))))

  -- The warning that a direct route to the VM is going to be pinned; it is given once the first
  -- three tests are passed, and changes nothing of the outcome.
  unfoldable pub pins_server : HostConfig IpNet → Bool
  unfolding captures excludes
  pins_server cfg =
      captures cfg (ip_of cfg.server.address) && not (excludes cfg (ip_of cfg.server.address))

  abbrev pub IsValid : HostConfig IpNet → Type 0
  IsValid cfg =
      (0 < length cfg.routes)
      × ((1280 ≤ cfg.tun.mtu)
          × ((0 < cfg.server.reconnect_interval_ms)
              × ((cfg.tun.address ≢ replicate 4 255) × (cfg.tun.address ≢ replicate 4 0))))

  usable_iff :
      (octets : List ℕ)
      → ((is_broadcast octets || is_unspecified octets) ≡ false)
        ↔ ((octets ≢ replicate 4 255) × (octets ≢ replicate 4 0))
  usable_iff octets =
      ground (arith, same_bytes_iff octets (replicate 4 255), same_bytes_iff octets (replicate 4 0))

  -- `validate` accepts a configuration exactly when there are routes, the MTU is at least 1280, the
  -- reconnect interval is not 0, and the address of the TUN device is neither the broadcast nor the
  -- unspecified one.
  pub host_validate_iff :
      (show_ipv4 : List ℕ → List ℕ) (cfg : HostConfig IpNet)
      → (validate show_ipv4 cfg ≡ ok tt) ↔ IsValid cfg
  unfolding validate
  host_validate_iff show_ipv4 cfg = refuse_if-and _ _ _ (not_empty_iff cfg.routes) (
      refuse_if-and _ _ _ (not_below_iff cfg.tun.mtu 1280) (
        refuse_if-and _ _ _ (not_zero_iff cfg.server.reconnect_interval_ms)
          (refuse_if-last _ _ (usable_iff cfg.tun.address))))
