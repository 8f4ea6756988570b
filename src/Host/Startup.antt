-- ===== src/Host/Startup.antt =====
-- crates/host/src/main.rs: what `main` looks up and installs, in its order: the next hops are looked
-- up in the table as it is before anything is installed.
use vpn_bridge.Host.Config.{HostConfig, captures, excludes}
use vpn_bridge.Host.Route.{install}
use vpn_bridge.Io.{Result, err, ok}
use vpn_bridge.Net.{IpAddr, ip_of}
use vpn_bridge.Prelude.{
  Bool, List, Option, [], false, if◌then◌else◌, none, not, some, true, ◌&&◌, ◌++◌, ◌∷◌,
}
use vpn_bridge.Routing.{Kernel, Managed, NextHop}

module _ {IpNet : Type 0} (K : Kernel IpNet) (contains : IpNet → IpAddr → Bool)
    (network : IpNet → IpAddr) (host_net : IpAddr → IpNet) where
  abbrev server_ip : HostConfig IpNet → IpAddr
  server_ip cfg = ip_of cfg.server.address

  -- The pin of the agent, where the routes capture its address; a failed lookup ends the start.
  abbrev pub pin_for : IpAddr → Result NextHop → Result (Option (IpNet × NextHop))
  pin_for addr (ok hop) = ok (some (host_net addr, hop))
  pin_for addr (err e) = err e

  unfoldable pub server_pin : K.Table → HostConfig IpNet → Result (Option (IpNet × NextHop))
  unfolding captures excludes
  server_pin t cfg =
      if captures contains cfg (server_ip cfg) && not (excludes contains cfg (server_ip cfg))
      then pin_for (server_ip cfg) (K.lookup t (server_ip cfg))
      else ok none

  abbrev pub found_hop : IpNet → Result NextHop → List (IpNet × NextHop)
  found_hop net (ok hop) = (net, hop) ∷ []
  found_hop net (err e) = []

  -- An excluded network without a current route is skipped.
  unfoldable pub exclude_pins : K.Table → List IpNet → List (IpNet × NextHop)
  exclude_pins t [] = []
  exclude_pins t (net ∷ nets) = found_hop net (K.lookup t (network net)) ++ exclude_pins t nets

  abbrev pub start_with :
      K.Table → HostConfig IpNet → Result (Option (IpNet × NextHop)) → Managed K × Bool
  start_with t cfg (ok pin) =
      if cfg.tun.auto_route
      then install K cfg.tun.name t pin (exclude_pins t cfg.exclude) cfg.routes
      else ((t, []), true)
  start_with t cfg (err e) = ((t, []), false)

  -- The manager behind the start, and whether the start succeeded.
  unfoldable pub start_agent : K.Table → HostConfig IpNet → Managed K × Bool
  unfolding server_pin exclude_pins install
  start_agent t cfg = start_with t cfg (server_pin t cfg)
