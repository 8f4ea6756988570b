-- ===== src/Host/Running.antt =====
-- crates/host/src/main.rs: `main` behind the configuration: the look-ups, the TUN device, the routes, the
-- loop over the streams, and the removal of the routes.
use vpn_bridge.Host.Config.{HostConfig}
use vpn_bridge.Host.Dispatch.{dispatch}
use vpn_bridge.Host.Route.{Unrouted, cleanup-install, install, pin_all, pin_server}
use vpn_bridge.Host.Startup.{exclude_pins, server_pin, start_with}
use vpn_bridge.Io.{Result, err, ok}
use vpn_bridge.Net.{IpAddr}
use vpn_bridge.Prelude.{
  Bool, List, Option, [], false, if◌then◌else◌, inl, inr, refl, true, ◌++◌, ◌∷◌, ◌≡◌, ◌⊎◌,
}
use vpn_bridge.Proto.{Address, Cmd}
use vpn_bridge.Routing.{IsKernel, Kernel, Managed, NextHop, cleanup}
use vpn_bridge.Streams.{FlowEvent, IpStream}

-- Whether the device and the stack can be made, and how the loop ends: by the signal, or with an error
-- of the stack (`false`).
pub record Run : Type 0 where
  pub device : Bool
  pub stack : Bool
  pub signalled : Bool

-- What happened to the flows, the routing table at the end, and whether `main` returns `Ok`.
abbrev pub Outcome : Type 0 → Type 0
Outcome Table = List FlowEvent × Table × Bool

module _ {IpNet : Type 0} (K : Kernel IpNet) (contains : IpNet → IpAddr → Bool)
    (network : IpNet → IpAddr) (host_net : IpAddr → IpNet) {T : Type 0}
    (open_tunnel : Cmd → Address → Result T) where
  abbrev pub dispatch_all : List IpStream → List FlowEvent
  dispatch_all [] = []
  dispatch_all (stream ∷ streams) = dispatch open_tunnel stream ++ dispatch_all streams

  -- The manager removes its routes at the end of `main`, and where `main` fails, as it is dropped.
  abbrev pub serve_streams : Run → List IpStream → Bool → Managed K → Outcome K.Table
  serve_streams run streams true m = (dispatch_all streams, (cleanup K m).0, run.signalled)
  serve_streams run streams false m = ([], (cleanup K m).0, false)

  abbrev pub with_routes : Run → List IpStream → Managed K × Bool → Outcome K.Table
  with_routes run streams (m, true) = serve_streams run streams run.stack m
  with_routes run streams (m, false) = ([], (cleanup K m).0, false)

  -- The device is created between the look-ups and the routes.
  abbrev pub with_pin :
      HostConfig IpNet
      → Run
      → List IpStream
      → K.Table
      → Result (Option (IpNet × NextHop))
      → Outcome K.Table
  with_pin cfg run streams t (ok pin) =
      if run.device
      then with_routes run streams (start_with K contains network host_net t cfg (ok pin))
      else ([], t, false)
  with_pin cfg run streams t (err e) = ([], t, false)

  -- `main` behind `--check`, with the streams that the stack accepts until the loop ends.
  unfoldable pub main_running : HostConfig IpNet → Run → List IpStream → K.Table → Outcome K.Table
  unfolding server_pin exclude_pins install dispatch cleanup
  main_running cfg run streams t =
      with_pin cfg run streams t (server_pin K contains network host_net t cfg)

module _ {IpNet : Type 0} {K : Kernel IpNet} (L : IsKernel K) (contains : IpNet → IpAddr → Bool)
    (network : IpNet → IpAddr) (host_net : IpAddr → IpNet) {T : Type 0}
    (open_tunnel : Cmd → Address → Result T) where
  -- The table at the end is `t`, and the streams were handled one by one, unless `main` failed before.
  abbrev pub LeavesBehind : K.Table → List IpStream → Outcome K.Table → Type 0
  LeavesBehind t streams o =
      (o.1 ≡ t)
      × ((o.0 ≡ dispatch_all K contains network host_net open_tunnel streams)
          ⊎ ((o.0 ≡ []) × (o.2 ≡ false)))

  served_behind :
      (run : Run) (streams : List IpStream) (t : K.Table) (m : Managed K) (stacked : Bool)
      → (cleanup K m).0 ≡ t
      → LeavesBehind t streams
          (serve_streams K contains network host_net open_tunnel run streams stacked m)
  served_behind run streams t m true undone = (undone, inl refl)
  served_behind run streams t m false undone = (undone, inr (refl, refl))

  routes_behind :
      (run : Run) (streams : List IpStream) (t : K.Table) (m : Managed K) (went : Bool)
      → (cleanup K m).0 ≡ t
      → LeavesBehind t streams
          (with_routes K contains network host_net open_tunnel run streams (m, went))
  routes_behind run streams t m true undone = served_behind run streams t m run.stack undone
  routes_behind run streams t m false undone = (undone, inr (refl, refl))

  -- None of the prefixes to be routed into the tunnel has a route of its own when its turn comes.
  abbrev pub RoutesFree : K.Table → HostConfig IpNet → Option (IpNet × NextHop) → Type 0
  RoutesFree t cfg pin =
      Unrouted K cfg.tun.name
        (pin_all K (pin_server K (t, []) pin).0
          (exclude_pins K contains network host_net t cfg.exclude))
        cfg.routes

  started_behind :
      (cfg : HostConfig IpNet) (t : K.Table) (pin : Option (IpNet × NextHop)) (auto : Bool)
      → RoutesFree t cfg pin
      → (cleanup K
          (if auto
            then install K cfg.tun.name t pin
                (exclude_pins K contains network host_net t cfg.exclude)
                cfg.routes
            else ((t, []), true)).0).0
        ≡ t
  unfolding cleanup
  started_behind cfg t pin true free =
      cleanup-install L cfg.tun.name t pin (exclude_pins K contains network host_net t cfg.exclude)
        cfg.routes free
  started_behind cfg t pin false free = refl

  device_behind :
      (cfg : HostConfig IpNet) (run : Run) (streams : List IpStream) (t : K.Table)
      (pin : Option (IpNet × NextHop)) (device : Bool)
      → RoutesFree t cfg pin
      → LeavesBehind t streams (
          if device
          then with_routes K contains network host_net open_tunnel run streams
              (start_with K contains network host_net t cfg (ok pin))
          else ([], t, false))
  device_behind cfg run streams t pin true free =
      let r = start_with K contains network host_net t cfg (ok pin) in
      routes_behind run streams t r.0 r.1 (started_behind cfg t pin cfg.tun.auto_route free)
  device_behind cfg run streams t pin false free = (refl, inr (refl, refl))

  pin_behind :
      (cfg : HostConfig IpNet) (run : Run) (streams : List IpStream) (t : K.Table)
      (pin : Result (Option (IpNet × NextHop)))
      → ((p : Option (IpNet × NextHop)) → pin ≡ ok p → RoutesFree t cfg p)
      → LeavesBehind t streams
          (with_pin K contains network host_net open_tunnel cfg run streams t pin)
  pin_behind cfg run streams t (ok pin) free =
      device_behind cfg run streams t pin run.device (free pin refl)
  pin_behind cfg run streams t (err e) free = (refl, inr (refl, refl))

  -- However the host agent runs and ends, the routing table at its end is the one at its start; and it
  -- handles the streams that it accepts one by one, in order, unless it fails before the loop.
  -- Condition: no prefix that is routed into the tunnel has a route of its own when its turn comes.
  pub host_running-restored :
      (cfg : HostConfig IpNet) (run : Run) (streams : List IpStream) (t : K.Table)
      → ((p : Option (IpNet × NextHop))
          → server_pin K contains network host_net t cfg ≡ ok p
          → RoutesFree t cfg p)
      → LeavesBehind t streams
          (main_running K contains network host_net open_tunnel cfg run streams t)
  unfolding main_running
  host_running-restored cfg run streams t free =
      pin_behind cfg run streams t (server_pin K contains network host_net t cfg) free
