-- ===== src/Client/Running.antt =====
-- crates/proxy-client/src/main.rs: `main` behind the configuration: the transports, the TUN device, the
-- routes, the loop over the streams, and the removal of the routes.

use vpn_bridge.Client.Config.{ClientConfig}
use vpn_bridge.Client.Dispatch.{dispatch}
use vpn_bridge.Client.Route.{add_all, cleanup-add_all}
use vpn_bridge.Io.{Result}
use vpn_bridge.Prelude.{
  Bool, List, Option, [], false, if◌then◌else◌, inl, inr, none, refl, some, true, ℕ, ◌++◌, ◌∷◌, ◌≡◌,
  ◌⊎◌,
}
use vpn_bridge.Proto.{Address, Cmd}
use vpn_bridge.Routing.{IsKernel, Kernel, Managed, cleanup}
use vpn_bridge.Streams.{FlowEvent, IpStream}

-- Whether the transports, the device and the stack can be made, and how the loop ends: by the signal,
-- or with an error of the stack (`false`).
pub record Run : Type 0 where
  pub transports : Bool
  -- The device's name, if it could be created.
  pub device : Option (List ℕ)
  pub stack : Bool
  pub signalled : Bool

-- What happened to the flows, the routing table at the end, and whether `main` returns `Ok`.
abbrev pub Outcome : Type 0 → Type 0
Outcome Table = List FlowEvent × Table × Bool

module _ {IpNet : Type 0} (K : Kernel IpNet) {T : Type 0}
    (open_tunnel : Cmd → Address → Result T) where
  abbrev pub dispatch_all : List IpStream → List FlowEvent
  dispatch_all [] = []
  dispatch_all (stream ∷ streams) = dispatch open_tunnel stream ++ dispatch_all streams

  -- The manager removes its routes at the end of `main`, and where `main` fails, as it is dropped.
  abbrev pub serve_streams : Run → List IpStream → Bool → Managed K → Outcome K.Table
  serve_streams run streams true m = (dispatch_all streams, (cleanup K m).0, run.signalled)
  serve_streams run streams false m = ([], (cleanup K m).0, false)

  abbrev pub with_routes : Run → List IpStream → Managed K × Bool → Outcome K.Table
  with_routes run streams (m, true) = serve_streams run streams run.stack m
  with_routes run streams (m, false) = ([], (cleanup K m).0, false)

  abbrev pub routes_of : List ℕ → ClientConfig IpNet → K.Table → Managed K × Bool
  routes_of name cfg t =
      if cfg.tun.auto_route then add_all K name (t, []) cfg.routes else ((t, []), true)

  abbrev pub with_device :
      ClientConfig IpNet → Run → List IpStream → K.Table → Option (List ℕ) → Outcome K.Table
  with_device cfg run streams t (some name) = with_routes run streams (routes_of name cfg t)
  with_device cfg run streams t none = ([], t, false)

  -- `main` behind `--check`, with the streams that the stack accepts until the loop ends.
  unfoldable pub main_running : ClientConfig IpNet → Run → List IpStream → K.Table → Outcome K.Table
  unfolding add_all dispatch cleanup
  main_running cfg run streams t =
      if run.transports then with_device cfg run streams t run.device else ([], t, false)

module _ {IpNet : Type 0} {K : Kernel IpNet} (L : IsKernel K) {T : Type 0}
    (open_tunnel : Cmd → Address → Result T) where
  -- The table at the end is `t`, and the streams were handled one by one, unless `main` failed before.
  abbrev pub LeavesBehind : K.Table → List IpStream → Outcome K.Table → Type 0
  LeavesBehind t streams o =
      (o.1 ≡ t) × ((o.0 ≡ dispatch_all K open_tunnel streams) ⊎ ((o.0 ≡ []) × (o.2 ≡ false)))

  served_behind :
      (run : Run) (streams : List IpStream) (t : K.Table) (m : Managed K) (stacked : Bool)
      → (cleanup K m).0 ≡ t
      → LeavesBehind t streams (serve_streams K open_tunnel run streams stacked m)
  served_behind run streams t m true undone = (undone, inl refl)
  served_behind run streams t m false undone = (undone, inr (refl, refl))

  routes_behind :
      (run : Run) (streams : List IpStream) (t : K.Table) (m : Managed K) (went : Bool)
      → (cleanup K m).0 ≡ t
      → LeavesBehind t streams (with_routes K open_tunnel run streams (m, went))
  routes_behind run streams t m true undone = served_behind run streams t m run.stack undone
  routes_behind run streams t m false undone = (undone, inr (refl, refl))

  managed_behind :
      (name : List ℕ) (cfg : ClientConfig IpNet) (t : K.Table) (auto : Bool)
      → (cleanup K (if auto then add_all K name (t, []) cfg.routes else ((t, []), true)).0).0 ≡ t
  unfolding cleanup
  managed_behind name cfg t true = cleanup-add_all L name t cfg.routes
  managed_behind name cfg t false = refl

  device_behind :
      (cfg : ClientConfig IpNet) (run : Run) (streams : List IpStream) (t : K.Table)
      (device : Option (List ℕ))
      → LeavesBehind t streams (with_device K open_tunnel cfg run streams t device)
  device_behind cfg run streams t (some name) =
      let r = routes_of K open_tunnel name cfg t in
      routes_behind run streams t r.0 r.1 (managed_behind name cfg t cfg.tun.auto_route)
  device_behind cfg run streams t none = (refl, inr (refl, refl))

  -- However the client runs and ends, the routing table at its end is the one at its start; and it
  -- handles the streams that it accepts one by one, in order, unless it fails before the loop.
  pub main_running-restored :
      (cfg : ClientConfig IpNet) (run : Run) (streams : List IpStream) (t : K.Table)
      → LeavesBehind t streams (main_running K open_tunnel cfg run streams t)
  unfolding main_running
  main_running-restored cfg run streams t = by_transports run.transports
    where
      by_transports :
          (made : Bool)
          → LeavesBehind t streams (
              if made
              then with_device K open_tunnel cfg run streams t run.device
              else ([], t, false))
      by_transports true = device_behind cfg run streams t run.device
      by_transports false = (refl, inr (refl, refl))
