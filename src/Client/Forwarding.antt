-- ===== src/Client/Forwarding.antt =====
-- From a captured flow to the relay of the proxy server: `dispatch` of crates/proxy-client/src/relay.rs and the server of
-- crates/proxy-server/src/server.rs, which handles the request that the client sends for the flow.
use vpn_bridge.Client.Dispatch.{dispatch, dispatch-MayAsk}
use vpn_bridge.Io.{Result}
use vpn_bridge.Net.{IpAddr, SocketAddr}
use vpn_bridge.Prelude.{All, Bool, List, false, length, same_bytes, true, ℕ, ◌<◌, ◌≡◌}
use vpn_bridge.Proto.{Address, Cmd, Request, ip}
use vpn_bridge.Proto.Wire.{on_wire}
use vpn_bridge.Server.Config.{ServerConfig}
use vpn_bridge.Server.Handler.Defs.{handle_request, resolve_in_time}
use vpn_bridge.Server.Handler.Verdict.{decide, handle_request-Answers, permitted}
use vpn_bridge.Session.{Network, relays}
use vpn_bridge.Session.Own.{Answers-own, decide_resolved-own, relayed_by}
use vpn_bridge.Session.Verdict.{verdict_relay}
use vpn_bridge.Streams.{Asks, IpStream, IsOwn, MayAsk-IsOwn}

module _ (net : Network) {IpNet : Type 0} (contains : IpNet → IpAddr → Bool)
    (cfg : ServerConfig IpNet) where
  server_own :
      (token : List ℕ) (cmd : Cmd) (a : SocketAddr) (same : Bool)
      → All
          (λ e. e ≡ relayed_by cmd a)
          (verdict_relay
            (decide net contains cfg same (record { cmd = cmd; token = token; target = ip a })))
  unfolding resolve_in_time
  server_own token cmd a true =
      decide_resolved-own net cfg.bind_ip (permitted net contains cfg) cmd a
  server_own token cmd a false = tt

  -- Whatever request the client makes for a captured flow, the proxy server relays to the flow's own
  -- destination, over the flow's own protocol, or not at all; and for what is neither TCP nor UDP the
  -- client makes no request. Conditions: the tokens on both sides have at most 255 bytes, and the server
  -- gets the request that the client made, its target in the form that it has on the wire.
  pub flow_dispatch-IsOwn :
      {T : Type 0} (open_tunnel : Cmd → Address → Result T) (stream : IpStream) (cmd : Cmd)
      (target : Address) (token : List ℕ)
      → length cfg.token < 256
      → length token < 256
      → Asks cmd target (dispatch open_tunnel stream)
      → All (IsOwn stream) (
          relays
            (handle_request net contains cfg
              (record { cmd = cmd; token = token; target = on_wire target })).0)
  flow_dispatch-IsOwn open_tunnel stream cmd target token hc ht asks =
      MayAsk-IsOwn stream cmd target
        (λ c t.
          relays
            (handle_request net contains cfg (record { cmd = c; token = token; target = t })).0)
        (dispatch-MayAsk open_tunnel stream cmd target asks)
        (λ c a.
          let req : Request = record { cmd = c; token = token; target = ip a } in
          Answers-own net (decide net contains cfg (same_bytes cfg.token token) req)
            (handle_request net contains cfg req) (λ e. e ≡ relayed_by c a)
            (handle_request-Answers net contains cfg req hc ht)
            (server_own token c a (same_bytes cfg.token token)))
