-- ===== src/Host/Forwarding.antt =====
-- From a captured flow to the relay in the VM: `dispatch` of crates/host/src/main.rs and the agent of
-- crates/vm/src/server.rs, which handles the request that the host sends for the flow.
use vpn_bridge.Host.Dispatch.{dispatch, dispatch-MayAsk}
use vpn_bridge.Io.{Result, ok}
use vpn_bridge.Net.{IpAddr, SocketAddr}
use vpn_bridge.Prelude.{
  All, Bool, List, [], false, if◌then◌else◌, length, same_bytes, true, ℕ, ◌<◌, ◌∷◌, ◌≡◌,
}
use vpn_bridge.Proto.{Address, Cmd, Request, auth_failed, ip}
use vpn_bridge.Proto.Wire.{on_wire}
use vpn_bridge.Session.{Network, relays}
use vpn_bridge.Session.Own.{Answers-own, decide_resolved-own, relayed_by}
use vpn_bridge.Session.Verdict.{decide_resolved, refused, verdict_relay}
use vpn_bridge.Streams.{Asks, IpStream, IsOwn, MayAsk-IsOwn}
use vpn_bridge.Vm.Config.{VmConfig, permits}
use vpn_bridge.Vm.Server.Defs.{handle_request}
use vpn_bridge.Vm.Server.Verdict.{decide, handle_request-decides, permitted}
use vpn_bridge.Session.Dial

module _ (net : Network) {IpNet : Type 0} (contains : IpNet → IpAddr → Bool)
    (cfg : VmConfig IpNet) where
  agent_own :
      (token : List ℕ) (cmd : Cmd) (a : SocketAddr)
      → All
          (λ e. e ≡ relayed_by cmd a)
          (verdict_relay
            (decide net contains cfg (record { cmd = cmd; token = token; target = ip a })))
  unfolding Dial.resolve permits
  agent_own token cmd a = by_token (same_bytes cfg.token token)
    where
      by_token :
          (same : Bool)
          → All
              (λ e. e ≡ relayed_by cmd a)
              (verdict_relay (
                if same
                then decide_resolved net cfg.bind_ip (permitted net contains cfg) cmd (ok (a ∷ []))
                else refused auth_failed))
      by_token true = decide_resolved-own net cfg.bind_ip (permitted net contains cfg) cmd a
      by_token false = tt

  -- Whatever request the host makes for a captured flow, the agent in the VM relays to the flow's own
  -- destination, over the flow's own protocol, or not at all; and for what is neither TCP nor UDP the
  -- host makes no request. Conditions: the tokens on both sides have at most 255 bytes, and the agent
  -- gets the request that the host made, its target in the form that it has on the wire.
  pub dispatch-IsOwn :
      {T : Type 0} (open_tunnel : Cmd → Address → Result T) (stream : IpStream) (cmd : Cmd)
      (target : Address) (token : List ℕ)
      → length cfg.token < 256
      → length token < 256
      → Asks cmd target (dispatch open_tunnel stream)
      → All (IsOwn stream) (
          relays
            (handle_request net contains cfg
              (record { cmd = cmd; token = token; target = on_wire target })).0)
  dispatch-IsOwn open_tunnel stream cmd target token hc ht asks =
      MayAsk-IsOwn stream cmd target
        (λ c t.
          relays
            (handle_request net contains cfg (record { cmd = c; token = token; target = t })).0)
        (dispatch-MayAsk open_tunnel stream cmd target asks)
        (λ c a.
          let req : Request = record { cmd = c; token = token; target = ip a } in
          Answers-own net (decide net contains cfg req) (handle_request net contains cfg req)
            (λ e. e ≡ relayed_by c a) (handle_request-decides net contains cfg req hc ht)
            (agent_own token c a))
