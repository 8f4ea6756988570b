-- ===== src/Streams.antt =====
-- What `ipstack` accepts from a TUN device, and what the two `dispatch` functions
-- (crates/host/src/main.rs and crates/proxy-client/src/relay.rs) do with it, as events.
use vpn_bridge.Net.{SocketAddr, v4, v6}
use vpn_bridge.Prelude.{All, Any, List, ap, refl, subst, sym, ◌∙◌, ◌≡◌}
use vpn_bridge.Proto.{Address, Cmd, bind_udp, connect_tcp, ip}
use vpn_bridge.Proto.Wire.{on_wire}
use vpn_bridge.Session.{Event, tcp_relayed, udp_relayed}
use vpn_bridge.Session.Own.{relayed_by}

-- `IpStackStream`, with the source and the destination of a flow.
pub data IpStream : Type 0 where
  tcp_stream : (source destination : SocketAddr) → IpStream
  udp_stream : (source destination : SocketAddr) → IpStream
  unknown_transport unknown_network : IpStream

-- A tunnel is asked for, the local side of a flow is shut down, or its bytes start to be relayed.
pub data FlowEvent : Type 0 where
  opening : Cmd → Address → FlowEvent
  local_shut : FlowEvent
  tcp_joined : SocketAddr → FlowEvent
  udp_joined : SocketAddr → FlowEvent

abbrev pub Asks : Cmd → Address → List FlowEvent → Type 0
Asks cmd target = Any (λ e. e ≡ opening cmd target)

-- A relay to the stream's own destination, by its own protocol. A flow label and a scope do not
-- travel.
abbrev pub as_sent : SocketAddr → SocketAddr
as_sent (v4 o port) = v4 o port
as_sent (v6 o port f s) = v6 o port 0 0

abbrev pub IsOwn : IpStream → Event → Type 0
IsOwn (tcp_stream source destination) e = e ≡ tcp_relayed (as_sent destination)
IsOwn (udp_stream source destination) e = e ≡ udp_relayed (as_sent destination)
IsOwn unknown_transport e = ⊥
IsOwn unknown_network e = ⊥

-- What may be asked of a tunnel for a stream: its destination, by its protocol.
abbrev pub MayAsk : IpStream → Cmd → Address → Type 0
MayAsk (tcp_stream source destination) cmd target = (cmd ≡ connect_tcp) × (target ≡ ip destination)
MayAsk (udp_stream source destination) cmd target = (cmd ≡ bind_udp) × (target ≡ ip destination)
MayAsk unknown_transport cmd target = ⊥
MayAsk unknown_network cmd target = ⊥

on_wire-ip : (a : SocketAddr) → on_wire (ip a) ≡ ip (as_sent a)
on_wire-ip (v4 o port) = refl
on_wire-ip (v6 o port f s) = refl

-- The agent's side of such a question, with the relays that it may lead to.
pub MayAsk-IsOwn :
    (stream : IpStream) (cmd : Cmd) (target : Address) (P : Cmd → Address → List Event)
    → MayAsk stream cmd target
    → ((c : Cmd) (a : SocketAddr) → All (λ e. e ≡ relayed_by c a) (P c (ip a)))
    → All (IsOwn stream) (P cmd (on_wire target))
MayAsk-IsOwn (tcp_stream source destination) cmd target P (same, own) h =
    subst (λ t. All (λ e. e ≡ tcp_relayed (as_sent destination)) (P cmd t))
      (sym (ap on_wire own ∙ on_wire-ip destination))
      (subst
        (λ c. All (λ e. e ≡ tcp_relayed (as_sent destination)) (P c (ip (as_sent destination))))
        (sym same) (h connect_tcp (as_sent destination)))
MayAsk-IsOwn (udp_stream source destination) cmd target P (same, own) h =
    subst (λ t. All (λ e. e ≡ udp_relayed (as_sent destination)) (P cmd t))
      (sym (ap on_wire own ∙ on_wire-ip destination))
      (subst
        (λ c. All (λ e. e ≡ udp_relayed (as_sent destination)) (P c (ip (as_sent destination))))
        (sym same) (h bind_udp (as_sent destination)))
MayAsk-IsOwn unknown_transport cmd target P asked h = absurd asked
MayAsk-IsOwn unknown_network cmd target P asked h = absurd asked
