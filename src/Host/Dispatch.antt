-- ===== src/Host/Dispatch.antt =====
-- crates/host/src/main.rs: `dispatch`, with `Client::open` as a parameter.
use vpn_bridge.Io.{Result, err, ok}
use vpn_bridge.Net.{SocketAddr}
use vpn_bridge.Prelude.{List, [], inl, inr, ◌∷◌}
use vpn_bridge.Proto.{Address, Cmd, bind_udp, connect_tcp, ip}
use vpn_bridge.Streams.{
  Asks, FlowEvent, IpStream, MayAsk, local_shut, opening, tcp_joined, tcp_stream, udp_joined,
  udp_stream, unknown_network, unknown_transport,
}

module _ {T : Type 0} (open_tunnel : Cmd → Address → Result T) where
  abbrev pub tcp_opened : SocketAddr → Result T → List FlowEvent
  tcp_opened destination (ok tunnel) = tcp_joined destination ∷ []
  tcp_opened destination (err e) = local_shut ∷ []

  abbrev pub udp_opened : SocketAddr → Result T → List FlowEvent
  udp_opened destination (ok tunnel) = udp_joined destination ∷ []
  udp_opened destination (err e) = []

  unfoldable pub dispatch : IpStream → List FlowEvent
  dispatch (tcp_stream source destination) =
      opening connect_tcp (ip destination)
      ∷ tcp_opened destination (open_tunnel connect_tcp (ip destination))
  dispatch (udp_stream source destination) =
      opening bind_udp (ip destination)
      ∷ udp_opened destination (open_tunnel bind_udp (ip destination))
  dispatch unknown_transport = []
  dispatch unknown_network = []

  joined-Asks :
      (cmd : Cmd) (target : Address) (a : SocketAddr) (r : Result T)
      → (Asks cmd target (tcp_opened a r) → ⊥) × (Asks cmd target (udp_opened a r) → ⊥)
  joined-Asks cmd target a (ok tunnel) = (
    λ h. elim h [ inl e ↦ cc | inr more ↦ absurd more ],
    λ h. elim h [ inl e ↦ cc | inr more ↦ absurd more ],
  )
  joined-Asks cmd target a (err e) =
      (λ h. elim h [ inl e ↦ cc | inr more ↦ absurd more ], λ h. absurd h)

  -- A tunnel is asked for a flow's own destination, by its own protocol, and for nothing else.
  pub dispatch-MayAsk :
      (stream : IpStream) (cmd : Cmd) (target : Address)
      → Asks cmd target (dispatch stream)
      → MayAsk stream cmd target
  unfolding dispatch
  dispatch-MayAsk (tcp_stream source destination) cmd target (inl e) = (cc, cc)
  dispatch-MayAsk (tcp_stream source destination) cmd target (inr more) =
      absurd
        ((joined-Asks cmd target destination (open_tunnel connect_tcp (ip destination))).0 more)
  dispatch-MayAsk (udp_stream source destination) cmd target (inl e) = (cc, cc)
  dispatch-MayAsk (udp_stream source destination) cmd target (inr more) =
      absurd ((joined-Asks cmd target destination (open_tunnel bind_udp (ip destination))).1 more)
  dispatch-MayAsk unknown_transport cmd target h = absurd h
  dispatch-MayAsk unknown_network cmd target h = absurd h
