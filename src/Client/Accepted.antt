-- ===== src/Client/Accepted.antt =====
-- `TransportClient::open` over the two transports (Client/Transport.antt, Client/Quic.antt and
-- Client/Grpc.antt together): no flow without an acceptance of the server.
use vpn_bridge.Client.Accepted.Attempts.{
  Accepts, grpc_open-Accepts, opened_result, quic_open-Accepts,
}
use vpn_bridge.Client.Accepted.Choice.{open_flow_by}
use vpn_bridge.Client.Grpc.{grpc_open}
use vpn_bridge.Client.Quic.{QuicNet, quic_open}
use vpn_bridge.Client.Transport.{
  FlowTransport, Surroundings, TransportClient, open_flow, over_grpc, over_quic,
}
use vpn_bridge.Io.{Result, ok}
use vpn_bridge.Io.Reader.{Reader}
use vpn_bridge.Io.Writer.{Writer}
use vpn_bridge.Prelude.{Bool, List, Option, inl, inr, ℕ, ◌≡◌, ◌⊎◌}
use vpn_bridge.Proto.{Request}
pub mod Choice
pub mod Attempts

-- One attempt over gRPC: the buffer of the request, the stream of the response, whether the response
-- comes in time, and how the call ends.
pub record GrpcAttempt (W : Writer) (R : Reader) : Type 0 where
  pub buffer : W.State
  pub stream : R.State
  pub in_time : Bool
  pub called : Option (Result (Unit {0}))

-- One attempt over QUIC.
pub record QuicAttempt (Connection : Type 0) (W : Writer) (R : Reader) : Type 0 where
  pub net : QuicNet Connection
  pub slot : Option Connection
  pub sending : W.State
  pub receiving : R.State
  pub in_time : Bool

module _ {Connection : Type 0} (W : Writer) (R : Reader) (shown : List ℕ) (req : Request)
    (now later : ℕ) (q : QuicAttempt Connection W R) (g again : GrpcAttempt W R) where
  abbrev pub grpc_result : GrpcAttempt W R → Result (Unit {0})
  grpc_result a =
      opened_result W R shown (grpc_open W R shown req a.in_time a.buffer a.stream a.called)

  -- What a call of `open` meets, from the code of the two transports.
  abbrev pub transports : Surroundings
  transports = record {
    now = now;
    later = later;
    quic = (quic_open q.net W R shown req q.in_time q.sending q.receiving q.slot).0;
    grpc = grpc_result g;
    grpc_again = grpc_result again;
  }

  -- No flow without an acceptance: where `open` gives a flow, the response that the transport of that
  -- flow read has the status `Ok`. Condition: `open` gives a flow over the transport `t`.
  pub open_flow-Accepts :
      (c : TransportClient) (t : FlowTransport)
      → (open_flow c transports).2 ≡ ok t
      → ((t ≡ over_quic) × Accepts R q.receiving)
        ⊎ ((t ≡ over_grpc) × (Accepts R g.stream ⊎ Accepts R again.stream))
  open_flow-Accepts c t h = elim (open_flow_by c transports t h) [
    | inl (same, opened) ↦
        inl (
          same,
          quic_open-Accepts q.net W R shown req q.in_time q.sending q.receiving q.slot opened,
        )
    | inr rest ↦ elim rest [
      | inl (same, opened) ↦
          inr (
            same,
            inl (grpc_open-Accepts W R shown req g.in_time g.buffer g.stream g.called opened),
          )
      | inr (same, opened) ↦ inr (
        same,
        inr (
            grpc_open-Accepts W R shown req again.in_time again.buffer again.stream again.called
              opened),
      )
    ]
  ]
