-- ===== src/Tests/Clients.antt =====
-- The proxy client.

use vpn_bridge.Client.Fallback.{GrpcReason, open_all-unavailable, open_flow-GrpcReason}
use vpn_bridge.Client.Quic.{QuicNet}
use vpn_bridge.Client.Transport.{
  Surroundings, TransportClient, open_all, open_flow, over_grpc, over_quic, quic_unavailable,
}
use vpn_bridge.Io.{ok}
use vpn_bridge.Io.Text.{text}
use vpn_bridge.Prelude.{List, [], arith, none, refl, some, true, ℕ, ◌==◌, ◌∷◌, ◌≡◌}
use vpn_bridge.Proto.{Response, forbidden, response_bytes, response_err}
use vpn_bridge.Tests.Data.{failure}

abbrev client : TransportClient
client = record { quic_on = true; grpc_on = true; fallback_until = none; retry_interval = 1000 }

-- QUIC cannot be opened, and gRPC can.
abbrev down_at : ℕ → Surroundings
down_at instant = record {
  now = instant;
  later = instant;
  quic = quic_unavailable failure;
  grpc = ok tt;
  grpc_again = ok tt;
}

over_grpc_here : (open_flow client (down_at 5)).2 ≡ ok over_grpc
unfolding open_flow
over_grpc_here = refl

open_flow-GrpcReason_example : GrpcReason client (down_at 5)
open_flow-GrpcReason_example = open_flow-GrpcReason client (down_at 5) over_grpc_here

open_all-unavailable_example :
    (open_all client (down_at 5 ∷ down_at 6 ∷ down_at 900 ∷ [])).0
    ≡ over_quic ∷ over_grpc ∷ over_grpc ∷ over_grpc ∷ []
open_all-unavailable_example =
    open_all-unavailable client (down_at 5) failure (down_at 6 ∷ down_at 900 ∷ []) refl refl refl
      refl ((omega arith, refl), ((omega arith, refl), tt))

-- Connections are numbers, and number 1 is closed.
abbrev quic_net : QuicNet ℕ
quic_net = record { connect = some (ok 2); is_closed = λ c. c == 1; open_bi = λ c. ok tt }

abbrev refusal : Response
refusal = response_err forbidden (text "destination not allowed")

abbrev answer : List ℕ
answer = response_bytes refusal
