-- ===== src/Client/Accepted/Choice.antt =====
-- crates/proxy-client/src/transport.rs: which attempt a flow of `open` rests on.
use vpn_bridge.Client.Transport.{
  FlowTransport, QuicOutcome, Surroundings, TransportClient, open_both, open_flow, open_quic_first,
  open_quic_only, open_suppressed, open_with, over_grpc, over_quic, quic_opened, quic_rejected,
  quic_unavailable, set_fallback, suppressed, via_grpc, with_context,
}
use vpn_bridge.Io.{Result, err, ok}
use vpn_bridge.Prelude.{Bool, List, false, inl, inr, none, refl, true, ℕ, ◌≡◌, ◌⊎◌}

via_grpc_ok :
    (grpc : Result (Unit {0})) (t : FlowTransport)
    → via_grpc grpc ≡ ok t
    → (t ≡ over_grpc) × (grpc ≡ ok tt)
via_grpc_ok (ok u) t h = (cc, refl)
via_grpc_ok (err e) t h = cc

context_ok :
    (message : List ℕ) (r : Result FlowTransport) (t : FlowTransport)
    → with_context message r ≡ ok t
    → r ≡ ok t
context_ok message (ok x) t h = h
context_ok message (err e) t h = cc

only_by :
    (c : TransportClient) (quic : QuicOutcome) (t : FlowTransport)
    → (open_quic_only c quic).2 ≡ ok t
    → (t ≡ over_quic) × (quic ≡ quic_opened)
unfolding open_quic_only
only_by c quic_opened t h = (cc, refl)
only_by c (quic_rejected e) t h = cc
only_by c (quic_unavailable e) t h = cc

first_by :
    (c : TransportClient) (later : ℕ) (quic : QuicOutcome) (grpc : Result (Unit {0}))
    (t : FlowTransport)
    → (open_quic_first c later quic grpc).2 ≡ ok t
    → ((t ≡ over_quic) × (quic ≡ quic_opened)) ⊎ ((t ≡ over_grpc) × (grpc ≡ ok tt))
unfolding open_quic_first
first_by c later quic_opened grpc t h = inl (cc, refl)
first_by c later (quic_rejected e) grpc t h = cc
first_by c later (quic_unavailable e) grpc t h =
    inr (via_grpc_ok grpc t (context_ok _ (via_grpc grpc) t h))

abbrev pub BySome : Surroundings → FlowTransport → Type 0
BySome s t =
    ((t ≡ over_quic) × (s.quic ≡ quic_opened))
    ⊎ (((t ≡ over_grpc) × (s.grpc ≡ ok tt)) ⊎ ((t ≡ over_grpc) × (s.grpc_again ≡ ok tt)))

suppressed_by :
    (c : TransportClient) (s : Surroundings) (grpc : Result (Unit {0})) (t : FlowTransport)
    → s.grpc ≡ grpc
    → (open_suppressed c s grpc).2 ≡ ok t
    → BySome s t
unfolding open_suppressed
suppressed_by c s (ok u) t e h = inr (inl (cc, e))
suppressed_by c s (err e') t e h =
    elim (first_by (set_fallback none c) s.later s.quic s.grpc_again t h) [
      | inl quic ↦ inl quic
      | inr grpc ↦ inr (inr grpc)
    ]

both_by :
    (c : TransportClient) (s : Surroundings) (now_suppressed : Bool) (t : FlowTransport)
    → (open_both c s now_suppressed).2 ≡ ok t
    → BySome s t
unfolding open_both
both_by c s true t h = suppressed_by c s s.grpc t refl h
both_by c s false t h = elim (first_by c s.later s.quic s.grpc t h) [
  | inl quic ↦ inl quic
  | inr grpc ↦ inr (inl grpc)
]

with_by :
    (c : TransportClient) (s : Surroundings) (quic_on grpc_on : Bool) (t : FlowTransport)
    → (open_with c s quic_on grpc_on).2 ≡ ok t
    → BySome s t
unfolding open_with
with_by c s false false t h = cc
with_by c s false true t h = inr (inl (via_grpc_ok s.grpc t h))
with_by c s true false t h = inl (only_by c s.quic t h)
with_by c s true true t h = both_by c s (suppressed c.fallback_until s.now) t h

-- A flow is opened by a transport only where that transport's attempt succeeded.
pub open_flow_by :
    (c : TransportClient) (s : Surroundings) (t : FlowTransport)
    → (open_flow c s).2 ≡ ok t
    → BySome s t
unfolding open_flow
open_flow_by c s t h = with_by c s c.quic_on c.grpc_on t h
