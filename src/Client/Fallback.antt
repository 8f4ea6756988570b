-- ===== src/Client/Fallback.antt =====
-- When the client of Client/Transport.antt falls back from QUIC to gRPC, and for how long.
use vpn_bridge.Client.Transport.{
  QuicOutcome, Surroundings, TransportClient, open_all, open_both, open_flow, open_quic_first,
  open_quic_only, open_suppressed, open_with, over_grpc, over_quic, quic_opened, quic_rejected,
  quic_unavailable, set_fallback, suppressed,
}
use vpn_bridge.Io.{Error, Result, err, ok}
use vpn_bridge.Prelude.{
  All, Bool, List, [], ap, false, inl, inr, length, lt→ltb, none, refl, replicate, some, true, ℕ,
  ◌+◌, ◌<◌, ◌∙◌, ◌∷◌, ◌≡◌, ◌≢◌, ◌⊎◌,
}

-- A flow over gRPC has a reason.
abbrev pub GrpcReason : TransportClient → Surroundings → Type 0
GrpcReason c s =
    (c.quic_on ≡ false)
    ⊎ ((suppressed c.fallback_until s.now ≡ true) ⊎ ((e : Error) × (s.quic ≡ quic_unavailable e)))

first_reason :
    (c : TransportClient) (later : ℕ) (quic : QuicOutcome) (grpc : Result (Unit {0}))
    → (open_quic_first c later quic grpc).2 ≡ ok over_grpc
    → (e : Error) × (quic ≡ quic_unavailable e)
unfolding open_quic_first
first_reason c later quic_opened grpc h = cc
first_reason c later (quic_rejected e) grpc h = cc
first_reason c later (quic_unavailable e) grpc h = (e, refl)

both_reason :
    (c : TransportClient) (s : Surroundings) (now_suppressed : Bool)
    → (open_both c s now_suppressed).2 ≡ ok over_grpc
    → (now_suppressed ≡ true) ⊎ ((e : Error) × (s.quic ≡ quic_unavailable e))
unfolding open_both
both_reason c s true h = inl refl
both_reason c s false h = inr (first_reason c s.later s.quic s.grpc h)

quic_only_over_quic :
    (c : TransportClient) (quic : QuicOutcome) → (open_quic_only c quic).2 ≢ ok over_grpc
unfolding open_quic_only
quic_only_over_quic c quic_opened h = cc
quic_only_over_quic c (quic_rejected e) h = cc
quic_only_over_quic c (quic_unavailable e) h = cc

with_reason :
    (c : TransportClient) (s : Surroundings) (quic_on grpc_on : Bool)
    → (open_with c s quic_on grpc_on).2 ≡ ok over_grpc
    → (quic_on ≡ false)
      ⊎ ((suppressed c.fallback_until s.now ≡ true) ⊎ ((e : Error) × (s.quic ≡ quic_unavailable e)))
unfolding open_with
with_reason c s false grpc_on h = inl refl
with_reason c s true false h = absurd (quic_only_over_quic c s.quic h)
with_reason c s true true h = inr (both_reason c s (suppressed c.fallback_until s.now) h)

-- A flow is carried over gRPC only if QUIC is disabled, is suppressed, or was unavailable in the
-- same call.
-- Condition: the call gives a flow over gRPC.
pub open_flow-GrpcReason :
    (c : TransportClient) (s : Surroundings) → (open_flow c s).2 ≡ ok over_grpc → GrpcReason c s
unfolding open_flow
open_flow-GrpcReason c s h = with_reason c s c.quic_on c.grpc_on h

rejected_with :
    (c : TransportClient) (s : Surroundings) (e : Error) (grpc_on : Bool)
    → suppressed c.fallback_until s.now ≡ false
    → s.quic ≡ quic_rejected e
    → open_with c s true grpc_on ≡ (over_quic ∷ [], c, err e)
unfolding open_with open_quic_only open_both open_quic_first
rejected_with c s e false free h = rw h
rejected_with c s e true free h = rw (free, h)

-- A flow that the server rejects over QUIC fails with that answer: QUIC is the only transport tried,
-- and the client is left as it was. Conditions: QUIC is enabled and not suppressed at the time, and
-- the server rejects the flow.
open_flow-rejected :
    (c : TransportClient) (s : Surroundings) (e : Error)
    → c.quic_on ≡ true
    → suppressed c.fallback_until s.now ≡ false
    → s.quic ≡ quic_rejected e
    → open_flow c s ≡ (over_quic ∷ [], c, err e)
unfolding open_flow
open_flow-rejected c s e on free h =
    ap (λ b. open_with c s b c.grpc_on) on ∙ rejected_with c s e c.grpc_on free h

-- A call before the end of the suppression, with a gRPC transport that works.
abbrev pub IsWithin : ℕ → Surroundings → Type 0
IsWithin until s = (s.now < until) × (s.grpc ≡ ok tt)

within_suppressed :
    (c : TransportClient) (until : ℕ) (s : Surroundings)
    → c.quic_on ≡ true
    → c.grpc_on ≡ true
    → c.fallback_until ≡ some until
    → IsWithin until s
    → open_flow c s ≡ (over_grpc ∷ [], c, ok over_grpc)
unfolding open_flow open_with open_both open_suppressed
within_suppressed c until s quic_on grpc_on set inside =
    rw (quic_on, grpc_on, set, lt→ltb s.now until inside.0, inside.1)

-- While QUIC is suppressed and gRPC works, every call makes one attempt, over gRPC, and the
-- suppression ends when it was to end. Conditions: both transports are enabled, and the calls come
-- before that time.
open_all-suppressed :
    (c : TransportClient) (until : ℕ) (calls : List Surroundings)
    → c.quic_on ≡ true
    → c.grpc_on ≡ true
    → c.fallback_until ≡ some until
    → All (IsWithin until) calls
    → open_all c calls ≡ (replicate (length calls) over_grpc, c)
unfolding open_all
open_all-suppressed c until [] quic_on grpc_on set inside = refl
open_all-suppressed c until (s ∷ more) quic_on grpc_on set inside = rw (
  within_suppressed c until s quic_on grpc_on set inside.0,
  open_all-suppressed c until more quic_on grpc_on set inside.1,
)

unavailable_first :
    (c : TransportClient) (s : Surroundings) (e : Error)
    → c.quic_on ≡ true
    → c.grpc_on ≡ true
    → suppressed c.fallback_until s.now ≡ false
    → s.quic ≡ quic_unavailable e
    → (open_flow c s).0 ≡ over_quic ∷ over_grpc ∷ []
      × ((open_flow c s).1 ≡ set_fallback (some (s.later + c.retry_interval)) c)
unfolding open_flow open_with open_both open_quic_first
unavailable_first c s e quic_on grpc_on free h = rw (quic_on, grpc_on, free, h) (refl, refl)

-- When QUIC is found unavailable, gRPC carries the flows for the retry interval: the call that finds
-- it tries QUIC and then gRPC, and no later call tries QUIC before the interval has passed.
-- Conditions: both transports are enabled, QUIC was not suppressed before, and gRPC works in the
-- later calls, which all come before the interval's end.
pub open_all-unavailable :
    (c : TransportClient) (s : Surroundings) (e : Error) (calls : List Surroundings)
    → c.quic_on ≡ true
    → c.grpc_on ≡ true
    → suppressed c.fallback_until s.now ≡ false
    → s.quic ≡ quic_unavailable e
    → All (IsWithin (s.later + c.retry_interval)) calls
    → (open_all c (s ∷ calls)).0 ≡ over_quic ∷ over_grpc ∷ replicate (length calls) over_grpc
unfolding open_all
open_all-unavailable c s e calls quic_on grpc_on free h inside =
    let (tried, after) = unavailable_first c s e quic_on grpc_on free h in
    rw (
      tried,
      after,
      open_all-suppressed (set_fallback (some (s.later + c.retry_interval)) c)
          (s.later + c.retry_interval) calls quic_on grpc_on refl inside,
    )

-- A gRPC failure ends the suppression: QUIC is tried in the same call, and if it can be opened it
-- carries the flow and is not suppressed any more. Conditions: both transports are enabled, QUIC is
-- suppressed at the time, gRPC fails, and QUIC opens.
open_flow-recovers :
    (c : TransportClient) (s : Surroundings) (e : Error)
    → c.quic_on ≡ true
    → c.grpc_on ≡ true
    → suppressed c.fallback_until s.now ≡ true
    → s.grpc ≡ err e
    → s.quic ≡ quic_opened
    → open_flow c s ≡ (over_grpc ∷ over_quic ∷ [], set_fallback none c, ok over_quic)
unfolding open_flow open_with open_both open_suppressed open_quic_first
open_flow-recovers c s e quic_on grpc_on set g q = rw (quic_on, grpc_on, set, g, q)
