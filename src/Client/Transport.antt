-- ===== src/Client/Transport.antt =====
-- crates/proxy-client/src/transport.rs: `TransportClient` and its `open` (`open_flow`).
use vpn_bridge.Io.{Error, Result, err, ok, other}
use vpn_bridge.Io.Text.{text}
use vpn_bridge.Prelude.{Bool, List, Option, [], false, ltb, none, some, true, ℕ, ◌++◌, ◌+◌, ◌∷◌}

-- How a QUIC attempt ends; `Rejected` is the proxy server's own answer.
pub data QuicOutcome : Type 0 where
  quic_opened : QuicOutcome
  quic_rejected : Error → QuicOutcome
  quic_unavailable : Error → QuicOutcome

pub data FlowTransport : Type 0 where
  over_quic over_grpc : FlowTransport

-- An instant is a number of milliseconds on the clock of `Instant::now`.
pub record TransportClient : Type 0 where
  pub quic_on : Bool
  pub grpc_on : Bool
  pub fallback_until : Option ℕ
  pub retry_interval : ℕ

-- What one call of `open` meets: the clock when the suppression is looked at and when it is set, how
-- the QUIC attempt ends if there is one, and how a first and a second gRPC attempt end.
pub record Surroundings : Type 0 where
  pub now : ℕ
  pub later : ℕ
  pub quic : QuicOutcome
  pub grpc : Result (Unit {0})
  pub grpc_again : Result (Unit {0})

-- The attempts made, the client afterwards, and the transport of the flow.
abbrev pub Opening : Type 0
Opening = List FlowTransport × TransportClient × Result FlowTransport

abbrev pub via_grpc : Result (Unit {0}) → Result FlowTransport
via_grpc (ok _) = ok over_grpc
via_grpc (err e) = err e

-- `.context(..)` of anyhow: the outermost message of the error is the new one.
abbrev pub with_context : List ℕ → Result FlowTransport → Result FlowTransport
with_context message (ok t) = ok t
with_context message (err e) = err (record { kind = e.kind; message = message })

abbrev pub set_fallback : Option ℕ → TransportClient → TransportClient
set_fallback until c = record {
  quic_on = c.quic_on;
  grpc_on = c.grpc_on;
  fallback_until = until;
  retry_interval = c.retry_interval;
}

abbrev pub suppressed : Option ℕ → ℕ → Bool
suppressed none now = false
suppressed (some until) now = ltb now until

-- Without gRPC, both kinds of failure are the error of the call.
unfoldable pub open_quic_only : TransportClient → QuicOutcome → Opening
open_quic_only c quic_opened = (over_quic ∷ [], c, ok over_quic)
open_quic_only c (quic_rejected e) = (over_quic ∷ [], c, err e)
open_quic_only c (quic_unavailable e) = (over_quic ∷ [], c, err e)

-- The QUIC attempt and what follows it, with how a gRPC attempt behind it ends.
unfoldable pub open_quic_first : TransportClient → ℕ → QuicOutcome → Result (Unit {0}) → Opening
open_quic_first c later quic_opened grpc = (over_quic ∷ [], set_fallback none c, ok over_quic)
open_quic_first c later (quic_rejected e) grpc = (over_quic ∷ [], c, err e)
open_quic_first c later (quic_unavailable e) grpc = (
  over_quic ∷ over_grpc ∷ [],
  set_fallback (some (later + c.retry_interval)) c,
  with_context (text "QUIC and gRPC proxy transports are unavailable") (via_grpc grpc),
)

abbrev pub behind_grpc : Opening → Opening
behind_grpc o = (over_grpc ∷ o.0, o.1, o.2)

-- While QUIC is suppressed: a gRPC attempt, and QUIC after all if that fails.
unfoldable pub open_suppressed : TransportClient → Surroundings → Result (Unit {0}) → Opening
unfolding open_quic_first
open_suppressed c s (ok _) = (over_grpc ∷ [], c, ok over_grpc)
open_suppressed c s (err e) =
    behind_grpc (open_quic_first (set_fallback none c) s.later s.quic s.grpc_again)

unfoldable pub open_both : TransportClient → Surroundings → Bool → Opening
unfolding open_quic_first open_suppressed
open_both c s true = open_suppressed c s s.grpc
open_both c s false = open_quic_first c s.later s.quic s.grpc

unfoldable pub open_with : TransportClient → Surroundings → Bool → Bool → Opening
unfolding open_quic_only open_both
open_with c s false false =
    ([], c, err (record { kind = other; message = text "gRPC transport is disabled" }))
open_with c s false true = (over_grpc ∷ [], c, via_grpc s.grpc)
open_with c s true false = open_quic_only c s.quic
open_with c s true true = open_both c s (suppressed c.fallback_until s.now)

unfoldable pub open_flow : TransportClient → Surroundings → Opening
unfolding open_with
open_flow c s = open_with c s c.quic_on c.grpc_on

-- The calls of `open` one after another.
unfoldable pub open_all : TransportClient → List Surroundings → List FlowTransport × TransportClient
unfolding open_flow
open_all c [] = ([], c)
open_all c (s ∷ more) =
    let first = open_flow c s in let rest = open_all first.1 more in (first.0 ++ rest.0, rest.1)
