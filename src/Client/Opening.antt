-- ===== src/Client/Opening.antt =====
-- crates/proxy-client/src/transport.rs: `TransportClient::new`, and `open` with the two transports that it
-- calls (crates/proxy-client/src/quic.rs and grpc.rs) in place of their outcomes.
use vpn_bridge.Client.Config.{ClientConfig, client_validate_iff, validate}
use vpn_bridge.Client.Transport.{
  Opening, QuicOutcome, Surroundings, TransportClient, open_all, open_both, open_flow,
  open_quic_first, open_quic_only, open_suppressed, open_with, quic_opened, quic_rejected,
  quic_unavailable, set_fallback, suppressed, over_quic, over_grpc, FlowTransport,
}
use vpn_bridge.Io.{Result, err, ok}
use vpn_bridge.Net.{IpAddr}
use vpn_bridge.Prelude.{
  Bool, List, [], ap, arith, false, inl, inr, length, none, refl, true, ℕ, ◌<◌, ◌∙◌, ◌∷◌, ◌≡◌, ◌⊎◌,
  All, sym,
}

-- `then(..).transpose()?`: a transport that is disabled is not made.
abbrev pub made_if : Bool → Result (Unit {0}) → Result Bool
made_if false made = ok false
made_if true (ok _) = ok true
made_if true (err e) = err e

abbrev pub client_of : ℕ → Result Bool → Result Bool → Result TransportClient
client_of retry (err e) grpc = err e
client_of retry (ok quic_on) (err e) = err e
client_of retry (ok quic_on) (ok grpc_on) =
    ok (record {
      quic_on = quic_on;
      grpc_on = grpc_on;
      fallback_until = none;
      retry_interval = retry;
    })

-- `TransportClient::new`, with how `QuicClient::new` and `GrpcClient::new` end.
unfoldable pub new_client :
    {IpNet : Type 0} → ClientConfig IpNet → (quic grpc : Result (Unit {0})) → Result TransportClient
new_client cfg quic grpc =
    client_of cfg.reconnect_interval_ms (made_if cfg.quic_enabled quic)
      (made_if cfg.grpc_enabled grpc)

abbrev pub HasTransport : TransportClient → Type 0
HasTransport c = (c.quic_on ≡ true) ⊎ (c.grpc_on ≡ true)

made_on : (on : Bool) (made : Result (Unit {0})) (b : Bool) → made_if on made ≡ ok b → b ≡ on
made_on false made b h = cc
made_on true (ok u) b h = cc
made_on true (err e) b h = cc

client_on :
    (retry : ℕ) (quic grpc : Result Bool) (c : TransportClient)
    → client_of retry quic grpc ≡ ok c
    → (quic ≡ ok c.quic_on) × (grpc ≡ ok c.grpc_on)
client_on retry (err e) grpc c h = cc
client_on retry (ok q) (err e) c h = cc
client_on retry (ok q) (ok g) c h =
    let made : TransportClient = record {
      quic_on = q;
      grpc_on = g;
      fallback_until = none;
      retry_interval = retry;
    } in
    let same : made ≡ c = cc in (ap (λ x. ok x.quic_on) same, ap (λ x. ok x.grpc_on) same)

-- A client that could be made has the transports that the configuration enables.
new_client-on :
    {IpNet : Type 0} (cfg : ClientConfig IpNet) (quic grpc : Result (Unit {0}))
    (c : TransportClient)
    → new_client cfg quic grpc ≡ ok c
    → (c.quic_on ≡ cfg.quic_enabled) × (c.grpc_on ≡ cfg.grpc_enabled)
unfolding new_client
new_client-on cfg quic grpc c h =
    let (q, g) =
      client_on cfg.reconnect_interval_ms (made_if cfg.quic_enabled quic)
        (made_if cfg.grpc_enabled grpc) c h in
    (made_on cfg.quic_enabled quic c.quic_on q, made_on cfg.grpc_enabled grpc c.grpc_on g)

abbrev IsOn : TransportClient → FlowTransport → Type 0
IsOn c over_quic = c.quic_on ≡ true
IsOn c over_grpc = c.grpc_on ≡ true

-- The call makes an attempt, none over a transport that the client lacks, and leaves the transports as
-- they are.
abbrev Tries : TransportClient → Opening → Type 0
Tries c o =
    (0 < length o.0) × All (IsOn c) o.0 × (o.1.quic_on ≡ c.quic_on) × (o.1.grpc_on ≡ c.grpc_on)

only-Tries :
    (c : TransportClient) (quic : QuicOutcome) → c.quic_on ≡ true → Tries c (open_quic_only c quic)
unfolding open_quic_only
only-Tries c quic_opened q = (omega arith, (q, tt), refl, refl)
only-Tries c (quic_rejected e) q = (omega arith, (q, tt), refl, refl)
only-Tries c (quic_unavailable e) q = (omega arith, (q, tt), refl, refl)

first-Tries :
    (c : TransportClient) (later : ℕ) (quic : QuicOutcome) (grpc : Result (Unit {0}))
    → c.quic_on ≡ true
    → c.grpc_on ≡ true
    → Tries c (open_quic_first c later quic grpc)
unfolding open_quic_first
first-Tries c later quic_opened grpc q g = (omega arith, (q, tt), refl, refl)
first-Tries c later (quic_rejected e) grpc q g = (omega arith, (q, tt), refl, refl)
first-Tries c later (quic_unavailable e) grpc q g = (omega arith, (q, (g, tt)), refl, refl)

IsOn-still :
    (c d : TransportClient) (tried : List FlowTransport)
    → d.quic_on ≡ c.quic_on
    → d.grpc_on ≡ c.grpc_on
    → All (IsOn d) tried
    → All (IsOn c) tried
IsOn-still c d [] q g h = tt
IsOn-still c d (over_quic ∷ more) q g (on, h) = (sym q ∙ on, IsOn-still c d more q g h)
IsOn-still c d (over_grpc ∷ more) q g (on, h) = (sym g ∙ on, IsOn-still c d more q g h)

suppressed-Tries :
    (c : TransportClient) (s : Surroundings) (grpc : Result (Unit {0}))
    → c.quic_on ≡ true
    → c.grpc_on ≡ true
    → Tries c (open_suppressed c s grpc)
unfolding open_suppressed
suppressed-Tries c s (ok u) q g = (omega arith, (g, tt), refl, refl)
suppressed-Tries c s (err e) q g =
    let d = set_fallback none c in
    let (tried, on, q', g') = first-Tries d s.later s.quic s.grpc_again q g in
    (
      omega arith,
      (g, IsOn-still c d (open_quic_first d s.later s.quic s.grpc_again).0 refl refl on),
      q',
      g',
    )

both-Tries :
    (c : TransportClient) (s : Surroundings) (now_suppressed : Bool)
    → c.quic_on ≡ true
    → c.grpc_on ≡ true
    → Tries c (open_both c s now_suppressed)
unfolding open_both
both-Tries c s true q g = suppressed-Tries c s s.grpc q g
both-Tries c s false q g = first-Tries c s.later s.quic s.grpc q g

with-Tries :
    (c : TransportClient) (s : Surroundings) (quic_on grpc_on : Bool)
    → c.quic_on ≡ quic_on
    → c.grpc_on ≡ grpc_on
    → HasTransport c
    → Tries c (open_with c s quic_on grpc_on)
unfolding open_with
with-Tries c s false false q g h = elim h [ inl on ↦ cc | inr on ↦ cc ]
with-Tries c s false true q g h = (omega arith, (g, tt), refl, refl)
with-Tries c s true false q g h = only-Tries c s.quic q
with-Tries c s true true q g h = both-Tries c s (suppressed c.fallback_until s.now) q g

-- The calls leave the transports as they are.
same_transports :
    (c : TransportClient) (calls : List Surroundings)
    → HasTransport c
    → ((open_all c calls).1.quic_on ≡ c.quic_on) × ((open_all c calls).1.grpc_on ≡ c.grpc_on)
unfolding open_all open_flow
same_transports c [] has = (refl, refl)
same_transports c (s ∷ more) has =
    let first = open_with c s c.quic_on c.grpc_on in
    let (tried, on, q, g) = with-Tries c s c.quic_on c.grpc_on refl refl has in
    let still : HasTransport first.1 = elim has [ inl on ↦ inl (q ∙ on) | inr on ↦ inr (g ∙ on) ] in
    let (q', g') = same_transports first.1 more still in (q' ∙ q, g' ∙ g)

-- The configuration enables the transport.
abbrev pub IsEnabled : {IpNet : Type 0} → ClientConfig IpNet → FlowTransport → Type 0
IsEnabled cfg over_quic = cfg.quic_enabled ≡ true
IsEnabled cfg over_grpc = cfg.grpc_enabled ≡ true

on_IsEnabled :
    {IpNet : Type 0} (cfg : ClientConfig IpNet) (d : TransportClient) (tried : List FlowTransport)
    → d.quic_on ≡ cfg.quic_enabled
    → d.grpc_on ≡ cfg.grpc_enabled
    → All (IsOn d) tried
    → All (IsEnabled cfg) tried
on_IsEnabled cfg d [] q g h = tt
on_IsEnabled cfg d (over_quic ∷ more) q g (on, h) = (sym q ∙ on, on_IsEnabled cfg d more q g h)
on_IsEnabled cfg d (over_grpc ∷ more) q g (on, h) = (sym g ∙ on, on_IsEnabled cfg d more q g h)

-- A client made from a checked configuration has a transport for every call: whatever calls came
-- before, the next one makes at least one attempt to reach the server, and every attempt is over a
-- transport that the configuration enables. Conditions: the configuration passes `validate`, and the
-- transports that it enables could be made.
pub open_flow-new_client :
    {IpNet : Type 0} (contains : IpNet → IpAddr → Bool) (net_addr : IpNet → IpAddr)
    (show_ip : IpAddr → List ℕ) (cfg : ClientConfig IpNet) (quic grpc : Result (Unit {0}))
    (c : TransportClient) (before : List Surroundings) (s : Surroundings)
    → validate contains net_addr show_ip cfg ≡ ok tt
    → new_client cfg quic grpc ≡ ok c
    → (0 < length (open_flow (open_all c before).1 s).0)
      × All (IsEnabled cfg) (open_flow (open_all c before).1 s).0
unfolding open_flow
open_flow-new_client contains net_addr show_ip cfg quic grpc c before s valid made =
    let (q, g) = new_client-on cfg quic grpc c made in
    let enabled = ((client_validate_iff contains net_addr show_ip cfg).0 valid).0 in
    let has : HasTransport c = elim enabled [ inl on ↦ inl (q ∙ on) | inr on ↦ inr (g ∙ on) ] in
    let d = (open_all c before).1 in
    let (q', g') = same_transports c before has in
    let still : HasTransport d = elim has [ inl on ↦ inl (q' ∙ on) | inr on ↦ inr (g' ∙ on) ] in
    let (tried, on, _, _) = with-Tries d s d.quic_on d.grpc_on refl refl still in
    (tried, on_IsEnabled cfg d (open_flow d s).0 (q' ∙ q) (g' ∙ g) on)
