-- ===== src/Server/Startup.antt =====
-- crates/proxy-server/src/main.rs: `main` behind the configuration file: the certificate, the QUIC
-- endpoint, and the services that run.
use vpn_bridge.Checks.{bail}
use vpn_bridge.Io.{Result, err, ok}
use vpn_bridge.Io.Text.{text}
use vpn_bridge.Prelude.{
  Bool, List, [], arith, false, if◌then◌else◌, inl, inr, length, refl, true, ◌++◌, ◌<◌, ◌∷◌, ◌≡◌,
  ◌⊎◌,
}
use vpn_bridge.Server.Config.{ServerConfig, server_validate_iff, validate}

pub data Service : Type 0 where
  quic_service grpc_service : Service

pub data StartEvent : Type 0 where
  -- A certificate and a key are there.
  identity_ensured : StartEvent
  -- The summary of `--check`.
  printed : StartEvent
  endpoint_made : StartEvent
  -- The services of the `select!` run until one of them, or the signal, ends it.
  serving : List Service → StartEvent
  endpoint_closed : StartEvent

abbrev pub Starting : Type 0
Starting = List StartEvent × Result (Unit {0})

-- The `match` over the endpoint and `grpc_enabled`, with how the `select!` ends.
abbrev pub run_services : (endpoint grpc : Bool) → Result (Unit {0}) → Starting
run_services true true ended = (serving (quic_service ∷ grpc_service ∷ []) ∷ [], ended)
run_services true false ended = (serving (quic_service ∷ []) ∷ [], ended)
run_services false true ended = (serving (grpc_service ∷ []) ∷ [], ended)
run_services false false ended = ([], bail (text "all proxy transports are disabled"))

abbrev pub close_endpoint : Bool → List StartEvent
close_endpoint true = endpoint_closed ∷ []
close_endpoint false = []

module _ {IpNet : Type 0} (cfg : ServerConfig IpNet) where
  abbrev pub with_endpoint : (endpoint : Bool) → Result (Unit {0}) → Starting
  with_endpoint endpoint ended =
      let ran = run_services endpoint cfg.grpc_enabled ended in
      (ran.0 ++ close_endpoint endpoint, ran.1)

  -- `then(|| make_endpoint(&cfg)).transpose()?`
  abbrev pub endpoint_for : (quic : Bool) → (made ended : Result (Unit {0})) → Starting
  endpoint_for false made ended = with_endpoint false ended
  endpoint_for true (ok _) ended =
      let rest = with_endpoint true ended in (endpoint_made ∷ rest.0, rest.1)
  endpoint_for true (err e) ended = ([], err e)

  abbrev pub behind_identity : (check : Bool) → (made ended : Result (Unit {0})) → Starting
  behind_identity true made ended = (printed ∷ [], ok tt)
  behind_identity false made ended = endpoint_for cfg.quic_enabled made ended

  -- `main` behind the load, with how `ensure_exists`, `make_endpoint` and the `select!` end.
  unfoldable pub main_loaded : (check : Bool) → (ensured made ended : Result (Unit {0})) → Starting
  main_loaded check (ok _) made ended =
      let rest = behind_identity check made ended in (identity_ensured ∷ rest.0, rest.1)
  main_loaded check (err e) made ended = ([], err e)

  -- The transports that the configuration enables.
  abbrev pub enabled_services : List Service
  enabled_services =
      (if cfg.quic_enabled then quic_service ∷ [] else [])
      ++ (if cfg.grpc_enabled then grpc_service ∷ [] else [])

  -- The services run behind the certificate and the endpoint that they need, which is closed at the end.
  abbrev pub ServesEnabled : Result (Unit {0}) → Starting → Type 0
  ServesEnabled ended s =
      (s.0
        ≡ identity_ensured
          ∷ ((if cfg.quic_enabled then endpoint_made ∷ [] else [])
              ++ (serving enabled_services
                  ∷ (if cfg.quic_enabled then endpoint_closed ∷ [] else []))))
      × (s.1 ≡ ended)
      × (0 < length enabled_services)

  enabled_served :
      (quic grpc : Bool) (ended : Result (Unit {0}))
      → cfg.quic_enabled ≡ quic
      → cfg.grpc_enabled ≡ grpc
      → (quic ≡ true) ⊎ (grpc ≡ true)
      → ServesEnabled ended (main_loaded false (ok tt) (ok tt) ended)
  unfolding main_loaded
  enabled_served true true ended q g some_on = rw (q, g) (refl, refl, omega arith)
  enabled_served true false ended q g some_on = rw (q, g) (refl, refl, omega arith)
  enabled_served false true ended q g some_on = rw (q, g) (refl, refl, omega arith)
  enabled_served false false ended q g some_on = elim some_on [ inl e ↦ cc | inr e ↦ cc ]

  -- The server runs exactly the transports that its configuration enables, at least one of them: first
  -- the certificate is seen to, then the QUIC endpoint is made if QUIC is enabled, and it is closed at
  -- the end; the result is how the services end. Conditions: the configuration passes `validate`,
  -- `--check` is not given, and the certificate and the endpoint can be had.
  pub main_loaded-serves :
      (ended : Result (Unit {0}))
      → validate cfg ≡ ok tt
      → ServesEnabled ended (main_loaded false (ok tt) (ok tt) ended)
  main_loaded-serves ended valid =
      enabled_served cfg.quic_enabled cfg.grpc_enabled ended refl refl
        ((server_validate_iff cfg).0 valid).0
