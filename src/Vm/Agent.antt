-- ===== src/Vm/Agent.antt =====
-- crates/vm/src/main.rs: `main`, with the accept loop `run` of crates/vm/src/server.rs: from the command
-- line to the sessions.
use vpn_bridge.Handshake.{in_context}
use vpn_bridge.Io.{Result, err, ok}
use vpn_bridge.Io.Reader.{Reader}
use vpn_bridge.Io.Text.{text, within}
use vpn_bridge.Loading.{Store}
use vpn_bridge.Locating.{IsLocated, Paths, Process}
use vpn_bridge.Net.{IpAddr, SocketAddr}
use vpn_bridge.Prelude.{
  All, Bool, List, Option, [], ap, false, inl, inr, length, map, refl, subst, true, ℕ, ◌++◌, ◌<◌,
  ◌∷◌, ◌≡◌, ◌⊎◌,
}
use vpn_bridge.Session.{Network, Only, Trace}
use vpn_bridge.Vm.Config.{VmConfig}
use vpn_bridge.Vm.Load.{load, load_token}
use vpn_bridge.Vm.Locate.{resolve_config_path, resolve_config_path_iff}
use vpn_bridge.Vm.Server.Defs.{handle}
use vpn_bridge.Vm.Server.Safety.{InPolicy, handle-permitted}

-- A connection that the listener accepted: its stream, whether the request comes in time, and what the
-- network answers in its session.
pub record Accepted (R : Reader) : Type 0 where
  pub net : Network
  pub stream : R.State
  pub in_time : Bool

module _ {IpNet : Type 0} (contains : IpNet → IpAddr → Bool) (R : Reader) where
  -- A connection with the session that is run for it.
  abbrev pub Served : Type 0
  Served = Accepted R × Trace (Unit {0})

  abbrev pub serve_accepted : VmConfig IpNet → Accepted R → Served
  serve_accepted cfg a = (a, handle a.net contains cfg R a.in_time a.stream)

  -- The loop of `run` over what the listener gives; an `accept` that fails is skipped.
  unfoldable pub accept_loop : VmConfig IpNet → List (Result (Accepted R)) → List Served
  unfolding handle
  accept_loop cfg [] = []
  accept_loop cfg (ok a ∷ more) = serve_accepted cfg a ∷ accept_loop cfg more
  accept_loop cfg (err e ∷ more) = accept_loop cfg more

  abbrev pub listening :
      VmConfig IpNet
      → (shown : List ℕ) → List (Result (Accepted R))
      → Result (Unit {0})
      → Result (List Served)
  listening cfg shown given (ok _) = ok (accept_loop cfg given)
  listening cfg shown given (err e) = in_context (text "binding " ++ shown) (err e)

  -- `run`, with how binding the listener ends; the sessions up to the program's end.
  unfoldable pub run :
      (show_addr : SocketAddr → List ℕ)
      → (bind : SocketAddr → Result (Unit {0})) → VmConfig IpNet
      → List (Result (Accepted R))
      → Result (List Served)
  unfolding accept_loop
  run show_addr bind cfg given = listening cfg (show_addr cfg.listen) given (bind cfg.listen)

  module _ (P : Paths) (here : Process P) (store : Store P (VmConfig IpNet))
      (show_addr : SocketAddr → List ℕ) (bind : SocketAddr → Result (Unit {0})) where
    -- `--check` ends the program behind the configuration.
    abbrev pub main_loaded :
        (check : Bool) → List (Result (Accepted R)) → Result (VmConfig IpNet) → Result (List Served)
    main_loaded true given (ok cfg) = ok []
    main_loaded false given (ok cfg) = run show_addr bind cfg given
    main_loaded check given (err e) = err e

    abbrev pub main_located :
        (check : Bool) → List (Result (Accepted R)) → Result P.FilePath → Result (List Served)
    main_located check given (ok path) = main_loaded check given (load P store path)
    main_located check given (err e) = err e

    unfoldable pub main :
        (config : Option P.FilePath)
        → (check : Bool) → List (Result (Accepted R))
        → Result (List Served)
    unfolding resolve_config_path load run
    main config check given =
        main_located check given (resolve_config_path P here config (text "vm.toml"))

-- The connections that the listener gives.
abbrev pub arrivals : {R : Reader} → List (Result (Accepted R)) → List (Accepted R)
arrivals [] = []
arrivals (ok a ∷ more) = a ∷ arrivals more
arrivals (err e ∷ more) = arrivals more

module _ {IpNet : Type 0} (contains : IpNet → IpAddr → Bool) (R : Reader) where
  abbrev pub IsWithin : VmConfig IpNet → Served contains R → Type 0
  IsWithin cfg (a, m) = Only (InPolicy a.net contains cfg) m

  accept_loop-IsWithin :
      (cfg : VmConfig IpNet) (given : List (Result (Accepted R)))
      → All (IsWithin cfg) (accept_loop contains R cfg given)
        × (map (λ p. p.0) (accept_loop contains R cfg given) ≡ arrivals given)
  unfolding accept_loop
  accept_loop-IsWithin cfg [] = (tt, refl)
  accept_loop-IsWithin cfg (ok a ∷ more) =
      let (within, same) = accept_loop-IsWithin cfg more in
      ((handle-permitted a.net contains cfg R a.in_time a.stream, within), ap (λ l. a ∷ l) same)
  accept_loop-IsWithin cfg (err e ∷ more) = accept_loop-IsWithin cfg more

module _ {IpNet : Type 0} (contains : IpNet → IpAddr → Bool) (R : Reader) (P : Paths)
    (here : Process P) (store : Store P (VmConfig IpNet)) (show_addr : SocketAddr → List ℕ)
    (bind : SocketAddr → Result (Unit {0})) where
  -- What an agent does with a configuration: nothing with `--check`, and its sessions without.
  abbrev pub Serves :
      VmConfig IpNet
      → (check : Bool) → List (Result (Accepted R))
      → List (Served contains R)
      → Type 0
  Serves cfg check given served =
      ((check ≡ true) × (served ≡ []))
      ⊎ ((check ≡ false)
          × All (IsWithin contains R cfg) served
          × (map (λ p. p.0) served ≡ arrivals given))

  abbrev pub RunsWith :
      Option P.FilePath
      → (check : Bool) → List (Result (Accepted R))
      → List (Served contains R)
      → Type 0
  RunsWith config check given served =
      (path : P.FilePath) × (cfg : VmConfig IpNet) × IsLocated P here config (text "vm.toml") path
      × (load P store path ≡ ok cfg)
      × (length cfg.token < 256)
      × Serves cfg check given served

  listening_ok :
      (cfg : VmConfig IpNet) (given : List (Result (Accepted R))) (shown : List ℕ)
      (r : Result (Unit {0})) (served : List (Served contains R))
      → listening contains R cfg shown given r ≡ ok served
      → All (IsWithin contains R cfg) served × (map (λ p. p.0) served ≡ arrivals given)
  listening_ok cfg given shown (ok u) served h =
      subst (λ l. All (IsWithin contains R cfg) l × (map (λ p. p.0) l ≡ arrivals given)) (cc)
        (accept_loop-IsWithin contains R cfg given)
  listening_ok cfg given shown (err e) served h = cc

  loaded_runs :
      (config : Option P.FilePath) (check : Bool) (given : List (Result (Accepted R)))
      (path : P.FilePath) (r : Result (VmConfig IpNet)) (served : List (Served contains R))
      → IsLocated P here config (text "vm.toml") path
      → load P store path ≡ r
      → main_loaded contains R P here store show_addr bind check given r ≡ ok served
      → RunsWith config check given served
  unfolding run
  loaded_runs config true given path (ok cfg) served at_path e h =
      (path, cfg, at_path, e, load_token P store path cfg e, inl (refl, cc))
  loaded_runs config false given path (ok cfg) served at_path e h =
      let (within, same) =
        listening_ok cfg given (show_addr cfg.listen) (bind cfg.listen) served h in
      (path, cfg, at_path, e, load_token P store path cfg e, inr (refl, within, same))
  loaded_runs config true given path (err e') served at_path e h = cc
  loaded_runs config false given path (err e') served at_path e h = cc

  located_runs :
      (config : Option P.FilePath) (check : Bool) (given : List (Result (Accepted R)))
      (r : Result P.FilePath) (served : List (Served contains R))
      → resolve_config_path P here config (text "vm.toml") ≡ r
      → main_located contains R P here store show_addr bind check given r ≡ ok served
      → RunsWith config check given served
  located_runs config check given (ok path) served e h =
      loaded_runs config check given path (load P store path) served
        ((resolve_config_path_iff P here config (text "vm.toml") path).0 e) refl h
  located_runs config check given (err e') served e h = cc

  -- From the command line to the network: the agent takes the first configuration file of its search,
  -- and it is checked. With `--check` it serves no connection; without, it serves every connection that
  -- the listener gives, in order, and in no session dials, connects or relays to an address that this
  -- configuration does not permit. Condition: the program does not end with an error.
  pub main-IsWithin :
      (config : Option P.FilePath) (check : Bool) (given : List (Result (Accepted R)))
      (served : List (Served contains R))
      → main contains R P here store show_addr bind config check given ≡ ok served
      → RunsWith config check given served
  unfolding main
  main-IsWithin config check given served h =
      located_runs config check given (resolve_config_path P here config (text "vm.toml")) served
        refl h
