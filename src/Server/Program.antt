-- ===== src/Server/Program.antt =====
-- crates/proxy-server/src/main.rs: `main` from the command line on. What `ensure_exists`,
-- `make_endpoint` and the services make of the configuration are parameters.
use vpn_bridge.Io.{Result, err, ok}
use vpn_bridge.Io.Text.{text}
use vpn_bridge.Loading.{PathNames, Store}
use vpn_bridge.Locating.{IsLocated, Paths, Process}
use vpn_bridge.Locating.Agreed.{resolve_config_path-same}
use vpn_bridge.Prelude.{
  Bool, Option, [], ap, false, inl, inr, refl, subst, sym, true, ◌∙◌, ◌∷◌, ◌≡◌, ◌⊎◌,
}
use vpn_bridge.Server.Config.{IsValid, ServerConfig, server_validate_iff, validate}
use vpn_bridge.Server.Load.{load, server_load_iff}
use vpn_bridge.Server.Locate.{resolve_config_path}
use vpn_bridge.Server.Startup.{
  ServesEnabled, Starting, endpoint_for, identity_ensured, main_loaded, main_loaded-serves, printed,
}
use vpn_bridge.Vm.Locate.{resolve_config_path_iff}

module _ (P : Paths) (here : Process P) (names : PathNames P) {IpNet : Type 0}
    (store : Store P (ServerConfig IpNet))
    (ensure make_endpoint : ServerConfig IpNet → Result (Unit {0}))
    (ended : Result (Unit {0})) where
  abbrev pub main_read : (check : Bool) → Result (ServerConfig IpNet) → Starting
  main_read check (ok cfg) = main_loaded cfg check (ensure cfg) (make_endpoint cfg) ended
  main_read check (err e) = ([], err e)

  abbrev pub main_located : (check : Bool) → Result P.FilePath → Starting
  main_located check (ok path) = main_read check (load P names store path)
  main_located check (err e) = ([], err e)

  unfoldable pub main : (config : Option P.FilePath) → (check : Bool) → Starting
  unfolding resolve_config_path load main_loaded
  main config check =
      main_located check (resolve_config_path P here config (text "proxy-server.toml"))

  made_same :
      (cfg : ServerConfig IpNet) (quic : Bool) (made : Result (Unit {0}))
      → (endpoint_for cfg quic made ended).1 ≡ ok tt
      → endpoint_for cfg quic (ok tt) ended ≡ endpoint_for cfg quic made ended
  made_same cfg false made h = refl
  made_same cfg true (ok u) h = refl
  made_same cfg true (err e) h = cc

  -- What happens with a configuration.
  abbrev pub RunsChecked : ServerConfig IpNet → (check : Bool) → Starting → Type 0
  RunsChecked cfg check s =
      ((check ≡ true) × (s.0 ≡ identity_ensured ∷ printed ∷ []))
      ⊎ ((check ≡ false) × ServesEnabled cfg ended s)

  loaded-RunsChecked :
      (cfg : ServerConfig IpNet) (check : Bool) (ensured made : Result (Unit {0}))
      → validate cfg ≡ ok tt
      → (main_loaded cfg check ensured made ended).1 ≡ ok tt
      → RunsChecked cfg check (main_loaded cfg check ensured made ended)
  unfolding main_loaded
  loaded-RunsChecked cfg true (ok u) made valid h = inl (refl, refl)
  loaded-RunsChecked cfg false (ok u) made valid h = inr (
    refl,
    subst (ServesEnabled cfg ended)
        (ap (λ (r : Starting). (identity_ensured ∷ r.0, r.1))
          (made_same cfg cfg.quic_enabled made h))
        (main_loaded-serves cfg ended valid),
  )
  loaded-RunsChecked cfg true (err e) made valid h = cc
  loaded-RunsChecked cfg false (err e) made valid h = cc

  -- The run with the file at a path.
  abbrev pub RunsWith : Option P.FilePath → (check : Bool) → Starting → Type 0
  RunsWith config check s =
      (path : P.FilePath) × (cfg : ServerConfig IpNet) × IsLocated P here config
        (text "proxy-server.toml") path
      × (load P names store path ≡ ok cfg)
      × IsValid cfg
      × RunsChecked cfg check s

  read-RunsWith :
      (config : Option P.FilePath) (check : Bool) (path : P.FilePath)
      (r : Result (ServerConfig IpNet))
      → IsLocated P here config (text "proxy-server.toml") path
      → load P names store path ≡ r
      → (main_read check r).1 ≡ ok tt
      → RunsWith config check (main_read check r)
  read-RunsWith config check path (ok cfg) at_path e h =
      let (content, raw, was_read, parsed, same, valid) =
        (server_load_iff P names store path cfg).0 e in
      (
        path,
        cfg,
        at_path,
        e,
        valid,
        loaded-RunsChecked cfg check (ensure cfg) (make_endpoint cfg)
            ((server_validate_iff cfg).1 valid) h,
      )
  read-RunsWith config check path (err e') at_path e h = cc

  located-RunsWith :
      (config : Option P.FilePath) (check : Bool) (r : Result P.FilePath)
      → resolve_config_path P here config (text "proxy-server.toml") ≡ r
      → (main_located check r).1 ≡ ok tt
      → RunsWith config check (main_located check r)
  located-RunsWith config check (ok path) e h =
      let (host_same, server_same, client_same) =
        resolve_config_path-same P here config (text "proxy-server.toml") in
      read-RunsWith config check path (load P names store path)
        ((resolve_config_path_iff P here config (text "proxy-server.toml") path).0
          (sym server_same ∙ e))
        refl h
  located-RunsWith config check (err e') e h = cc

  -- From the command line to the services: the server takes the first configuration file of its search,
  -- and the configuration in it is valid. With `--check` it sees to its certificate and prints a
  -- summary; otherwise it runs exactly the transports that the configuration enables, at least one of
  -- them, behind the certificate and the QUIC endpoint, if QUIC is enabled, which it closes at the end.
  -- Condition: the program does not end with an error.
  pub main-RunsWith :
      (config : Option P.FilePath) (check : Bool)
      → (main config check).1 ≡ ok tt
      → RunsWith config check (main config check)
  unfolding main
  main-RunsWith config check h =
      located-RunsWith config check (resolve_config_path P here config (text "proxy-server.toml"))
        refl h
