-- ===== src/Tests/Loads.antt =====
-- The loading of the configurations of the proxies and of the host.
use vpn_bridge.Client.Config.{ClientConfig}
use vpn_bridge.Client.Load.{client_load_iff}
use vpn_bridge.Host.Config.{HostConfig}
use vpn_bridge.Host.Load.{host_load_iff}
use vpn_bridge.Io.{Result, ok}
use vpn_bridge.Io.Text.{text}
use vpn_bridge.Locating.{Process}
use vpn_bridge.Loading.{PathNames, Store}
use vpn_bridge.Prelude.{List, [], false, none, refl, same_bytes, ℕ, ◌↔◌, ◌≡◌, take}
use vpn_bridge.Server.Config.{IsValid, ServerConfig}
use vpn_bridge.Server.Program.{RunsWith, main-RunsWith}
use vpn_bridge.Server.Load.{load, located, server_load_iff}
use vpn_bridge.Tests.Data.{
  client_config, first_address, host_config, in_prefix, octets_of, server_config,
}
use vpn_bridge.Tests.Machines.{slashes}

abbrev names : PathNames slashes
names = record {
  from_name = λ p. p;
  to_name = λ p. p;
  is_absolute = λ p. same_bytes (take 1 p) (text "/");
}

abbrev server_store : Store slashes (ServerConfig (List ℕ))
server_store = record {
  read_to_string = λ p. ok [];
  from_str = λ content. ok (record server_config { private_key = text "/key.pem" });
}

abbrev client_store : Store slashes (ClientConfig (List ℕ))
client_store = record { read_to_string = λ p. ok []; from_str = λ content. ok client_config }

abbrev host_store : Store slashes (HostConfig (List ℕ))
host_store = record { read_to_string = λ p. ok []; from_str = λ content. ok host_config }

-- A relative certificate, and a key that is at an absolute path.
abbrev at_file : List ℕ
at_file = text "bin/proxy.toml"

abbrev server_raw : ServerConfig (List ℕ)
server_raw = record server_config { private_key = text "/key.pem" }

abbrev server_loaded : ServerConfig (List ℕ)
server_loaded = record server_raw { certificate = text "bin/cert.pem" }

server_loads : vpn_bridge.Server.Load.load slashes names server_store at_file ≡ ok server_loaded
unfolding vpn_bridge.Server.Load.load
server_loads = refl

server_load_iff_example :
    (vpn_bridge.Server.Load.load slashes names server_store at_file ≡ ok server_loaded) ↔ (
      (content : List ℕ) × (raw : ServerConfig (List ℕ)) × (◌≡◌ {A = Result (List ℕ)}
        (ok [])
        (ok content))
      × (ok server_raw ≡ ok raw)
      × vpn_bridge.Server.Load.IsLocated slashes names server_store at_file raw server_loaded
      × vpn_bridge.Server.Config.IsValid server_loaded)
server_load_iff_example = server_load_iff slashes names server_store at_file server_loaded

abbrev client_loaded : ClientConfig (List ℕ)
client_loaded = record client_config { certificate = text "bin/cert.pem" }

client_loads :
    vpn_bridge.Client.Load.load slashes names in_prefix first_address octets_of client_store at_file
    ≡ ok client_loaded
unfolding vpn_bridge.Client.Load.load
client_loads = refl

client_load_iff_example :
    (vpn_bridge.Client.Load.load slashes names in_prefix first_address octets_of client_store
        at_file
      ≡ ok client_loaded)
    ↔ ((content : List ℕ) × (raw : ClientConfig (List ℕ)) × (◌≡◌ {A = Result (List ℕ)}
          (ok [])
          (ok content))
        × (ok client_config ≡ ok raw)
        × vpn_bridge.Client.Load.IsLocated slashes names in_prefix first_address octets_of
            client_store at_file raw client_loaded
        × vpn_bridge.Client.Config.IsValid in_prefix first_address octets_of client_loaded)
client_load_iff_example =
    client_load_iff slashes names in_prefix first_address octets_of client_store at_file
      client_loaded

host_load_iff_example :
    (vpn_bridge.Host.Load.load slashes in_prefix
        (λ octets. octets)
        host_store
        (text "bin/host.toml")
      ≡ ok host_config)
    ↔ ((content : List ℕ) × (◌≡◌ {A = Result (List ℕ)} (ok []) (ok content))
        × (ok host_config ≡ ok host_config)
        × vpn_bridge.Host.Config.IsValid in_prefix host_config)
host_load_iff_example =
    host_load_iff slashes in_prefix (λ octets. octets) host_store (text "bin/host.toml") host_config

-- The proxy server with its file beside the program.
abbrev server_program : Process slashes
server_program = record {
  current_dir = ok (text "work");
  current_exe = ok (text "bin/proxy-server");
  is_file = λ p. same_bytes p (text "bin/proxy-server.toml");
}

server_runs :
    (vpn_bridge.Server.Program.main slashes server_program names server_store
      (λ cfg. ok tt)
      (λ cfg. ok tt)
      (ok tt)
      none
      false).1
    ≡ ok tt
unfolding vpn_bridge.Server.Program.main
server_runs = refl

main-RunsWith_example :
    RunsWith slashes server_program names server_store
      (λ cfg. ok tt)
      (λ cfg. ok tt)
      (ok tt)
      none
      false
      (vpn_bridge.Server.Program.main slashes server_program names server_store
        (λ cfg. ok tt)
        (λ cfg. ok tt)
        (ok tt)
        none
        false)
main-RunsWith_example =
    main-RunsWith slashes server_program names server_store (λ cfg. ok tt) (λ cfg. ok tt) (ok tt)
      none false server_runs
