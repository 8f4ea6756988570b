-- ===== src/Tests/Machines.antt =====
-- The agent in the VM, from its command line on.
-- A path is its text; a file stands beside the program.
use vpn_bridge.Io.{Result, err, ok}
use vpn_bridge.Io.Cursor.{cursor}
use vpn_bridge.Io.Text.{text}
use vpn_bridge.Loading.{Store}
use vpn_bridge.Locating.{IsLocated, Paths, Process}
use vpn_bridge.Prelude.{List, [], false, none, refl, same_bytes, some, true, ℕ, ◌++◌, ◌↔◌, ◌∷◌, ◌≡◌}
use vpn_bridge.Proto.{request_bytes}
use vpn_bridge.Tests.Data.{failure, in_prefix, net, request, stranger, vm_config}
use vpn_bridge.Vm.Agent.{Accepted, RunsWith, Served, accept_loop, main, main-IsWithin}
use vpn_bridge.Vm.Config.{VmConfig}
use vpn_bridge.Vm.Locate.{resolve_config_path, resolve_config_path_iff}

abbrev pub slashes : Paths
slashes = record {
  FilePath = List ℕ;
  join = λ dir name. dir ++ text "/" ++ name;
  parent = λ p. some (text "bin");
  display = λ p. p;
}

abbrev pub program : Process slashes
program = record {
  current_dir = ok (text "work");
  current_exe = ok (text "bin/agent");
  is_file = λ p. same_bytes p (text "bin/vm.toml");
}

resolve_config_path_iff_example :
    (resolve_config_path slashes program none (text "vm.toml") ≡ ok (text "bin/vm.toml"))
    ↔ IsLocated slashes program none (text "vm.toml") (text "bin/vm.toml")
resolve_config_path_iff_example =
    resolve_config_path_iff slashes program none (text "vm.toml") (text "bin/vm.toml")

abbrev store : Store slashes (VmConfig (List ℕ))
store = record { read_to_string = λ p. ok []; from_str = λ content. ok vm_config }

abbrev connections : List (Result (Accepted cursor))
connections =
    ok (record { net = net; stream = request_bytes request; in_time = true })
    ∷ err failure
    ∷ ok (record { net = net; stream = request_bytes stranger; in_time = true })
    ∷ []

abbrev sessions : List (Served in_prefix cursor)
sessions = accept_loop in_prefix cursor vm_config connections

agent_runs :
    main in_prefix cursor slashes program store (λ a. []) (λ a. ok tt) none false connections
    ≡ ok sessions
unfolding main
agent_runs = refl

main-IsWithin_example :
    RunsWith in_prefix cursor slashes program store
      (λ a. [])
      (λ a. ok tt)
      none
      false
      connections
      sessions
main-IsWithin_example =
    main-IsWithin in_prefix cursor slashes program store (λ a. []) (λ a. ok tt) none false
      connections sessions agent_runs
