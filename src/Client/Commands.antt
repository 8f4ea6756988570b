-- ===== src/Client/Commands.antt =====
-- crates/proxy-client/src/route.rs: `run`, `add_route` and `delete_route` on each operating system, as the
-- routing table that the route manager of Client/Route.antt works on.
use vpn_bridge.Checks.{bail}
use vpn_bridge.Client.Route.{add_all, cleanup-add_all}
use vpn_bridge.Io.{Result, err, ok}
use vpn_bridge.Io.Text.{text}
use vpn_bridge.Prelude.{List, [], ap, false, refl, sym, ℕ, ◌++◌, ◌∙◌, ◌∷◌, ◌≡◌, true}
use vpn_bridge.Routing.{IsKernel, Kernel, cleanup}
use vpn_bridge.Shell.{
  Shell, Succeeds-run_command, Undoes, changed_by, judged, run_command, run_command-Succeeds,
  KeepsOnFailure, run_command-KeepsOnFailure,
}

-- `target_os`
pub data Os : Type 0 where
  linux macos windows : Os

-- What a command printed is dropped.
abbrev pub unprinted : Result (List ℕ) → Result (Unit {0})
unprinted (ok out) = ok tt
unprinted (err e) = err e

module _ (sh : Shell) where
  unfoldable pub run : List ℕ → List (List ℕ) → sh.Machine → Result (Unit {0}) × sh.Machine
  run program args m =
      let answer = sh.execute program args m in
      (unprinted (judged sh program args answer.0), answer.1)

  changed_by-unprinted :
      (r : Result (List ℕ)) (m : sh.Machine) → changed_by sh (unprinted r, m) ≡ changed_by sh (r, m)
  changed_by-unprinted (ok out) m = refl
  changed_by-unprinted (err e) m = refl

  changed_by-run :
      (program : List ℕ) (args : List (List ℕ)) (m : sh.Machine)
      → changed_by sh (run program args m) ≡ changed_by sh (run_command sh program args m)
  unfolding run
  changed_by-run program args m =
      changed_by-unprinted (judged sh program args (sh.execute program args m).0)
        (sh.execute program args m).1

  module _ {IpNet : Type 0} (show_net : IpNet → List ℕ) (os : Os) where
    -- The program and its arguments.
    abbrev pub add_command : Os → IpNet → List ℕ → List ℕ × List (List ℕ)
    add_command linux network device =
        (text "ip", text "route" ∷ text "add" ∷ show_net network ∷ text "dev" ∷ device ∷ [])
    add_command macos network device = (
      text "route",
      text "-n" ∷ text "add" ∷ text "-net" ∷ show_net network ∷ text "-interface" ∷ device ∷ [],
    )
    add_command windows network device = (
      text "netsh",
      text "interface"
          ∷ text "ipv4"
          ∷ text "add"
          ∷ text "route"
          ∷ (text "prefix=" ++ show_net network)
          ∷ (text "interface=" ++ device)
          ∷ text "store=active"
          ∷ [],
    )

    abbrev pub delete_command : Os → IpNet → List ℕ → List ℕ × List (List ℕ)
    delete_command linux network device =
        (text "ip", text "route" ∷ text "del" ∷ show_net network ∷ text "dev" ∷ device ∷ [])
    delete_command macos network device = (
      text "route",
      text "-n" ∷ text "delete" ∷ text "-net" ∷ show_net network ∷ text "-interface" ∷ device ∷ [],
    )
    delete_command windows network device = (
      text "netsh",
      text "interface"
          ∷ text "ipv4"
          ∷ text "delete"
          ∷ text "route"
          ∷ (text "prefix=" ++ show_net network)
          ∷ (text "interface=" ++ device)
          ∷ text "store=active"
          ∷ [],
    )

    unfoldable pub add_route : IpNet → List ℕ → sh.Machine → Result (Unit {0}) × sh.Machine
    unfolding run
    add_route network device =
        run (add_command os network device).0 (add_command os network device).1

    unfoldable pub delete_route : IpNet → List ℕ → sh.Machine → Result (Unit {0}) × sh.Machine
    unfolding run
    delete_route network device =
        run (delete_command os network device).0 (delete_command os network device).1

    -- The routing table is the machine; the client gives no other commands than these two.
    abbrev pub command_kernel : List ℕ → Kernel IpNet
    command_kernel device = record {
      Table = sh.Machine;
      exists = λ network m. false;
      add_via = λ network hop m. (false, m);
      add_dev = λ network dev m. changed_by sh (add_route network device m);
      replace_dev = λ network dev m. (false, m);
      del = λ network m. changed_by sh (delete_route network device m);
      lookup = λ m addr. bail [];
    }

    -- The second command undoes the first, which changes nothing where it fails.
    abbrev pub Undone : List ℕ → (args undo : List (List ℕ)) → Type 0
    Undone program args undo = Undoes sh program args undo × KeepsOnFailure sh program args

    -- What the system's commands are documented to do: to delete a route that was just added leaves
    -- the routes as they were before, and so does an addition that fails.
    abbrev pub RoutesUndone : Os → List ℕ → List ℕ → Type 0
    RoutesUndone linux network device =
        Undone (text "ip") (text "route" ∷ text "add" ∷ network ∷ text "dev" ∷ device ∷ [])
          (text "route" ∷ text "del" ∷ network ∷ text "dev" ∷ device ∷ [])
    RoutesUndone macos network device =
        Undone (text "route")
          (text "-n" ∷ text "add" ∷ text "-net" ∷ network ∷ text "-interface" ∷ device ∷ [])
          (text "-n" ∷ text "delete" ∷ text "-net" ∷ network ∷ text "-interface" ∷ device ∷ [])
    RoutesUndone windows network device =
        Undone (text "netsh")
          (text "interface"
            ∷ text "ipv4"
            ∷ text "add"
            ∷ text "route"
            ∷ (text "prefix=" ++ network)
            ∷ (text "interface=" ++ device)
            ∷ text "store=active"
            ∷ [])
          (text "interface"
            ∷ text "ipv4"
            ∷ text "delete"
            ∷ text "route"
            ∷ (text "prefix=" ++ network)
            ∷ (text "interface=" ++ device)
            ∷ text "store=active"
            ∷ [])

    route-Undone :
        (system : Os) (network : IpNet) (device : List ℕ)
        → RoutesUndone system (show_net network) device
        → ((delete_command system network device).0 ≡ (add_command system network device).0)
          × Undone
              (add_command system network device).0
              (add_command system network device).1
              (delete_command system network device).1
    route-Undone linux network device undone = (refl, undone)
    route-Undone macos network device undone = (refl, undone)
    route-Undone windows network device undone = (refl, undone)

    add_route-undone :
        (network : IpNet) (device : List ℕ) (m m' : sh.Machine)
        → RoutesUndone os (show_net network) device
        → changed_by sh (add_route network device m) ≡ (true, m')
        → changed_by sh (delete_route network device m') ≡ (true, m)
    unfolding add_route delete_route
    add_route-undone network device m m' undone h =
        let (same, documented) = route-Undone os network device undone in
        let (add_program, add_args) = add_command os network device in
        let del_args = (delete_command os network device).1 in
        changed_by-run (delete_command os network device).0 del_args m'
        ∙ ap (λ p. changed_by sh (run_command sh p del_args m')) same
        ∙ Succeeds-run_command sh add_program del_args m' m (
            documented.0 m m' (
              run_command-Succeeds sh add_program add_args m m'
                (sym (changed_by-run add_program add_args m) ∙ h)))

    add_route_fails :
        (network : IpNet) (device : List ℕ) (m m' : sh.Machine)
        → RoutesUndone os (show_net network) device
        → changed_by sh (add_route network device m) ≡ (false, m')
        → m' ≡ m
    unfolding add_route
    add_route_fails network device m m' undone h =
        let (add_program, add_args) = add_command os network device in
        run_command-KeepsOnFailure sh add_program add_args m m'
          (route-Undone os network device undone).1.1
          (sym (changed_by-run add_program add_args m) ∙ h)

    command_kernel-IsKernel :
        (device : List ℕ)
        → ((network : List ℕ) → RoutesUndone os network device)
        → IsKernel (command_kernel device)
    command_kernel-IsKernel device undone = record {
      add_via_del = λ network hop m m' h. cc;
      add_dev_del =
          λ network dev m m' h. add_route-undone network device m m' (undone (show_net network)) h;
      replace_dev_del = λ network dev m m' free h. cc;
      add_via_fails = λ network hop m m' h. ap (λ r. r.1) (sym h);
      add_dev_fails =
          λ network dev m m' h. add_route_fails network device m m' (undone (show_net network)) h;
      replace_dev_fails = λ network dev m m' h. ap (λ r. r.1) (sym h);
    }

    -- On each of the three systems, however many of the routes could be added, the commands of the
    -- cleanup leave the machine as it was before the first of them. Conditions: to delete a route that
    -- was just added undoes it, and an addition that fails leaves the machine as it is, as the
    -- system's documentation says of these commands.
    pub cleanup-commands :
        (device : List ℕ) (m : sh.Machine) (networks : List IpNet)
        → ((network : List ℕ) → RoutesUndone os network device)
        → (cleanup
            (command_kernel device)
            (add_all (command_kernel device) device (m, []) networks).0).0
          ≡ m
    cleanup-commands device m networks undone =
        cleanup-add_all (command_kernel-IsKernel device undone) device m networks
