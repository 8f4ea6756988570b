-- ===== src/Host/Commands.antt =====
-- crates/host/src/route.rs: `run`, `family`, `lookup` and `exists`, and the commands of `RouteManager`, as
-- the routing table that Host/Route.antt and Host/Startup.antt work on.
use vpn_bridge.Checks.{bail}
use vpn_bridge.Host.Lookup.{parse_hop}
use vpn_bridge.Host.Route.{Unrouted, cleanup-install, install, pin_all, pin_server}
use vpn_bridge.Io.{Result, err, ok}
use vpn_bridge.Io.Text.{from_utf8_lossy, text}
use vpn_bridge.Net.{IpAddr, is_ipv4, v4, v6}
use vpn_bridge.Prelude.{
  Bool, List, Option, [], ap, false, if◌then◌else◌, is_empty, none, not, refl, some, sym, true, ℕ,
  ◌++◌, ◌∙◌, ◌∷◌, ◌≡◌,
}
use vpn_bridge.Routing.{IsKernel, Kernel, NextHop, cleanup}
use vpn_bridge.Shell.{
  Output, Shell, Succeeds, Succeeds-run_command, Undoes, changed_by, judged, run_command-Succeeds,
  KeepsOnFailure, run_command-KeepsOnFailure,
}

-- What is used of `IpNet`, of `IpAddr` and of `str` from outside the crate.
pub record Texts (IpNet : Type 0) : Type 0 where
  pub show_net : IpNet → List ℕ
  pub is_v4_net : IpNet → Bool
  pub show_ip : IpAddr → List ℕ
  pub parse_ip : List ℕ → Option IpAddr
  -- `lines().next()` and `split_whitespace()`
  pub first_line : List ℕ → Option (List ℕ)
  pub words : List ℕ → List (List ℕ)

abbrev pub ip_program : List ℕ
ip_program = text "ip"

module _ (sh : Shell) where
  unfoldable pub run : List (List ℕ) → sh.Machine → Result (List ℕ) × sh.Machine
  run args m =
      let answer = sh.execute ip_program args m in (judged sh ip_program args answer.0, answer.1)

  module _ {IpNet : Type 0} (T : Texts IpNet) where
    abbrev pub family : IpNet → List ℕ
    family net = if T.is_v4_net net then text "-4" else text "-6"

    abbrev pub family_ip : IpAddr → List ℕ
    family_ip addr = if is_ipv4 addr then text "-4" else text "-6"

    abbrev pub hop_of_line : (target : List ℕ) → Option (List ℕ) → Result NextHop
    hop_of_line target none = bail (text "empty output from `ip route get " ++ target ++ text "`")
    hop_of_line target (some line) = parse_hop T.parse_ip target line (T.words line)

    abbrev pub hop_of_output : (target : List ℕ) → Result (List ℕ) → Result NextHop
    hop_of_output target (ok out) = hop_of_line target (T.first_line out)
    hop_of_output target (err e) = err e

    unfoldable pub lookup : IpAddr → sh.Machine → Result NextHop
    unfolding run parse_hop
    lookup addr m =
        hop_of_output (T.show_ip addr)
          (run (family_ip addr ∷ text "route" ∷ text "get" ∷ T.show_ip addr ∷ []) m).0

    abbrev pub show_args : IpNet → List (List ℕ)
    show_args net = family net ∷ text "route" ∷ text "show" ∷ text "exact" ∷ T.show_net net ∷ []

    abbrev pub printed : Result (List ℕ) → Bool
    printed (ok out) = not (is_empty (sh.trim out))
    printed (err e) = false

    unfoldable pub exists : IpNet → sh.Machine → Bool
    unfolding run
    exists net m = printed (run (show_args net) m).0

    abbrev pub replace_args : IpNet → List ℕ → List (List ℕ)
    replace_args net device =
        family net ∷ text "route" ∷ text "replace" ∷ T.show_net net ∷ text "dev" ∷ device ∷ []

    abbrev pub via_args : Option IpAddr → List (List ℕ)
    via_args none = []
    via_args (some gateway) = text "via" ∷ T.show_ip gateway ∷ []

    abbrev pub pin_args : IpNet → NextHop → List (List ℕ)
    pin_args net hop =
        (family net ∷ text "route" ∷ text "add" ∷ T.show_net net ∷ [])
        ++ (via_args hop.gateway ++ (text "dev" ∷ hop.dev ∷ []))

    abbrev pub del_args : IpNet → List (List ℕ)
    del_args net = family net ∷ text "route" ∷ text "del" ∷ T.show_net net ∷ []

    -- The commands that the route manager runs, where `show` and `get` leave the machine as it is; it
    -- adds no route to a device without replacing.
    abbrev pub ip_kernel : Kernel IpNet
    ip_kernel = record {
      Table = sh.Machine;
      exists = exists;
      add_via = λ net hop m. changed_by sh (run (pin_args net hop) m);
      add_dev = λ net device m. (false, m);
      replace_dev = λ net device m. changed_by sh (run (replace_args net device) m);
      del = λ net m. changed_by sh (run (del_args net) m);
      lookup = λ m addr. lookup addr m;
    }

    -- What `ip route` is documented to do, for the prefix `spec` of the family `fam`: `show` answers,
    -- `del` undoes an `add`, and it undoes a `replace` where `show` printed nothing before; and an
    -- `add` or a `replace` that fails changes nothing.
    abbrev pub ShowAnswers : (fam spec : List ℕ) → Type 0
    ShowAnswers fam spec =
        (m : sh.Machine)
        → (out : Output) × ((sh.execute (text "ip")
              (fam ∷ text "route" ∷ text "show" ∷ text "exact" ∷ spec ∷ []) m).0
            ≡ ok out)
          × (out.success ≡ true)

    abbrev pub AddUndone : (fam spec : List ℕ) → Type 0
    AddUndone fam spec =
        (way : List (List ℕ))
        → Undoes sh (text "ip") ((fam ∷ text "route" ∷ text "add" ∷ spec ∷ []) ++ way)
            (fam ∷ text "route" ∷ text "del" ∷ spec ∷ [])
          × KeepsOnFailure sh (text "ip") ((fam ∷ text "route" ∷ text "add" ∷ spec ∷ []) ++ way)

    abbrev pub ReplaceUndone : (fam spec : List ℕ) → Type 0
    ReplaceUndone fam spec =
        (device : List ℕ) (m m' : sh.Machine) (out : Output)
        → (sh.execute (text "ip") (fam ∷ text "route" ∷ text "show" ∷ text "exact" ∷ spec ∷ []) m).0
          ≡ ok out
        → sh.trim (from_utf8_lossy out.stdout) ≡ []
        → Succeeds sh (text "ip")
            (fam ∷ text "route" ∷ text "replace" ∷ spec ∷ text "dev" ∷ device ∷ []) m m'
        → Succeeds sh (text "ip") (fam ∷ text "route" ∷ text "del" ∷ spec ∷ []) m' m

    abbrev pub ReplaceKeeps : (fam spec : List ℕ) → Type 0
    ReplaceKeeps fam spec =
        (device : List ℕ)
        → KeepsOnFailure sh (text "ip")
            (fam ∷ text "route" ∷ text "replace" ∷ spec ∷ text "dev" ∷ device ∷ [])

    abbrev pub IpRoutes : Type 0
    IpRoutes =
        (net : IpNet)
        → ShowAnswers (family net) (T.show_net net)
          × AddUndone (family net) (T.show_net net)
          × ReplaceUndone (family net) (T.show_net net)
          × ReplaceKeeps (family net) (T.show_net net)

    nothing_printed :
        (out : Output) (r : Result Output)
        → r ≡ ok out
        → out.success ≡ true
        → (args : List (List ℕ)) → printed (judged sh ip_program args r) ≡ false
        → sh.trim (from_utf8_lossy out.stdout) ≡ []
    nothing_printed out r e went args h =
        nothing (sh.trim (from_utf8_lossy out.stdout))
          (sym (ap (λ x. printed (judged sh ip_program args x)) e ∙ rw went refl) ∙ h)
      where
        nothing : (bs : List ℕ) → not (is_empty bs) ≡ false → bs ≡ []
        nothing [] q = refl
        nothing (b ∷ bs) q = cc

    ip_kernel-IsKernel : IpRoutes → IsKernel ip_kernel
    unfolding exists run
    ip_kernel-IsKernel routes = record {
      add_via_del = λ net hop m m' h. Succeeds-run_command sh ip_program (del_args net) m' m (
          ((routes net).1 (via_args hop.gateway ++ (text "dev" ∷ hop.dev ∷ []))).0 m m'
            (run_command-Succeeds sh ip_program (pin_args net hop) m m' h));
      add_dev_del = λ net device m m' h. cc;
      replace_dev_del = λ net device m m' free h.
          let (out, e, went) = (routes net).0 m in
          Succeeds-run_command sh ip_program (del_args net) m' m (
            (routes net).2 device m m' out e (nothing_printed out _ e went (show_args net) free)
              (run_command-Succeeds sh ip_program (replace_args net device) m m' h));
      add_via_fails = λ net hop m m' h.
          run_command-KeepsOnFailure sh ip_program (pin_args net hop) m m'
            ((routes net).1 (via_args hop.gateway ++ (text "dev" ∷ hop.dev ∷ []))).1 h;
      add_dev_fails = λ net device m m' h. ap (λ r. r.1) (sym h);
      replace_dev_fails = λ net device m m' h.
          run_command-KeepsOnFailure sh ip_program (replace_args net device) m m'
            ((routes net).3 device) h;
    }

    -- Whatever part of the start succeeds, the commands of the cleanup leave the machine as it was
    -- before. Conditions: `ip route` does what is documented of it, and no prefix that is routed into
    -- the tunnel has a route of its own when its turn comes.
    cleanup-ip_kernel :
        (device : List ℕ) (m : sh.Machine) (agent_pin : Option (IpNet × NextHop))
        (pins : List (IpNet × NextHop)) (networks : List IpNet)
        → IpRoutes
        → Unrouted ip_kernel device
            (pin_all ip_kernel (pin_server ip_kernel (m, []) agent_pin).0 pins)
            networks
        → (cleanup ip_kernel (install ip_kernel device m agent_pin pins networks).0).0 ≡ m
    cleanup-ip_kernel device m agent_pin pins networks routes free =
        cleanup-install (ip_kernel-IsKernel routes) device m agent_pin pins networks free

-- `host_net`, over `IpNet::new(..)` with its `expect`.
unfoldable pub host_net : {IpNet : Type 0} → (new : IpAddr → ℕ → IpNet) → IpAddr → IpNet
host_net new (v4 octets) = new (v4 octets) 32
host_net new (v6 octets) = new (v6 octets) 128
