-- ===== src/Tests/Agent.antt =====
-- The agent in the VM, on one request.

use vpn_bridge.Io.{ok}
use vpn_bridge.Io.Text.{text}
use vpn_bridge.Prelude.{List, [], arith, refl, true, ℕ, ◌++◌, ◌↔◌, ◌∷◌, ◌≡◌, some, false}
use vpn_bridge.Session.Dial.{answers, first_answering, resolve}
use vpn_bridge.Session.Relay.{
  Relay, Step, from_socket, from_tunnel, idle_passed, relay_run, relay_run-idle_iff,
}
use vpn_bridge.Session.Verdict.{Answers, to_tcp}
use vpn_bridge.Tests.Data.{in_prefix, inner, net, request, secret, vm_config}
use vpn_bridge.Vm.Config.{permits, token_matches, token_matches_iff}
use vpn_bridge.Vm.Server.Defs.{handle_request}
use vpn_bridge.Vm.Server.Verdict.{handle_request-decides}

-- The token fits, the outer address does not answer, and the inner one does.
handle_request-decides_example :
    Answers net (to_tcp inner) (handle_request net in_prefix vm_config request)
unfolding resolve permits first_answering answers
handle_request-decides_example =
    handle_request-decides net in_prefix vm_config request (omega arith) (omega arith)

token_matches_iff_example : (token_matches secret (text "guess") ≡ true) ↔ (secret ≡ text "guess")
token_matches_iff_example = token_matches_iff secret (text "guess") (omega arith) (omega arith)

abbrev quiet_relay : Relay
quiet_relay = record { activity = 7; seen = 7; to_socket = []; to_tunnel = []; tunnel_shut = false }

abbrev two_steps : List Step
two_steps = from_tunnel (ok (1 ∷ [])) (ok tt) ∷ from_socket (ok (2 ∷ [])) (ok tt) ∷ []

relay_run-idle_iff_example :
    ((relay_run quiet_relay (two_steps ++ (idle_passed ∷ []))).1 ≡ some (ok tt))
    ↔ (◌≡◌ {A = List (List ℕ)} ((1 ∷ []) ∷ []) [])
relay_run-idle_iff_example =
    relay_run-idle_iff quiet_relay two_steps (omega arith) refl (tt, (tt, tt)) (omega arith)
