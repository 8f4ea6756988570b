-- ===== src/Tests/Bridges.antt =====
-- The agent on the host: its flows, its forwarder, and its run.
use vpn_bridge.Frames.Memory.{items, items-IsChannel}
use vpn_bridge.Host.Delivery.{downlink-relay_run}
use vpn_bridge.Host.Dispatch.{dispatch}
use vpn_bridge.Host.Dns.{DnsConfig, Exchange}
use vpn_bridge.Host.Downlink.{downlink, relay_udp}
use vpn_bridge.Host.Forwarder.{Reception, Sending}
use vpn_bridge.Host.Forwarding.{dispatch-IsOwn}
use vpn_bridge.Host.Route.{pin_all, pin_direct}
use vpn_bridge.Host.Running.{LeavesBehind, RoutesFree, Run, host_running-restored, main_running}
use vpn_bridge.Host.Startup.{exclude_pins, server_pin}
use vpn_bridge.Io.{Error, err, ok}
use vpn_bridge.Io.Cursor.{buffer, cursor, cursor-IsReader}
use vpn_bridge.Io.Text.{text}
use vpn_bridge.Io.Transfer.{Takes}
use vpn_bridge.Net.{SocketAddr, ip_of}
use vpn_bridge.Prelude.{
  All, List, Option, [], arith, false, inl, refl, some, subst, true, ℕ, ◌++◌, ◌∷◌, ◌≡◌,
}
use vpn_bridge.Proto.{connect_tcp, ip}
use vpn_bridge.Proto.Datagrams.{session_layout}
use vpn_bridge.Proto.Wire.{on_wire}
use vpn_bridge.Routing.{through, NextHop}
use vpn_bridge.Vm.Server.Defs.{handle_request}
use vpn_bridge.Session.{relays}
use vpn_bridge.Session.Relay.{Relay, Step, from_socket, from_tunnel, relay_run}
use vpn_bridge.Streams.{IsOwn, tcp_stream}
use vpn_bridge.Tests.Data.{
  failure, gateway, host_config, in_prefix, inner, net, octets_of, outer, secret, vm_config,
}
use vpn_bridge.Tests.Routes.{Table, kernel, kernel-IsKernel}

dispatch-IsOwn_example : All (IsOwn (tcp_stream outer inner)) (
    relays
      (handle_request net in_prefix vm_config
        (record { cmd = connect_tcp; token = secret; target = on_wire (ip inner) })).0)
unfolding dispatch
dispatch-IsOwn_example =
    dispatch-IsOwn net in_prefix vm_config {T = Unit {0}} (λ cmd target. ok tt)
      (tcp_stream outer inner) connect_tcp (ip inner) secret (omega arith) (omega arith) (inl refl)

-- A session whose far end sends three datagrams, one of them empty, and a tunnel that ends within a
-- fourth.
abbrev new_relay : Relay
new_relay = record { activity = 0; seen = 0; to_socket = []; to_tunnel = []; tunnel_shut = false }

abbrev turns : List Step
turns =
    from_socket (ok (1 ∷ [])) (ok tt)
    ∷ from_tunnel (ok (9 ∷ [])) (ok tt)
    ∷ from_socket (ok []) (ok tt)
    ∷ from_socket (ok (2 ∷ 3 ∷ [])) (ok tt)
    ∷ []

abbrev tunnelled : List ℕ
tunnelled = 0 ∷ 1 ∷ 1 ∷ 0 ∷ 0 ∷ 0 ∷ 2 ∷ 2 ∷ 3 ∷ 0 ∷ []

tunnel_carries : tunnelled ≡ session_layout (relay_run new_relay turns).0.to_tunnel ++ (0 ∷ [])
unfolding relay_run
tunnel_carries = refl

local_takes : Takes (items (List ℕ)).send
local_takes block c = (c ++ (block ∷ []), refl)

downlink-relay_run_example :
    (e : Error) × (u' : List (List ℕ)) × (downlink cursor (items (List ℕ)) 4 [] tunnelled []
      ≡ some (e, u'))
    × (relay_udp (err e) ≡ ok tt)
    × (u' ≡ [] ++ ((1 ∷ []) ∷ (2 ∷ 3 ∷ []) ∷ []))
unfolding cursor-IsReader items-IsChannel
downlink-relay_run_example =
    downlink-relay_run cursor-IsReader (items-IsChannel (List ℕ)) new_relay turns (0 ∷ []) [] 4
      tunnelled [] (omega arith) refl (tt, (tt, (tt, (tt, tt))))
      (omega arith, (omega arith, (omega arith, tt))) tunnel_carries (inl (omega arith)) local_takes
      (omega arith)

abbrev show : SocketAddr → List ℕ
show a = text "address"

abbrev forwarder : DnsConfig
forwarder = record { listen = outer; upstream = inner ∷ []; timeout_ms = 5000 }

-- A tunnel over which an echo comes back, behind which a byte is left, and one over which the same comes
-- whatever is asked.
abbrev echo : Exchange buffer cursor
echo = record {
  tunnel = λ upstream. ok [];
  incoming = λ upstream w. w ++ (0 ∷ []);
  in_time = λ upstream. true;
}

abbrev fixed : Exchange buffer cursor
fixed = record echo { incoming = λ upstream w. 0 ∷ 1 ∷ 7 ∷ [] }

-- Three queries, the last of which is answered too late, and a failure.
abbrev queries : List (Reception buffer cursor)
queries =
    ok (5 ∷ 6 ∷ [], outer, echo)
    ∷ err failure
    ∷ ok (5 ∷ 6 ∷ [], inner, fixed)
    ∷ ok (5 ∷ [], inner, record echo { in_time = λ upstream. false })
    ∷ []

abbrev answers_sent : List Sending
answers_sent = (5 ∷ 6 ∷ [], outer) ∷ (7 ∷ [], inner) ∷ []

-- A run that the signal ends, on a machine with one route.
abbrev signalled : Run
signalled = record { device = true; stack = true; signalled = true }

abbrev before : Table
before = ((192 ∷ []), through gateway) ∷ []

abbrev found_server : Option (List ℕ × NextHop)
found_server = some ((10 ∷ 0 ∷ 0 ∷ 9 ∷ []), gateway)

pinned_first :
    server_pin kernel in_prefix (λ prefix. ip_of inner) octets_of before host_config
    ≡ ok found_server
unfolding server_pin
pinned_first = refl

free_then :
    RoutesFree kernel-IsKernel in_prefix
      (λ prefix. ip_of inner)
      octets_of
      {T = Unit {0}}
      (λ cmd target. ok tt)
      before
      host_config
      found_server
unfolding pin_all pin_direct exclude_pins
free_then = (refl, tt)

routes_free :
    (pin : Option (List ℕ × NextHop))
    → server_pin kernel in_prefix (λ prefix. ip_of inner) octets_of before host_config ≡ ok pin
    → RoutesFree kernel-IsKernel in_prefix
        (λ prefix. ip_of inner)
        octets_of
        {T = Unit {0}}
        (λ cmd target. ok tt)
        before
        host_config
        pin
routes_free pin h =
    let same : found_server ≡ pin = cc (pinned_first, h) in
    subst
      (RoutesFree kernel-IsKernel in_prefix (λ prefix. ip_of inner) octets_of {T = Unit {0}}
        (λ cmd target. ok tt) before host_config)
      same free_then

host_running-restored_example :
    LeavesBehind kernel-IsKernel in_prefix
      (λ prefix. ip_of inner)
      octets_of
      {T = Unit {0}}
      (λ cmd target. ok tt)
      before
      (tcp_stream outer inner ∷ [])
      (main_running kernel in_prefix
        (λ prefix. ip_of inner)
        octets_of
        {T = Unit {0}}
        (λ cmd target. ok tt)
        host_config
        signalled
        (tcp_stream outer inner ∷ [])
        before)
host_running-restored_example =
    host_running-restored kernel-IsKernel in_prefix (λ prefix. ip_of inner) octets_of {T = Unit {0}}
      (λ cmd target. ok tt) host_config signalled (tcp_stream outer inner ∷ []) before routes_free
