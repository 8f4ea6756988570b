-- ===== src/Tests/Apps.antt =====
-- The proxy client: its flows, its transports and its routes.
use vpn_bridge.Client.Accepted.{GrpcAttempt, QuicAttempt, open_flow-Accepts, transports}
use vpn_bridge.Client.Accepted.Attempts.{Accepts}
use vpn_bridge.Client.Commands.{RoutesUndone, cleanup-commands, command_kernel, linux}
use vpn_bridge.Client.Config.{validate}
use vpn_bridge.Client.Device.{poll_read, poll_read-Polled}
use vpn_bridge.Client.Dispatch.{dispatch}
use vpn_bridge.Client.Forwarding.{flow_dispatch-IsOwn}
use vpn_bridge.Client.Grpc.{grpc_open}
use vpn_bridge.Client.Opening.{IsEnabled, new_client, open_flow-new_client}
use vpn_bridge.Client.Quic.{quic_open}
use vpn_bridge.Client.Relays.{Copy, IsCopy, relay_tcp, relay_tcp-carried}
use vpn_bridge.Client.Route.{add_all}
use vpn_bridge.Client.Running.{LeavesBehind, Run, main_running, main_running-restored}
use vpn_bridge.Client.Transport.{
  Surroundings, TransportClient, open_all, open_flow, over_grpc, over_quic, quic_unavailable,
}
use vpn_bridge.Io.{Result, err, ok}
use vpn_bridge.Io.Cursor.{buffer, cursor}
use vpn_bridge.Io.Memory.{bytes_in, bytes_in-IsSource, bytes_out, bytes_out-IsSink}
use vpn_bridge.Io.Text.{text}
use vpn_bridge.Prelude.{
  ◌<◌, All, List, [], ap, arith, false, if◌then◌else◌, inl, length, length-take, none, refl,
  same_bytes, some, suc, sym, take, true, zero, ℕ, ◌++◌, ◌==◌, ◌∷◌, ◌≡◌, ◌⊎◌,
}
use vpn_bridge.Proto.{
  connect_tcp, ip, read_response_body, response_bytes, response_ok, status_from_u8,
}
use vpn_bridge.Proto.Wire.{on_wire}
use vpn_bridge.Routing.{cleanup}
use vpn_bridge.Server.Handler.Defs.{handle_request}
use vpn_bridge.Session.{relays}
use vpn_bridge.Shell.{IsFailure, Output, Shell}
use vpn_bridge.Streams.{IsOwn, tcp_stream}
use vpn_bridge.Tests.Data.{
  client_config, failure, first_address, in_prefix, inner, net, octets_of, outer, request, secret,
  server_config,
}
use vpn_bridge.Tests.Routes.{kernel, kernel-IsKernel}
use vpn_bridge.Tun.{FitsIn, IsTun, Poll, Polled, Tun, pending, ready}

flow_dispatch-IsOwn_example : All (IsOwn (tcp_stream outer inner)) (
    relays
      (handle_request net in_prefix server_config
        (record { cmd = connect_tcp; token = secret; target = on_wire (ip inner) })).0)
unfolding dispatch
flow_dispatch-IsOwn_example =
    flow_dispatch-IsOwn net in_prefix server_config {T = Unit {0}} (λ cmd target. ok tt)
      (tcp_stream outer inner) connect_tcp (ip inner) secret (omega arith) (omega arith) (inl refl)

abbrev client : TransportClient
client = record { quic_on = true; grpc_on = true; fallback_until = none; retry_interval = 1000 }

abbrev over_open : QuicAttempt ℕ buffer cursor
over_open = record {
  net = record { connect = some (ok 2); is_closed = λ c. c == 1; open_bi = λ c. ok tt };
  slot = some 1;
  sending = [];
  receiving = response_bytes response_ok;
  in_time = true;
}

abbrev unused : GrpcAttempt buffer cursor
unused = record { buffer = []; stream = []; in_time = true; called = none }

flow_opened :
    (open_flow client
      (transports buffer cursor (text "a.test:443") request 5 6 over_open unused unused)).2
    ≡ ok over_quic
unfolding open_flow quic_open grpc_open response_bytes read_response_body status_from_u8
flow_opened = refl

open_flow-Accepts_example :
    ((over_quic ≡ over_quic) × Accepts cursor (response_bytes response_ok))
    ⊎ ((over_quic ≡ over_grpc) × (Accepts cursor [] ⊎ Accepts cursor []))
open_flow-Accepts_example =
    open_flow-Accepts buffer cursor (text "a.test:443") request 5 6 over_open unused unused client
      over_quic flow_opened

config_valid : validate in_prefix first_address octets_of client_config ≡ ok tt
unfolding validate
config_valid = refl

client_made :
    new_client client_config (ok tt) (ok tt) ≡ ok (record client { retry_interval = 3000 })
unfolding new_client
client_made = refl

abbrev failing : Surroundings
failing = record {
  now = 5;
  later = 5;
  quic = quic_unavailable failure;
  grpc = err failure;
  grpc_again = err failure;
}

-- The call behind one that finds QUIC unavailable.
open_flow-new_client_example :
    (0
      < length
          (open_flow
            (open_all (record client { retry_interval = 3000 }) (failing ∷ [])).1
            failing).0)
    × All
        (IsEnabled client_config)
        (open_flow (open_all (record client { retry_interval = 3000 }) (failing ∷ [])).1 failing).0
open_flow-new_client_example =
    open_flow-new_client in_prefix first_address octets_of client_config (ok tt) (ok tt)
      (record client { retry_interval = 3000 }) (failing ∷ []) failing config_valid client_made

abbrev copying : Copy bytes_in bytes_out
copying s k = ok (k.0 ++ s, k.1)

copying-IsCopy : IsCopy bytes_in-IsSource bytes_out-IsSink copying
unfolding bytes_in-IsSource bytes_out-IsSink
copying-IsCopy s k k' h = cc

both_relayed :
    relay_tcp bytes_in bytes_in bytes_out bytes_out copying copying true
      (text "up")
      ([], false)
      (text "down")
      ([], false)
    ≡ ok ((text "up", true), (text "down", true))
unfolding relay_tcp
both_relayed = refl

relay_tcp-carried_example :
    (text "up" ≡ [] ++ text "up")
    × (true ≡ true)
    × (text "down" ≡ [] ++ text "down")
    × (true ≡ true)
unfolding bytes_in-IsSource bytes_out-IsSink
relay_tcp-carried_example =
    relay_tcp-carried bytes_in-IsSource bytes_in-IsSource bytes_out-IsSink bytes_out-IsSink copying
      copying true (text "up") ([], false) (text "down", true) (text "down") ([], false)
      (text "up", true) copying-IsCopy copying-IsCopy both_relayed

abbrev signalled : Run
signalled = record {
  transports = true;
  device = some (text "tun0");
  stack = true;
  signalled = true;
}

main_running-restored_example :
    LeavesBehind kernel-IsKernel {T = Unit {0}}
      (λ cmd target. ok tt)
      []
      (tcp_stream outer inner ∷ [])
      (main_running kernel {T = Unit {0}}
        (λ cmd target. ok tt)
        client_config
        signalled
        (tcp_stream outer inner ∷ [])
        [])
main_running-restored_example =
    main_running-restored kernel-IsKernel {T = Unit {0}} (λ cmd target. ok tt) client_config
      signalled (tcp_stream outer inner ∷ []) []

-- A machine that counts the routes added to it.
abbrev done : Output
done = record { success = true; status = text "exit status: 0"; stdout = []; stderr = [] }

abbrev one_less : ℕ → ℕ
one_less zero = zero
one_less (suc n) = n

abbrev counting_command : List (List ℕ) → ℕ → Result Output × ℕ
counting_command (w ∷ verb ∷ rest) n =
    (ok done, if same_bytes verb (text "add") then suc n else one_less n)
counting_command _ n = (err failure, n)

abbrev counting : Shell
counting = record { Machine = ℕ; execute = λ p args n. counting_command args n; trim = λ s. s }

done_goes : (r : Result Output) → ok done ≡ r → IsFailure counting r → ⊥
done_goes (ok out) e failed = let same : done ≡ out = cc in cc (ap (λ o. o.success) same, failed)
done_goes (err x) e failed = cc

counting_undone :
    (network : List ℕ)
    → RoutesUndone counting {IpNet = List ℕ} (λ n. n) linux linux network (text "tun0")
counting_undone network = (
  λ n n' (out, e, went).
      let counted : suc n ≡ n' = ap (λ r. r.1) e in
      (done, ap (λ m. (ok done, one_less m)) (sym counted), refl),
  λ n n' r e failed. absurd (done_goes r (ap (λ x. x.0) e) failed),
)

cleanup-commands_example :
    (cleanup
      (command_kernel counting {IpNet = List ℕ} (λ n. n) linux (text "tun0"))
      (add_all
        (command_kernel counting {IpNet = List ℕ} (λ n. n) linux (text "tun0"))
        (text "tun0")
        (7, [])
        ((10 ∷ []) ∷ (11 ∷ []) ∷ [])).0).0
    ≡ 7
cleanup-commands_example =
    cleanup-commands counting {IpNet = List ℕ} (λ n. n) linux (text "tun0") 7
      ((10 ∷ []) ∷ (11 ∷ []) ∷ []) counting_undone

-- An interface with packets waiting.
abbrev next_packet : ℕ → List (List ℕ) → Poll (List ℕ) × List (List ℕ)
next_packet room [] = (pending, [])
next_packet room (p ∷ ps) = (ready (ok (take room p)), ps)

abbrev waiting : Tun
waiting = record {
  State = List (List ℕ);
  poll_recv = next_packet;
  poll_send = λ p ps. (ready (ok (length p)), ps);
}

packet_fits : (room : ℕ) (ps : List (List ℕ)) → FitsIn room (next_packet room ps).0
packet_fits room [] = tt
packet_fits room (p ∷ ps) = omega (arith, length-take room p)

packet_ready :
    (room : ℕ) (ps rest : List (List ℕ)) (packet : List ℕ)
    → next_packet room ps ≡ (ready (ok packet), rest)
    → (whole : List ℕ) × (ps ≡ whole ∷ rest) × (packet ≡ take room whole)
packet_ready room [] rest packet h = cc
packet_ready room (p ∷ ps) rest packet h =
    let same : take room p ≡ packet = cc in (p, ap (λ l. p ∷ l) (ap (λ r. r.1) h), sym same)

packet_pending :
    (room : ℕ) (ps rest : List (List ℕ)) → next_packet room ps ≡ (pending, rest) → rest ≡ ps
packet_pending room [] rest h = sym (ap (λ r. r.1) h)
packet_pending room (p ∷ ps) rest h = cc

waiting-IsTun : IsTun waiting
waiting-IsTun = record {
  coming = λ ps. ps;
  recv_fits = packet_fits;
  recv_ready = packet_ready;
  recv_pending = packet_pending;
}

poll_read-Polled_example :
    Polled waiting-IsTun
      (record { filled = []; capacity = 4 })
      (text "packet" ∷ [])
      (poll_read waiting (record { filled = []; capacity = 4 }) (text "packet" ∷ []))
poll_read-Polled_example =
    poll_read-Polled waiting-IsTun (record { filled = []; capacity = 4 }) (text "packet" ∷ [])
      (omega arith)
