-- ===== src/Tests/Proxies.antt =====
-- The proxy server's gRPC service, its copying of bytes and its start.
use vpn_bridge.Client.Frames.{request_pump}
use vpn_bridge.Frames.{Shuts, left_at}
use vpn_bridge.Frames.Memory.{
  frames_in, frames_in-IsComing, frames_in-IsInbound, items, items-IsChannel,
}
use vpn_bridge.Frames.Transparent.{request_feed-request_pump}
use vpn_bridge.Io.{err, ok}
use vpn_bridge.Io.Cursor.{buffer, buffer-IsWriter, cursor}
use vpn_bridge.Io.Memory.{
  bytes_in, bytes_in-IsSound, bytes_in-IsSource, bytes_out, bytes_out-IsSink,
}
use vpn_bridge.Io.Text.{is_utf8, text}
use vpn_bridge.Io.Transfer.{IsBlock, Takes, join_blocks}
use vpn_bridge.Prelude.{
  All, Bool, List, [], arith, false, length, map, refl, some, true, ℕ, ◌*◌, ◌++◌, ◌+◌, ◌∷◌, ◌≡◌,
  ◌≤◌,
}
use vpn_bridge.Proto.{IsAddress, request_bytes, write_request}
use vpn_bridge.Proto.Wire.{on_wire}
use vpn_bridge.Server.Copy.{copy_with_activity, copy_with_activity-copied}
use vpn_bridge.Server.Endpoint.{BiStream, Incoming, IsWithin, connections, run, run-IsWithin}
use vpn_bridge.Server.Flow.{
  FlowReach, TcpFlow, after, copied, copied_at, here, polled, polled_at, polled_at-ends,
  polled_at-idle, start_flow, tcp_flow_idle,
}
use vpn_bridge.Server.Frames.{Item, frame, request_feed, respond_pump, respond_pump-framed}
use vpn_bridge.Server.Grpc.{
  OnlyPermitted, accepted, service_open, service_open-permitted, service_open-write_request,
}
use vpn_bridge.Server.Handler.Defs.{handle_request}
use vpn_bridge.Tests.Data.{failure, in_prefix, net, request, server_config}

abbrev hello : List ℕ
hello = text "hello"

-- Bytes that go out as one frame.
respond_pump-framed_example :
    (c' : List Item) × (blocks : List (List ℕ)) × (respond_pump bytes_in (items Item) 6 hello []
      ≡ some (left_at c'))
    × (c' ≡ [] ++ map frame blocks)
    × All (IsBlock 16384) blocks
    × (join_blocks blocks ≡ hello)
unfolding bytes_in-IsSource items-IsChannel
respond_pump-framed_example =
    respond_pump-framed bytes_in-IsSource (items-IsChannel Item) 6 hello [] bytes_in-IsSound
      (λ block c. (c ++ (frame block ∷ []), refl)) (omega arith)

abbrev taken : Takes bytes_out.write_all
taken block k = ((k.0 ++ block, k.1), refl)

abbrev shuts : Shuts bytes_out
shuts k = ((k.0, true), refl)

client_sent :
    request_pump bytes_in (items (List ℕ)) 6 hello (text "request" ∷ [])
    ≡ some (left_at (text "request" ∷ hello ∷ []))
unfolding request_pump
client_sent = refl

request_feed-request_pump_example :
    (k' : List ℕ × Bool) × (request_feed frames_in bytes_out 6 (hello ∷ []) ([], false)
      ≡ some (left_at k'))
    × (k'.0 ≡ [] ++ hello)
    × (k'.1 ≡ true)
unfolding bytes_in-IsSource items-IsChannel frames_in-IsInbound bytes_out-IsSink
request_feed-request_pump_example =
    request_feed-request_pump bytes_in-IsSource frames_in-IsInbound bytes_out-IsSink
      (items-IsChannel (List ℕ)) 6 6 hello (text "request" ∷ []) (text "request" ∷ hello ∷ [])
      (hello ∷ []) ([], false) client_sent refl bytes_in-IsSound
      (λ block c. (c ++ (block ∷ []), refl)) (omega arith) frames_in-IsComing taken shuts
      (omega arith)

copy_with_activity-copied_example :
    (k' : List ℕ × Bool) × (notes : ℕ) × (copy_with_activity bytes_in bytes_out 6 hello
        (([], false), 3)
      ≡ some (ok (tt, (k', 3 + notes))))
    × (k'.0 ≡ [] ++ hello)
    × (k'.1 ≡ true)
    × (length hello ≤ notes * 16384)
    × (notes ≤ length hello)
unfolding bytes_in-IsSource bytes_out-IsSink
copy_with_activity-copied_example =
    copy_with_activity-copied bytes_in-IsSource bytes_out-IsSink 6 hello ([], false) 3
      bytes_in-IsSound taken shuts (omega arith)

service_open-permitted_example :
    OnlyPermitted net in_prefix server_config
      (service_open net in_prefix server_config (some (ok (some (request_bytes request)))))
service_open-permitted_example =
    service_open-permitted net in_prefix server_config (some (ok (some (request_bytes request))))

request_encoded : write_request buffer request [] ≡ ok (tt, request_bytes request)
unfolding write_request
request_encoded = refl

secret_is_text : is_utf8 request.token ≡ true
unfolding is_utf8
secret_is_text = refl

target-IsAddress : IsAddress (on_wire request.target)
unfolding is_utf8
target-IsAddress = (refl, omega arith)

service_open-write_request_example :
    service_open net in_prefix server_config (some (ok (some (request_bytes request))))
    ≡ accepted (
        handle_request net in_prefix server_config
          (record request { target = on_wire request.target }))
unfolding buffer-IsWriter
service_open-write_request_example =
    service_open-write_request net in_prefix server_config buffer-IsWriter request []
      (request_bytes request) secret_is_text target-IsAddress request_encoded refl

-- A block is copied at 5, seen at 7, and nothing afterwards.
abbrev at_seven : TcpFlow
at_seven = record { noted = false; deadline = 17; now = 7; last_copy = 5 }

reaches_seven : FlowReach 10 (start_flow 10 0) at_seven
unfolding start_flow copied_at polled_at
reaches_seven =
    after (after here (copied (start_flow 10 0) 5 (omega arith)))
      (polled (copied_at (start_flow 10 0) 5) 7 (omega arith) refl)

seventeen_ends : (polled_at 10 at_seven 17).1 ≡ err tcp_flow_idle
unfolding polled_at
seventeen_ends = refl

polled_at-idle_example : 5 + 10 ≤ 17
polled_at-idle_example = polled_at-idle 10 0 17 at_seven reaches_seven seventeen_ends

polled_at-ends_example : (polled_at 10 (polled_at 10 at_seven 8).0 18).1 ≡ err tcp_flow_idle
polled_at-ends_example = polled_at-ends 10 0 8 18 at_seven reaches_seven (omega arith) (omega arith)

-- One connection with a stream before its end, and a handshake that fails.
abbrev asked_once : BiStream cursor
asked_once = record { net = net; recv = request_bytes request; in_time = true }

abbrev incoming : Incoming cursor
incoming = ok (ok asked_once ∷ err failure ∷ ok asked_once ∷ []) ∷ err failure ∷ ok [] ∷ []

run-IsWithin_example :
    All
      (All (IsWithin in_prefix cursor server_config))
      (run in_prefix cursor server_config incoming)
    × (map (λ l. map (λ p. p.0) l) (run in_prefix cursor server_config incoming)
        ≡ connections incoming)
run-IsWithin_example = run-IsWithin in_prefix cursor server_config incoming
