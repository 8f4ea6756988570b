-- ===== src/Tests/Hosts.antt =====
-- The agent on the host.
use vpn_bridge.Host.Config.{captures, excludes}
use vpn_bridge.Host.Handshakes.{Concluded, open_over-agreed}
use vpn_bridge.Host.Pinned.{IsPinned, start_agent-IsPinned}
use vpn_bridge.Host.Startup.{start_agent}
use vpn_bridge.Host.Tunnel.{
  Attempt, ServerConfig, connected, dial_loop, dial_loop-first, open_over, request_for,
}
use vpn_bridge.Host.Uplink.{uplink, uplink-delivered}
use vpn_bridge.Io.{ok}
use vpn_bridge.Io.Cursor.{buffer, buffer-IsWriter, cursor, cursor-IsReader}
use vpn_bridge.Io.Reader.{Reads}
use vpn_bridge.Io.Text.{is_utf8, text}
use vpn_bridge.Net.{IpAddr, ip_of}
use vpn_bridge.Prelude.{
  List, [], append-nil, arith, false, if◌then◌else◌, none, refl, some, sym, true, ℕ, ◌++◌, ◌+◌, ◌<◌,
  ◌==◌, ◌∷◌, ◌≡◌, ◌≢◌,
}
use vpn_bridge.Proto.{
  Address, IsAddress, Response, connect_tcp, domain, forbidden, read_request, request_bytes,
  response_bytes, response_err, write_request,
}
use vpn_bridge.Proto.Datagrams.{read_datagrams}
use vpn_bridge.Proto.Wire.{on_wire}
use vpn_bridge.Tests.Data.{host_config, in_prefix, inner, octets_of, request, secret}
use vpn_bridge.Tests.Routes.{kernel, kernel-HasRoutes}

abbrev agent : ServerConfig
agent = host_config.server

abbrev shown : Address → List ℕ
shown a = text "target"

abbrev target : Address
target = domain (text "a.test") 443

abbrev refusal : Response
refusal = response_err forbidden (text "destination not allowed")

agent_sent :
    write_request buffer (request_for buffer cursor shown agent connect_tcp target) []
    ≡ ok (tt, request_bytes request)
unfolding write_request request_for
agent_sent = refl

secret_is_text : is_utf8 secret ≡ true
unfolding is_utf8
secret_is_text = refl

target-IsAddress : IsAddress (on_wire target)
unfolding is_utf8
target-IsAddress = (refl, omega arith)

open_over-agreed_example :
    ((bs : List ℕ) × (request_bytes request ≡ [] ++ bs)
      × ((more : List ℕ) → Reads cursor-IsReader (read_request cursor) (bs ++ more) request more))
    × Concluded buffer-IsWriter cursor-IsReader
        (text "target")
        refusal
        []
        (open_over buffer cursor shown agent true connect_tcp target [] (response_bytes refusal))
unfolding cursor-IsReader buffer-IsWriter
open_over-agreed_example =
    open_over-agreed buffer-IsWriter cursor-IsReader shown agent connect_tcp target []
      (request_bytes request) (response_bytes refusal) refusal [] secret_is_text target-IsAddress
      agent_sent (sym (append-nil (response_bytes refusal)))

-- The third attempt connects.
abbrev attempts : ℕ → Attempt
attempts n = if n == 2 then some (ok tt) else none

attempts_fail : (k : ℕ) → k < 2 → connected (attempts (k + 0)) ≡ false
attempts_fail k lt = ground arith

dial_loop-first_example : dial_loop attempts 5 0 ≡ some 2
dial_loop-first_example = dial_loop-first attempts 2 5 0 (omega arith) attempts_fail refl

abbrev inner_ip : IpAddr
inner_ip = ip_of inner

server_captured : captures in_prefix host_config inner_ip ≡ true
unfolding captures
server_captured = refl

server_not_excluded : excludes in_prefix host_config inner_ip ≡ false
unfolding excludes
server_not_excluded = refl

start_succeeds : (start_agent kernel in_prefix (λ net. inner_ip) octets_of [] host_config).1 ≡ true
unfolding start_agent
start_succeeds = refl

not_routed : octets_of inner_ip ≢ 10 ∷ []
not_routed h = cc

start_agent-IsPinned_example :
    IsPinned kernel-HasRoutes in_prefix
      (λ net. inner_ip)
      octets_of
      []
      (start_agent kernel in_prefix (λ net. inner_ip) octets_of [] host_config).0.0
      (ip_of inner)
start_agent-IsPinned_example =
    start_agent-IsPinned kernel-HasRoutes in_prefix (λ net. inner_ip) octets_of [] host_config
      server_captured server_not_excluded refl (not_routed, tt) start_succeeds

-- The empty datagram ends the loop.
abbrev local_reads : List (List ℕ)
local_reads = (1 ∷ []) ∷ (2 ∷ 3 ∷ []) ∷ [] ∷ (4 ∷ []) ∷ []

abbrev framed : List ℕ
framed = 0 ∷ 1 ∷ 1 ∷ 0 ∷ 2 ∷ 2 ∷ 3 ∷ []

uplink_sent : uplink buffer local_reads [] ≡ ok (true, framed)
unfolding uplink
uplink_sent = refl

uplink-delivered_example :
    (bs : List ℕ) × (framed ≡ [] ++ bs)
    × ((rest : List ℕ)
        → Reads cursor-IsReader
            (read_datagrams cursor 2 [])
            (bs ++ rest)
            ((1 ∷ []) ∷ (2 ∷ 3 ∷ []) ∷ [])
            rest)
unfolding cursor-IsReader buffer-IsWriter
uplink-delivered_example =
    uplink-delivered buffer-IsWriter cursor-IsReader local_reads [] true [] framed uplink_sent
