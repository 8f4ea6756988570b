-- ===== src/Client/Delivery.antt =====
-- A UDP session of the proxy from its far end to the application: the datagrams that the server takes
-- from its socket (crates/proxy-server/src/server.rs, `relay_udp`) and what the client gives to the
-- local flow (crates/proxy-client/src/relay.rs, `relay_udp`).
use vpn_bridge.Client.Quic.{fresh}
use vpn_bridge.Client.Relays.{download, received, received_given}
use vpn_bridge.Frames.{Channel, IsChannel}
use vpn_bridge.Frames.Local.{non_empty, write_item}
use vpn_bridge.Host.Downlink.{datagram_come, datagram_given, downlink, downlink_given}
use vpn_bridge.Io.{Error, Result, err, ok}
use vpn_bridge.Io.Reader.{IsReader, Reader, eof}
use vpn_bridge.Io.Transfer.{Takes}
use vpn_bridge.Prelude.{
  All, List, false, Option, [], ap, length, refl, some, suc, take, zero, ℕ, ◌++◌, ◌<◌, ◌^◌, ◌∙◌,
  ◌≡◌,
}
use vpn_bridge.Proto.{read_datagram}
use vpn_bridge.Proto.Datagrams.{IsCut, IsPayload, session_layout}
use vpn_bridge.Server.Relay.{as_proxy, relay_turns, relay_turns-same}
use vpn_bridge.Session.Relay.{IsMoving, Relay, Step, downlinked, relay_run-moved}

received-same :
    (R : Reader) (U : Channel (List ℕ))
    (f g : List ℕ → R.State → U.State → Option (Error × U.State)) (u : U.State)
    (r : Result ((ℕ × List ℕ) × R.State))
    → ((buf : List ℕ) (s : R.State) (v : U.State) → f buf s v ≡ g buf s v)
    → received R U f u r ≡ datagram_come R U g u r
received-same R U f g u (ok ((n, buf), s)) same = by_send (write_item U (take n buf) u)
  where
    by_send :
        (r : Result (Unit {0} × U.State))
        → received_given R U (f buf s) u r ≡ datagram_given R U (g buf s) u r
    by_send (ok (_, v)) = same buf s v
    by_send (err e) = refl
received-same R U f g u (err e) same = refl

-- The client's loop is that of the host.
download-same :
    (R : Reader) (U : Channel (List ℕ)) (fuel : ℕ) (buf : List ℕ) (s : R.State) (u : U.State)
    → download R U fuel buf s u ≡ downlink R U fuel buf s u
unfolding download downlink
download-same R U zero buf s u = refl
download-same R U (suc fuel) buf s u =
    received-same R U (download R U fuel) (downlink R U fuel) u (read_datagram R buf s)
      (download-same R U fuel)

-- The datagrams that reach the server's socket reach the application as they are and in order, less the
-- empty ones, for which there is no write, and then the end of the stream ends the flow. Conditions: the server's relay starts with nothing sent, the
-- tunnel open and its counter in range, and a datagram is sent on in each of its steps; the transport carries what the server sends, the
-- last of it perhaps cut short; each datagram has at most 65535 bytes, the local side takes them, and
-- there is fuel for one turn more than there are datagrams.
download-relay_turns :
    {R : Reader} (L : IsReader R) {U : Channel (List ℕ)} (M : IsChannel U) (state : Relay)
    (steps : List Step) (part buf : List ℕ) (fuel : ℕ) (s : R.State) (u : U.State)
    → state.activity < 2 ^ 64
    → state.to_tunnel ≡ []
    → state.tunnel_shut ≡ false
    → All IsMoving steps
    → All IsPayload (downlinked steps)
    → L.pending s ≡ session_layout (relay_turns state steps).0.to_tunnel ++ part
    → IsCut part
    → Takes U.send
    → length (downlinked steps) < fuel
    → (u' : U.State) × (download R U fuel buf s u ≡ some (eof, u'))
      × (M.sent u' ≡ M.sent u ++ non_empty (downlinked steps))
download-relay_turns {R} L {U} M state steps part buf fuel s u range fresh still moving fit carried
      cut takes enough =
    let sent_on : (relay_turns state steps).0.to_tunnel ≡ downlinked steps =
      ap (λ r. r.0.to_tunnel)
        ((relay_turns-same state steps still).0
          ∙ ap as_proxy (relay_run-moved state steps range moving))
      ∙ ap (λ l. l ++ downlinked steps) fresh in
    let (u', ended, all) =
      downlink_given L M (downlinked steps) part buf fuel s u
        (carried ∙ ap (λ l. session_layout l ++ part) sent_on) cut fit takes enough in
    (u', download-same R U fuel buf s u ∙ ended, all)
