-- ===== src/Host/Delivery.antt =====
-- A UDP session from its far end to the application: the datagrams that the agent in the VM takes from
-- its socket (crates/vm/src/server.rs, `relay_udp`) and what the host gives to the local flow
-- (crates/host/src/tunnel.rs, `relay_udp`).
use vpn_bridge.Frames.{Channel, IsChannel}
use vpn_bridge.Frames.Local.{non_empty}
use vpn_bridge.Host.Downlink.{downlink, downlink_given, relay_udp}
use vpn_bridge.Io.{Error, err, ok}
use vpn_bridge.Io.Reader.{IsReader, Reader, eof}
use vpn_bridge.Io.Transfer.{Takes}
use vpn_bridge.Prelude.{All, List, [], ap, length, refl, some, ℕ, ◌++◌, ◌<◌, ◌^◌, ◌∙◌, ◌≡◌}
use vpn_bridge.Proto.Datagrams.{IsCut, IsPayload, session_layout}
use vpn_bridge.Session.Relay.{IsMoving, Relay, Step, downlinked, relay_run, relay_run-moved}

module _ {R : Reader} (L : IsReader R) {U : Channel (List ℕ)} (M : IsChannel U) where
  open L use {pending}

  -- The datagrams that reach the agent's socket reach the application as they are and in order, less
  -- the empty ones, for which there is no write, and the end of the tunnel is a normal end of the flow, also within a datagram, which is then dropped.
  -- Conditions: the agent's relay starts with nothing sent and its counter in range, and a datagram
  -- is sent on in each of its steps; the tunnel carries what the agent sends; each datagram has at most 65535 bytes, the
  -- local side takes them, and there is fuel for one turn more than there are datagrams.
  pub downlink-relay_run :
      (state : Relay) (steps : List Step) (part buf : List ℕ) (fuel : ℕ) (s : R.State) (u : U.State)
      → state.activity < 2 ^ 64
      → state.to_tunnel ≡ []
      → All IsMoving steps
      → All IsPayload (downlinked steps)
      → pending s ≡ session_layout (relay_run state steps).0.to_tunnel ++ part
      → IsCut part
      → Takes U.send
      → length (downlinked steps) < fuel
      → (e : Error) × (u' : U.State) × (downlink R U fuel buf s u ≡ some (e, u'))
        × (relay_udp (err e) ≡ ok tt)
        × (M.sent u' ≡ M.sent u ++ non_empty (downlinked steps))
  unfolding relay_udp
  downlink-relay_run state steps part buf fuel s u range fresh moving fit carried cut takes enough =
      let sent_on : (relay_run state steps).0.to_tunnel ≡ downlinked steps =
        ap (λ r. r.0.to_tunnel) (relay_run-moved state steps range moving)
        ∙ ap (λ l. l ++ downlinked steps) fresh in
      let (u', ended, all) =
        downlink_given L M (downlinked steps) part buf fuel s u
          (carried ∙ ap (λ l. session_layout l ++ part) sent_on) cut fit takes enough in
      (eof, u', ended, refl, all)
