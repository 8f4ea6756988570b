-- ===== src/Vm/Server/Defs.antt =====
-- `handle`, `serve_tcp`, `serve_udp`, `reject` and `is_benign_eof`.
use vpn_bridge.Prelude.{
  Bool, true, false, Option, none, some, List, [], ◌∷◌, ◌++◌, keep, if◌then◌else◌, ℕ,
}
use vpn_bridge.Net.{IpAddr, SocketAddr, ip_of}
use vpn_bridge.Io.{
  unexpected_eof, broken_pipe, connection_reset, connection_aborted, not_connected, timed_out,
  Error, Result, ok, err,
}
use vpn_bridge.Io.Text.{text}
use vpn_bridge.Io.Reader.{Reader}
use vpn_bridge.Proto.{
  Cmd, connect_tcp, bind_udp, Status, auth_failed, forbidden, unreachable, server_error, Request,
  response_ok, response_err, read_request,
}
use vpn_bridge.Session.{
  udp_bound, udp_connected, tcp_relayed, udp_relayed, Network, Trace, ◌>>◌, handled, respond,
}
use vpn_bridge.Session.Dial.{udp_source, dial_candidates, resolve}
use vpn_bridge.Vm.Config.{VmConfig, permits, token_matches}

-- Errors that end a session in the normal way.
unfoldable pub is_benign_eof : Error → Bool
is_benign_eof e = elim e.kind [
  | unexpected_eof ↦ true
  | broken_pipe ↦ true
  | connection_reset ↦ true
  | connection_aborted ↦ true
  | not_connected ↦ true
  | timed_out ↦ true
  | _ ↦ false
]

abbrev pub or_text : Option (List ℕ) → List ℕ → List ℕ
or_text none default = default
or_text (some message) default = message

module _ (net : Network) where
  abbrev pub reject : Status → List ℕ → Trace (Unit {0})
  reject status message = respond net (response_err status message)

  -- The relay of a TCP flow, with its outcome.
  abbrev pub splice : SocketAddr → Trace (Unit {0})
  splice a = (tcp_relayed a ∷ [], net.relay a)

  -- `relay_udp`: an end that is normal for such a session is no error.
  abbrev pub benign : Result (Unit {0}) → Result (Unit {0})
  benign (ok u) = ok u
  benign (err e) = if is_benign_eof e then ok tt else err e

  abbrev pub relay_udp : SocketAddr → Trace (Unit {0})
  relay_udp a = (udp_relayed a ∷ [], benign (net.relay a))

  -- The end of `serve_tcp`, with the candidate reached and the last error.
  abbrev pub serve_upstream : Option SocketAddr × Option (List ℕ) → Trace (Unit {0})
  serve_upstream (some a, last) = do respond net response_ok; splice a
  serve_upstream (none, last) = reject unreachable (or_text last (text "connect failed"))

  unfoldable pub serve_tcp : Option IpAddr → List SocketAddr → Trace (Unit {0})
  unfolding dial_candidates
  serve_tcp bind_ip candidates =
      let d = dial_candidates net bind_ip candidates none in
      let rest = serve_upstream (d.1, d.2) in (d.0 ++ rest.0, rest.1)

  abbrev pub serve_connected : SocketAddr → Result (Unit {0}) → Trace (Unit {0})
  serve_connected a (ok _) = do respond net response_ok; relay_udp a
  serve_connected a (err e) = reject unreachable (text "connect failed: " ++ e.message)

  abbrev pub serve_bound : SocketAddr → Result (Unit {0}) → Trace (Unit {0})
  serve_bound a (ok _) = handled (udp_connected a ∷ [], net.connect_udp a) (serve_connected a)
  serve_bound a (err e) = reject server_error (text "bind failed: " ++ e.message)

  unfoldable pub serve_udp : Option IpAddr → SocketAddr → Trace (Unit {0})
  unfolding udp_source
  serve_udp bind_ip a =
      let bind = udp_source bind_ip a in
      handled (udp_bound bind ∷ [], net.bind_udp bind) (serve_bound a)

  module _ {IpNet : Type 0} (contains : IpNet → IpAddr → Bool) (cfg : VmConfig IpNet) where
    unfoldable pub allowed_of : List SocketAddr → List SocketAddr
    unfolding permits
    allowed_of candidates = keep (λ sa. permits contains cfg (ip_of sa)) candidates

    abbrev pub serve_allowed : Cmd → List SocketAddr → Trace (Unit {0})
    serve_allowed cmd [] = reject forbidden (text "destination not allowed")
    serve_allowed connect_tcp (a ∷ more) = serve_tcp cfg.bind_ip (a ∷ more)
    serve_allowed bind_udp (a ∷ more) = serve_udp cfg.bind_ip a

    abbrev pub serve_resolved : Cmd → Result (List SocketAddr) → Trace (Unit {0})
    serve_resolved cmd (err e) = reject unreachable (text "resolve failed: " ++ e.message)
    serve_resolved cmd (ok []) = reject unreachable (text "name resolved to nothing")
    serve_resolved cmd (ok (a ∷ more)) = serve_allowed cmd (allowed_of (a ∷ more))

    -- `handle` behind the request.
    unfoldable pub handle_request : Request → Trace (Unit {0})
    unfolding token_matches serve_tcp serve_udp allowed_of resolve
    handle_request req =
        if token_matches cfg.token req.token
        then handled (resolve net req.target) (serve_resolved req.cmd)
        else reject auth_failed (text "bad token")

    -- `handle`: the request is read from the stream within `HANDSHAKE_TIMEOUT`, or not.
    module _ (R : Reader) where
      abbrev pub handle_read : Result (Request × R.State) → Trace (Unit {0})
      handle_read (ok (req, rest)) = handle_request req
      handle_read (err e) = ([], err e)

      unfoldable pub handle : (in_time : Bool) → R.State → Trace (Unit {0})
      unfolding handle_request
      handle in_time stream =
          if in_time
          then handle_read (read_request R stream)
          else ([], err (record { kind = timed_out; message = text "handshake timed out" }))
