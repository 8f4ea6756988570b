-- ===== src/Server/Handler/Defs.antt =====
-- crates/proxy-server/src/server.rs: `handle_request`, `serve_tcp`, `serve_udp`, `reject` and
-- `handle_stream`. What the loop over the candidates, the sources of sockets and `resolve` share with
-- the agent in the VM is in Session/Dial/Defs.antt.
use vpn_bridge.Io.{Result, err, ok, timed_out}
use vpn_bridge.Io.Reader.{Reader}
use vpn_bridge.Io.Text.{text}
use vpn_bridge.Net.{IpAddr, SocketAddr, ip_of}
use vpn_bridge.Prelude.{
  Bool, List, Option, [], false, if◌then◌else◌, keep, none, some, true, ℕ, ◌++◌, ◌∷◌,
}
use vpn_bridge.Proto.{
  Address, Cmd, Request, Status, auth_failed, bind_udp, connect_tcp, domain, forbidden, ip,
  read_request, response_err, response_ok, server_error, unreachable,
}
use vpn_bridge.Server.Config.{ServerConfig, permits, token_matches}
use vpn_bridge.Session.{
  Event, Network, Trace, handled, looked_up, respond, shutdown_stream, tcp_relayed, udp_bound,
  udp_connected, udp_relayed, ◌>>◌,
}
use vpn_bridge.Session.Dial.{dial_candidates, udp_source}

module _ (net : Network) where
  unfoldable pub reject : Status → List ℕ → Trace (Unit {0})
  reject status message = do respond net (response_err status message); shutdown_stream net

  abbrev pub relay_tcp : SocketAddr → Trace (Unit {0})
  relay_tcp a = (tcp_relayed a ∷ [], net.relay a)

  abbrev pub relay_udp : SocketAddr → Trace (Unit {0})
  relay_udp a = (udp_relayed a ∷ [], net.relay a)

  -- The end of `serve_tcp`, with the candidate reached and the last error.
  unfoldable pub serve_upstream : Option SocketAddr → Option (List ℕ) → Trace (Unit {0})
  unfolding reject
  serve_upstream (some a) last = do respond net response_ok; relay_tcp a
  serve_upstream none (some message) = reject unreachable message
  serve_upstream none none = reject unreachable (text "connect failed")

  unfoldable pub serve_tcp : Option IpAddr → List SocketAddr → Trace (Unit {0})
  unfolding dial_candidates serve_upstream
  serve_tcp bind_ip candidates =
      let d = dial_candidates net bind_ip candidates none in
      let rest = serve_upstream d.1 d.2 in (d.0 ++ rest.0, rest.1)

  unfoldable pub serve_connected : SocketAddr → Result (Unit {0}) → Trace (Unit {0})
  unfolding reject
  serve_connected a (ok _) = do respond net response_ok; relay_udp a
  serve_connected a (err e) = reject unreachable (text "connect failed: " ++ e.message)

  unfoldable pub serve_bound : SocketAddr → Result (Unit {0}) → Trace (Unit {0})
  unfolding reject serve_connected
  serve_bound a (ok _) = handled (udp_connected a ∷ [], net.connect_udp a) (serve_connected a)
  serve_bound a (err e) = reject server_error (text "bind failed: " ++ e.message)

  unfoldable pub serve_udp : Option IpAddr → SocketAddr → Trace (Unit {0})
  unfolding udp_source serve_bound
  serve_udp bind_ip a =
      let bind = udp_source bind_ip a in
      handled (udp_bound bind ∷ [], net.bind_udp bind) (serve_bound a)

  -- `timeout(dns_timeout, resolve(..))`; `none` means that the time ran out. An address is there at
  -- once.
  unfoldable pub resolve_in_time : Address → List Event × Option (Result (List SocketAddr))
  resolve_in_time (ip sa) = ([], some (ok (sa ∷ [])))
  resolve_in_time (domain host port) = (
    looked_up host port ∷ [],
    if net.lookup_in_time host port then some (net.lookup_host host port) else none,
  )

  module _ {IpNet : Type 0} (contains : IpNet → IpAddr → Bool) (cfg : ServerConfig IpNet) where
    unfoldable pub allowed_of : List SocketAddr → List SocketAddr
    unfolding permits
    allowed_of candidates = keep (λ sa. permits contains cfg (ip_of sa)) candidates

    unfoldable pub serve_allowed : Cmd → List SocketAddr → Trace (Unit {0})
    unfolding reject serve_tcp serve_udp
    serve_allowed cmd [] = reject forbidden (text "destination not allowed")
    serve_allowed connect_tcp (a ∷ more) = serve_tcp cfg.bind_ip (a ∷ more)
    serve_allowed bind_udp (a ∷ more) = serve_udp cfg.bind_ip a

    unfoldable pub serve_resolved : Cmd → Option (Result (List SocketAddr)) → Trace (Unit {0})
    unfolding reject serve_allowed allowed_of
    serve_resolved cmd none = reject unreachable (text "resolve timed out")
    serve_resolved cmd (some (err e)) = reject unreachable (text "resolve failed: " ++ e.message)
    serve_resolved cmd (some (ok [])) = reject unreachable (text "name resolved to nothing")
    serve_resolved cmd (some (ok (a ∷ more))) = serve_allowed cmd (allowed_of (a ∷ more))

    -- The request with a good token.
    unfoldable pub serve_request : Request → Trace (Unit {0})
    unfolding resolve_in_time serve_resolved
    serve_request req =
        let found = resolve_in_time req.target in
        let rest = serve_resolved req.cmd found.1 in (found.0 ++ rest.0, rest.1)

    unfoldable pub handle_checked : Bool → Request → Trace (Unit {0})
    unfolding reject serve_request
    handle_checked true req = serve_request req
    handle_checked false req = reject auth_failed (text "invalid token")

    unfoldable pub handle_request : Request → Trace (Unit {0})
    unfolding token_matches handle_checked
    handle_request req = handle_checked (token_matches cfg.token req.token) req

    module _ (R : Reader) where
      unfoldable pub handle_read : Result (Request × R.State) → Trace (Unit {0})
      unfolding handle_request
      handle_read (ok (req, rest)) = handle_request req
      handle_read (err e) = ([], err e)

      -- The request is read from the stream within `REQUEST_TIMEOUT`, or not.
      unfoldable pub handle_stream : (in_time : Bool) → R.State → Trace (Unit {0})
      unfolding handle_read
      handle_stream true stream = handle_read (read_request R stream)
      handle_stream false stream =
          ([], err (record { kind = timed_out; message = text "request timed out" }))
