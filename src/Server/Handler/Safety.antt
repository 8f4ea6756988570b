-- ===== src/Server/Handler/Safety.antt =====
-- Where a stream of the proxy server can reach out to.
use vpn_bridge.Io.{Result, err, ok}
use vpn_bridge.Io.Reader.{Reader}
use vpn_bridge.Io.Text.{text}
use vpn_bridge.Net.{IpAddr, SocketAddr, ip_of}
use vpn_bridge.Prelude.{
  All, All-append, Bool, List, Option, [], false, keep-All, length, none, refl, same_bytes-false,
  some, true, ℕ, ◌++◌, ◌<◌, ◌∙◌, ◌∷◌, ◌≡◌, ◌≢◌,
}
use vpn_bridge.Proto.{
  Address, Cmd, Request, Status, auth_failed, bind_udp, connect_tcp, domain, forbidden, ip,
  read_request, response_err, response_ok, server_error, unreachable,
}
use vpn_bridge.Server.Config.{ServerConfig, token_matches, token_matches-same}
use vpn_bridge.Server.Handler.Defs.{
  allowed_of, handle_checked, handle_read, handle_request, handle_stream, reject, relay_tcp,
  relay_udp, resolve_in_time, serve_allowed, serve_bound, serve_connected, serve_request,
  serve_resolved, serve_tcp, serve_udp, serve_upstream,
}
use vpn_bridge.Server.Handler.Verdict.{permitted}
use vpn_bridge.Session.{
  Event, Network, Only, Only-bind, Only-handled, dialled, respond, shutdown_stream, udp_bound,
  udp_connected,
}
use vpn_bridge.Session.Dial.{dial_candidates, dial_candidates-Only, source_for, udp_source}
use vpn_bridge.Session.Reach.{IsPermitted, OnFound, dial_candidates-OnFound}

module _ (net : Network) (bind_ip : Option IpAddr) (permitted : SocketAddr → Bool) where
  reject-Only :
      (code : Status) (message : List ℕ) → Only (IsPermitted permitted) (reject net code message)
  unfolding reject
  reject-Only code message =
      Only-bind (IsPermitted permitted) (respond net (response_err code message))
        (λ _. shutdown_stream net) (tt, tt) (λ _. (tt, tt))

  upstream-Only :
      (found : Option SocketAddr) (last : Option (List ℕ))
      → OnFound (λ a. permitted a ≡ true) found
      → Only (IsPermitted permitted) (serve_upstream net found last)
  unfolding serve_upstream
  upstream-Only (some a) last h =
      Only-bind (IsPermitted permitted) (respond net response_ok) (λ _. relay_tcp net a) (tt, tt)
        (λ _. (h, tt))
  upstream-Only none (some message) h = reject-Only unreachable message
  upstream-Only none none h = reject-Only unreachable (text "connect failed")

  dialled_permitted :
      (candidates : List SocketAddr)
      → All (λ a. permitted a ≡ true) candidates
      → All (λ a. IsPermitted permitted (dialled (source_for bind_ip (ip_of a)) a)) candidates
  dialled_permitted [] h = tt
  dialled_permitted (a ∷ rest) h = (h.0, dialled_permitted rest h.1)

  serve_tcp-Only :
      (candidates : List SocketAddr)
      → All (λ a. permitted a ≡ true) candidates
      → Only (IsPermitted permitted) (serve_tcp net bind_ip candidates)
  unfolding serve_tcp dial_candidates
  serve_tcp-Only candidates h =
      All-append (IsPermitted permitted) _ _
        (dial_candidates-Only net bind_ip (IsPermitted permitted) candidates none
          (dialled_permitted candidates h))
        (upstream-Only _ _
          (dial_candidates-OnFound (λ a. permitted a ≡ true) net bind_ip candidates none h))

  connected-Only :
      (a : SocketAddr) (r : Result (Unit {0}))
      → permitted a ≡ true
      → Only (IsPermitted permitted) (serve_connected net a r)
  unfolding serve_connected
  connected-Only a (ok _) h =
      Only-bind (IsPermitted permitted) (respond net response_ok) (λ _. relay_udp net a) (tt, tt)
        (λ _. (h, tt))
  connected-Only a (err e) h = reject-Only unreachable (text "connect failed: " ++ e.message)

  bound-Only :
      (a : SocketAddr) (r : Result (Unit {0}))
      → permitted a ≡ true
      → Only (IsPermitted permitted) (serve_bound net a r)
  unfolding serve_bound
  bound-Only a (ok _) h =
      Only-handled (IsPermitted permitted) (udp_connected a ∷ [], net.connect_udp a)
        (serve_connected net a) (h, tt) (λ r. connected-Only a r h)
  bound-Only a (err e) h = reject-Only server_error (text "bind failed: " ++ e.message)

  serve_udp-Only :
      (a : SocketAddr) → permitted a ≡ true → Only (IsPermitted permitted) (serve_udp net bind_ip a)
  unfolding serve_udp udp_source
  serve_udp-Only a h =
      Only-handled (IsPermitted permitted)
        (udp_bound (udp_source bind_ip a) ∷ [], net.bind_udp (udp_source bind_ip a))
        (serve_bound net a) (tt, tt) (λ r. bound-Only a r h)

module _ {IpNet : Type 0} (net : Network) (contains : IpNet → IpAddr → Bool)
    (cfg : ServerConfig IpNet) where
  abbrev pub InPolicy : Event → Type 0
  InPolicy = IsPermitted (permitted net contains cfg)

  refusal-Only : (code : Status) (message : List ℕ) → Only InPolicy (reject net code message)
  refusal-Only = reject-Only net cfg.bind_ip (permitted net contains cfg)

  allowed-Only :
      (cmd : Cmd) (allowed : List SocketAddr)
      → All (λ a. permitted net contains cfg a ≡ true) allowed
      → Only InPolicy (serve_allowed net contains cfg cmd allowed)
  unfolding serve_allowed
  allowed-Only connect_tcp [] h = refusal-Only forbidden (text "destination not allowed")
  allowed-Only bind_udp [] h = refusal-Only forbidden (text "destination not allowed")
  allowed-Only connect_tcp (a ∷ more) h =
      serve_tcp-Only net cfg.bind_ip (permitted net contains cfg) (a ∷ more) h
  allowed-Only bind_udp (a ∷ more) h =
      serve_udp-Only net cfg.bind_ip (permitted net contains cfg) a h.0

  resolved-Only :
      (cmd : Cmd) (found : Option (Result (List SocketAddr)))
      → Only InPolicy (serve_resolved net contains cfg cmd found)
  unfolding serve_resolved allowed_of
  resolved-Only cmd none = refusal-Only unreachable (text "resolve timed out")
  resolved-Only cmd (some (err e)) = refusal-Only unreachable (text "resolve failed: " ++ e.message)
  resolved-Only cmd (some (ok [])) = refusal-Only unreachable (text "name resolved to nothing")
  resolved-Only cmd (some (ok (a ∷ more))) =
      allowed-Only cmd _ (keep-All (permitted net contains cfg) (a ∷ more))

  found-Only : (target : Address) → All InPolicy (resolve_in_time net target).0
  unfolding resolve_in_time
  found-Only (ip sa) = tt
  found-Only (domain host port) = (tt, tt)

  checked-Only :
      (matches : Bool) (req : Request) → Only InPolicy (handle_checked net contains cfg matches req)
  unfolding handle_checked serve_request
  checked-Only true req = All-append InPolicy _ _ (found-Only req.target) (resolved-Only req.cmd _)
  checked-Only false req = refusal-Only auth_failed (text "invalid token")

  pub request-Only : (req : Request) → Only InPolicy (handle_request net contains cfg req)
  unfolding handle_request
  request-Only req = checked-Only (token_matches cfg.token req.token) req

  module _ (R : Reader) where
    read-Only : (r : Result (Request × R.State)) → Only InPolicy (handle_read net contains cfg R r)
    unfolding handle_read
    read-Only (ok (req, rest)) = request-Only req
    read-Only (err e) = tt

    -- Whatever a client sends, and whatever the resolver and the network answer: the proxy server
    -- dials, connects and relays to no address but those that its configuration permits.
    pub handle_stream-permitted :
        (in_time : Bool) (stream : R.State)
        → Only InPolicy (handle_stream net contains cfg R in_time stream)
    unfolding handle_stream
    handle_stream-permitted true stream = read-Only (read_request R stream)
    handle_stream-permitted false stream = tt

  unauthorized_only :
      (matches : Bool) (req : Request)
      → matches ≡ false
      → handle_checked net contains cfg matches req ≡ reject net auth_failed (text "invalid token")
  unfolding handle_checked
  unauthorized_only false req h = refl
  unauthorized_only true req h = cc

  -- A request with a wrong token is refused with `AuthFailed` and nothing else happens: no name is
  -- looked up and no socket is opened. Condition: both tokens have at most 255 bytes.
  handle_request-unauthorized :
      (req : Request)
      → length cfg.token < 256
      → length req.token < 256
      → cfg.token ≢ req.token
      → handle_request net contains cfg req ≡ reject net auth_failed (text "invalid token")
  unfolding handle_request
  handle_request-unauthorized req hc hr wrong =
      unauthorized_only (token_matches cfg.token req.token) req
        (token_matches-same cfg.token req.token hc hr ∙ same_bytes-false cfg.token req.token wrong)
