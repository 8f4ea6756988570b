-- ===== src/Vm/Server/Safety.antt =====
-- Where a session of the agent can reach out to.
use vpn_bridge.Io.{Result, err, ok}
use vpn_bridge.Io.Reader.{Reader}
use vpn_bridge.Io.Text.{text}
use vpn_bridge.Net.{IpAddr, SocketAddr, ip_of}
use vpn_bridge.Prelude.{
  All, All-append, Bool, List, Option, [], false, if◌then◌else◌, keep-All, length, none, refl,
  same_bytes-false, some, true, ℕ, ◌<◌, ◌∙◌, ◌∷◌, ◌≡◌, ◌≢◌,
}
use vpn_bridge.Proto.{
  Address, Cmd, Request, auth_failed, bind_udp, connect_tcp, domain, ip, read_request,
  response_bytes, response_err, response_ok,
}
use vpn_bridge.Session.{
  Event, Network, Only, Only-bind, Only-handled, dialled, handled, respond, sent, udp_bound,
  udp_connected,
}
use vpn_bridge.Session.Dial.{dial_candidates, dial_candidates-Only, resolve, source_for, udp_source}
use vpn_bridge.Session.Reach.{IsPermitted, OnFound, dial_candidates-OnFound}
use vpn_bridge.Vm.Config.{VmConfig, token_matches, token_matches-same}
use vpn_bridge.Vm.Server.Defs.{
  allowed_of, handle, handle_read, handle_request, reject, relay_udp, serve_allowed, serve_bound,
  serve_connected, serve_resolved, serve_tcp, serve_udp, serve_upstream, splice,
}
use vpn_bridge.Vm.Server.Verdict.{permitted}

module _ (net : Network) (bind_ip : Option IpAddr) (permitted : SocketAddr → Bool) where
  upstream-Only :
      (found : Option SocketAddr) (last : Option (List ℕ))
      → OnFound (λ a. permitted a ≡ true) found
      → Only (IsPermitted permitted) (serve_upstream net (found, last))
  upstream-Only (some a) last h =
      Only-bind (IsPermitted permitted) (respond net response_ok) (λ _. splice net a) (tt, tt)
        (λ _. (h, tt))
  upstream-Only none last h = (tt, tt)

  dialled_permitted :
      (candidates : List SocketAddr)
      → All (λ a. permitted a ≡ true) candidates
      → All (λ a. IsPermitted permitted (dialled (source_for bind_ip (ip_of a)) a)) candidates
  dialled_permitted [] h = tt
  dialled_permitted (a ∷ rest) h = (h.0, dialled_permitted rest h.1)

  serve_tcp-Only :
      (candidates : List SocketAddr)
      → All (λ a. permitted a ≡ true) candidates
      → Only (IsPermitted permitted) (serve_tcp net bind_ip candidates)
  unfolding serve_tcp dial_candidates
  serve_tcp-Only candidates h =
      All-append (IsPermitted permitted) _ _
        (dial_candidates-Only net bind_ip (IsPermitted permitted) candidates none
          (dialled_permitted candidates h))
        (upstream-Only _ _
          (dial_candidates-OnFound (λ a. permitted a ≡ true) net bind_ip candidates none h))

  connected-Only :
      (a : SocketAddr) (r : Result (Unit {0}))
      → permitted a ≡ true
      → Only (IsPermitted permitted) (serve_connected net a r)
  connected-Only a (ok _) h =
      Only-bind (IsPermitted permitted) (respond net response_ok) (λ _. relay_udp net a) (tt, tt)
        (λ _. (h, tt))
  connected-Only a (err e) h = (tt, tt)

  bound-Only :
      (a : SocketAddr) (r : Result (Unit {0}))
      → permitted a ≡ true
      → Only (IsPermitted permitted) (serve_bound net a r)
  bound-Only a (ok _) h =
      Only-handled (IsPermitted permitted) (udp_connected a ∷ [], net.connect_udp a)
        (serve_connected net a) (h, tt) (λ r. connected-Only a r h)
  bound-Only a (err e) h = (tt, tt)

  serve_udp-Only :
      (a : SocketAddr) → permitted a ≡ true → Only (IsPermitted permitted) (serve_udp net bind_ip a)
  unfolding serve_udp udp_source
  serve_udp-Only a h =
      Only-handled (IsPermitted permitted)
        (udp_bound (udp_source bind_ip a) ∷ [], net.bind_udp (udp_source bind_ip a))
        (serve_bound net a) (tt, tt) (λ r. bound-Only a r h)

module _ {IpNet : Type 0} (net : Network) (contains : IpNet → IpAddr → Bool)
    (cfg : VmConfig IpNet) where
  abbrev pub InPolicy : Event → Type 0
  InPolicy = IsPermitted (permitted net contains cfg)

  allowed-Only :
      (cmd : Cmd) (allowed : List SocketAddr)
      → All (λ a. permitted net contains cfg a ≡ true) allowed
      → Only InPolicy (serve_allowed net contains cfg cmd allowed)
  allowed-Only connect_tcp [] h = (tt, tt)
  allowed-Only bind_udp [] h = (tt, tt)
  allowed-Only connect_tcp (a ∷ more) h =
      serve_tcp-Only net cfg.bind_ip (permitted net contains cfg) (a ∷ more) h
  allowed-Only bind_udp (a ∷ more) h =
      serve_udp-Only net cfg.bind_ip (permitted net contains cfg) a h.0

  resolved-Only :
      (cmd : Cmd) (r : Result (List SocketAddr))
      → Only InPolicy (serve_resolved net contains cfg cmd r)
  unfolding allowed_of
  resolved-Only cmd (err e) = (tt, tt)
  resolved-Only cmd (ok []) = (tt, tt)
  resolved-Only cmd (ok (a ∷ more)) =
      allowed-Only cmd _ (keep-All (permitted net contains cfg) (a ∷ more))

  resolve-Only : (target : Address) → Only InPolicy (resolve net target)
  unfolding resolve
  resolve-Only (ip sa) = tt
  resolve-Only (domain host port) = (tt, tt)

  checked-Only :
      (matches : Bool) (req : Request)
      → Only InPolicy (
          if matches
          then handled (resolve net req.target) (serve_resolved net contains cfg req.cmd)
          else reject net auth_failed (text "bad token"))
  checked-Only true req =
      Only-handled InPolicy (resolve net req.target) (serve_resolved net contains cfg req.cmd)
        (resolve-Only req.target) (resolved-Only req.cmd)
  checked-Only false req = (tt, tt)

  request-Only : (req : Request) → Only InPolicy (handle_request net contains cfg req)
  unfolding handle_request
  request-Only req = checked-Only (token_matches cfg.token req.token) req

  module _ (R : Reader) where
    read-Only : (r : Result (Request × R.State)) → Only InPolicy (handle_read net contains cfg R r)
    read-Only (ok (req, rest)) = request-Only req
    read-Only (err e) = tt

    -- Whatever a host sends, and whatever the resolver and the network answer: the agent dials,
    -- connects and relays to no address but those that the configuration permits.
    pub handle-permitted :
        (in_time : Bool) (stream : R.State)
        → Only InPolicy (handle net contains cfg R in_time stream)
    unfolding handle
    handle-permitted true stream = read-Only (read_request R stream)
    handle-permitted false stream = tt

  checked_wrong :
      (matches : Bool) (req : Request)
      → matches ≡ false
      → (if matches
          then handled (resolve net req.target) (serve_resolved net contains cfg req.cmd)
          else reject net auth_failed (text "bad token")).0
        ≡ sent (response_bytes (response_err auth_failed (text "bad token"))) ∷ []
  checked_wrong false req h = refl
  checked_wrong true req h = cc

  -- A request with a wrong token makes the agent send one reply, `AuthFailed`, and do nothing else:
  -- no name is looked up and no socket is opened. Condition: both tokens have at most 255 bytes.
  handle_request-wrong_token :
      (req : Request)
      → length cfg.token < 256
      → length req.token < 256
      → cfg.token ≢ req.token
      → (handle_request net contains cfg req).0
        ≡ sent (response_bytes (response_err auth_failed (text "bad token"))) ∷ []
  unfolding handle_request
  handle_request-wrong_token req hc hr wrong =
      checked_wrong (token_matches cfg.token req.token) req
        (token_matches-same cfg.token req.token hc hr ∙ same_bytes-false cfg.token req.token wrong)
