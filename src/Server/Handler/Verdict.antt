-- ===== src/Server/Handler/Verdict.antt =====
-- The answer that a client of the proxy server gets: the server makes the decision of
-- Session/Verdict.antt, and sends exactly that.
use vpn_bridge.Io.{Result, err, ok}
use vpn_bridge.Io.Text.{text}
use vpn_bridge.Net.{IpAddr, SocketAddr, ip_of}
use vpn_bridge.Prelude.{
  All, Bool, List, Option, [], false, if◌then◌else◌, keep, length, none, refl, same_bytes, some,
  subst, true, ℕ, ◌++◌, ◌<◌, ◌∷◌,
}
use vpn_bridge.Proto.{
  Address, Cmd, Request, Status, auth_failed, bind_udp, connect_tcp, domain, forbidden, ip,
  server_error, unreachable,
}
use vpn_bridge.Server.Config.{ServerConfig, permits, token_matches, token_matches-same}
use vpn_bridge.Server.Handler.Defs.{
  allowed_of, handle_checked, handle_request, reject, relay_tcp, relay_udp, resolve_in_time,
  serve_allowed, serve_bound, serve_connected, serve_request, serve_resolved, serve_tcp, serve_udp,
  serve_upstream,
}
use vpn_bridge.Session.{IsQuiet, Network, dialled, is_ok, shutdown_stream, udp_bound, udp_connected}
use vpn_bridge.Session.Dial.{
  dial_candidates, dial_candidates-Only, dial_candidates-first, source_for, udp_source,
}
use vpn_bridge.Session.Verdict.{
  Answers, Answers-behind, Answers-respond, Verdict, decide_allowed, decide_resolved, decide_tcp,
  decide_udp, reached_verdict, refused, to_tcp, to_udp,
}

module _ (net : Network) where
  rejects :
      (code : Status) (message : List ℕ) → Answers net (refused code) (reject net code message)
  unfolding reject
  rejects code message = Answers-respond net (refused code) message (shutdown_stream net) refl refl

  -- Dialling sends nothing.
  dials-IsQuiet :
      (bind_ip : Option IpAddr) (candidates : List SocketAddr)
      → All (λ a. IsQuiet (dialled (source_for bind_ip (ip_of a)) a)) candidates
  dials-IsQuiet bind_ip [] = tt
  dials-IsQuiet bind_ip (a ∷ rest) = (tt, dials-IsQuiet bind_ip rest)

  upstream_Answers :
      (found : Option SocketAddr) (last : Option (List ℕ))
      → Answers net (reached_verdict found) (serve_upstream net found last)
  unfolding serve_upstream
  upstream_Answers (some a) last = Answers-respond net (to_tcp a) [] (relay_tcp net a) refl refl
  upstream_Answers none (some message) = rejects unreachable message
  upstream_Answers none none = rejects unreachable (text "connect failed")

  -- A TCP flow is relayed to the first candidate that answers.
  serve_tcp-Answers :
      (bind_ip : Option IpAddr) (allowed : List SocketAddr)
      → Answers net (decide_tcp net bind_ip allowed) (serve_tcp net bind_ip allowed)
  unfolding serve_tcp dial_candidates
  serve_tcp-Answers bind_ip allowed =
      let d = dial_candidates net bind_ip allowed none in
      subst (λ found. Answers net (reached_verdict found) (serve_tcp net bind_ip allowed))
        (dial_candidates-first net bind_ip allowed none)
        (Answers-behind net (reached_verdict d.1) d.0 (serve_upstream net d.1 d.2)
          (dial_candidates-Only net bind_ip IsQuiet allowed none (dials-IsQuiet bind_ip allowed))
          (upstream_Answers d.1 d.2))

  connected_Answers :
      (a : SocketAddr) (r : Result (Unit {0}))
      → Answers net (if is_ok r then to_udp a else refused unreachable) (serve_connected net a r)
  unfolding serve_connected
  connected_Answers a (ok _) = Answers-respond net (to_udp a) [] (relay_udp net a) refl refl
  connected_Answers a (err e) = rejects unreachable (text "connect failed: " ++ e.message)

  bound_Answers :
      (a : SocketAddr) (r : Result (Unit {0}))
      → Answers net
          (if is_ok r
            then (if is_ok (net.connect_udp a) then to_udp a else refused unreachable)
            else refused server_error)
          (serve_bound net a r)
  unfolding serve_bound
  bound_Answers a (ok _) =
      Answers-behind net (if is_ok (net.connect_udp a) then to_udp a else refused unreachable)
        (udp_connected a ∷ []) (serve_connected net a (net.connect_udp a)) (tt, tt)
        (connected_Answers a (net.connect_udp a))
  bound_Answers a (err e) = rejects server_error (text "bind failed: " ++ e.message)

  -- A UDP flow is relayed to its candidate, where a socket can be bound and connected.
  serve_udp-Answers :
      (bind_ip : Option IpAddr) (a : SocketAddr)
      → Answers net (decide_udp net bind_ip a) (serve_udp net bind_ip a)
  unfolding serve_udp udp_source
  serve_udp-Answers bind_ip a =
      Answers-behind net (decide_udp net bind_ip a) (udp_bound (udp_source bind_ip a) ∷ [])
        (serve_bound net a (net.bind_udp (udp_source bind_ip a))) (tt, tt)
        (bound_Answers a (net.bind_udp (udp_source bind_ip a)))

  resolve-IsQuiet : (target : Address) → All IsQuiet (resolve_in_time net target).0
  unfolding resolve_in_time
  resolve-IsQuiet (ip sa) = tt
  resolve-IsQuiet (domain host port) = (tt, tt)

module _ {IpNet : Type 0} (net : Network) (contains : IpNet → IpAddr → Bool)
    (cfg : ServerConfig IpNet) where
  abbrev pub permitted : SocketAddr → Bool
  permitted sa = permits contains cfg (ip_of sa)

  allowed_Answers :
      (cmd : Cmd) (allowed : List SocketAddr)
      → Answers net
          (decide_allowed net cfg.bind_ip cmd allowed)
          (serve_allowed net contains cfg cmd allowed)
  unfolding serve_allowed
  allowed_Answers connect_tcp [] = rejects net forbidden (text "destination not allowed")
  allowed_Answers bind_udp [] = rejects net forbidden (text "destination not allowed")
  allowed_Answers connect_tcp (a ∷ more) = serve_tcp-Answers net cfg.bind_ip (a ∷ more)
  allowed_Answers bind_udp (a ∷ more) = serve_udp-Answers net cfg.bind_ip a

  -- A name that is not resolved in time is one that is not resolved.
  abbrev pub decide_found : Cmd → Option (Result (List SocketAddr)) → Verdict
  decide_found cmd none = refused unreachable
  decide_found cmd (some r) = decide_resolved net cfg.bind_ip permitted cmd r

  resolved_Answers :
      (cmd : Cmd) (found : Option (Result (List SocketAddr)))
      → Answers net (decide_found cmd found) (serve_resolved net contains cfg cmd found)
  unfolding serve_resolved allowed_of
  resolved_Answers cmd none = rejects net unreachable (text "resolve timed out")
  resolved_Answers cmd (some (err e)) =
      rejects net unreachable (text "resolve failed: " ++ e.message)
  resolved_Answers cmd (some (ok [])) = rejects net unreachable (text "name resolved to nothing")
  resolved_Answers cmd (some (ok (a ∷ more))) = allowed_Answers cmd (keep permitted (a ∷ more))

  -- The decision about a request: its token first, then what its target resolves to.
  abbrev pub decide : Bool → Request → Verdict
  decide true req = decide_found req.cmd (resolve_in_time net req.target).1
  decide false req = refused auth_failed

  checked_Answers :
      (matches : Bool) (req : Request)
      → Answers net (decide matches req) (handle_checked net contains cfg matches req)
  unfolding handle_checked serve_request
  checked_Answers true req =
      Answers-behind net (decide_found req.cmd (resolve_in_time net req.target).1)
        (resolve_in_time net req.target).0
        (serve_resolved net contains cfg req.cmd (resolve_in_time net req.target).1)
        (resolve-IsQuiet net req.target)
        (resolved_Answers req.cmd (resolve_in_time net req.target).1)
  checked_Answers false req = rejects net auth_failed (text "invalid token")

  -- The proxy server makes the decision `decide` about every request: it sends exactly one reply,
  -- with the status of that decision, and relays the flow exactly as decided, if the reply could be
  -- written. Condition: the configured token and the one received have at most 255 bytes.
  pub handle_request-Answers :
      (req : Request)
      → length cfg.token < 256
      → length req.token < 256
      → Answers net
          (decide (same_bytes cfg.token req.token) req)
          (handle_request net contains cfg req)
  unfolding handle_request
  handle_request-Answers req hc hr =
      subst (λ matches. Answers net (decide matches req) (handle_request net contains cfg req))
        (token_matches-same cfg.token req.token hc hr)
        (checked_Answers (token_matches cfg.token req.token) req)
