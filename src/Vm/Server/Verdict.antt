-- ===== src/Vm/Server/Verdict.antt =====
-- The answer that the host gets: the server makes the decision of Session/Verdict.antt, and sends
-- exactly that.
use vpn_bridge.Io.{Result, err, ok}
use vpn_bridge.Io.Text.{text}
use vpn_bridge.Net.{IpAddr, SocketAddr, ip_of}
use vpn_bridge.Prelude.{
  All, Bool, List, Option, [], false, if◌then◌else◌, keep, length, none, refl, same_bytes, some,
  subst, true, ℕ, ◌++◌, ◌<◌, ◌∷◌,
}
use vpn_bridge.Proto.{
  Address, Cmd, Request, auth_failed, bind_udp, connect_tcp, domain, forbidden, ip, server_error,
  unreachable,
}
use vpn_bridge.Session.{IsQuiet, Network, dialled, handled, is_ok, udp_bound, udp_connected}
use vpn_bridge.Session.Dial.{
  dial_candidates, dial_candidates-Only, dial_candidates-first, resolve, source_for, udp_source,
}
use vpn_bridge.Session.Verdict.{
  Answers, Answers-behind, Answers-refused, Answers-respond, Verdict, decide_allowed,
  decide_resolved, decide_tcp, decide_udp, reached_verdict, refused, to_tcp, to_udp,
}
use vpn_bridge.Vm.Config.{VmConfig, permits, token_matches, token_matches-same}
use vpn_bridge.Vm.Server.Defs.{
  allowed_of, handle_request, or_text, reject, relay_udp, serve_allowed, serve_bound,
  serve_connected, serve_resolved, serve_tcp, serve_udp, serve_upstream, splice,
}

-- Dialling sends nothing.
dials-IsQuiet :
    (bind_ip : Option IpAddr) (candidates : List SocketAddr)
    → All (λ a. IsQuiet (dialled (source_for bind_ip (ip_of a)) a)) candidates
dials-IsQuiet bind_ip [] = tt
dials-IsQuiet bind_ip (a ∷ rest) = (tt, dials-IsQuiet bind_ip rest)

module _ (net : Network) (bind_ip : Option IpAddr) where
  upstream_Answers :
      (found : Option SocketAddr) (last : Option (List ℕ))
      → Answers net (reached_verdict found) (serve_upstream net (found, last))
  upstream_Answers (some a) last = Answers-respond net (to_tcp a) [] (splice net a) refl refl
  upstream_Answers none last =
      Answers-refused net unreachable (or_text last (text "connect failed"))

  -- A TCP flow is relayed to the first candidate that answers.
  pub serve_tcp-Answers :
      (allowed : List SocketAddr)
      → Answers net (decide_tcp net bind_ip allowed) (serve_tcp net bind_ip allowed)
  unfolding serve_tcp dial_candidates
  serve_tcp-Answers allowed =
      let d = dial_candidates net bind_ip allowed none in
      subst (λ found. Answers net (reached_verdict found) (serve_tcp net bind_ip allowed))
        (dial_candidates-first net bind_ip allowed none)
        (Answers-behind net (reached_verdict d.1) d.0 (serve_upstream net (d.1, d.2))
          (dial_candidates-Only net bind_ip IsQuiet allowed none (dials-IsQuiet bind_ip allowed))
          (upstream_Answers d.1 d.2))

  connected_Answers :
      (a : SocketAddr) (r : Result (Unit {0}))
      → Answers net (if is_ok r then to_udp a else refused unreachable) (serve_connected net a r)
  connected_Answers a (ok _) = Answers-respond net (to_udp a) [] (relay_udp net a) refl refl
  connected_Answers a (err e) =
      Answers-refused net unreachable (text "connect failed: " ++ e.message)

  bound_Answers :
      (a : SocketAddr) (r : Result (Unit {0}))
      → Answers net
          (if is_ok r
            then (if is_ok (net.connect_udp a) then to_udp a else refused unreachable)
            else refused server_error)
          (serve_bound net a r)
  bound_Answers a (ok _) =
      Answers-behind net (if is_ok (net.connect_udp a) then to_udp a else refused unreachable)
        (udp_connected a ∷ []) (serve_connected net a (net.connect_udp a)) (tt, tt)
        (connected_Answers a (net.connect_udp a))
  bound_Answers a (err e) = Answers-refused net server_error (text "bind failed: " ++ e.message)

  -- A UDP flow is relayed to its candidate, where a socket can be bound and connected.
  pub serve_udp-Answers :
      (a : SocketAddr) → Answers net (decide_udp net bind_ip a) (serve_udp net bind_ip a)
  unfolding serve_udp udp_source
  serve_udp-Answers a =
      Answers-behind net (decide_udp net bind_ip a) (udp_bound (udp_source bind_ip a) ∷ [])
        (serve_bound net a (net.bind_udp (udp_source bind_ip a))) (tt, tt)
        (bound_Answers a (net.bind_udp (udp_source bind_ip a)))

module _ {IpNet : Type 0} (net : Network) (contains : IpNet → IpAddr → Bool)
    (cfg : VmConfig IpNet) where
  abbrev pub permitted : SocketAddr → Bool
  permitted sa = permits contains cfg (ip_of sa)

  allowed_Answers :
      (cmd : Cmd) (allowed : List SocketAddr)
      → Answers net
          (decide_allowed net cfg.bind_ip cmd allowed)
          (serve_allowed net contains cfg cmd allowed)
  allowed_Answers connect_tcp [] = Answers-refused net forbidden (text "destination not allowed")
  allowed_Answers bind_udp [] = Answers-refused net forbidden (text "destination not allowed")
  allowed_Answers connect_tcp (a ∷ more) = serve_tcp-Answers net cfg.bind_ip (a ∷ more)
  allowed_Answers bind_udp (a ∷ more) = serve_udp-Answers net cfg.bind_ip a

  resolved_Answers :
      (cmd : Cmd) (r : Result (List SocketAddr))
      → Answers net
          (decide_resolved net cfg.bind_ip permitted cmd r)
          (serve_resolved net contains cfg cmd r)
  unfolding allowed_of
  resolved_Answers cmd (err e) =
      Answers-refused net unreachable (text "resolve failed: " ++ e.message)
  resolved_Answers cmd (ok []) = Answers-refused net unreachable (text "name resolved to nothing")
  resolved_Answers cmd (ok (a ∷ more)) = allowed_Answers cmd (keep permitted (a ∷ more))

  resolve-IsQuiet : (target : Address) → All IsQuiet (resolve net target).0
  unfolding resolve
  resolve-IsQuiet (ip sa) = tt
  resolve-IsQuiet (domain host port) = (tt, tt)

  -- The decision about a request: its token first, then what its target resolves to.
  abbrev pub decide : Request → Verdict
  decide req =
      if same_bytes cfg.token req.token
      then decide_resolved net cfg.bind_ip permitted req.cmd (resolve net req.target).1
      else refused auth_failed

  served_Answers :
      (req : Request)
      → Answers net
          (decide_resolved net cfg.bind_ip permitted req.cmd (resolve net req.target).1)
          (handled (resolve net req.target) (serve_resolved net contains cfg req.cmd))
  served_Answers req =
      Answers-behind net
        (decide_resolved net cfg.bind_ip permitted req.cmd (resolve net req.target).1)
        (resolve net req.target).0
        (serve_resolved net contains cfg req.cmd (resolve net req.target).1)
        (resolve-IsQuiet req.target) (resolved_Answers req.cmd (resolve net req.target).1)

  checked_Answers :
      (matches : Bool) (req : Request)
      → Answers net
          (if matches
            then decide_resolved net cfg.bind_ip permitted req.cmd (resolve net req.target).1
            else refused auth_failed)
          (if matches
            then handled (resolve net req.target) (serve_resolved net contains cfg req.cmd)
            else reject net auth_failed (text "bad token"))
  checked_Answers true req = served_Answers req
  checked_Answers false req = Answers-refused net auth_failed (text "bad token")

  -- The agent makes the decision `decide` about every request: it sends exactly one reply, with the
  -- status of that decision, and relays the flow exactly as decided, if the reply could be written.
  -- Condition: the configured token and the one received have at most 255 bytes.
  pub handle_request-decides :
      (req : Request)
      → length cfg.token < 256
      → length req.token < 256
      → Answers net (decide req) (handle_request net contains cfg req)
  unfolding handle_request
  handle_request-decides req hc hr =
      subst
        (λ matches.
          Answers net
            (if matches
              then decide_resolved net cfg.bind_ip permitted req.cmd (resolve net req.target).1
              else refused auth_failed)
            (handle_request net contains cfg req))
        (token_matches-same cfg.token req.token hc hr)
        (checked_Answers (token_matches cfg.token req.token) req)
