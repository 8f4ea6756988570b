-- ===== src/Session/Own.antt =====
-- What a server decides about a request for an address: it relays the flow to that address, if at all.
use vpn_bridge.Io.{ok}
use vpn_bridge.Net.{IpAddr, SocketAddr}
use vpn_bridge.Prelude.{
  All, Bool, Option, [], false, if◌then◌else◌, none, refl, some, subst, sym, true, ◌∷◌, ◌≡◌,
}
use vpn_bridge.Proto.{Cmd, bind_udp, connect_tcp, server_error, unreachable}
use vpn_bridge.Session.Defs.{Event, Network, Trace, is_ok, tcp_relayed, udp_relayed}
use vpn_bridge.Session.Dial.{answers, first_answering, udp_source}
use vpn_bridge.Session.Rules.{relays}
use vpn_bridge.Session.Verdict.{
  Answers, Verdict, decide_allowed, decide_resolved, decide_tcp, decide_udp, reached_verdict,
  refused, to_udp, verdict_relay,
}

abbrev pub relayed_by : Cmd → SocketAddr → Event
relayed_by connect_tcp a = tcp_relayed a
relayed_by bind_udp a = udp_relayed a

module _ (net : Network) (bind_ip : Option IpAddr) (permitted : SocketAddr → Bool) where
  abbrev OwnVerdict : Cmd → SocketAddr → Verdict → Type 0
  OwnVerdict cmd a v = All (λ e. e ≡ relayed_by cmd a) (verdict_relay v)

  tcp_own : (a : SocketAddr) → OwnVerdict connect_tcp a (decide_tcp net bind_ip (a ∷ []))
  unfolding first_answering
  tcp_own a = by_answer (answers net bind_ip a)
    where
      by_answer :
          (answered : Bool)
          → OwnVerdict connect_tcp a (reached_verdict (if answered then some a else none))
      by_answer true = (refl, tt)
      by_answer false = tt

  udp_own : (a : SocketAddr) → OwnVerdict bind_udp a (decide_udp net bind_ip a)
  udp_own a = by_tests (is_ok (net.bind_udp (udp_source bind_ip a))) (is_ok (net.connect_udp a))
    where
      by_tests :
          (bound joined : Bool)
          → OwnVerdict bind_udp a (
              if bound
              then (if joined then to_udp a else refused unreachable)
              else refused server_error)
      by_tests true true = (refl, tt)
      by_tests true false = tt
      by_tests false joined = tt

  allowed_own :
      (cmd : Cmd) (a : SocketAddr) (allowed : Bool)
      → OwnVerdict cmd a (decide_allowed net bind_ip cmd (if allowed then a ∷ [] else []))
  allowed_own connect_tcp a true = tcp_own a
  allowed_own bind_udp a true = udp_own a
  allowed_own connect_tcp a false = tt
  allowed_own bind_udp a false = tt

  pub decide_resolved-own :
      (cmd : Cmd) (a : SocketAddr)
      → All
          (λ e. e ≡ relayed_by cmd a)
          (verdict_relay (decide_resolved net bind_ip permitted cmd (ok (a ∷ []))))
  decide_resolved-own cmd a = allowed_own cmd a (permitted a)

-- A session that makes such a decision relays to nothing else.
pub Answers-own :
    (net : Network) (v : Verdict) (m : Trace (Unit {0})) (P : Event → Type 0)
    → Answers net v m
    → All P (verdict_relay v)
    → All P (relays m.0)
Answers-own net v m P (message, said, relayed) own =
    subst (All P) (sym relayed) (by_write (is_ok (net.write _)))
  where
    by_write : (wrote : Bool) → All P (if wrote then verdict_relay v else [])
    by_write true = own
    by_write false = tt
