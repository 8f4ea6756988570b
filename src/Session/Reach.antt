-- ===== src/Session/Reach.antt =====
-- The destinations that a session reaches out to, and the condition that all of them are permitted.
use vpn_bridge.Io.{Result, err, ok}
use vpn_bridge.Net.{IpAddr, SocketAddr}
use vpn_bridge.Prelude.{All, Bool, List, Option, [], none, some, true, ℕ, ◌∷◌, ◌≡◌}
use vpn_bridge.Session.Defs.{Event, Network, dialled, tcp_relayed, udp_connected, udp_relayed}
use vpn_bridge.Session.Dial.{Dialling, dial_candidates, next_candidate}

module _ (permitted : SocketAddr → Bool) where
  -- A destination that the event reaches out to is permitted.
  abbrev pub IsPermitted : Event → Type 0
  IsPermitted (dialled source a) = permitted a ≡ true
  IsPermitted (udp_connected a) = permitted a ≡ true
  IsPermitted (tcp_relayed a) = permitted a ≡ true
  IsPermitted (udp_relayed a) = permitted a ≡ true
  IsPermitted _ = Unit {0}

module _ (P : SocketAddr → Type 0) where
  abbrev pub OnFound : Option SocketAddr → Type 0
  OnFound none = Unit {0}
  OnFound (some a) = P a

  next_candidate-OnFound :
      (net : Network) (events : List Event) (a : SocketAddr) (last : Option (List ℕ))
      (rest : Option (List ℕ) → Dialling net) (answer : Option (Result (Unit {0})))
      → P a
      → ((l : Option (List ℕ)) → OnFound (rest l).1)
      → OnFound (next_candidate net events a last rest answer).1
  next_candidate-OnFound net events a last rest (some (ok _)) h k = h
  next_candidate-OnFound net events a last rest (some (err e)) h k = k _
  next_candidate-OnFound net events a last rest none h k = k _

  -- The candidate reached is one of the candidates.
  pub dial_candidates-OnFound :
      (net : Network) (bind_ip : Option IpAddr) (candidates : List SocketAddr)
      (last : Option (List ℕ))
      → All P candidates
      → OnFound (dial_candidates net bind_ip candidates last).1
  unfolding dial_candidates
  dial_candidates-OnFound net bind_ip [] last h = tt
  dial_candidates-OnFound net bind_ip (a ∷ rest) last h =
      next_candidate-OnFound net _ a last (dial_candidates net bind_ip rest) _ h.0
        (λ l. dial_candidates-OnFound net bind_ip rest l h.1)
