-- ===== src/Session/Dial/Laws.antt =====
-- Candidates are dialled in order, up to the first that answers; nothing else is dialled.
use vpn_bridge.Prelude.{
  ◌≡◌, refl, ap, ◌∙◌, Bool, false, ◌&&◌, Option, none, some, List, [], ◌∷◌, All, All-append, ℕ,
  if◌then◌else◌,
}
use vpn_bridge.Net.{IpAddr, SocketAddr, ip_of, is_ipv4}
use vpn_bridge.Io.{Result, ok, err}
use vpn_bridge.Session.Defs.{Event, dialled, Network, is_ok}
use vpn_bridge.Session.Dial.Defs.{
  source_for, bind_source, dial_bound, dial_opened, dial_tcp, Dialling, next_candidate,
  dial_candidates,
}

module _ (net : Network) (bind_ip : Option IpAddr) where
  abbrev pub in_time : Option (Result (Unit {0})) → Bool
  in_time none = false
  in_time (some r) = is_ok r

  -- Whether the candidate can be connected to: a socket of its family can be opened and bound to the
  -- source address, and the connect succeeds in time.
  unfoldable pub answers : SocketAddr → Bool
  answers a =
      is_ok (net.new_socket (is_ipv4 (ip_of a)))
      && (is_ok (bind_source net (source_for bind_ip (ip_of a))) && in_time (net.connect a))

  unfoldable pub first_answering : List SocketAddr → Option SocketAddr
  first_answering [] = none
  first_answering (a ∷ rest) =
      let later = first_answering rest in if answers a then some a else later

  bound_in_time :
      (source : Option IpAddr) (a : SocketAddr) (r : Result (Unit {0}))
      → in_time (dial_bound net source a r).1 ≡ (is_ok r && in_time (net.connect a))
  bound_in_time source a (ok _) = refl
  bound_in_time source a (err e) = refl

  opened_in_time :
      (source : Option IpAddr) (a : SocketAddr) (r : Result (Unit {0}))
      → in_time (dial_opened net source a r).1
        ≡ (is_ok r && (is_ok (bind_source net source) && in_time (net.connect a)))
  opened_in_time source a (ok _) = bound_in_time source a (bind_source net source)
  opened_in_time source a (err e) = refl

  -- A dial succeeds exactly where the candidate answers.
  dial_tcp-answers : (a : SocketAddr) → in_time (dial_tcp net bind_ip a).1 ≡ answers a
  unfolding dial_tcp answers
  dial_tcp-answers a = opened_in_time (source_for bind_ip (ip_of a)) a _

  next_candidate_reached :
      (events : List Event) (a : SocketAddr) (last : Option (List ℕ))
      (rest : Option (List ℕ) → Dialling net) (found : Option SocketAddr)
      (answer : Option (Result (Unit {0})))
      → ((l : Option (List ℕ)) → (rest l).1 ≡ found)
      → (next_candidate net events a last rest answer).1
        ≡ (if in_time answer then some a else found)
  next_candidate_reached events a last rest found (some (ok _)) h = refl
  next_candidate_reached events a last rest found (some (err e)) h = h _
  next_candidate_reached events a last rest found none h = h _

  -- The loop over the candidates reaches the first one that answers, and none if there is none; to
  -- answer, a socket of its family must be opened and bound, and the connect succeed in time.
  pub dial_candidates-first :
      (candidates : List SocketAddr) (last : Option (List ℕ))
      → (dial_candidates net bind_ip candidates last).1 ≡ first_answering candidates
  unfolding dial_candidates first_answering
  dial_candidates-first [] last = refl
  dial_candidates-first (a ∷ rest) last =
      next_candidate_reached (dial_tcp net bind_ip a).0 a last (dial_candidates net bind_ip rest)
        (first_answering rest) (dial_tcp net bind_ip a).1 (dial_candidates-first rest)
      ∙ ap (λ b. if b then some a else first_answering rest) (dial_tcp-answers a)

  -- What a dial does is to dial the candidate.
  dial_tcp-Only :
      (P : Event → Type 0) (a : SocketAddr)
      → P (dialled (source_for bind_ip (ip_of a)) a)
      → All P (dial_tcp net bind_ip a).0
  unfolding dial_tcp
  dial_tcp-Only P a h = opened (net.new_socket (is_ipv4 (ip_of a)))
    where
      source : Option IpAddr
      source = source_for bind_ip (ip_of a)

      bound : (r : Result (Unit {0})) → All P (dial_bound net source a r).0
      bound (ok _) = (h, tt)
      bound (err e) = tt

      opened : (r : Result (Unit {0})) → All P (dial_opened net source a r).0
      opened (ok _) = bound (bind_source net source)
      opened (err e) = tt

  next_candidate-Only :
      (P : Event → Type 0) (events : List Event) (a : SocketAddr) (last : Option (List ℕ))
      (rest : Option (List ℕ) → Dialling net) (answer : Option (Result (Unit {0})))
      → All P events
      → ((l : Option (List ℕ)) → All P (rest l).0)
      → All P (next_candidate net events a last rest answer).0
  next_candidate-Only P events a last rest (some (ok _)) h k = h
  next_candidate-Only P events a last rest (some (err e)) h k = All-append P events _ h (k _)
  next_candidate-Only P events a last rest none h k = All-append P events _ h (k _)

  -- What the loop does is to dial candidates.
  pub dial_candidates-Only :
      (P : Event → Type 0) (candidates : List SocketAddr) (last : Option (List ℕ))
      → All (λ a. P (dialled (source_for bind_ip (ip_of a)) a)) candidates
      → All P (dial_candidates net bind_ip candidates last).0
  unfolding dial_candidates
  dial_candidates-Only P [] last h = tt
  dial_candidates-Only P (a ∷ rest) last h =
      next_candidate-Only P _ a last (dial_candidates net bind_ip rest) _ (dial_tcp-Only P a h.0)
        (λ l. dial_candidates-Only P rest l h.1)
