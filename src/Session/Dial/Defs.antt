-- ===== src/Session/Dial/Defs.antt =====
-- The code for names, sources and connects that both servers hold word for word.
use vpn_bridge.Prelude.{ℕ, Option, none, some, List, [], ◌∷◌, ◌++◌, if◌then◌else◌}
use vpn_bridge.Net.{
  IpAddr, SocketAddr, ip_of, is_ipv4, same_family, socket_addr, unspecified_v4, unspecified_v6,
}
use vpn_bridge.Io.{Result, ok, err}
use vpn_bridge.Io.Text.{text}
use vpn_bridge.Proto.{Address, ip, domain}
use vpn_bridge.Session.Defs.{Event, looked_up, dialled, Network, Trace}

-- The configured source address, if it is of the destination's family.
abbrev pub source_for : Option IpAddr → IpAddr → Option IpAddr
source_for none destination = none
source_for (some bind_ip) destination =
    if same_family bind_ip destination then some bind_ip else none

-- The local address of a UDP socket towards `destination`, at a port that the system picks.
unfoldable pub udp_source : Option IpAddr → SocketAddr → SocketAddr
udp_source bind_ip destination = elim (source_for bind_ip (ip_of destination)) [
  | some bound ↦ socket_addr bound 0
  | none ↦
      if is_ipv4 (ip_of destination)
      then socket_addr unspecified_v4 0
      else socket_addr unspecified_v6 0
]

module _ (net : Network) where
  abbrev pub bind_source : Option IpAddr → Result (Unit {0})
  bind_source none = ok tt
  bind_source (some bound) = net.bind_socket (socket_addr bound 0)

  abbrev pub dial_bound :
      Option IpAddr → SocketAddr → Result (Unit {0}) → List Event × Option (Result (Unit {0}))
  dial_bound source addr (ok _) = (dialled source addr ∷ [], net.connect addr)
  dial_bound source addr (err e) = ([], some (err e))

  abbrev pub dial_opened :
      Option IpAddr → SocketAddr → Result (Unit {0}) → List Event × Option (Result (Unit {0}))
  dial_opened source addr (ok _) = dial_bound source addr (bind_source source)
  dial_opened source addr (err e) = ([], some (err e))

  -- `timeout(dial, dial_tcp(..))`; `none` means that the time ran out.
  unfoldable pub dial_tcp : Option IpAddr → SocketAddr → List Event × Option (Result (Unit {0}))
  dial_tcp bind_ip addr =
      dial_opened (source_for bind_ip (ip_of addr)) addr (net.new_socket (is_ipv4 (ip_of addr)))

  -- The events, the candidate that was reached, and the last error.
  abbrev pub Dialling : Type 0
  Dialling = List Event × Option SocketAddr × Option (List ℕ)

  abbrev pub behind : List Event → Dialling → Dialling
  behind events d = (events ++ d.0, d.1, d.2)

  -- The `match` in the loop: `rest` is the rest of the loop, from the last error on.
  abbrev pub next_candidate :
      List Event
      → SocketAddr
      → Option (List ℕ)
      → (Option (List ℕ) → Dialling)
      → Option (Result (Unit {0}))
      → Dialling
  next_candidate events a last rest (some (ok _)) = (events, some a, last)
  next_candidate events a last rest (some (err e)) = behind events (rest (some e.message))
  next_candidate events a last rest none =
      behind events (rest (some (text "connect to " ++ net.show_addr a ++ text " timed out")))

  -- `for candidate in candidates`: the first one reached ends the loop.
  unfoldable pub dial_candidates : Option IpAddr → List SocketAddr → Option (List ℕ) → Dialling
  unfolding dial_tcp
  dial_candidates bind_ip [] last = ([], none, last)
  dial_candidates bind_ip (a ∷ rest) last =
      let d = dial_tcp bind_ip a in next_candidate d.0 a last (dial_candidates bind_ip rest) d.1

  unfoldable pub resolve : Address → Trace (List SocketAddr)
  resolve (ip sa) = ([], ok (sa ∷ []))
  resolve (domain host port) = (looked_up host port ∷ [], net.lookup_host host port)
