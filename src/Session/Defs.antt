-- ===== src/Session/Defs.antt =====
-- Events, the network's answers, and the code of a session as events with a result.
use vpn_bridge.Prelude.{false, true, ℕ, Bool, Option, List, [], ◌∷◌, ◌++◌}
use vpn_bridge.Net.{IpAddr, SocketAddr}
use vpn_bridge.Io.{Result, ok, err}
use vpn_bridge.Proto.{Response, response_bytes}

pub data Event : Type 0 where
  -- Bytes handed to the stream of the agent's peer, and the end of its sending side.
  sent : List ℕ → Event
  shut : Event
  looked_up : (host : List ℕ) (port : ℕ) → Event
  -- A TCP connect from the bound source address, if any.
  dialled : (source : Option IpAddr) → SocketAddr → Event
  udp_bound : SocketAddr → Event
  udp_connected : SocketAddr → Event
  -- From here on the flow's bytes go to and from this destination.
  tcp_relayed : SocketAddr → Event
  udp_relayed : SocketAddr → Event

-- What the operating system and the peers answer in this session; all of it is outside the program.
pub record Network : Type 0 where
  pub lookup_host : List ℕ → ℕ → Result (List SocketAddr)
  -- Whether the resolver answers within the time that the program allows it, if it does.
  pub lookup_in_time : List ℕ → ℕ → Bool
  pub new_socket : (v4 : Bool) → Result (Unit {0})
  pub bind_socket : SocketAddr → Result (Unit {0})
  -- `none`: no answer within the time allowed.
  pub connect : SocketAddr → Option (Result (Unit {0}))
  pub bind_udp : SocketAddr → Result (Unit {0})
  pub connect_udp : SocketAddr → Result (Unit {0})
  pub write : List ℕ → Result (Unit {0})
  pub shutdown : Result (Unit {0})
  -- How the relay of this flow ends.
  pub relay : SocketAddr → Result (Unit {0})
  -- `Display` of an address.
  pub show_addr : SocketAddr → List ℕ

abbrev pub is_ok : Result (Unit {0}) → Bool
is_ok (ok _) = true
is_ok (err e) = false

abbrev pub Trace : Type 0 → Type 0
Trace A = List Event × Result A

abbrev pub done : Trace (Unit {0})
done = ([], ok tt)

-- What follows a `?`.
abbrev pub continue : {A B : Type 0} → Result A → (A → Trace B) → Trace B
continue (ok a) f = f a
continue (err e) f = ([], err e)

infixl 5 ◌>>=◌ ◌>>◌
abbrev pub ◌>>=◌ : {A B : Type 0} → Trace A → (A → Trace B) → Trace B
m >>= f = let rest = continue m.1 f in (m.0 ++ rest.0, rest.1)

abbrev pub ◌>>◌ : {B : Type 0} → Trace (Unit {0}) → Trace B → Trace B
m >> k = m >>= λ _. k

-- A `match` on the result, errors included.
abbrev pub handled : {A B : Type 0} → Trace A → (Result A → Trace B) → Trace B
handled m k = let rest = k m.1 in (m.0 ++ rest.0, rest.1)

module _ (net : Network) where
  -- `Response::write_to`
  abbrev pub respond : Response → Trace (Unit {0})
  respond r = (sent (response_bytes r) ∷ [], net.write (response_bytes r))

  abbrev pub shutdown_stream : Trace (Unit {0})
  shutdown_stream = (shut ∷ [], net.shutdown)
