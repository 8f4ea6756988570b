-- ===== src/Server/Endpoint.antt =====
-- crates/proxy-server/src/server.rs: `run` and `serve_connection`, the loops that accept QUIC
-- connections and their streams. Every connection and every stream has a task of its own, so the order
-- of the sessions of different streams is open.
use vpn_bridge.Io.{Error, Result, err, ok}
use vpn_bridge.Io.Reader.{Reader}
use vpn_bridge.Io.Text.{within}
use vpn_bridge.Net.{IpAddr}
use vpn_bridge.Prelude.{All, Bool, List, Option, [], ap, ap₂, map, none, refl, some, ◌∷◌, ◌≡◌}
use vpn_bridge.Server.Config.{ServerConfig}
use vpn_bridge.Server.Handler.Defs.{handle_stream}
use vpn_bridge.Server.Handler.Safety.{InPolicy, handle_stream-permitted}
use vpn_bridge.Session.{Network, Only, Trace}

-- A stream that a connection gave: what is received on it, whether the request comes in time, and what
-- the network answers in its session.
pub record BiStream (R : Reader) : Type 0 where
  pub net : Network
  pub recv : R.State
  pub in_time : Bool

-- What `accept_bi` gives, one after the other; the end of the list is a loop that waits.
abbrev pub Accepts : Reader → Type 0
Accepts R = List (Result (BiStream R))

-- What the endpoint gives: handshakes that fail, and connections. It is closed behind the last one.
abbrev pub Incoming : Reader → Type 0
Incoming R = List (Result (Accepts R))

module _ {IpNet : Type 0} (contains : IpNet → IpAddr → Bool) (R : Reader)
    (cfg : ServerConfig IpNet) where
  -- A stream with the session that is run for it.
  abbrev pub Served : Type 0
  Served = BiStream R × Trace (Unit {0})

  abbrev pub serve_stream : BiStream R → Served
  serve_stream s = (s, handle_stream s.net contains cfg R s.in_time s.recv)

  -- The sessions of a connection, and the error that ends it.
  unfoldable pub serve_connection : Accepts R → List Served × Option Error
  unfolding handle_stream
  serve_connection [] = ([], none)
  serve_connection (ok s ∷ more) =
      let rest = serve_connection more in (serve_stream s ∷ rest.0, rest.1)
  serve_connection (err e ∷ more) = ([], some e)

  -- The sessions of every connection.
  unfoldable pub run : Incoming R → List (List Served)
  unfolding serve_connection
  run [] = []
  run (ok streams ∷ more) = (serve_connection streams).0 ∷ run more
  run (err e ∷ more) = run more

-- The streams of a connection before its first error.
abbrev pub opened_streams : {R : Reader} → Accepts R → List (BiStream R)
opened_streams [] = []
opened_streams (ok s ∷ more) = s ∷ opened_streams more
opened_streams (err e ∷ more) = []

abbrev pub connections : {R : Reader} → Incoming R → List (List (BiStream R))
connections [] = []
connections (ok streams ∷ more) = opened_streams streams ∷ connections more
connections (err e ∷ more) = connections more

module _ {IpNet : Type 0} (contains : IpNet → IpAddr → Bool) (R : Reader)
    (cfg : ServerConfig IpNet) where
  abbrev pub IsWithin : Served contains R cfg → Type 0
  IsWithin (s, m) = Only (InPolicy s.net contains cfg) m

  serve_connection-IsWithin :
      (given : Accepts R)
      → All IsWithin (serve_connection contains R cfg given).0
        × (map (λ p. p.0) (serve_connection contains R cfg given).0 ≡ opened_streams given)
  unfolding serve_connection
  serve_connection-IsWithin [] = (tt, refl)
  serve_connection-IsWithin (ok s ∷ more) =
      let (within, same) = serve_connection-IsWithin more in
      (
        (handle_stream-permitted s.net contains cfg R s.in_time s.recv, within),
        ap (λ l. s ∷ l) same,
      )
  serve_connection-IsWithin (err e ∷ more) = (tt, refl)

  -- Over QUIC, every stream that a connection gives before it fails has exactly one session, whatever
  -- other connections do, and no stream has a session otherwise; and in no session, whatever the client
  -- sends and the resolver and the network answer, the proxy server dials, connects or relays to an
  -- address that its configuration does not permit.
  pub run-IsWithin :
      (given : Incoming R)
      → All (All IsWithin) (run contains R cfg given)
        × (map (λ l. map (λ p. p.0) l) (run contains R cfg given) ≡ connections given)
  unfolding run
  run-IsWithin [] = (tt, refl)
  run-IsWithin (ok streams ∷ more) =
      let (within, same) = serve_connection-IsWithin streams in
      let (rest, others) = run-IsWithin more in ((within, rest), ap₂ (λ l ls. l ∷ ls) same others)
  run-IsWithin (err e ∷ more) = run-IsWithin more
