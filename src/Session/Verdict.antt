-- ===== src/Session/Verdict.antt =====
-- What a server decides about a request, apart from how it goes about it: refuse it with a status,
-- or relay the flow to a destination. `Answers v m` says that the code `m` makes the decision `v`.
use vpn_bridge.Io.{Result, err, ok}
use vpn_bridge.Net.{IpAddr, SocketAddr}
use vpn_bridge.Prelude.{
  All, Bool, List, Option, [], ap, false, if◌then◌else◌, keep, none, refl, some, true, ℕ, ◌++◌, ◌∙◌,
  ◌∷◌, ◌≡◌,
}
use vpn_bridge.Proto.{
  Cmd, Status, bind_udp, connect_tcp, forbidden, ok_status, response_bytes, response_err,
  server_error, unreachable,
}
use vpn_bridge.Session.Defs.{
  Event, Network, Trace, continue, is_ok, respond, tcp_relayed, udp_relayed, ◌>>◌,
}
use vpn_bridge.Session.Dial.{first_answering, udp_source}
use vpn_bridge.Session.Rules.{
  IsQuiet, relays, relays-append, relays_quiet, replies, replies-append, replies_quiet,
}

pub data Verdict : Type 0 where
  refused : Status → Verdict
  to_tcp : SocketAddr → Verdict
  to_udp : SocketAddr → Verdict

abbrev pub verdict_status : Verdict → Status
verdict_status (refused code) = code
verdict_status (to_tcp a) = ok_status
verdict_status (to_udp a) = ok_status

-- The relay that a verdict asks for.
abbrev pub verdict_relay : Verdict → List Event
verdict_relay (refused code) = []
verdict_relay (to_tcp a) = tcp_relayed a ∷ []
verdict_relay (to_udp a) = udp_relayed a ∷ []

abbrev pub reached_verdict : Option SocketAddr → Verdict
reached_verdict (some a) = to_tcp a
reached_verdict none = refused unreachable

module _ (net : Network) (bind_ip : Option IpAddr) where
  -- The first candidate that answers.
  abbrev pub decide_tcp : List SocketAddr → Verdict
  decide_tcp allowed = reached_verdict (first_answering net bind_ip allowed)

  -- The first candidate, if a socket can be bound and connected to it.
  abbrev pub decide_udp : SocketAddr → Verdict
  decide_udp a =
      if is_ok (net.bind_udp (udp_source bind_ip a))
      then (if is_ok (net.connect_udp a) then to_udp a else refused unreachable)
      else refused server_error

  abbrev pub decide_allowed : Cmd → List SocketAddr → Verdict
  decide_allowed cmd [] = refused forbidden
  decide_allowed connect_tcp (a ∷ more) = decide_tcp (a ∷ more)
  decide_allowed bind_udp (a ∷ more) = decide_udp a

  -- Of a target that resolves to nothing, or not at all, nothing is reachable.
  abbrev pub decide_resolved : (SocketAddr → Bool) → Cmd → Result (List SocketAddr) → Verdict
  decide_resolved permitted cmd (err e) = refused unreachable
  decide_resolved permitted cmd (ok []) = refused unreachable
  decide_resolved permitted cmd (ok (a ∷ more)) = decide_allowed cmd (keep permitted (a ∷ more))

module _ (net : Network) where
  -- Exactly one reply is sent, with the verdict's status; the flow is relayed exactly as the verdict
  -- says, if the reply could be written.
  abbrev pub Answers : Verdict → Trace (Unit {0}) → Type 0
  Answers v m =
      (message : List ℕ) × (replies m.0
        ≡ response_bytes (response_err (verdict_status v) message) ∷ [])
      × (relays m.0 ≡ (
          if is_ok (net.write (response_bytes (response_err (verdict_status v) message)))
          then verdict_relay v
          else []))

  pub Answers-behind :
      (v : Verdict) (events : List Event) (m : Trace (Unit {0}))
      → All IsQuiet events
      → Answers v m
      → Answers v (events ++ m.0, m.1)
  Answers-behind v events m quiet (message, said, relayed) = (
    message,
    replies-append events m.0 ∙ ap (λ l. l ++ replies m.0) (replies_quiet events quiet) ∙ said,
    relays-append events m.0 ∙ ap (λ l. l ++ relays m.0) (relays_quiet events quiet) ∙ relayed,
  )

  -- Nothing is relayed, whether or not the reply could be written.
  no_relay : (written : Bool) → ◌≡◌ {A = List Event} [] (if written then [] else [])
  no_relay true = refl
  no_relay false = refl

  pub Answers-refused :
      (code : Status) (message : List ℕ)
      → Answers (refused code) (respond net (response_err code message))
  Answers-refused code message = (message, refl, no_relay _)

  after_reply :
      (v : Verdict) (next : Trace (Unit {0})) (r : Result (Unit {0}))
      → replies next.0 ≡ []
      → relays next.0 ≡ verdict_relay v
      → (replies (continue r (λ _. next)).0 ≡ [])
        × (relays (continue r (λ _. next)).0 ≡ (if is_ok r then verdict_relay v else []))
  after_reply v next (ok _) quiet relayed = (quiet, relayed)
  after_reply v next (err e) quiet relayed = (refl, refl)

  -- A reply, and behind it, if it was written, what the verdict asks for.
  pub Answers-respond :
      (v : Verdict) (message : List ℕ) (next : Trace (Unit {0}))
      → replies next.0 ≡ []
      → relays next.0 ≡ verdict_relay v
      → Answers v (respond net (response_err (verdict_status v) message) >> next)
  Answers-respond v message next quiet relayed =
      let rest = after_reply v next (net.write _) quiet relayed in
      (
        message,
        ap (λ l. response_bytes (response_err (verdict_status v) message) ∷ l) rest.0,
        rest.1,
      )
