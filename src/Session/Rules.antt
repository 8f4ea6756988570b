-- ===== src/Session/Rules.antt =====
-- A property of all events of a session, shown for its parts; and the replies among the events.
use vpn_bridge.Prelude.{ℕ, ◌≡◌, refl, ap, List, [], ◌∷◌, ◌++◌, All, All-append}
use vpn_bridge.Io.{Result, ok, err}
use vpn_bridge.Session.Defs.{Event, sent, tcp_relayed, udp_relayed, Trace, continue, ◌>>=◌, handled}

module _ (P : Event → Type 0) where
  abbrev pub Only : {A : Type 0} → Trace A → Type 0
  Only m = All P m.0

  Only-continue :
      {A B : Type 0} (r : Result A) (f : A → Trace B) → ((a : A) → Only (f a)) → Only (continue r f)
  Only-continue (ok a) f h = h a
  Only-continue (err e) f h = tt

  pub Only-bind :
      {A B : Type 0} (m : Trace A) (f : A → Trace B)
      → Only m
      → ((a : A) → Only (f a))
      → Only (m >>= f)
  Only-bind m f hm hf = All-append P m.0 (continue m.1 f).0 hm (Only-continue m.1 f hf)

  pub Only-handled :
      {A B : Type 0} (m : Trace A) (k : Result A → Trace B)
      → Only m
      → ((r : Result A) → Only (k r))
      → Only (handled m k)
  Only-handled m k hm hk = All-append P m.0 (k m.1).0 hm (hk m.1)

-- The bytes that the peer is sent, write by write.
abbrev pub replies : List Event → List (List ℕ)
replies [] = []
replies (sent bytes ∷ events) = bytes ∷ replies events
replies (_ ∷ events) = replies events

pub replies-append : (xs ys : List Event) → replies (xs ++ ys) ≡ replies xs ++ replies ys
replies-append [] ys = refl
replies-append (sent bytes ∷ xs) ys = ap (λ l. bytes ∷ l) (replies-append xs ys)
replies-append (_ ∷ xs) ys = replies-append xs ys

-- The destinations that a flow's bytes were relayed to.
abbrev pub relays : List Event → List Event
relays [] = []
relays (tcp_relayed a ∷ events) = tcp_relayed a ∷ relays events
relays (udp_relayed a ∷ events) = udp_relayed a ∷ relays events
relays (_ ∷ events) = relays events

pub relays-append : (xs ys : List Event) → relays (xs ++ ys) ≡ relays xs ++ relays ys
relays-append [] ys = refl
relays-append (tcp_relayed a ∷ xs) ys = ap (λ l. tcp_relayed a ∷ l) (relays-append xs ys)
relays-append (udp_relayed a ∷ xs) ys = ap (λ l. udp_relayed a ∷ l) (relays-append xs ys)
relays-append (_ ∷ xs) ys = relays-append xs ys

-- Events by which nothing is sent and no relay begins.
abbrev pub IsQuiet : Event → Type 0
IsQuiet (sent bytes) = ⊥
IsQuiet (tcp_relayed a) = ⊥
IsQuiet (udp_relayed a) = ⊥
IsQuiet _ = Unit {0}

pub replies_quiet : (events : List Event) → All IsQuiet events → replies events ≡ []
replies_quiet [] h = refl
replies_quiet (sent bytes ∷ events) h = absurd h.0
replies_quiet (tcp_relayed a ∷ events) h = absurd h.0
replies_quiet (udp_relayed a ∷ events) h = absurd h.0
replies_quiet (_ ∷ events) h = replies_quiet events h.1

pub relays_quiet : (events : List Event) → All IsQuiet events → relays events ≡ []
relays_quiet [] h = refl
relays_quiet (sent bytes ∷ events) h = absurd h.0
relays_quiet (tcp_relayed a ∷ events) h = absurd h.0
relays_quiet (udp_relayed a ∷ events) h = absurd h.0
relays_quiet (_ ∷ events) h = relays_quiet events h.1
