-- ===== src/Session/Relay.antt =====
-- crates/vm/src/server.rs: `udp_uplink` and `udp_downlink`, the two loops that `relay_udp` runs at
-- once, as steps on the state that they share. The proxy server's version is Server/Relay.antt.
use vpn_bridge.Io.{Result, err, ok}
use vpn_bridge.Prelude.{
  ==_iff, All, Bool, Bool-cases, List, Option, [], ap, append-nil, append_assoc, arith, false,
  if◌then◌else◌, inl, inr, length, none, refl, some, suc, sym, true, ℕ, ◌%◌, ◌++◌, ◌+◌, ◌<◌, ◌==◌,
  ◌^◌, ◌↔◌, ◌∙◌, ◌∷◌, ◌≡◌,
}

-- `activity` is the counter that both loops share, `seen` what the downlink last saw of it. The
-- datagrams that were sent on are whole; of one whose sending fails, the other end has a part at most.
pub record Relay : Type 0 where
  pub activity : ℕ
  pub seen : ℕ
  pub to_socket : List (List ℕ)
  pub to_tunnel : List (List ℕ)
  -- Whether the sending side of the tunnel has been shut down.
  pub tunnel_shut : Bool

-- What happens next: `read_datagram` ends on the tunnel, or `recv` on the socket, with a datagram or an
-- error, and, for a datagram, how sending it on ends; or none arrives at the socket for the idle time.
pub data Step : Type 0 where
  from_tunnel : Result (List ℕ) → Result (Unit {0}) → Step
  from_socket : Result (List ℕ) → Result (Unit {0}) → Step
  idle_passed : Step

-- The state behind a turn, and the result of the session if the turn has ended it.
abbrev pub Turn : Type 0
Turn = Relay × Option (Result (Unit {0}))

-- One turn of `udp_uplink`; the counter is an `AtomicU64`.
unfoldable pub udp_uplink : Relay → Result (List ℕ) → Result (Unit {0}) → Turn
udp_uplink s (ok payload) (ok _) = (
  record s { activity = (s.activity + 1) % 2 ^ 64; to_socket = s.to_socket ++ (payload ∷ []) },
  none,
)
udp_uplink s (ok payload) (err e) = (s, some (err e))
udp_uplink s (err e) sent_on = (s, some (err e))

-- One turn of `udp_downlink`, on what `recv` gives (`some`) or at the end of the idle time; the error of
-- the shutdown is ignored.
unfoldable pub udp_downlink : Relay → Option (Result (List ℕ)) → Result (Unit {0}) → Turn
udp_downlink s (some (ok payload)) (ok _) =
    (record s { to_tunnel = s.to_tunnel ++ (payload ∷ []) }, none)
udp_downlink s (some (ok payload)) (err e) = (s, some (err e))
udp_downlink s (some (err e)) sent_on = (s, some (err e))
udp_downlink s none sent_on =
    if s.activity == s.seen
    then (record s { tunnel_shut = true }, some (ok tt))
    else (record s { seen = s.activity }, none)

unfoldable pub relay_step : Relay → Step → Turn
unfolding udp_uplink udp_downlink
relay_step s (from_tunnel got sent_on) = udp_uplink s got sent_on
relay_step s (from_socket got sent_on) = udp_downlink s (some got) sent_on
relay_step s idle_passed = udp_downlink s none (ok tt)

abbrev pub unless_ended : Turn → Turn → Turn
unless_ended (s, none) rest = rest
unless_ended (s, some r) rest = (s, some r)

-- Any interleaving of the two loops, up to the end of the one that ends first.
unfoldable pub relay_run : Relay → List Step → Turn
unfolding relay_step
relay_run s [] = (s, none)
relay_run s (step ∷ steps) = let now = relay_step s step in unless_ended now (relay_run now.0 steps)

-- The datagrams that a sequence of steps takes from the tunnel and sends on.
abbrev pub uplinked : List Step → List (List ℕ)
uplinked [] = []
uplinked (from_tunnel (ok payload) (ok _) ∷ steps) = payload ∷ uplinked steps
uplinked (_ ∷ steps) = uplinked steps

abbrev pub downlinked : List Step → List (List ℕ)
downlinked [] = []
downlinked (from_socket (ok payload) (ok _) ∷ steps) = payload ∷ downlinked steps
downlinked (_ ∷ steps) = downlinked steps

-- A datagram is sent on.
abbrev pub IsMoving : Step → Type 0
IsMoving (from_tunnel (ok payload) (ok _)) = Unit {0}
IsMoving (from_socket (ok payload) (ok _)) = Unit {0}
IsMoving _ = ⊥

-- The state behind steps in each of which a datagram is sent on.
abbrev pub moved : Relay → List Step → Relay
moved s steps = record {
  activity = (s.activity + length (uplinked steps)) % 2 ^ 64;
  seen = s.seen;
  to_socket = s.to_socket ++ uplinked steps;
  to_tunnel = s.to_tunnel ++ downlinked steps;
  tunnel_shut = s.tunnel_shut;
}

counted : (a n : ℕ) → ((a + 1) % 2 ^ 64 + n) % 2 ^ 64 ≡ (a + suc n) % 2 ^ 64
counted a n = omega arith

Relay-eq :
    {a a' seen : ℕ} {x x' y y' : List (List ℕ)} {shut : Bool}
    → a ≡ a'
    → x ≡ x'
    → y ≡ y'
    → ◌≡◌ {A = Turn}
        (
          record { activity = a; seen = seen; to_socket = x; to_tunnel = y; tunnel_shut = shut },
          none,
        )
        (
          record { activity = a'; seen = seen; to_socket = x'; to_tunnel = y'; tunnel_shut = shut },
          none,
        )
Relay-eq p q r = rw (p, q, r) refl

-- The state behind a datagram from the tunnel, and from the socket.
abbrev after_up : Relay → List ℕ → Relay
after_up s payload = record s {
  activity = (s.activity + 1) % 2 ^ 64;
  to_socket = s.to_socket ++ (payload ∷ []);
}

abbrev after_down : Relay → List ℕ → Relay
after_down s payload = record s { to_tunnel = s.to_tunnel ++ (payload ∷ []) }

-- Every datagram of either side goes to the other, in order, whatever the interleaving, and the
-- counter counts those from the tunnel. Conditions: in each of these steps a datagram is sent on, and
-- the counter is in range.
pub relay_run-moved :
    (s : Relay) (steps : List Step)
    → s.activity < 2 ^ 64
    → All IsMoving steps
    → relay_run s steps ≡ (moved s steps, none)
unfolding relay_run udp_uplink udp_downlink
relay_run-moved s [] range moving =
    Relay-eq (omega arith) (sym (append-nil s.to_socket)) (sym (append-nil s.to_tunnel))
relay_run-moved s (from_tunnel (ok payload) (ok u) ∷ steps) range moving =
    relay_run-moved (after_up s payload) steps (omega arith) moving.1
    ∙ Relay-eq (counted s.activity (length (uplinked steps))) (simp append_assoc) refl
relay_run-moved s (from_tunnel (ok payload) (err e) ∷ steps) range moving = absurd moving.0
relay_run-moved s (from_tunnel (err e) sent_on ∷ steps) range moving = absurd moving.0
relay_run-moved s (from_socket (ok payload) (ok u) ∷ steps) range moving =
    relay_run-moved (after_down s payload) steps range moving.1
    ∙ Relay-eq refl refl (simp append_assoc)
relay_run-moved s (from_socket (ok payload) (err e) ∷ steps) range moving = absurd moving.0
relay_run-moved s (from_socket (err e) sent_on ∷ steps) range moving = absurd moving.0
relay_run-moved s (idle_passed ∷ steps) range moving = absurd moving.0

relay_run-then :
    (s : Relay) (steps more : List Step)
    → All IsMoving steps
    → relay_run s (steps ++ more) ≡ relay_run (relay_run s steps).0 more
unfolding relay_run udp_uplink udp_downlink
relay_run-then s [] more moving = refl
relay_run-then s (from_tunnel (ok payload) (ok u) ∷ steps) more moving =
    relay_run-then (after_up s payload) steps more moving.1
relay_run-then s (from_tunnel (ok payload) (err e) ∷ steps) more moving = absurd moving.0
relay_run-then s (from_tunnel (err e) sent_on ∷ steps) more moving = absurd moving.0
relay_run-then s (from_socket (ok payload) (ok u) ∷ steps) more moving =
    relay_run-then (after_down s payload) steps more moving.1
relay_run-then s (from_socket (ok payload) (err e) ∷ steps) more moving = absurd moving.0
relay_run-then s (from_socket (err e) sent_on ∷ steps) more moving = absurd moving.0
relay_run-then s (idle_passed ∷ steps) more moving = absurd moving.0

abbrev idle_result : Bool → Option (Result (Unit {0}))
idle_result true = some (ok tt)
idle_result false = none

idle_ends : (s : Relay) → (relay_run s (idle_passed ∷ [])).1 ≡ idle_result (s.activity == s.seen)
unfolding relay_run udp_downlink
idle_ends s = elim (Bool-cases (s.activity == s.seen)) [
  | inl same ↦ rw same refl
  | inr differs ↦ rw differs refl
]

idle_result_iff : (b : Bool) → (idle_result b ≡ some (ok tt)) ↔ (b ≡ true)
idle_result_iff true = (λ h. refl, λ h. refl)
idle_result_iff false = (λ h. cc, λ h. cc)

nothing_iff : {A : Type 0} (xs : List A) → (length xs ≡ 0) ↔ (xs ≡ [])
nothing_iff [] = (λ h. refl, λ h. refl)
nothing_iff (x ∷ xs) = (λ h. absurd (omega arith), λ h. cc)

counter_same : (a seen n : ℕ) → a < 2 ^ 64 → seen ≡ a → n < 2 ^ 64 → (a + n) % 2 ^ 64 ≡ seen → n ≡ 0
counter_same a seen n range e few h = omega arith

counter_back : (a seen n : ℕ) → a < 2 ^ 64 → seen ≡ a → n ≡ 0 → (a + n) % 2 ^ 64 ≡ seen
counter_back a seen n range e h = omega arith

-- The end of an idle time ends the session, without an error, exactly if no datagram has been sent on
-- from the tunnel since the downlink last looked at the counter, whatever has come from the socket
-- before. Conditions: the counter is in range and was seen at the start, a datagram is sent on in each
-- of these steps, and fewer than 2 ^ 64 of them are from the tunnel, so that the counter cannot come
-- round to its value.
pub relay_run-idle_iff :
    (s : Relay) (steps : List Step)
    → s.activity < 2 ^ 64
    → s.seen ≡ s.activity
    → All IsMoving steps
    → length (uplinked steps) < 2 ^ 64
    → ((relay_run s (steps ++ (idle_passed ∷ []))).1 ≡ some (ok tt)) ↔ (uplinked steps ≡ [])
relay_run-idle_iff s steps range seen moving few =
    let n = length (uplinked steps) in
    let ended : (relay_run s (steps ++ (idle_passed ∷ []))).1
        ≡ idle_result ((s.activity + n) % 2 ^ 64 == s.seen) =
      ap (λ r. r.1) (relay_run-then s steps (idle_passed ∷ []) moving)
      ∙ ap (λ r. (relay_run r.0 (idle_passed ∷ [])).1) (relay_run-moved s steps range moving)
      ∙ idle_ends (moved s steps) in
    let result = idle_result_iff ((s.activity + n) % 2 ^ 64 == s.seen) in
    (
      λ h. (nothing_iff (uplinked steps)).0 (
          counter_same s.activity s.seen n range seen few
            ((==_iff ((s.activity + n) % 2 ^ 64) s.seen).0 (result.0 (sym ended ∙ h)))),
      λ h.
          ended
          ∙ result.1 (
              (==_iff ((s.activity + n) % 2 ^ 64) s.seen).1
                (counter_back s.activity s.seen n range seen ((nothing_iff (uplinked steps)).1 h))),
    )
