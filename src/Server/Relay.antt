-- ===== src/Server/Relay.antt =====
-- crates/proxy-server/src/server.rs: the two loops of `relay_udp`, as steps on the state that they
-- share (Session/Relay.antt). Here the end of an idle time in which nothing moved is an error.
use vpn_bridge.Io.{Error, Result, err, ok, timed_out}
use vpn_bridge.Io.Text.{text}
use vpn_bridge.Prelude.{
  Bool, Bool-cases, List, Option, [], ap, false, if◌then◌else◌, inl, inr, none, refl, some, true, ℕ,
  ◌%◌, ◌++◌, ◌+◌, ◌==◌, ◌^◌, ◌∙◌, ◌∷◌, ◌≡◌,
}
use vpn_bridge.Session.Relay.{
  Relay, Step, Turn, from_socket, from_tunnel, idle_passed, relay_run, udp_downlink, udp_uplink,
  unless_ended,
}
use vpn_bridge.Vm.Server.Defs.{is_benign_eof}

abbrev pub flow_idle : Error
flow_idle = record { kind = timed_out; message = text "UDP flow idle" }

-- One turn of `upload`.
unfoldable pub upload_turn : Relay → Result (List ℕ) → Result (Unit {0}) → Turn
upload_turn s (ok payload) (ok _) = (
  record s { activity = (s.activity + 1) % 2 ^ 64; to_socket = s.to_socket ++ (payload ∷ []) },
  none,
)
upload_turn s (ok payload) (err e) = (s, some (err e))
upload_turn s (err e) sent_on = (s, some (err e))

-- One turn of `download`, on what `recv` gives (`some`) or at the end of the idle time.
unfoldable pub download_turn : Relay → Option (Result (List ℕ)) → Result (Unit {0}) → Turn
download_turn s (some (ok payload)) (ok _) =
    (record s { to_tunnel = s.to_tunnel ++ (payload ∷ []) }, none)
download_turn s (some (ok payload)) (err e) = (s, some (err e))
download_turn s (some (err e)) sent_on = (s, some (err e))
download_turn s none sent_on =
    if s.activity == s.seen
    then (s, some (err flow_idle))
    else (record s { seen = s.activity }, none)

unfoldable pub turn : Relay → Step → Turn
unfolding upload_turn download_turn
turn s (from_tunnel got sent_on) = upload_turn s got sent_on
turn s (from_socket got sent_on) = download_turn s (some got) sent_on
turn s idle_passed = download_turn s none (ok tt)

-- Any interleaving of the two loops, up to the end of the one that ends first.
unfoldable pub relay_turns : Relay → List Step → Turn
unfolding turn
relay_turns s [] = (s, none)
relay_turns s (step ∷ steps) = let now = turn s step in unless_ended now (relay_turns now.0 steps)

-- The end of the agent's loops as the proxy server has it: idleness is an error, and the sending side
-- of the tunnel is left as it is.
abbrev pub as_proxy : Turn → Turn
as_proxy (s, none) = (s, none)
as_proxy (s, some (err e)) = (s, some (err e))
as_proxy (s, some (ok _)) = (record s { tunnel_shut = false }, some (err flow_idle))

same_turns :
    (s : Relay) (steps : List Step)
    → s.tunnel_shut ≡ false
    → relay_turns s steps ≡ as_proxy (relay_run s steps)
unfolding relay_turns relay_run udp_uplink udp_downlink upload_turn download_turn
same_turns s [] still = refl
same_turns s (from_tunnel (ok payload) (ok u) ∷ steps) still =
    same_turns
      (record s { activity = (s.activity + 1) % 2 ^ 64; to_socket = s.to_socket ++ (payload ∷ []) })
      steps still
same_turns s (from_tunnel (ok payload) (err e) ∷ steps) still = refl
same_turns s (from_tunnel (err e) sent_on ∷ steps) still = refl
same_turns s (from_socket (ok payload) (ok u) ∷ steps) still =
    same_turns (record s { to_tunnel = s.to_tunnel ++ (payload ∷ []) }) steps still
same_turns s (from_socket (ok payload) (err e) ∷ steps) still = refl
same_turns s (from_socket (err e) sent_on ∷ steps) still = refl
same_turns s (idle_passed ∷ steps) still = elim (Bool-cases (s.activity == s.seen)) [
  | inl same ↦ rw same (ap (λ b. (record s { tunnel_shut = b }, some (err flow_idle))) still)
  | inr differs ↦ rw differs (same_turns (record s { seen = s.activity }) steps still)
]

-- The `match` at the end of `relay_udp` in the agent, which takes some errors for a normal end.
abbrev pub agent_end : Option (Result (Unit {0})) → Option (Result (Unit {0}))
agent_end none = none
agent_end (some (ok _)) = some (ok tt)
agent_end (some (err e)) = if is_benign_eof e then some (ok tt) else some (err e)

agent_error : (t : Turn) (e : Error) → agent_end t.1 ≡ some (err e) → (as_proxy t).1 ≡ some (err e)
unfolding is_benign_eof
agent_error (s, none) e h = cc
agent_error (s, some (ok u)) e h = cc
agent_error (s, some (err e')) e h = by_kind (is_benign_eof e') h
  where
    by_kind :
        (benign : Bool)
        → ◌≡◌ {A = Option (Result (Unit {0}))}
            (if benign then some (ok tt) else some (err e'))
            (some (err e))
        → ◌≡◌ {A = Option (Result (Unit {0}))} (some (err e')) (some (err e))
    by_kind true k = cc
    by_kind false k = k

pub relay_turns-same :
    (s : Relay) (steps : List Step)
    → s.tunnel_shut ≡ false
    → (relay_turns s steps ≡ as_proxy (relay_run s steps))
      × ((e : Error)
          → agent_end (relay_run s steps).1 ≡ some (err e)
          → (relay_turns s steps).1 ≡ some (err e))
relay_turns-same s steps still =
    let same = same_turns s steps still in
    (same, λ e h. ap (λ t. t.1) same ∙ agent_error (relay_run s steps) e h)
