-- ===== src/Server/Idle.antt =====
-- crates/proxy-server/src/server.rs: `wait_for_idle`, the timer of a TCP flow that every block copied
-- by `copy_with_activity` sets back.
use vpn_bridge.Prelude.{
  Bool, Bool-cases, List, Option, [], arith, false, if◌then◌else◌, inl, inr, leb, none, some, true,
  ℕ, ◌++◌, ◌+◌, ◌∷◌, ◌≡◌, ◌≤◌,
}

-- One poll of the loop: the time, and whether there was activity since the last one.
pub record Poll : Type 0 where
  pub instant : ℕ
  pub notified : Bool

-- One turn of the loop from the timer's deadline: activity is looked at first (`biased`); `none` is
-- the new deadline's turn, `some` the end of the flow.
unfoldable pub idle_turn : (idle : ℕ) → (deadline : ℕ) → Poll → ℕ × Bool
idle_turn idle deadline poll =
    if poll.notified then (poll.instant + idle, false) else (deadline, leb deadline poll.instant)

-- The time at which the flow ends with "TCP flow idle", if it does in these polls.
unfoldable pub wait_for_idle : (idle : ℕ) → (deadline : ℕ) → List Poll → Option ℕ
unfolding idle_turn
wait_for_idle idle deadline [] = none
wait_for_idle idle deadline (poll ∷ polls) =
    let (next, ended) = idle_turn idle deadline poll in
    let rest = wait_for_idle idle next polls in if ended then some poll.instant else rest

-- Time does not go back.
abbrev pub IsOrdered : ℕ → List Poll → Type 0
IsOrdered from [] = Unit {0}
IsOrdered from (poll ∷ polls) = (from ≤ poll.instant) × IsOrdered poll.instant polls

some-eq : {A : Type 0} {x y : A} → ◌≡◌ {A = Option A} (some x) (some y) → x ≡ y
some-eq h = cc

turn_deadline :
    (idle deadline from t : ℕ) (polls : List Poll)
    → IsOrdered from polls
    → deadline ≤ from + idle
    → wait_for_idle idle deadline polls ≡ some t
    → deadline ≤ t
unfolding wait_for_idle
turn_deadline idle deadline from t [] ordered near h = cc
turn_deadline idle deadline from t (poll ∷ polls) (later, ordered) near h =
    elim (Bool-cases poll.notified) [
      | inl active ↦
          let set =
            turn_deadline idle (poll.instant + idle) poll.instant t polls ordered (omega arith)
              (rw active at h) in
          omega arith
      | inr silent ↦ elim (Bool-cases (leb deadline poll.instant)) [
        | inl passed ↦
            let same : poll.instant ≡ t = some-eq (rw (silent, passed) at h) in ground arith
        | inr before ↦
            turn_deadline idle deadline poll.instant t polls ordered (omega arith)
              (rw (silent, before) at h)
      ]
    ]

-- A flow ends only when nothing has been copied for the idle time: its end is at least that much
-- later than any activity that it saw. Conditions: time does not go back, and the flow has not ended
-- by the poll `poll` that sees the activity.
wait_for_idle-quiet :
    (idle deadline from t : ℕ) (before : List Poll) (poll : Poll) (after : List Poll)
    → IsOrdered from (before ++ (poll ∷ after))
    → poll.notified ≡ true
    → wait_for_idle idle deadline (before ++ (poll ∷ [])) ≡ none
    → wait_for_idle idle deadline (before ++ (poll ∷ after)) ≡ some t
    → poll.instant + idle ≤ t
unfolding wait_for_idle
wait_for_idle-quiet idle deadline from t [] poll after (later, ordered) active going h =
    turn_deadline idle (poll.instant + idle) poll.instant t after ordered (omega arith)
      (rw active at h)
wait_for_idle-quiet idle deadline from t (first ∷ before) poll after (later, ordered) active going
      h =
    let (next, ended) = idle_turn idle deadline first in
    elim (Bool-cases ended) [
      | inl over ↦ cc (rw over at going)
      | inr goes_on ↦
          wait_for_idle-quiet idle next first.instant t before poll after ordered active
            (rw goes_on at going) (rw goes_on at h)
    ]
