-- ===== src/Server/Flow.antt =====
-- crates/proxy-server/src/server.rs: `relay_tcp`, in which the two copying loops and the idle timer run
-- at once, as a step relation: the blocks are copied and the timer is polled in any order.
use vpn_bridge.Io.{Error, Result, err, ok, timed_out}
use vpn_bridge.Io.Text.{text}
use vpn_bridge.Prelude.{
  Bool, Bool-cases, arith, false, if◌then◌else◌, inl, inr, leb, refl, true, ℕ, ◌+◌, ◌≡◌, ◌≤◌,
}
use vpn_bridge.Server.Idle.{idle_turn}

pub record TcpFlow : Type 0 where
  -- Whether `activity` holds a permit that the timer has not taken.
  pub noted : Bool
  -- The time at which the timer runs out.
  pub deadline : ℕ
  pub now : ℕ
  -- The time at which a block was last copied, or the flow started.
  pub last_copy : ℕ

abbrev pub tcp_flow_idle : Error
tcp_flow_idle = record { kind = timed_out; message = text "TCP flow idle" }

abbrev pub poll_result : Bool → Result (Unit {0})
poll_result ended = if ended then err tcp_flow_idle else ok tt

unfoldable pub start_flow : (idle : ℕ) → ℕ → TcpFlow
start_flow idle t = record { noted = false; deadline = t + idle; now = t; last_copy = t }

-- Either loop of `copy_with_activity` has written a block and calls `notify_one`.
unfoldable pub copied_at : TcpFlow → ℕ → TcpFlow
copied_at f t = record { noted = true; deadline = f.deadline; now = t; last_copy = t }

-- `wait_for_idle` is polled; an error ends the flow.
unfoldable pub polled_at : (idle : ℕ) → TcpFlow → ℕ → TcpFlow × Result (Unit {0})
unfolding idle_turn
polled_at idle f t =
    let (deadline, ended) =
      idle_turn idle f.deadline (record { instant = t; notified = f.noted }) in
    (
      record { noted = false; deadline = deadline; now = t; last_copy = f.last_copy },
      poll_result ended,
    )

-- The relay goes on; time does not go back.
pub data FlowStep (idle : ℕ) : TcpFlow → TcpFlow → Type 0 where
  copied : (f : TcpFlow) (t : ℕ) → f.now ≤ t → FlowStep idle f (copied_at f t)
  polled :
      (f : TcpFlow) (t : ℕ)
      → f.now ≤ t
      → (polled_at idle f t).1 ≡ ok tt
      → FlowStep idle f (polled_at idle f t).0

pub data FlowReach (idle : ℕ) (f : TcpFlow) : TcpFlow → Type 0 where
  here : FlowReach idle f f
  after : {g h : TcpFlow} → FlowReach idle f g → FlowStep idle g h → FlowReach idle f h

-- Once the timer has taken the permit, it allows for the whole idle time behind the last block, and
-- for no more than that from now on.
pub record IsTimed (idle : ℕ) (f : TcpFlow) : Type 0 where
  pub allowed : f.noted ≡ false → f.last_copy + idle ≤ f.deadline
  pub near : f.deadline ≤ f.now + idle
  pub past : f.last_copy ≤ f.now

start_flow-IsTimed : (idle t : ℕ) → IsTimed idle (start_flow idle t)
unfolding start_flow
start_flow-IsTimed idle t = record {
  allowed = λ e. omega arith;
  near = omega arith;
  past = omega arith;
}

turn_allowed :
    (noted : Bool) (idle deadline last_copy t : ℕ)
    → (noted ≡ false → last_copy + idle ≤ deadline)
    → last_copy ≤ t
    → last_copy + idle ≤ (idle_turn idle deadline (record { instant = t; notified = noted })).0
unfolding idle_turn
turn_allowed true idle deadline last_copy t allowed past = omega arith
turn_allowed false idle deadline last_copy t allowed past = allowed refl

turn_near :
    (noted : Bool) (idle deadline now t : ℕ)
    → deadline ≤ now + idle
    → now ≤ t
    → (idle_turn idle deadline (record { instant = t; notified = noted })).0 ≤ t + idle
unfolding idle_turn
turn_near true idle deadline now t near later = omega arith
turn_near false idle deadline now t near later = omega arith

polled_at-IsTimed :
    (idle : ℕ) (f : TcpFlow) (t : ℕ)
    → f.now ≤ t
    → IsTimed idle f
    → IsTimed idle (polled_at idle f t).0
unfolding polled_at
polled_at-IsTimed idle f t later timed = record {
  allowed = λ e.
      turn_allowed f.noted idle f.deadline f.last_copy t timed.allowed (omega (arith, timed.past));
  near = turn_near f.noted idle f.deadline f.now t timed.near later;
  past = omega (arith, timed.past);
}

FlowStep-IsTimed : {idle : ℕ} {f g : TcpFlow} → FlowStep idle f g → IsTimed idle f → IsTimed idle g
unfolding copied_at
FlowStep-IsTimed (copied f t later) timed = record {
  allowed = λ e. cc;
  near = omega (arith, timed.near);
  past = omega arith;
}
FlowStep-IsTimed {idle} (polled f t later going) timed = polled_at-IsTimed idle f t later timed

FlowReach-IsTimed :
    {idle : ℕ} {f g : TcpFlow} → IsTimed idle f → FlowReach idle f g → IsTimed idle g
FlowReach-IsTimed timed here = timed
FlowReach-IsTimed timed (after r step) = FlowStep-IsTimed step (FlowReach-IsTimed timed r)

turn_ends :
    (noted : Bool) (idle deadline last_copy t : ℕ)
    → (noted ≡ false → last_copy + idle ≤ deadline)
    → poll_result (idle_turn idle deadline (record { instant = t; notified = noted })).1
      ≡ err tcp_flow_idle
    → last_copy + idle ≤ t
unfolding idle_turn
turn_ends true idle deadline last_copy t allowed h = cc
turn_ends false idle deadline last_copy t allowed h = elim (Bool-cases (leb deadline t)) [
  | inl over ↦ let behind = allowed refl in ground arith
  | inr before ↦ cc (rw before at h)
]

-- However the copying and the timer interleave, a flow is ended as idle only where no block has been
-- copied, either way, for the whole idle time. Conditions: the state is reached from a start of the
-- flow, and the poll of the timer at `t` ends it.
pub polled_at-idle :
    (idle begun t : ℕ) (f : TcpFlow)
    → FlowReach idle (start_flow idle begun) f
    → (polled_at idle f t).1 ≡ err tcp_flow_idle
    → f.last_copy + idle ≤ t
unfolding polled_at
polled_at-idle idle begun t f r h =
    let timed = FlowReach-IsTimed (start_flow-IsTimed idle begun) r in
    turn_ends f.noted idle f.deadline f.last_copy t timed.allowed h

silent_ends :
    (idle deadline t : ℕ)
    → deadline ≤ t
    → poll_result (idle_turn idle deadline (record { instant = t; notified = false })).1
      ≡ err tcp_flow_idle
unfolding idle_turn
silent_ends idle deadline t h = let over : leb deadline t ≡ true = ground arith in rw over refl

-- A flow in which nothing is copied any more ends: a poll that comes the idle time or more behind
-- another ends it if nothing was copied between them. Conditions: the state is reached from a start
-- of the flow, and time does not go back.
pub polled_at-ends :
    (idle begun t t' : ℕ) (f : TcpFlow)
    → FlowReach idle (start_flow idle begun) f
    → f.now ≤ t
    → t + idle ≤ t'
    → (polled_at idle (polled_at idle f t).0 t').1 ≡ err tcp_flow_idle
unfolding polled_at
polled_at-ends idle begun t t' f r later silent =
    let timed = FlowReach-IsTimed (start_flow-IsTimed idle begun) r in
    silent_ends idle (polled_at idle f t).0.deadline t'
      (omega (arith, turn_near f.noted idle f.deadline f.now t timed.near later))
