-- ===== src/Host/Tunnel.antt =====
-- crates/host/src/tunnel.rs: `Client::open` with its retry loop, and `handshake`.
use vpn_bridge.Checks.{bail}
use vpn_bridge.Handshake.{is_ok_status, refusal_detail}
use vpn_bridge.Io.{Result, err, ok, other}
use vpn_bridge.Io.Reader.{Reader}
use vpn_bridge.Io.Text.{text}
use vpn_bridge.Io.Writer.{Writer}
use vpn_bridge.Net.{SocketAddr}
use vpn_bridge.Prelude.{
  Bool, List, Option, ap, arith, false, if◌then◌else◌, none, some, subst, suc, sym, true, zero, ℕ,
  ◌++◌, ◌+◌, ◌<◌, ◌≡◌,
}
use vpn_bridge.Proto.{Address, Cmd, Request, Response, read_response, write_request}

pub record ServerConfig : Type 0 where
  pub address : SocketAddr
  pub token : List ℕ
  pub connect_timeout_ms : ℕ
  pub reconnect_interval_ms : ℕ
  pub tcp_nodelay : Bool

-- How one connect ends; `none` means that `connect_timeout_ms` ran out.
abbrev pub Attempt : Type 0
Attempt = Option (Result (Unit {0}))

abbrev pub connected : Attempt → Bool
connected (some (ok _)) = true
connected (some (err e)) = false
connected none = false

-- The loop of `open`, on fuel: attempt `n` is made, and if it fails, after a sleep the next one. The
-- result is the number of the attempt that connected; `none` means that the fuel ran out.
unfoldable pub dial_loop : (ℕ → Attempt) → (fuel : ℕ) → ℕ → Option ℕ
dial_loop attempt zero n = none
dial_loop attempt (suc fuel) n =
    let later = dial_loop attempt fuel (suc n) in if connected (attempt n) then some n else later

plus_zero : (n : ℕ) → 0 + n ≡ n
plus_zero n = omega arith

shifted : (k n : ℕ) → suc k + n ≡ k + suc n
shifted k n = omega arith

-- The loop makes the attempts in order and stops at the first that connects: with fuel for one more
-- than the failures, it ends, whatever comes later. Conditions: the attempts before `failures`
-- fail, and the one after them connects.
pub dial_loop-first :
    (attempt : ℕ → Attempt) (failures fuel n : ℕ)
    → failures < fuel
    → ((k : ℕ) → k < failures → connected (attempt (k + n)) ≡ false)
    → connected (attempt (failures + n)) ≡ true
    → dial_loop attempt fuel n ≡ some (failures + n)
unfolding dial_loop
dial_loop-first attempt zero (suc fuel) n enough fails reached =
    rw (subst (λ m. connected (attempt m) ≡ true) (plus_zero n) reached)
      (ap some (sym (plus_zero n)))
dial_loop-first attempt (suc failures) (suc fuel) n enough fails reached =
    let here = subst (λ m. connected (attempt m) ≡ false) (plus_zero n) (fails 0 (omega arith)) in
    let later =
      dial_loop-first attempt failures fuel (suc n) (omega arith)
        (λ k lt.
          subst (λ m. connected (attempt m) ≡ false) (shifted k n) (fails (suc k) (omega arith)))
        (subst (λ m. connected (attempt m) ≡ true) (shifted failures n) reached) in
    rw (here, later) (ap some (sym (shifted failures n)))
dial_loop-first attempt failures zero n enough fails reached = absurd (omega arith)

module _ (W : Writer) (R : Reader) where
  abbrev pub Stream : Type 0
  Stream = W.State × R.State

  abbrev pub reply_read : W.State → Result (Response × R.State) → Result (Response × Stream)
  reply_read w (ok (resp, s)) = ok (resp, (w, s))
  reply_read w (err e) = err e

  abbrev pub request_written : R.State → Result (Unit {0} × W.State) → Result (Response × Stream)
  request_written s (ok (_, w)) = reply_read w (read_response R s)
  request_written s (err e) = err e

  -- The stream is its two directions. Both messages go over it within `connect_timeout_ms`, or not.
  unfoldable pub handshake : Request → W.State → R.State → Result (Response × Stream)
  unfolding write_request
  handshake req w s = request_written s (write_request W req w)

  -- The check of the status behind the handshake.
  unfoldable pub check_status : (shown : List ℕ) → Result (Response × Stream) → Result Stream
  check_status shown (err e) =
      err (record { kind = e.kind; message = text "handshake for " ++ shown })
  check_status shown (ok (resp, stream)) =
      if is_ok_status resp.status
      then ok stream
      else bail (text "VM agent refused " ++ shown ++ text ": " ++ refusal_detail resp)

  module _ (show_target : Address → List ℕ) (cfg : ServerConfig) where
    unfoldable pub request_for : Cmd → Address → Request
    request_for cmd target = record { cmd = cmd; token = cfg.token; target = target }

    -- `Client::open` on the stream that the loop above connected.
    unfoldable pub open_over : (in_time : Bool) → Cmd → Address → W.State → R.State → Result Stream
    unfolding handshake check_status request_for
    open_over false cmd target w s = err (record {
      kind = other;
      message = text "timed out during handshake for " ++ show_target target;
    })
    open_over true cmd target w s =
        check_status (show_target target) (handshake (request_for cmd target) w s)
