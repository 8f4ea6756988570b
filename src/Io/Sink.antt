-- ===== src/Io/Sink.antt =====
-- `write_all` and `shutdown` of `tokio::io::AsyncWriteExt`: a parameter, with its documented
-- behaviour.
use vpn_bridge.Io.Defs.{Action, ok}
use vpn_bridge.Prelude.{Bool, List, true, ℕ, ◌++◌, ◌≡◌}

pub record Sink : Type 1 where
  pub State : Type 0
  pub write_all : List ℕ → Action State (Unit {0})
  pub shutdown : Action State (Unit {0})

-- `written` is what has been handed to the stream so far, `closed` whether its end has been.
pub record IsSink (K : Sink) : Type 0 where
  pub written : K.State → List ℕ
  pub closed : K.State → Bool
  pub write_all_ok :
      (bs : List ℕ) (s t : K.State) → K.write_all bs s ≡ ok (tt, t) → written t ≡ written s ++ bs
  pub shutdown_ok :
      (s t : K.State) → K.shutdown s ≡ ok (tt, t) → (written t ≡ written s) × (closed t ≡ true)
