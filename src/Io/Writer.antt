-- ===== src/Io/Writer.antt =====
-- `tokio::io::AsyncWriteExt` as the program uses it: a parameter, with its documented behaviour.
use vpn_bridge.Prelude.{ℕ, ◌≡◌, List, ◌++◌}
use vpn_bridge.Io.Defs.{ok, Action}

pub record Writer : Type 1 where
  pub State : Type 0
  pub write_all : List ℕ → Action State (Unit {0})
  pub flush : Action State (Unit {0})

-- `written` is what has been handed to the stream so far. A write may fail; one that succeeds has
-- handed over all its bytes, in order, and flushing adds none.
pub record IsWriter (W : Writer) : Type 0 where
  pub written : W.State → List ℕ
  pub write_all_ok :
      (bs : List ℕ) (s t : W.State) → W.write_all bs s ≡ ok (tt, t) → written t ≡ written s ++ bs
  pub flush_ok : (s t : W.State) → W.flush s ≡ ok (tt, t) → written t ≡ written s
