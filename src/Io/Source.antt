-- ===== src/Io/Source.antt =====
-- `tokio::io::AsyncReadExt::read`, on its own: a parameter, with its documented behaviour.
use vpn_bridge.Io.Defs.{Action, ok}
use vpn_bridge.Prelude.{List, [], length, ℕ, ◌++◌, ◌<◌, ◌≡◌, ◌≤◌}

pub record Source : Type 1 where
  pub State : Type 0
  -- A read into a buffer of this length.
  pub read : ℕ → Action State (List ℕ)

-- `pending` is what the peer has sent and the program has not read, up to the end of the stream. A
-- read takes bytes from its front, no more than the buffer holds; it takes none only at the end.
pub record IsSource (S : Source) : Type 0 where
  pub pending : S.State → List ℕ
  pub read_ok :
      (room : ℕ) (s t : S.State) (bs : List ℕ)
      → S.read room s ≡ ok (bs, t)
      → (pending s ≡ bs ++ pending t) × (length bs ≤ room)
  pub read_end : (room : ℕ) (s t : S.State) → 0 < room → S.read room s ≡ ok ([], t) → pending s ≡ []

-- The stream does not fail.
abbrev pub IsSound : Source → Type 0
IsSound S = (room : ℕ) (s : S.State) → (bs : List ℕ) × (t : S.State) × (S.read room s ≡ ok (bs, t))
