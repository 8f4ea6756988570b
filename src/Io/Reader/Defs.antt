-- ===== src/Io/Reader/Defs.antt =====
-- `tokio::io::AsyncReadExt` as the program uses it. The library is not part of the repository, so
-- its three operations are a parameter, and `IsReader` is what its documentation says of them.
use vpn_bridge.Prelude.{ℕ, ◌+◌, ◌*◌, ◌≤◌, ◌<◌, ◌≡◌, List, [], ◌∷◌, take, drop, length}
use vpn_bridge.Io.Defs.{Error, unexpected_eof, ok, err, Action}
use vpn_bridge.Io.Text.{text}

pub record Reader : Type 1 where
  pub State : Type 0
  pub read_u8 : Action State ℕ
  pub read_u16 : Action State ℕ
  pub read_exact : ℕ → Action State (List ℕ)

-- What a read reports that meets the end of the stream.
abbrev pub eof : Error
eof = record { kind = unexpected_eof; message = text "early eof" }

-- `pending` is what the peer has sent and the program has not read, up to the end of the stream.
pub record IsReader (R : Reader) : Type 0 where
  pub pending : R.State → List ℕ
  pub read_u8_some :
      (s : R.State) (b : ℕ) (rest : List ℕ)
      → pending s ≡ b ∷ rest
      → (t : R.State) × (R.read_u8 s ≡ ok (b, t)) × (pending t ≡ rest)
  pub read_u8_eof : (s : R.State) → pending s ≡ [] → R.read_u8 s ≡ err eof
  -- Big endian.
  pub read_u16_some :
      (s : R.State) (hi lo : ℕ) (rest : List ℕ)
      → pending s ≡ hi ∷ lo ∷ rest
      → (t : R.State) × (R.read_u16 s ≡ ok (hi * 256 + lo, t)) × (pending t ≡ rest)
  pub read_u16_eof : (s : R.State) → length (pending s) < 2 → R.read_u16 s ≡ err eof
  pub read_exact_some :
      (n : ℕ) (s : R.State)
      → n ≤ length (pending s)
      → (t : R.State) × (R.read_exact n s ≡ ok (take n (pending s), t))
        × (pending t ≡ drop n (pending s))
  pub read_exact_eof : (n : ℕ) (s : R.State) → length (pending s) < n → R.read_exact n s ≡ err eof
