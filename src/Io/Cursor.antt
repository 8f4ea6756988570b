-- ===== src/Io/Cursor.antt =====
-- A stream over bytes in memory: the reader and the writer that the tests use, as in the program's
-- own tests (`std::io::Cursor`, `Vec`). It meets the assumptions of Io/Reader and Io/Writer.
use vpn_bridge.Io.Defs.{Action, err, ok}
use vpn_bridge.Io.Reader.{IsReader, Reader, eof}
use vpn_bridge.Io.Writer.{IsWriter, Writer}
use vpn_bridge.Prelude.{
  List, [], arith, drop, if◌then◌else◌, leb, length, refl, take, ℕ, ◌*◌, ◌++◌, ◌+◌, ◌<◌, ◌∷◌, ◌≡◌,
  ◌≤◌,
}

abbrev byte : Action (List ℕ) ℕ
byte [] = err eof
byte (b ∷ rest) = ok (b, rest)

abbrev pair : Action (List ℕ) ℕ
pair [] = err eof
pair (b ∷ []) = err eof
pair (hi ∷ lo ∷ rest) = ok (hi * 256 + lo, rest)

abbrev exact : ℕ → Action (List ℕ) (List ℕ)
exact n s = if leb n (length s) then ok (take n s, drop n s) else err eof

abbrev pub cursor : Reader
cursor = record { State = List ℕ; read_u8 = byte; read_u16 = pair; read_exact = exact }

pub exact_some :
    (n : ℕ) (s : List ℕ)
    → n ≤ length s
    → (t : List ℕ) × (exact n s ≡ ok (take n s, t)) × (t ≡ drop n s)
exact_some n s h = (drop n s, ground arith, refl)

pub exact-eof : (n : ℕ) (s : List ℕ) → length s < n → exact n s ≡ err eof
exact-eof n s h = ground arith

unfoldable pub cursor-IsReader : IsReader cursor
cursor-IsReader = record {
  pending = λ s. s;
  read_u8_some = λ s b rest p. (rest, rw p, refl);
  read_u8_eof = λ s p. rw p;
  read_u16_some = λ s hi lo rest p. (rest, rw p, refl);
  read_u16_eof = pair_eof;
  read_exact_some = exact_some;
  read_exact_eof = exact-eof;
}
  where
    pair_eof : (s : List ℕ) → length s < 2 → pair s ≡ err eof
    pair_eof [] h = refl
    pair_eof (x ∷ []) h = refl
    pair_eof (x ∷ y ∷ s) h = absurd (omega arith)

abbrev pub buffer : Writer
buffer = record { State = List ℕ; write_all = λ bs s. ok (tt, s ++ bs); flush = λ s. ok (tt, s) }

unfoldable pub buffer-IsWriter : IsWriter buffer
buffer-IsWriter = record { written = λ s. s; write_all_ok = λ bs s t e. cc; flush_ok = λ s t e. cc }
