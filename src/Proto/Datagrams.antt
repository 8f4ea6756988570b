-- ===== src/Proto/Datagrams.antt =====
-- Datagrams over a byte stream: `write_datagram` and `read_datagram` keep their boundaries.
use vpn_bridge.Io.{Action, ok, pure, ◌>>=◌}
use vpn_bridge.Io.Reader.{
  Fails, Fails-bind, Fails-bind_first, Fails-exact, Fails-u16, IsReader, Reader, Reads, Reads-bind,
  Reads-exact, Reads-pure, Reads-u16, eof,
}
use vpn_bridge.Io.Writer.{IsWriter, Writer}
use vpn_bridge.Prelude.{
  All, Bool-cases, List, [], append-nil, append_assoc, arith, drop, drop_all, inl, inr, length,
  length-append, length-replicate, length-take, ltb, refl, replicate, subst, suc, sym, take,
  take_all, zero, ℕ, ◌%◌, ◌*◌, ◌++◌, ◌+◌, ◌-◌, ◌/◌, ◌<◌, ◌^◌, ◌∷◌, ◌≡◌, ◌≤◌, ◌⊎◌,
}
use vpn_bridge.Proto.Decode.{read_datagram, resize}
use vpn_bridge.Proto.Encode.{to_be_bytes, write_datagram}
use vpn_bridge.Proto.Types.{max_datagram}

-- LEN PAYLOAD
abbrev pub datagram_layout : List ℕ → List ℕ
datagram_layout payload = to_be_bytes (length payload) ++ payload

abbrev pub IsPayload : List ℕ → Type 0
IsPayload payload = length payload ≤ max_datagram

length-resize : (n : ℕ) (buf : List ℕ) → length (resize n buf) ≡ n
length-resize n buf = omega (
  arith,
  length-append (take n buf) (replicate (n - length buf) 0),
  length-take n buf,
  length-replicate {A = ℕ} (n - length buf) 0,
)

module _ {W : Writer} (M : IsWriter W) where
  open M use {written, write_all_ok}

  -- A datagram that was written has at most 65535 bytes, and stands behind its length, behind what
  -- was written before. Condition: the write succeeds.
  pub write_datagram_written :
      (payload : List ℕ) (w w' : W.State)
      → write_datagram W payload w ≡ ok (tt, w')
      → (written w' ≡ written w ++ datagram_layout payload) × IsPayload payload
  unfolding write_datagram
  write_datagram_written payload w w' h = elim (Bool-cases (ltb max_datagram (length payload))) [
    | inl long ↦ cc (rw long at h)
    | inr fits ↦
        let short : IsPayload payload = ground arith in
        let e : length payload % 2 ^ 16 ≡ length payload = omega arith in
        (write_all_ok _ w w' (rw (fits, e) at h), short)
  ]

module _ {R : Reader} (L : IsReader R) where
  Reads-length :
      (n : ℕ) (rest : List ℕ) → n ≤ max_datagram → Reads L R.read_u16 (to_be_bytes n ++ rest) n rest
  Reads-length n rest h =
      let e : n / 256 % 256 * 256 + n % 256 ≡ n = omega arith in
      subst (λ p. Reads L R.read_u16 (to_be_bytes n ++ rest) p rest) e (Reads-u16 L _ _ rest)

  -- Whatever the buffer held, it ends up holding the payload and nothing else.
  pub read_datagram_layout :
      (payload buf rest : List ℕ)
      → IsPayload payload
      → Reads L
          (read_datagram R buf)
          (datagram_layout payload ++ rest)
          (length payload, payload)
          rest
  unfolding read_datagram
  read_datagram_layout payload buf rest h =
      let n = length payload in
      let clean : drop n (resize n buf) ≡ [] =
        drop_all n (resize n buf) (omega (arith, length-resize n buf)) in
      Reads-bind L _ _ (Reads-length n (payload ++ rest) h) (
        Reads-bind L _ _ (Reads-exact L n payload rest refl)
          (rw (clean, append-nil) (Reads-pure L _ _)))

  -- Reading a datagram from a stream that ends inside its payload fails with the end of the stream.
  read_datagram_cut :
      (n : ℕ) (part buf : List ℕ)
      → n ≤ max_datagram
      → length part < n
      → Fails L (read_datagram R buf) (to_be_bytes n ++ part) eof
  unfolding read_datagram
  read_datagram_cut n part buf h short =
      Fails-bind L _ _ (Reads-length n part h)
        (Fails-bind_first L (R.read_exact n) _ (Fails-exact L n part short))

-- The front of a datagram, short of its end: less than a length, or less than the length says.
abbrev pub IsCut : List ℕ → Type 0
IsCut part =
    (length part < 2)
    ⊎ ((n : ℕ) × (body : List ℕ) × (part ≡ to_be_bytes n ++ body)
        × (n ≤ max_datagram)
        × (length body < n))

-- Where the stream ends in such a front, reading meets the end of the stream.
pub read_datagram-IsCut :
    {R : Reader} (L : IsReader R) (part buf : List ℕ)
    → IsCut part
    → Fails L (read_datagram R buf) part eof
unfolding read_datagram
read_datagram-IsCut {R} L part buf (inl short) =
    Fails-bind_first L R.read_u16 _ (Fails-u16 L part short)
read_datagram-IsCut {R} L part buf (inr (n, body, e, fits, short)) =
    subst (λ bs. Fails L (read_datagram R buf) bs eof) (sym e)
      (read_datagram_cut L n body buf fits short)

-- The bytes of a session that writes `payloads` one after the other.
abbrev pub session_layout : List (List ℕ) → List ℕ
session_layout [] = []
session_layout (p ∷ ps) = datagram_layout p ++ session_layout ps

module _ (R : Reader) where
  -- `n` calls of `read_datagram` in turn, each into the buffer that the last one left.
  pub read_datagrams : ℕ → List ℕ → Action R.State (List (List ℕ))
  read_datagrams zero buf = pure []
  read_datagrams (suc n) buf = do
    (len, buf') ← read_datagram R buf
    rest ← read_datagrams n buf'
    pure (take len buf' ∷ rest)

module _ {R : Reader} (L : IsReader R) where
  -- Any sequence of datagrams arrives as the same sequence, boundaries and empty ones included,
  -- whatever the buffer held before. Condition: each has at most 65535 bytes.
  pub read_datagrams-session :
      (payloads : List (List ℕ)) (buf rest : List ℕ)
      → All IsPayload payloads
      → Reads L
          (read_datagrams R (length payloads) buf)
          (session_layout payloads ++ rest)
          payloads
          rest
  unfolding read_datagrams
  read_datagrams-session [] buf rest h = Reads-pure L [] rest
  read_datagrams-session (p ∷ ps) buf rest (hp, hps) = rw append_assoc (
      Reads-bind L _ _ (read_datagram_layout L p buf (session_layout ps ++ rest) hp) (
        Reads-bind L _ _ (read_datagrams-session ps p rest hps)
          (rw (take_all (length p) p (omega arith)) (Reads-pure L _ _))))
