-- ===== src/Proto/Exchange.antt =====
-- A message from one agent to the other: what `write_to` puts on any stream, `read_from` takes off.
use vpn_bridge.Prelude.{
  ℕ, ◌<◌, ◌≡◌, ◌∙◌, inl, inr, true, List, ◌++◌, length, take, arith, ltb, Bool-cases,
}
use vpn_bridge.Io.{ok, err, invalid_input, ◌>>◌, >>=-eq-ok}
use vpn_bridge.Io.Text.{text, is_utf8, from_utf8_lossy}
use vpn_bridge.Io.Reader.{Reader, IsReader, Reads}
use vpn_bridge.Io.Writer.{Writer, IsWriter}
use vpn_bridge.Proto.Types.{Request, Response, IsAddress}
use vpn_bridge.Proto.Encode.{request_bytes, response_bytes, write_request, write_response}
use vpn_bridge.Proto.Decode.{read_request, read_response}
use vpn_bridge.Proto.Wire.{on_wire}
use vpn_bridge.Proto.RoundTrip.{read_request-bytes, read_response-bytes}

module _ {W : Writer} (M : IsWriter W) where
  open M use {written, write_all_ok, flush_ok}

  flushed :
      (bs : List ℕ) (w w' : W.State)
      → (W.write_all bs >> W.flush) w ≡ ok (tt, w')
      → written w' ≡ written w ++ bs
  flushed bs w w' h =
      let (_, u, e, e') = >>=-eq-ok (W.write_all bs) _ w h in
      flush_ok u w' e' ∙ write_all_ok bs w u e

  written_request :
      (r : Request) (w w' : W.State)
      → write_request W r w ≡ ok (tt, w')
      → (written w' ≡ written w ++ request_bytes r) × (length r.token < 256)
  unfolding write_request
  written_request r w w' h = elim (Bool-cases (ltb 255 (length r.token))) [
    | inl long ↦ cc (rw long at h)
    | inr fits ↦ (flushed (request_bytes r) w w' (rw fits at h), ground arith)
  ]

  -- A token that its length byte cannot count is refused before anything is written.
  write_request-long :
      (r : Request) (w : W.State)
      → 255 < length r.token
      → write_request W r w
        ≡ err (record { kind = invalid_input; message = text "token longer than 255 bytes" })
  unfolding write_request
  write_request-long r w h = ground arith

  module _ {R : Reader} (L : IsReader R) where
    -- A request that was written is read as it was sent, up to the form its target has on the wire,
    -- and reading stops exactly behind it. Conditions: the token is UTF-8, the
    -- target in that form is an address that Rust's types admit, and the write succeeds.
    pub read_request-write_request :
        (r : Request) (w w' : W.State)
        → is_utf8 r.token ≡ true
        → IsAddress (on_wire r.target)
        → write_request W r w ≡ ok (tt, w')
        → (bs : List ℕ) × (written w' ≡ written w ++ bs)
          × ((rest : List ℕ)
              → Reads L (read_request R) (bs ++ rest) (record r { target = on_wire r.target }) rest)
    read_request-write_request r w w' utf8 target h =
        let (e, short) = written_request r w w' h in
        (request_bytes r, e, λ rest. read_request-bytes L r rest (short, utf8, target))

    -- A response that was written is read with its status and its first 255 bytes of message,
    -- where what is not UTF-8 is replaced. Condition: the write succeeds.
    read_response-write_response :
        (r : Response) (w w' : W.State)
        → write_response W r w ≡ ok (tt, w')
        → (bs : List ℕ) × (written w' ≡ written w ++ bs)
          × ((rest : List ℕ)
              → Reads L
                  (read_response R)
                  (bs ++ rest)
                  (record r { message = from_utf8_lossy (take 255 r.message) })
                  rest)
    unfolding write_response
    read_response-write_response r w w' h =
        (response_bytes r, flushed (response_bytes r) w w' h, λ rest. read_response-bytes L r rest)
