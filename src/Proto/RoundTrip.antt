-- ===== src/Proto/RoundTrip.antt =====
-- What one agent writes, the other reads: addresses, requests and responses, for every stream that
-- behaves as documented, with whatever follows them left in the stream.
use vpn_bridge.Prelude.{
  ℕ, ◌+◌, ◌*◌, ◌/◌, ◌%◌, ◌<◌, ◌≡◌, ◌↔◌, refl, subst, true, false, some, List, [], ◌∷◌, ◌++◌,
  append_assoc, length, take, arith,
}
use vpn_bridge.Net.{v4, v6, IsPort}
use vpn_bridge.Io.Text.{text, is_utf8, from_utf8_lossy}
use vpn_bridge.Io.Reader.{
  Reader, IsReader, Reads, Fails, Reads-pure, Reads-bind, Fails-bind, Reads-u8, Reads-u16,
  Reads-exact,
}
use vpn_bridge.Proto.Types.{
  magic, Cmd, connect_tcp, bind_udp, cmd_code, cmd_from_u8, Status, status_code, status_from_u8,
  Address, ip, domain, IsAddress, Request, Response,
}
use vpn_bridge.Proto.Encode.{to_be_bytes, encode, request_bytes, response_bytes}
use vpn_bridge.Proto.Decode.{
  invalid, ensure, or_fail, read_address, read_request, read_request_body, read_response,
  read_response_body,
}
use vpn_bridge.Proto.Wire.{on_wire, address_layout, encode_layout, request_layout, response_layout}

-- A byte on the wire names a command exactly if it is the command's code.
pub cmd_from_u8_iff : (v : ℕ) (c : Cmd) → (cmd_from_u8 v ≡ some c) ↔ (v ≡ cmd_code c)
unfolding cmd_from_u8
cmd_from_u8_iff v connect_tcp = ground arith
cmd_from_u8_iff v bind_udp = ground arith

-- A byte on the wire names a status exactly if it is the status's code.
status_from_u8_iff : (v : ℕ) (s : Status) → (status_from_u8 v ≡ some s) ↔ (v ≡ status_code s)
unfolding status_from_u8
status_from_u8_iff v Status.ok_status = ground arith
status_from_u8_iff v _ = ground arith

module _ {R : Reader} (L : IsReader R) where
  Reads-port :
      (port : ℕ) (rest : List ℕ)
      → IsPort port
      → Reads L R.read_u16 (to_be_bytes port ++ rest) port rest
  Reads-port port rest h =
      let e : port / 256 % 256 * 256 + port % 256 ≡ port = omega arith in
      subst (λ p. Reads L R.read_u16 (to_be_bytes port ++ rest) p rest) e (Reads-u16 L _ _ rest)

  Reads-ensure :
      (test : _) (message bs : List ℕ) → test ≡ true → Reads L (ensure test message) bs tt bs
  Reads-ensure true message bs h = Reads-pure L tt bs
  Reads-ensure false message bs h = cc

  Reads-address_layout :
      (a : Address) (rest : List ℕ)
      → IsAddress (on_wire a)
      → Reads L (read_address R) (address_layout (on_wire a) ++ rest) (on_wire a) rest
  unfolding read_address
  Reads-address_layout (ip (v4 octets port)) rest ((len, bytes), p) =
      Reads-bind L _ _ (Reads-u8 L _ _) (
        rw append_assoc (
          Reads-bind L _ _ (Reads-exact L 4 octets _ len)
            (Reads-bind L _ _ (Reads-port port rest p) (Reads-pure L _ _))))
  Reads-address_layout (ip (v6 octets port f s)) rest ((len, bytes), p) =
      Reads-bind L _ _ (Reads-u8 L _ _) (
        rw append_assoc (
          Reads-bind L _ _ (Reads-exact L 16 octets _ len)
            (Reads-bind L _ _ (Reads-port port rest p) (Reads-pure L _ _))))
  Reads-address_layout (domain host port) rest (utf8, p) = Reads-bind L _ _ (Reads-u8 L _ _) (
      Reads-bind L _ _ (Reads-u8 L _ _) (
        rw append_assoc (
          Reads-bind L _ _ (Reads-exact L _ (take 255 host) _ refl) (
            Reads-bind L _ _ (Reads-port port rest p)
              (Reads-bind L _ _ (Reads-ensure _ _ _ utf8) (Reads-pure L _ _))))))

  -- Reading back an encoded address gives it as it travels: a domain cut to 255 bytes, an IPv6
  -- address without flow label and scope. What follows the address stays in the
  -- stream. Condition: the address, as it travels, is one that Rust's types admit.
  read_address-encode :
      (a : Address) (rest : List ℕ)
      → IsAddress (on_wire a)
      → Reads L (read_address R) (encode a [] ++ rest) (on_wire a) rest
  read_address-encode a rest h = rw encode_layout (Reads-address_layout a rest h)

  -- A domain whose first 255 bytes end inside a character is refused by the reader.
  -- Condition: the port has 16 bits.
  read_address-encode_cut :
      (host : List ℕ) (port : ℕ) (rest : List ℕ)
      → is_utf8 (take 255 host) ≡ false
      → IsPort port
      → Fails L
          (read_address R)
          (encode (domain host port) [] ++ rest)
          (invalid (text "domain is not valid utf-8"))
  unfolding read_address
  read_address-encode_cut host port rest cut p = rw encode_layout (
      Fails-bind L _ _ (Reads-u8 L _ _) (
        Fails-bind L _ _ (Reads-u8 L _ ((take 255 host ++ to_be_bytes port) ++ rest)) (
          rw append_assoc (
            Fails-bind L _ _ (Reads-exact L _ (take 255 host) _ refl)
              (Fails-bind L _ _ (Reads-port port rest p) (λ s e. rw cut))))))

  Reads-cmd :
      (c : Cmd) (message bs : List ℕ) → Reads L (or_fail (cmd_from_u8 (cmd_code c)) message) bs c bs
  Reads-cmd c message bs = rw ((cmd_from_u8_iff _ c).1 refl) (Reads-pure L c bs)

  Reads-status :
      (c : Status) (message bs : List ℕ)
      → Reads L (or_fail (status_from_u8 (status_code c)) message) bs c bs
  Reads-status c message bs = rw ((status_from_u8_iff _ c).1 refl) (Reads-pure L c bs)

  -- The request that arrives.
  abbrev pub IsRequest : Request → Type 0
  IsRequest r = (length r.token < 256) × (is_utf8 r.token ≡ true) × IsAddress (on_wire r.target)

  Reads-request_body :
      (r : Request) (rest : List ℕ)
      → IsRequest r
      → Reads L
          (read_request_body R)
          (cmd_code r.cmd
            ∷ length r.token
            ∷ (r.token ++ (address_layout (on_wire r.target) ++ rest)))
          (record r { target = on_wire r.target })
          rest
  unfolding read_request_body
  Reads-request_body r rest (short, utf8, target) = Reads-bind L _ _ (Reads-u8 L _ _) (
      Reads-bind L _ _ (Reads-cmd r.cmd _ _) (
        Reads-bind L _ _ (Reads-u8 L _ _) (
          Reads-bind L _ _ (Reads-exact L _ r.token _ refl) (
            Reads-bind L _ _ (Reads-ensure _ _ _ utf8)
              (Reads-bind L _ _ (Reads-address_layout r.target rest target) (Reads-pure L _ _))))))

  -- The server reads the request that the client sent, byte for byte up to the cut in a domain.
  pub read_request-bytes :
      (r : Request) (rest : List ℕ)
      → IsRequest r
      → Reads L
          (read_request R)
          (request_bytes r ++ rest)
          (record r { target = on_wire r.target })
          rest
  unfolding read_request
  read_request-bytes r rest h =
      rw (request_layout r h.0, append_assoc)
        (Reads-bind L _ _ (Reads-exact L 4 magic _ refl)
          (Reads-bind L _ _ (Reads-u8 L _ _) (rw append_assoc (Reads-request_body r rest h))))

  Reads-response_body :
      (r : Response) (rest : List ℕ)
      → Reads L
          (read_response_body R)
          ((status_code r.status ∷ length (take 255 r.message) ∷ take 255 r.message) ++ rest)
          (record r { message = from_utf8_lossy (take 255 r.message) })
          rest
  unfolding read_response_body
  Reads-response_body r rest = Reads-bind L _ _ (Reads-u8 L _ _) (
      Reads-bind L _ _ (Reads-status r.status _ _) (
        Reads-bind L _ _ (Reads-u8 L _ _)
          (Reads-bind L _ _ (Reads-exact L _ (take 255 r.message) _ refl) (Reads-pure L _ _))))

  -- The client reads the status that the server sent, and the first 255 bytes of its message, where
  -- whatever is not UTF-8 is replaced.
  pub read_response-bytes :
      (r : Response) (rest : List ℕ)
      → Reads L
          (read_response R)
          (response_bytes r ++ rest)
          (record r { message = from_utf8_lossy (take 255 r.message) })
          rest
  unfolding read_response
  read_response-bytes r rest = rw (response_layout r) (
      Reads-bind L _ _ (Reads-exact L 4 magic _ refl)
        (Reads-bind L _ _ (Reads-u8 L _ _) (Reads-response_body r rest)))
