-- ===== src/Proto/Encode.antt =====
-- `Address::encode`, `Request::write_to`, `Response::write_to` and `write_datagram`.
use vpn_bridge.Prelude.{
  ℕ, ◌/◌, ◌%◌, ◌^◌, min, List, [], ◌∷◌, ◌++◌, ltb, length, take, if◌then◌else◌,
}
use vpn_bridge.Net.{v4, v6}
use vpn_bridge.Io.{invalid_input, Action, fail, ◌>>◌}
use vpn_bridge.Io.Text.{text}
use vpn_bridge.Io.Writer.{Writer}
use vpn_bridge.Proto.Types.{
  magic, version, max_datagram, atyp_ipv4, atyp_domain, atyp_ipv6, cmd_code, status_code, Address,
  ip, domain, Request, Response,
}

-- `u16::to_be_bytes`
abbrev pub to_be_bytes : ℕ → List ℕ
to_be_bytes n = n / 256 % 256 ∷ n % 256 ∷ []

-- `out` is extended at its end.
unfoldable pub encode : Address → List ℕ → List ℕ
encode (ip (v4 octets port)) out = out ++ (atyp_ipv4 ∷ []) ++ octets ++ to_be_bytes port
encode (ip (v6 octets port f s)) out = out ++ (atyp_ipv6 ∷ []) ++ octets ++ to_be_bytes port
encode (domain host port) out =
    let len = min (length host) 255 in
    out ++ (atyp_domain ∷ []) ++ (len % 256 ∷ []) ++ take len host ++ to_be_bytes port

-- The buffer that `Request::write_to` fills.
unfoldable pub request_bytes : Request → List ℕ
unfolding encode
request_bytes r =
    encode r.target
      (magic ++ (version ∷ []) ++ (cmd_code r.cmd ∷ []) ++ (length r.token % 256 ∷ []) ++ r.token)

-- The buffer that `Response::write_to` fills.
unfoldable pub response_bytes : Response → List ℕ
response_bytes r =
    let len = min (length r.message) 255 in
    magic ++ (version ∷ []) ++ (status_code r.status ∷ []) ++ (len % 256 ∷ []) ++ take len r.message

module _ (W : Writer) where
  -- `Request::write_to`
  unfoldable pub write_request : Request → Action W.State (Unit {0})
  write_request r =
      if ltb 255 (length r.token)
      then fail (record { kind = invalid_input; message = text "token longer than 255 bytes" })
      else do W.write_all (request_bytes r); W.flush

  -- `Response::write_to`
  unfoldable pub write_response : Response → Action W.State (Unit {0})
  write_response r = do W.write_all (response_bytes r); W.flush

  unfoldable pub write_datagram : List ℕ → Action W.State (Unit {0})
  write_datagram payload =
      if ltb max_datagram (length payload)
      then fail (record { kind = invalid_input; message = text "datagram too large" })
      else W.write_all (to_be_bytes (length payload % 2 ^ 16) ++ payload)
