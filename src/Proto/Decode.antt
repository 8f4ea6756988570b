-- ===== src/Proto/Decode.antt =====
-- `Address::read_from`, `Request::read_from`, `Response::read_from` and `read_datagram`.
use vpn_bridge.Prelude.{
  ℕ, ◌-◌, Bool, Option, none, some, List, ◌++◌, ◌==◌, length, take, drop, replicate, same_bytes,
  if◌then◌else◌,
}
use vpn_bridge.Net.{v4, v6}
use vpn_bridge.Io.{Error, invalid_data, Action, pure, fail, ◌>>=◌, ◌>>◌}
use vpn_bridge.Io.Text.{text, show_u8, is_utf8, from_utf8_lossy}
use vpn_bridge.Io.Reader.{Reader}
use vpn_bridge.Proto.Types.{
  magic, version, atyp_ipv4, atyp_domain, atyp_ipv6, Cmd, cmd_from_u8, status_from_u8, Address, ip,
  domain, Request, Response,
}

abbrev pub invalid : List ℕ → Error
invalid message = record { kind = invalid_data; message = message }

-- `Vec::resize(len, 0)`
abbrev pub resize : ℕ → List ℕ → List ℕ
resize len buf = take len buf ++ replicate (len - length buf) 0

module _ {S : Type 0} where
  -- `if !test { return Err(..) }`
  abbrev pub ensure : Bool → List ℕ → Action S (Unit {0})
  ensure test message = if test then pure tt else fail (invalid message)

  -- `ok_or_else(..)?`
  abbrev pub or_fail : {A : Type 0} → Option A → List ℕ → Action S A
  or_fail none message = fail (invalid message)
  or_fail (some a) message = pure a

module _ (R : Reader) where
  unfoldable pub read_ipv4 : Action R.State Address
  read_ipv4 = do octets ← R.read_exact 4; port ← R.read_u16; pure (ip (v4 octets port))

  unfoldable pub read_ipv6 : Action R.State Address
  read_ipv6 = do octets ← R.read_exact 16; port ← R.read_u16; pure (ip (v6 octets port 0 0))

  unfoldable pub read_domain : Action R.State Address
  read_domain = do
    len ← R.read_u8
    buf ← R.read_exact len
    port ← R.read_u16
    ensure (is_utf8 buf) (text "domain is not valid utf-8")
    pure (domain buf port)

  -- The `match` on the address type.
  unfoldable pub read_address_of : ℕ → Action R.State Address
  unfolding read_ipv4 read_ipv6 read_domain
  read_address_of atyp =
      if atyp == atyp_ipv4
      then read_ipv4
      else if atyp == atyp_ipv6
      then read_ipv6
      else if atyp == atyp_domain
      then read_domain
      else fail (invalid (text "unknown address type " ++ show_u8 atyp))

  -- `Address::read_from`
  unfoldable pub read_address : Action R.State Address
  unfolding read_address_of
  read_address = do atyp ← R.read_u8; read_address_of atyp

  -- `Request::read_from` behind the command.
  unfoldable pub read_request_rest : Cmd → Action R.State Request
  read_request_rest cmd = do
    token_len ← R.read_u8
    token ← R.read_exact token_len
    ensure (is_utf8 token) (text "token is not valid utf-8")
    target ← read_address
    pure (record { cmd = cmd; token = token; target = target })

  -- `Request::read_from` behind the magic and the version.
  unfoldable pub read_request_body : Action R.State Request
  unfolding read_request_rest
  read_request_body = do
    code ← R.read_u8
    cmd ← or_fail (cmd_from_u8 code) (text "unknown command")
    read_request_rest cmd

  -- `Request::read_from` behind the magic.
  unfoldable pub read_request_version : Action R.State Request
  read_request_version = do
    v ← R.read_u8
    ensure (v == version) (text "unsupported protocol version " ++ show_u8 v)
    read_request_body

  -- `Request::read_from`
  unfoldable pub read_request : Action R.State Request
  unfolding read_request_version
  read_request = do
    got ← R.read_exact 4
    ensure (same_bytes got magic) (text "bad magic")
    read_request_version

  -- `Response::read_from` behind the magic and the version.
  unfoldable pub read_response_body : Action R.State Response
  read_response_body = do
    code ← R.read_u8
    status ← or_fail (status_from_u8 code) (text "unknown status code")
    len ← R.read_u8
    msg ← R.read_exact len
    pure (record { status = status; message = from_utf8_lossy msg })

  -- `Response::read_from`
  unfoldable pub read_response : Action R.State Response
  read_response = do
    got ← R.read_exact 4
    ensure (same_bytes got magic) (text "bad magic in response")
    v ← R.read_u8
    ensure (v == version) (text "unsupported protocol version " ++ show_u8 v ++ text " in response")
    read_response_body

  -- The length read, and the buffer with its first `len` bytes overwritten.
  unfoldable pub read_datagram : List ℕ → Action R.State (ℕ × List ℕ)
  read_datagram buf = do
    len ← R.read_u16
    payload ← R.read_exact len
    pure (len, payload ++ drop len (resize len buf))
