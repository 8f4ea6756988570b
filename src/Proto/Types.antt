-- ===== src/Proto/Types.antt =====
-- Commands, status codes, target addresses, requests and responses. A Rust `String` is its bytes.
use vpn_bridge.Prelude.{ℕ, Option, none, some, List, [], ◌==◌, ◌≡◌, true, if◌then◌else◌}
use vpn_bridge.Io.Text.{text, is_utf8}
use vpn_bridge.Net.{SocketAddr, IsSocketAddr, IsPort, port_of, ip_of, IpAddr}

abbrev pub magic : List ℕ
magic = text "VBRG"

abbrev pub version : ℕ
version = 1

-- Largest datagram of a `BindUdp` session: `u16::MAX`.
abbrev pub max_datagram : ℕ
max_datagram = 65_535

abbrev pub atyp_ipv4 : ℕ
atyp_ipv4 = 1

abbrev pub atyp_domain : ℕ
atyp_domain = 3

abbrev pub atyp_ipv6 : ℕ
atyp_ipv6 = 4

pub data Cmd : Type 0 where
  connect_tcp bind_udp : Cmd

-- `self.cmd as u8`
abbrev pub cmd_code : Cmd → ℕ
cmd_code connect_tcp = 1
cmd_code bind_udp = 2

unfoldable pub cmd_from_u8 : ℕ → Option Cmd
cmd_from_u8 v = if v == 1 then some connect_tcp else if v == 2 then some bind_udp else none

pub data Status : Type 0 where
  ok_status auth_failed forbidden unreachable bad_request unsupported server_error : Status

-- `self.status as u8`
abbrev pub status_code : Status → ℕ
status_code ok_status = 0
status_code auth_failed = 1
status_code forbidden = 2
status_code unreachable = 3
status_code bad_request = 4
status_code unsupported = 5
status_code server_error = 6

unfoldable pub status_from_u8 : ℕ → Option Status
status_from_u8 v =
    if v == 0
    then some ok_status
    else if v == 1
    then some auth_failed
    else if v == 2
    then some forbidden
    else if v == 3
    then some unreachable
    else if v == 4
    then some bad_request
    else if v == 5
    then some unsupported
    else if v == 6
    then some server_error
    else none

-- `Display` of a status.
abbrev pub show_status : Status → List ℕ
show_status ok_status = text "ok"
show_status auth_failed = text "authentication failed"
show_status forbidden = text "target not allowed by server policy"
show_status unreachable = text "target unreachable from the VM"
show_status bad_request = text "malformed request"
show_status unsupported = text "unsupported command"
show_status server_error = text "server error"

pub data Address : Type 0 where
  ip : SocketAddr → Address
  domain : (host : List ℕ) (port : ℕ) → Address

unfoldable pub address_port : Address → ℕ
address_port (ip sa) = port_of sa
address_port (domain host port) = port

unfoldable pub address_ip : Address → Option IpAddr
address_ip (ip sa) = some (ip_of sa)
address_ip (domain host port) = none

pub record Request : Type 0 where
  pub cmd : Cmd
  pub token : List ℕ
  pub target : Address

pub record Response : Type 0 where
  pub status : Status
  pub message : List ℕ

-- `Response::ok`
abbrev pub response_ok : Response
response_ok = record { status = ok_status; message = [] }

-- `Response::err`
abbrev pub response_err : Status → List ℕ → Response
response_err status message = record { status = status; message = message }

-- What the Rust types guarantee of an address: octets and ports in range, and valid UTF-8.
abbrev pub IsAddress : Address → Type 0
IsAddress (ip sa) = IsSocketAddr sa
IsAddress (domain host port) = (is_utf8 host ≡ true) × IsPort port
