-- ===== src/Tests/Wire.antt =====
-- Messages in memory.
use vpn_bridge.Io.{IsByte, ok}
use vpn_bridge.Io.Cursor.{buffer, buffer-IsWriter, cursor, cursor-IsReader}
use vpn_bridge.Io.Reader.{Reads}
use vpn_bridge.Io.Text.{is_utf8, text}
use vpn_bridge.Prelude.{All, List, [], arith, refl, true, ℕ, ◌++◌, ◌≡◌}
use vpn_bridge.Proto.{
  Address, IsAddress, cmd_from_u8, domain, read_address, read_request, read_request_body,
  request_bytes, write_request,
}
use vpn_bridge.Proto.Exchange.{read_request-write_request}
use vpn_bridge.Proto.Soundness.{Accepted, read_request_sound}
use vpn_bridge.Proto.Wire.{on_wire}
use vpn_bridge.Tests.Data.{request, secret}

abbrev address : Address
address = domain (text "a.test") 443

bytes_of_request : All IsByte (request_bytes request)
unfolding request_bytes
bytes_of_request = ground arith

request_read : read_request cursor (request_bytes request) ≡ ok (request, [])
unfolding read_request request_bytes read_request_body cmd_from_u8 is_utf8 read_address
request_read = refl

request_written : write_request buffer request [] ≡ ok (tt, request_bytes request)
unfolding write_request
request_written = refl

is_text : is_utf8 secret ≡ true
unfolding is_utf8
is_text = refl

is_text_address : IsAddress (on_wire address)
unfolding is_utf8
is_text_address = (refl, omega arith)

read_request_sound_example : Accepted cursor-IsReader (request_bytes request) request []
unfolding cursor-IsReader buffer-IsWriter
read_request_sound_example =
    read_request_sound cursor-IsReader (request_bytes request) [] request bytes_of_request
      request_read

read_request-write_request_example :
    (bs : List ℕ) × (request_bytes request ≡ [] ++ bs)
    × ((rest : List ℕ) → Reads cursor-IsReader (read_request cursor) (bs ++ rest) request rest)
unfolding cursor-IsReader buffer-IsWriter
read_request-write_request_example =
    read_request-write_request buffer-IsWriter cursor-IsReader request [] (request_bytes request)
      is_text is_text_address request_written
