-- ===== src/Proto/Wire.antt =====
-- The layout of the messages, as in the comment at the top of crates/proto/src/lib.rs, and that the
-- encoders write it.
use vpn_bridge.Prelude.{
  ℕ, ◌%◌, ◌<◌, ◌≡◌, min, List, ◌∷◌, ◌++◌, append_assoc, length, take, length-take, take-min, arith,
}
use vpn_bridge.Net.{v4, v6}
use vpn_bridge.Proto.Types.{
  magic, version, atyp_ipv4, atyp_domain, atyp_ipv6, cmd_code, status_code, Address, ip, domain,
  Request, Response,
}
use vpn_bridge.Proto.Encode.{to_be_bytes, encode, request_bytes, response_bytes}

-- What an address keeps on its way over the wire: a domain at most 255 bytes, and an IPv6 address
-- neither flow label nor scope.
abbrev pub on_wire : Address → Address
on_wire (ip (v4 octets port)) = ip (v4 octets port)
on_wire (ip (v6 octets port f s)) = ip (v6 octets port 0 0)
on_wire (domain host port) = domain (take 255 host) port

-- ATYP ADDR PORT
abbrev pub address_layout : Address → List ℕ
address_layout (ip (v4 octets port)) = atyp_ipv4 ∷ (octets ++ to_be_bytes port)
address_layout (ip (v6 octets port f s)) = atyp_ipv6 ∷ (octets ++ to_be_bytes port)
address_layout (domain host port) = atyp_domain ∷ length host ∷ (host ++ to_be_bytes port)

wire_length : (xs : List ℕ) → min (length xs) 255 % 256 ≡ length (take 255 xs)
wire_length xs = omega (arith, length-take 255 xs)

pub encode_layout : (a : Address) (out : List ℕ) → encode a out ≡ out ++ address_layout (on_wire a)
unfolding encode
encode_layout (ip (v4 octets port)) out = simp append_assoc
encode_layout (ip (v6 octets port f s)) out = simp append_assoc
encode_layout (domain host port) out = rw (wire_length host, take-min 255 host) (simp append_assoc)

pub request_layout :
    (r : Request)
    → length r.token < 256
    → request_bytes r
      ≡ magic
        ++ (version
            ∷ cmd_code r.cmd
            ∷ length r.token
            ∷ (r.token ++ address_layout (on_wire r.target)))
unfolding request_bytes
request_layout r h =
    let e : length r.token % 256 ≡ length r.token = omega arith in rw (encode_layout, e)

pub response_layout :
    (r : Response)
    → response_bytes r
      ≡ magic ++ (version ∷ status_code r.status ∷ length (take 255 r.message) ∷ take 255 r.message)
unfolding response_bytes
response_layout r = rw (wire_length r.message, take-min 255 r.message)
