-- ===== src/Net.antt =====
-- `std::net`: addresses as their octets, and socket addresses. An IPv6 socket address also carries
-- a flow label and a scope, which `SocketAddr::from((ip, port))` sets to 0.
use vpn_bridge.Prelude.{
  ◌++◌, [], ◌∷◌, take, same_bytes, ℕ, ◌<◌, ◌≡◌, ◌^◌, Bool, true, false, List, length, All,
  replicate,
}
use vpn_bridge.Io.{IsByte}

-- `v4` holds 4 octets and `v6` holds 16.
pub data IpAddr : Type 0 where
  v4 : List ℕ → IpAddr
  v6 : List ℕ → IpAddr

pub data SocketAddr : Type 0 where
  v4 : List ℕ → ℕ → SocketAddr
  v6 : List ℕ → (port flowinfo scope_id : ℕ) → SocketAddr

abbrev pub is_ipv4 : IpAddr → Bool
is_ipv4 (v4 o) = true
is_ipv4 (v6 o) = false

abbrev pub ip_of : SocketAddr → IpAddr
ip_of (v4 o port) = v4 o
ip_of (v6 o port f s) = v6 o

abbrev pub port_of : SocketAddr → ℕ
port_of (v4 o port) = port
port_of (v6 o port f s) = port

-- `SocketAddr::new`
abbrev pub socket_addr : IpAddr → ℕ → SocketAddr
socket_addr (v4 o) port = v4 o port
socket_addr (v6 o) port = v6 o port 0 0

abbrev pub unspecified_v4 : IpAddr
unspecified_v4 = v4 (replicate 4 0)

abbrev pub unspecified_v6 : IpAddr
unspecified_v6 = v6 (replicate 16 0)

-- What the Rust types guarantee of an address.
abbrev pub IsOctets : ℕ → List ℕ → Type 0
IsOctets n o = (length o ≡ n) × All IsByte o

abbrev pub IsPort : ℕ → Type 0
IsPort p = p < 2 ^ 16

abbrev pub IsSocketAddr : SocketAddr → Type 0
IsSocketAddr (v4 o port) = IsOctets 4 o × IsPort port
IsSocketAddr (v6 o port f s) = IsOctets 16 o × IsPort port

-- `a.is_ipv4() == b.is_ipv4()`
abbrev pub same_family : IpAddr → IpAddr → Bool
same_family (v4 a) (v4 b) = true
same_family (v6 a) (v6 b) = true
same_family _ _ = false

-- `IpAddr::is_loopback`
abbrev pub is_loopback : IpAddr → Bool
is_loopback (v4 o) = same_bytes (take 1 o) (127 ∷ [])
is_loopback (v6 o) = same_bytes o (replicate 15 0 ++ (1 ∷ []))
