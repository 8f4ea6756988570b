-- ===== src/Tests/Data.antt =====
-- A network, a resolver and configurations for the tests.
use vpn_bridge.Client.Config.{ClientConfig}
use vpn_bridge.Host.Config.{HostConfig}
use vpn_bridge.Io.{Error, connection_reset, ok}
use vpn_bridge.Io.Text.{text}
use vpn_bridge.Net.{IpAddr, SocketAddr, ip_of, v4, v6}
use vpn_bridge.Prelude.{
  Bool, List, [], if◌then◌else◌, length, none, same_bytes, some, take, true, ℕ, ◌++◌, ◌∷◌,
}
use vpn_bridge.Proto.{Request, connect_tcp, domain}
use vpn_bridge.Routing.{NextHop}
use vpn_bridge.Server.Config.{ServerConfig}
use vpn_bridge.Session.{Network}
use vpn_bridge.Vm.Config.{VmConfig}

-- A network of whole octets, as its first octets.
abbrev pub octets_of : IpAddr → List ℕ
octets_of (v4 o) = o
octets_of (v6 o) = o

abbrev pub in_prefix : List ℕ → IpAddr → Bool
in_prefix prefix addr = same_bytes prefix (take (length prefix) (octets_of addr))

abbrev pub inner : SocketAddr
inner = v4 (10 ∷ 0 ∷ 0 ∷ 9 ∷ []) 443

abbrev pub outer : SocketAddr
outer = v4 (192 ∷ 0 ∷ 2 ∷ 7 ∷ []) 443

abbrev pub secret : List ℕ
secret = text "secret"

abbrev pub failure : Error
failure = record { kind = connection_reset; message = text "reset" }

-- Every name has an outer and an inner address; the first does not answer.
abbrev pub net : Network
net = record {
  lookup_host = λ host port. ok (outer ∷ inner ∷ []);
  lookup_in_time = λ host port. true;
  new_socket = λ v4. ok tt;
  bind_socket = λ a. ok tt;
  connect = λ a. if in_prefix (10 ∷ []) (ip_of a) then some (ok tt) else none;
  bind_udp = λ a. ok tt;
  connect_udp = λ a. ok tt;
  write = λ bytes. ok tt;
  shutdown = ok tt;
  relay = λ a. ok tt;
  show_addr = λ a. text "address";
}

abbrev pub vm_config : VmConfig (List ℕ)
vm_config = record {
  listen = v4 (127 ∷ 0 ∷ 0 ∷ 1 ∷ []) 17321;
  token = secret;
  allow = [];
  deny = (127 ∷ []) ∷ [];
  bind_ip = none;
  connect_timeout_ms = 8000;
  udp_timeout_secs = 60;
  tcp_nodelay = true;
}

abbrev pub server_config : ServerConfig (List ℕ)
server_config = record {
  listen = v4 (0 ∷ 0 ∷ 0 ∷ 0 ∷ []) 4433;
  quic_enabled = true;
  grpc_enabled = true;
  quic_listen = none;
  grpc_listen = none;
  token = secret;
  server_name = text "vpnbridge.local";
  certificate = text "cert.pem";
  private_key = text "key.pem";
  allow = (10 ∷ []) ∷ [];
  deny = [];
  bind_ip = none;
  connect_timeout_ms = 8000;
  dns_timeout_ms = 5000;
  tcp_idle_timeout_secs = 300;
  udp_timeout_secs = 60;
  max_concurrent_streams = 4096;
}

abbrev pub client_config : ClientConfig (List ℕ)
client_config = record {
  server = outer;
  quic_enabled = true;
  grpc_enabled = true;
  quic_server = none;
  grpc_server = none;
  token = secret;
  server_name = text "vpnbridge.local";
  certificate = text "cert.pem";
  routes = (10 ∷ []) ∷ [];
  connect_timeout_ms = 5000;
  reconnect_interval_ms = 3000;
  tun = record {
    name = text "vpnquic0";
    address = 10 ∷ 212 ∷ 0 ∷ 1 ∷ [];
    netmask = 255 ∷ 255 ∷ 255 ∷ 0 ∷ [];
    mtu = 1400;
    auto_route = true;
  };
}

-- A network of whole octets has the address with zeros behind them.
abbrev pub first_address : List ℕ → IpAddr
first_address prefix = v4 (take 4 (prefix ++ (0 ∷ 0 ∷ 0 ∷ 0 ∷ [])))

abbrev pub host_config : HostConfig (List ℕ)
host_config = record {
  server = record {
    address = inner;
    token = secret;
    connect_timeout_ms = 5000;
    reconnect_interval_ms = 10000;
    tcp_nodelay = true;
  };
  tun = record {
    name = text "vpnbr0";
    address = 10 ∷ 211 ∷ 0 ∷ 1 ∷ [];
    netmask = 255 ∷ 255 ∷ 255 ∷ 0 ∷ [];
    mtu = 1500;
    auto_route = true;
  };
  routes = (10 ∷ []) ∷ [];
  exclude = (11 ∷ []) ∷ [];
  dns = none;
}

-- What a host asks for.
abbrev pub request : Request
request = record { cmd = connect_tcp; token = secret; target = domain (text "a.test") 443 }

abbrev pub stranger : Request
stranger = record { cmd = connect_tcp; token = text "guess"; target = domain (text "a.test") 443 }

abbrev pub gateway : NextHop
gateway = record { dev = text "eth0"; gateway = none; src = none }
