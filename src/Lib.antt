-- ===== src/Lib.antt =====
-- A verification library for the bridge: two agents (crates/host on the host, crates/vm in the VM)
-- that carry single TCP and UDP flows over one TCP connection each, and a second pair
-- (crates/proxy-client, crates/proxy-server) that carries them over QUIC streams with a gRPC fallback.
-- All four speak the protocol of crates/proto.
--
-- Files and the code that they model:
--   Proto/ (crates/proto/src/lib.rs): Types.antt holds the constants and message types, Encode.antt
--     `encode`, `write_to` and `write_datagram`, Decode.antt `read_from` and `read_datagram`. Theorems:
--     Wire.antt (layouts), RoundTrip.antt, Soundness.antt, Datagrams.antt, Exchange.antt.
--   Access/ (`token_matches` and `permits`, which both servers hold): Token.antt, Policy.antt.
--   Session/ (what crates/vm/src/server.rs and crates/proxy-server/src/server.rs share): events and the
--     network's answers (Defs.antt), the dialling of candidates (Dial/), the decision about a request
--     (Verdict.antt), the destinations reached (Reach.antt, Own.antt) and the loops of a UDP relay
--     (Relay.antt).
--   Vm/ (crates/vm/src): Agent.antt is `main` of main.rs and `run` of server.rs, Locate.antt the search
--     of main.rs, Config.antt and Load.antt are config.rs, Server/Defs.antt is server.rs with `handle`,
--     `serve_tcp` and `serve_udp`; Server/Verdict.antt and Server/Safety.antt are about it.
--   Server/ (crates/proxy-server/src): Program.antt, Startup.antt and Locate.antt are main.rs, Config.antt
--     and Load.antt config.rs; Endpoint.antt is `run` and `serve_connection` of server.rs,
--     Handler/Defs.antt its `handle_stream` and `handle_request` (Handler/Verdict.antt and
--     Handler/Safety.antt are about it), Copy.antt its `copy_with_activity`, Idle.antt `wait_for_idle`,
--     Flow.antt the two together, Relay.antt `relay_udp`; Grpc.antt is `open` of grpc.rs and
--     Frames.antt its two tasks; Certificate.antt is certificate.rs.
--   Client/ (crates/proxy-client/src): Running.antt and Locate.antt are main.rs, Config.antt and
--     Load.antt config.rs, Transport.antt transport.rs, with `open` as `open_flow` (Fallback.antt is about it) and `new` in
--     Opening.antt; Quic.antt is quic.rs, Grpc.antt and Frames.antt are grpc.rs, and Accepted.antt
--     with Accepted/ joins the transports to their attempts. Dispatch.antt and Relays.antt are relay.rs,
--     Device.antt device.rs, Route.antt and Commands.antt route.rs.
--   Host/ (crates/host/src): Startup.antt (the order in `main`, with Pinned.antt about the route to the
--     agent), Running.antt (all of it), Dispatch.antt,
--     Device.antt and Locate.antt are main.rs; Config.antt and Load.antt are config.rs; Tunnel.antt, Uplink.antt
--     and Downlink.antt are tunnel.rs, with both ends of its handshake in Handshakes.antt; Dns.antt and
--     Forwarder.antt are dns.rs, with Answers.antt about one query; Route.antt, Lookup.antt and Commands.antt are route.rs.
--   Defaults.antt in Server/, Client/ and Host/ holds the defaults of each configuration.
--   Across the crates: Host/Forwarding.antt and Client/Forwarding.antt follow a captured flow to the
--     relay of the server, Host/Delivery.antt and Client/Delivery.antt a datagram back to the
--     application, Frames/Transparent.antt the bytes through the gRPC frames of both sides, and
--     Locating/Agreed.antt compares the four searches for a configuration file.
--   What several crates repeat: Handshake.antt (the reading of a refusal), Checks.antt (the shape of
--     every `validate`), Frames.antt (streams of frames, with the local side of a UDP flow in Frames/Local.antt), Streams.antt (what the IP stack accepts),
--     Locating.antt (paths), Loading.antt (`load`), Shell.antt (`std::process::Command`), Tun.antt (the TUN interface) and
--     Routing.antt (a routing table, of which a failing
--     command is assumed to leave it as it is). They hold what is not in crates/ as records of operations.
--   Io/ and Net.antt are what is used of the standard library and of tokio's streams.
--   Tests/ runs the theorems on concrete inputs.
--
-- How the parts interact. The configuration that `load` or `main` has checked is what the sessions run
-- with. A session reads its request with the reader that Proto/ models, and answers with its writer. The
-- clients give what the IP stack accepts to `dispatch`, which opens a tunnel or a transport for it. The
-- route managers work on a routing table, which the commands of Host/Commands.antt and
-- Client/Commands.antt implement over a shell.
--
-- Conventions. Bytes, ports and octets are natural numbers, with the ranges that Rust's types give
-- them stated where a theorem relies on them; casts and wrapping are written out (`% 256`,
-- `% 2 ^ 8`, `% 2 ^ 16`). A text is its UTF-8 bytes. A stream that is read or written is a parameter
-- (Io/Reader and Io/Writer by the operation, Io/Source and Io/Sink by the block) with the documented
-- behaviour of tokio's operations as its laws, and streams in memory (Io/Cursor.antt, Io/Memory.antt,
-- Frames/Memory.antt) meet them. A session of a server is the list of its events with its result;
-- resolver, sockets, clock and relays are the record `Network`. Whether a timeout runs out is an input.
-- `ipnet::IpNet` is a type parameter with its `contains`. A loop over what arrives from outside (the
-- listener, a QUIC connection, the IP stack, the socket of the DNS forwarder) takes the list of what arrives.
--
-- Fuel. The retry loop of the host's `Client::open` may run forever; with more fuel than failed attempts
-- before the first successful one it ends. The loops that read a stream block by block (`transfer`) or
-- message by message (`feed`, `downlink`, `download`) take one unit for each read; more fuel than the
-- stream has bytes, frames or datagrams is enough, since each read but the last takes at least one off.
--
-- Not modelled: the TLS and QUIC endpoints and the loading of their certificates, which are calls of quinn, rustls and tonic; `copy_bidirectional`,
-- whose outcome is an input; the creation of the TUN devices; the parsing of TOML (a parameter of `load`)
-- and of command lines; signals, but as the end of a run; and log lines, with the
-- summaries that `--check` prints.
pub mod Prelude
pub mod Io
pub mod Net
pub mod Proto
pub mod Access
pub mod Checks
pub mod Tun
pub mod Shell
pub mod Streams
pub mod Locating
pub mod Loading
pub mod Frames
pub mod Session
pub mod Handshake
pub mod Routing
pub mod Vm
pub mod Server
pub mod Client
pub mod Host
pub mod Tests
