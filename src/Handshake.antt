-- ===== src/Handshake.antt =====
-- The client side of a handshake, in the form that the host agent (crates/host/src/tunnel.rs) and
-- both transports of the proxy client (crates/proxy-client/src/quic.rs and grpc.rs) hold: what the
-- error of a refused flow says, and what makes a response an acceptance.
use vpn_bridge.Io.{Result, err, ok}
use vpn_bridge.Io.Text.{from_utf8_lossy, text}
use vpn_bridge.Prelude.{Bool, List, false, if◌then◌else◌, is_empty, take, true, ℕ, ◌++◌}
use vpn_bridge.Proto.{Response, Status, ok_status, show_status}

abbrev pub is_ok_status : Status → Bool
is_ok_status ok_status = true
is_ok_status _ = false

-- The status, with the message behind it if there is one.
abbrev pub refusal_detail : Response → List ℕ
refusal_detail r =
    if is_empty r.message
    then show_status r.status
    else show_status r.status ++ text ": " ++ r.message

-- `.context(..)` of anyhow: the message in front is the new one.
abbrev pub in_context : {A : Type 0} → List ℕ → Result A → Result A
in_context message (ok a) = ok a
in_context message (err e) = err (record { kind = e.kind; message = message })

-- What a response sounds like when it has been on the wire.
abbrev pub heard : Response → Response
heard r = record r { message = from_utf8_lossy (take 255 r.message) }
