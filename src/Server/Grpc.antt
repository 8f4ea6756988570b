-- ===== src/Server/Grpc.antt =====
-- crates/proxy-server/src/grpc.rs: `open`, from the first message of a call to the handler that it
-- starts. The tasks that carry the handler's bytes are in Server/Frames.antt.
use vpn_bridge.Io.{Result, err, ok}
use vpn_bridge.Io.Cursor.{cursor, cursor-IsReader}
use vpn_bridge.Io.Text.{is_utf8, text}
use vpn_bridge.Io.Writer.{IsWriter, Writer}
use vpn_bridge.Net.{IpAddr}
use vpn_bridge.Prelude.{
  Bool, List, Option, [], ap, append-nil, none, some, sym, true, ℕ, ◌++◌, ◌∙◌, ◌≡◌,
}
use vpn_bridge.Proto.{IsAddress, Request, read_request, write_request}
use vpn_bridge.Proto.Exchange.{read_request-write_request}
use vpn_bridge.Proto.Wire.{on_wire}
use vpn_bridge.Server.Config.{ServerConfig}
use vpn_bridge.Server.Frames.{GrpcStatus, deadline_exceeded, invalid_argument}
use vpn_bridge.Server.Handler.Defs.{handle_request}
use vpn_bridge.Server.Handler.Safety.{InPolicy, request-Only}
use vpn_bridge.Session.{Network, Only, Trace}

-- What a call gets: a stream, or a status.
pub data Opened (A : Type 0) : Type 0 where
  accepted : A → Opened A
  turned_away : GrpcStatus → Opened A

abbrev pub invalid : {A : Type 0} → List ℕ → Opened A
invalid message = turned_away (record { code = invalid_argument; message = message })

-- The first message, or `none` if it does not come within `REQUEST_TIMEOUT`.
abbrev pub FirstMessage : Type 0
FirstMessage = Option (Result (Option (List ℕ)))

unfoldable pub first_payload : FirstMessage → Opened (List ℕ)
first_payload none =
    turned_away (record { code = deadline_exceeded; message = text "proxy request timed out" })
first_payload (some (err e)) = invalid (text "reading proxy request: " ++ e.message)
first_payload (some (ok none)) = invalid (text "missing proxy request")
first_payload (some (ok (some payload))) = accepted payload

-- `Request::read_from(&mut Cursor::new(..))`; what stands behind the request is dropped.
abbrev pub request_read : Result (Request × List ℕ) → Opened Request
request_read (ok (req, rest)) = accepted req
request_read (err e) = invalid (text "invalid proxy request: " ++ e.message)

abbrev pub opened_then : {A B : Type 0} → (A → Opened B) → Opened A → Opened B
opened_then f (accepted a) = f a
opened_then f (turned_away status) = turned_away status

unfoldable pub first_request : FirstMessage → Opened Request
unfolding first_payload read_request
first_request first =
    opened_then (λ payload. request_read (read_request cursor payload)) (first_payload first)

module _ (net : Network) {IpNet : Type 0} (contains : IpNet → IpAddr → Bool)
    (cfg : ServerConfig IpNet) where
  -- A call that is accepted runs the handler of the streams.
  unfoldable pub service_open : FirstMessage → Opened (Trace (Unit {0}))
  unfolding first_request handle_request
  service_open first =
      opened_then (λ req. accepted (handle_request net contains cfg req)) (first_request first)

  -- A status goes to the caller, and nothing else happens.
  abbrev pub OnlyPermitted : Opened (Trace (Unit {0})) → Type 0
  OnlyPermitted (accepted m) = Only (InPolicy net contains cfg) m
  OnlyPermitted (turned_away status) = Unit {0}

  served-OnlyPermitted :
      (req : Opened Request)
      → OnlyPermitted (opened_then (λ r. accepted (handle_request net contains cfg r)) req)
  served-OnlyPermitted (accepted req) = request-Only net contains cfg req
  served-OnlyPermitted (turned_away status) = tt

  -- Whatever a caller of the gRPC service sends, and whatever the resolver and the network answer:
  -- the server dials, connects and relays to no address but those that its configuration permits.
  pub service_open-permitted : (first : FirstMessage) → OnlyPermitted (service_open first)
  unfolding service_open
  service_open-permitted first = served-OnlyPermitted (first_request first)

  module _ {W : Writer} (M : IsWriter W) where
    open M use {written}

    read_back :
        (req : Request) (w w' : W.State)
        → is_utf8 req.token ≡ true
        → IsAddress (on_wire req.target)
        → write_request W req w ≡ ok (tt, w')
        → written w ≡ []
        → (t : List ℕ) × (read_request cursor (written w')
            ≡ ok (record req { target = on_wire req.target }, t))
    unfolding cursor-IsReader
    read_back req w w' utf8 address wrote fresh =
        let (bs, e, reads) =
          read_request-write_request M cursor-IsReader req w w' utf8 address wrote in
        let all : written w' ≡ bs ++ [] = e ∙ ap (λ l. l ++ bs) fresh ∙ sym (append-nil bs) in
        let (t, got, left) = reads [] (written w') all in (t, got)

    -- The two ends of a call: where the first frame is a request as the client encodes it into an
    -- empty buffer, the server accepts the call and handles just that request, its target in the
    -- form that it has on the wire. Conditions: the token is UTF-8, that form is an address that
    -- Rust's types admit, and the request can be encoded.
    pub service_open-write_request :
        (req : Request) (w w' : W.State)
        → is_utf8 req.token ≡ true
        → IsAddress (on_wire req.target)
        → write_request W req w ≡ ok (tt, w')
        → written w ≡ []
        → service_open (some (ok (some (written w'))))
          ≡ accepted (handle_request net contains cfg (record req { target = on_wire req.target }))
    unfolding service_open first_request first_payload
    service_open-write_request req w w' utf8 address wrote fresh =
        let (t, got) = read_back req w w' utf8 address wrote fresh in
        ap (λ r. opened_then (λ q. accepted (handle_request net contains cfg q)) (request_read r))
          got
