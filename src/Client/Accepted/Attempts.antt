-- ===== src/Client/Accepted/Attempts.antt =====
-- crates/proxy-client/src/quic.rs and crates/proxy-client/src/grpc.rs: an attempt that succeeds has read a
-- response that accepts.
use vpn_bridge.Client.Grpc.{grpc_called, grpc_encoded, grpc_open, grpc_response, grpc_status}
use vpn_bridge.Client.Quic.{
  QuicNet, connection, outcome_of, quic_open, request_sent, status_outcome, stream_opened,
  with_connection,
}
use vpn_bridge.Client.Transport.{quic_opened}
use vpn_bridge.Io.{Result, err, ok}
use vpn_bridge.Io.Reader.{Reader}
use vpn_bridge.Io.Writer.{Writer}
use vpn_bridge.Prelude.{Bool, List, Option, false, none, refl, some, true, ℕ, ◌≡◌}
use vpn_bridge.Proto.{
  Request, Response, Status, auth_failed, bad_request, forbidden, ok_status, read_response,
  server_error, unreachable, unsupported, write_request,
}

-- The response to the request was read from the stream, and it was an acceptance.
abbrev pub Accepts : (R : Reader) → R.State → Type 0
Accepts R s =
    (resp : Response) × (t : R.State) × (read_response R s ≡ ok (resp, t))
    × (resp.status ≡ ok_status)

status_opened :
    (shown : List ℕ) (code : Status) (message : List ℕ)
    → status_outcome shown (record { status = code; message = message }) ≡ quic_opened
    → code ≡ ok_status
status_opened shown ok_status message h = refl
status_opened shown auth_failed message h = cc
status_opened shown forbidden message h = cc
status_opened shown unreachable message h = cc
status_opened shown bad_request message h = cc
status_opened shown unsupported message h = cc
status_opened shown server_error message h = cc

module _ {Connection : Type 0} (net : QuicNet Connection) (W : Writer) (R : Reader)
    (shown : List ℕ) where
  response_opened :
      (slot : Option Connection) (in_time : Bool) (s : R.State) (r : Result (Response × R.State))
      → read_response R s ≡ r
      → (outcome_of net W R shown slot in_time r).0 ≡ quic_opened
      → Accepts R s
  response_opened slot true s (ok (resp, t)) e h =
      (resp, t, e, status_opened shown resp.status resp.message h)
  response_opened slot true s (err e') e h = cc
  response_opened slot false s r e h = cc

  request_opened :
      (slot : Option Connection) (in_time : Bool) (s : R.State) (r : Result (Unit {0} × W.State))
      → (request_sent net W R shown slot in_time s r).0 ≡ quic_opened
      → Accepts R s
  request_opened slot in_time s (ok (u, w)) h =
      response_opened slot in_time s (read_response R s) refl h
  request_opened slot in_time s (err e) h = cc

  stream_opened-Accepts :
      (req : Request) (slot : Option Connection) (in_time : Bool) (w : W.State) (s : R.State)
      (r : Result (Unit {0}))
      → (stream_opened net W R shown req slot in_time w s r).0 ≡ quic_opened
      → Accepts R s
  stream_opened-Accepts req slot in_time w s (ok u) h =
      request_opened slot in_time s (write_request W req w) h
  stream_opened-Accepts req slot in_time w s (err e) h = cc

  connected_opened :
      (req : Request) (in_time : Bool) (w : W.State) (s : R.State)
      (r : Result Connection × Option Connection)
      → (with_connection net W R shown req in_time w s r).0 ≡ quic_opened
      → Accepts R s
  connected_opened req in_time w s (ok c, slot) h =
      stream_opened-Accepts req slot in_time w s (net.open_bi c) h
  connected_opened req in_time w s (err e, slot) h = cc

  pub quic_open-Accepts :
      (req : Request) (in_time : Bool) (w : W.State) (s : R.State) (slot : Option Connection)
      → (quic_open net W R shown req in_time w s slot).0 ≡ quic_opened
      → Accepts R s
  unfolding quic_open
  quic_open-Accepts req in_time w s slot h =
      connected_opened req in_time w s (connection net slot) h

module _ (W : Writer) (R : Reader) (shown : List ℕ) where
  -- Whether the stream of the call is open.
  abbrev pub opened_result : Result R.State → Result (Unit {0})
  opened_result (ok s) = ok tt
  opened_result (err e) = err e

  status_accepts :
      (code : Status) (message : List ℕ) (s : R.State)
      → opened_result (grpc_status W R shown (record { status = code; message = message }) s)
        ≡ ok tt
      → code ≡ ok_status
  status_accepts ok_status message s h = refl
  status_accepts auth_failed message s h = cc
  status_accepts forbidden message s h = cc
  status_accepts unreachable message s h = cc
  status_accepts bad_request message s h = cc
  status_accepts unsupported message s h = cc
  status_accepts server_error message s h = cc

  response-Accepts :
      (in_time : Bool) (s : R.State) (r : Result (Response × R.State))
      → read_response R s ≡ r
      → opened_result (grpc_response W R shown in_time r) ≡ ok tt
      → Accepts R s
  response-Accepts true s (ok (resp, t)) e h =
      (resp, t, e, status_accepts resp.status resp.message t h)
  response-Accepts true s (err e') e h = cc
  response-Accepts false s r e h = cc

  call-Accepts :
      (in_time : Bool) (s : R.State) (called : Option (Result (Unit {0})))
      → opened_result (grpc_called W R shown in_time s called) ≡ ok tt
      → Accepts R s
  call-Accepts in_time s (some (ok u)) h = response-Accepts in_time s (read_response R s) refl h
  call-Accepts in_time s (some (err e)) h = cc
  call-Accepts in_time s none h = cc

  encoded-Accepts :
      (in_time : Bool) (s : R.State) (called : Option (Result (Unit {0})))
      (r : Result (Unit {0} × W.State))
      → opened_result (grpc_encoded W R shown in_time s called r) ≡ ok tt
      → Accepts R s
  encoded-Accepts in_time s called (ok (u, w)) h = call-Accepts in_time s called h
  encoded-Accepts in_time s called (err e) h = cc

  pub grpc_open-Accepts :
      (req : Request) (in_time : Bool) (w : W.State) (s : R.State)
      (called : Option (Result (Unit {0})))
      → opened_result (grpc_open W R shown req in_time w s called) ≡ ok tt
      → Accepts R s
  unfolding grpc_open
  grpc_open-Accepts req in_time w s called h =
      encoded-Accepts in_time s called (write_request W req w) h
