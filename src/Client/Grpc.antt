-- ===== src/Client/Grpc.antt =====
-- crates/proxy-client/src/grpc.rs: `GrpcClient::open`, from the request to the response. The two tasks
-- that it starts are in Client/Frames.antt.
use vpn_bridge.Checks.{bail}
use vpn_bridge.Handshake.{heard, in_context, is_ok_status, refusal_detail}
use vpn_bridge.Io.{Result, err, ok, other}
use vpn_bridge.Io.Reader.{IsReader, Reader}
use vpn_bridge.Io.Text.{text}
use vpn_bridge.Io.Writer.{Writer}
use vpn_bridge.Prelude.{
  Bool, List, Option, false, if◌then◌else◌, none, refl, some, true, ℕ, ◌++◌, ◌≡◌, ◌≢◌,
}
use vpn_bridge.Proto.{
  Request, Response, Status, auth_failed, bad_request, forbidden, ok_status, read_response,
  response_bytes, server_error, unreachable, unsupported, write_request,
}
use vpn_bridge.Proto.RoundTrip.{read_response-bytes}

module _ (W : Writer) (R : Reader) (shown : List ℕ) where
  abbrev pub grpc_status : Response → R.State → Result R.State
  grpc_status resp s =
      if is_ok_status resp.status
      then ok s
      else bail (text "proxy refused " ++ shown ++ text ": " ++ refusal_detail resp)

  -- The response, if it came in time.
  abbrev pub grpc_response : (in_time : Bool) → Result (Response × R.State) → Result R.State
  grpc_response true (ok (resp, s)) = grpc_status resp s
  grpc_response true (err e) = in_context (text "reading gRPC proxy response for " ++ shown) (err e)
  grpc_response false _ =
      err (record { kind = other; message = text "gRPC proxy response timed out for " ++ shown })

  -- The call of the service, `none` if it does not answer within `connect_timeout_ms`.
  abbrev pub grpc_called : (in_time : Bool) → R.State → Option (Result (Unit {0})) → Result R.State
  grpc_called in_time s (some (ok _)) = grpc_response in_time (read_response R s)
  grpc_called in_time s (some (err e)) =
      in_context (text "opening gRPC fallback stream for " ++ shown) (err e)
  grpc_called in_time s none =
      err
        (record { kind = other; message = text "gRPC fallback connection timed out for " ++ shown })

  abbrev pub grpc_encoded :
      (in_time : Bool)
      → R.State
      → Option (Result (Unit {0}))
      → Result (Unit {0} × W.State)
      → Result R.State
  grpc_encoded in_time s called (ok (_, w)) = grpc_called in_time s called
  grpc_encoded in_time s called (err e) = in_context (text "encoding gRPC proxy request") (err e)

  -- `open`: `W` is the buffer that the request is encoded into.
  unfoldable pub grpc_open :
      Request → (in_time : Bool) → W.State → R.State → Option (Result (Unit {0})) → Result R.State
  unfolding write_request read_response
  grpc_open req in_time w s called = grpc_encoded in_time s called (write_request W req w)

  module _ (L : IsReader R) where
    open L use {pending}

    -- What the call makes of a response: the stream behind it, or the server's words.
    abbrev pub Settled : Response → List ℕ → Result R.State → Type 0
    Settled resp rest (ok s) = (resp.status ≡ ok_status) × (pending s ≡ rest)
    Settled resp rest (err e) =
        (resp.status ≢ ok_status)
        × (e.message ≡ text "proxy refused " ++ shown ++ text ": " ++ refusal_detail (heard resp))

    grpc_status-Settled :
        (code : Status) (message rest : List ℕ) (s : R.State)
        → pending s ≡ rest
        → Settled
            (record { status = code; message = message })
            rest
            (grpc_status (heard (record { status = code; message = message })) s)
    grpc_status-Settled ok_status message rest s p = (refl, p)
    grpc_status-Settled auth_failed message rest s p = (λ e. cc, refl)
    grpc_status-Settled forbidden message rest s p = (λ e. cc, refl)
    grpc_status-Settled unreachable message rest s p = (λ e. cc, refl)
    grpc_status-Settled bad_request message rest s p = (λ e. cc, refl)
    grpc_status-Settled unsupported message rest s p = (λ e. cc, refl)
    grpc_status-Settled server_error message rest s p = (λ e. cc, refl)

    -- Where the service answers with the response `resp`, the flow is open exactly if the status is
    -- `Ok`, with the stream right behind the response, and fails with the status and the first 255
    -- bytes of the message otherwise. Conditions: the request can be encoded, the service is reached,
    -- and its response comes in time.
    grpc_open-answered :
        (req : Request) (w w' : W.State) (s : R.State) (resp : Response) (rest : List ℕ)
        → write_request W req w ≡ ok (tt, w')
        → pending s ≡ response_bytes resp ++ rest
        → Settled resp rest (grpc_open req true w s (some (ok tt)))
    unfolding grpc_open
    grpc_open-answered req w w' s resp rest wrote answered =
        let (t, read, left) = read_response-bytes L resp rest s answered in
        rw (wrote, read) (grpc_status-Settled resp.status resp.message rest t left)
