-- ===== src/Client/Quic.antt =====
-- crates/proxy-client/src/quic.rs: `QuicClient::open`, with the connection that it keeps.
use vpn_bridge.Client.Transport.{QuicOutcome, quic_opened, quic_rejected, quic_unavailable}
use vpn_bridge.Handshake.{heard, is_ok_status, refusal_detail}
use vpn_bridge.Io.{Error, Result, err, ok, other, timed_out}
use vpn_bridge.Io.Reader.{IsReader, Reader}
use vpn_bridge.Io.Text.{text}
use vpn_bridge.Io.Writer.{Writer}
use vpn_bridge.Prelude.{
  Bool, List, Option, false, if◌then◌else◌, none, refl, some, true, ℕ, ◌++◌, ◌≡◌, ◌≢◌,
}
use vpn_bridge.Proto.{
  Request, Response, Status, auth_failed, bad_request, forbidden, ok_status, read_response,
  response_bytes, server_error, unreachable, unsupported, write_request,
}
use vpn_bridge.Proto.RoundTrip.{read_response-bytes}

-- What the endpoint and the peer answer in one call; `none` means that `connect_timeout_ms` ran out.
pub record QuicNet (Connection : Type 0) : Type 0 where
  pub connect : Option (Result Connection)
  pub is_closed : Connection → Bool
  pub open_bi : Connection → Result (Unit {0})

abbrev pub status_outcome : List ℕ → Response → QuicOutcome
status_outcome shown resp =
    if is_ok_status resp.status
    then quic_opened
    else quic_rejected (record {
      kind = other;
      message = text "proxy refused " ++ shown ++ text ": " ++ refusal_detail resp;
    })

abbrev pub unavailable_as : List ℕ → Error → QuicOutcome
unavailable_as message e = quic_unavailable (record { kind = e.kind; message = message })

module _ {Connection : Type 0} (net : QuicNet Connection) where
  -- The connection to use, with the slot that holds the shared one.
  abbrev pub Slot : Type 0
  Slot = Option Connection

  abbrev pub fresh : Slot → Option (Result Connection) → Result Connection × Slot
  fresh slot (some (ok c)) = (ok c, some c)
  fresh slot (some (err e)) = (err e, slot)
  fresh slot none =
      (err (record { kind = timed_out; message = text "QUIC connection timed out" }), slot)

  unfoldable pub connection : Slot → Result Connection × Slot
  connection none = fresh none net.connect
  connection (some c) = if net.is_closed c then fresh (some c) net.connect else (ok c, some c)

  module _ (W : Writer) (R : Reader) (shown : List ℕ) where
    -- The response, if it came in time: any but a status is a reason to give the connection up.
    abbrev pub outcome_of :
        Slot → (in_time : Bool) → Result (Response × R.State) → QuicOutcome × Slot
    outcome_of slot true (ok (resp, s)) = (status_outcome shown resp, slot)
    outcome_of slot true (err e) =
        (unavailable_as (text "reading QUIC proxy response for " ++ shown) e, none)
    outcome_of slot false _ = (
      quic_unavailable (record {
        kind = timed_out;
        message = text "QUIC proxy response timed out for " ++ shown;
      }),
      none,
    )

    abbrev pub request_sent :
        Slot → (in_time : Bool) → R.State → Result (Unit {0} × W.State) → QuicOutcome × Slot
    request_sent slot in_time s (ok (_, w)) = outcome_of slot in_time (read_response R s)
    request_sent slot in_time s (err e) =
        (unavailable_as (text "sending QUIC proxy request for " ++ shown) e, none)

    abbrev pub stream_opened :
        Request
        → Slot
        → (in_time : Bool) → W.State
        → R.State
        → Result (Unit {0})
        → QuicOutcome × Slot
    stream_opened req slot in_time w s (ok _) = request_sent slot in_time s (write_request W req w)
    stream_opened req slot in_time w s (err e) =
        (unavailable_as (text "opening QUIC stream") e, none)

    abbrev pub with_connection :
        Request
        → (in_time : Bool) → W.State
        → R.State
        → Result Connection × Slot
        → QuicOutcome × Slot
    with_connection req in_time w s (ok c, slot) =
        stream_opened req slot in_time w s (net.open_bi c)
    with_connection req in_time w s (err e, slot) = (quic_unavailable e, slot)

    -- `open`: `w` and `s` are the two halves of the stream that `open_bi` gives.
    unfoldable pub quic_open :
        Request → (in_time : Bool) → W.State → R.State → Slot → QuicOutcome × Slot
    unfolding connection write_request read_response
    quic_open req in_time w s slot = with_connection req in_time w s (connection slot)

    -- A connection that is kept has answered: it is the one that was used.
    abbrev pub KeptAfter : Slot → QuicOutcome × Slot → Type 0
    KeptAfter used (quic_opened, slot) = slot ≡ used
    KeptAfter used (quic_rejected e, slot) = slot ≡ used
    KeptAfter used (quic_unavailable e, slot) = slot ≡ none

    fresh_live :
        (slot : Slot) (answer : Option (Result Connection)) (c : Connection)
        → (fresh slot answer).0 ≡ ok c
        → fresh slot answer ≡ (ok c, some c)
    fresh_live slot (some (ok c')) c h = cc
    fresh_live slot (some (err e)) c h = cc
    fresh_live slot none c h = cc

    -- What the call makes of a response: the flow is open, or rejected with the server's words.
    abbrev pub ByStatus : Response → QuicOutcome → Type 0
    ByStatus resp quic_opened = resp.status ≡ ok_status
    ByStatus resp (quic_rejected e) =
        (resp.status ≢ ok_status)
        × (e.message ≡ text "proxy refused " ++ shown ++ text ": " ++ refusal_detail (heard resp))
    ByStatus resp (quic_unavailable e) = ⊥

    status_outcome-ByStatus :
        (code : Status) (message : List ℕ)
        → ByStatus
            (record { status = code; message = message })
            (status_outcome shown (heard (record { status = code; message = message })))
    status_outcome-ByStatus ok_status message = refl
    status_outcome-ByStatus auth_failed message = (λ e. cc, refl)
    status_outcome-ByStatus forbidden message = (λ e. cc, refl)
    status_outcome-ByStatus unreachable message = (λ e. cc, refl)
    status_outcome-ByStatus bad_request message = (λ e. cc, refl)
    status_outcome-ByStatus unsupported message = (λ e. cc, refl)
    status_outcome-ByStatus server_error message = (λ e. cc, refl)

    module _ (L : IsReader R) where
      open L use {pending}

      -- On a live stream whose peer answers with the response `resp`, the flow is opened exactly if
      -- the status is `Ok`, and is rejected, with the status and the first 255 bytes of the message,
      -- otherwise; in both cases the connection is kept. Conditions: a connection is there, or can be
      -- made, a stream can be opened on it, the request is written, and the response comes in time.
      quic_open-answered :
          (req : Request) (w w' : W.State) (s : R.State) (slot : Slot) (c : Connection)
          (resp : Response) (rest : List ℕ)
          → connection slot ≡ (ok c, some c)
          → net.open_bi c ≡ ok tt
          → write_request W req w ≡ ok (tt, w')
          → pending s ≡ response_bytes resp ++ rest
          → ByStatus resp (quic_open req true w s slot).0
            × ((quic_open req true w s slot).1 ≡ some c)
      unfolding quic_open
      quic_open-answered req w w' s slot c resp rest got opened wrote answered =
          let (t, read, left) = read_response-bytes L resp rest s answered in
          rw (got, opened, wrote, read) (status_outcome-ByStatus resp.status resp.message, refl)
