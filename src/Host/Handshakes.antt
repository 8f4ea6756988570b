-- ===== src/Host/Handshakes.antt =====
-- Both ends of a handshake: what the host writes is what the VM agent reads, and what the agent
-- answers decides whether the host gets a stream.
use vpn_bridge.Handshake.{heard, refusal_detail}
use vpn_bridge.Host.Tunnel.{ServerConfig, check_status, handshake, open_over, request_for}
use vpn_bridge.Io.{Result, err, ok}
use vpn_bridge.Io.Reader.{IsReader, Reader, Reads}
use vpn_bridge.Io.Text.{is_utf8, text}
use vpn_bridge.Io.Writer.{IsWriter, Writer}
use vpn_bridge.Prelude.{List, refl, true, ℕ, ◌++◌, ◌≡◌, ◌≢◌}
use vpn_bridge.Proto.{
  Address, Cmd, IsAddress, Response, Status, auth_failed, bad_request, forbidden, ok_status,
  read_request, response_bytes, server_error, unreachable, unsupported, write_request,
}
use vpn_bridge.Proto.Exchange.{read_request-write_request}
use vpn_bridge.Proto.RoundTrip.{read_response-bytes}
use vpn_bridge.Proto.Wire.{on_wire}

module _ {W : Writer} (M : IsWriter W) {R : Reader} (L : IsReader R) where
  open M use {written}
  open L use {pending}

  -- What `open` gives, by the response: the stream, right behind the response, or the refusal.
  abbrev pub Concluded : List ℕ → Response → List ℕ → Result (W.State × R.State) → Type 0
  Concluded shown resp rest (ok (w, s)) = (resp.status ≡ ok_status) × (pending s ≡ rest)
  Concluded shown resp rest (err e) =
      (resp.status ≢ ok_status)
      × (e.message ≡ text "VM agent refused " ++ shown ++ text ": " ++ refusal_detail (heard resp))

  check_status-Concluded :
      (shown : List ℕ) (code : Status) (message rest : List ℕ) (w : W.State) (s : R.State)
      → pending s ≡ rest
      → Concluded shown
          (record { status = code; message = message })
          rest
          (check_status W R shown
            (ok (heard (record { status = code; message = message }), (w, s))))
  unfolding check_status
  check_status-Concluded shown ok_status message rest w s p = (refl, p)
  check_status-Concluded shown auth_failed message rest w s p = (λ e. cc, refl)
  check_status-Concluded shown forbidden message rest w s p = (λ e. cc, refl)
  check_status-Concluded shown unreachable message rest w s p = (λ e. cc, refl)
  check_status-Concluded shown bad_request message rest w s p = (λ e. cc, refl)
  check_status-Concluded shown unsupported message rest w s p = (λ e. cc, refl)
  check_status-Concluded shown server_error message rest w s p = (λ e. cc, refl)

  module _ (show_target : Address → List ℕ) (cfg : ServerConfig) where
    -- A handshake that is not cut short by the clock or by a failed write: the agent on the other
    -- end reads the command, the configured token and the target as it is on the wire, and the host
    -- gets the stream exactly if the agent answered `Ok`, standing right behind the answer; otherwise
    -- it fails with the status and the first 255 bytes of the agent's message. Conditions: the
    -- token is UTF-8, the target as it travels is an address that Rust's types admit, the request is
    -- written, and the agent's response has arrived.
    pub open_over-agreed :
        (cmd : Cmd) (target : Address) (w w' : W.State) (s : R.State) (resp : Response)
        (rest : List ℕ)
        → is_utf8 cfg.token ≡ true
        → IsAddress (on_wire target)
        → write_request W (request_for W R show_target cfg cmd target) w ≡ ok (tt, w')
        → pending s ≡ response_bytes resp ++ rest
        → ((bs : List ℕ) × (written w' ≡ written w ++ bs)
            × ((more : List ℕ)
                → Reads L
                    (read_request R)
                    (bs ++ more)
                    (record { cmd = cmd; token = cfg.token; target = on_wire target })
                    more))
          × Concluded
              (show_target target)
              resp
              rest
              (open_over W R show_target cfg true cmd target w s)
    unfolding open_over handshake request_for
    open_over-agreed cmd target w w' s resp rest utf8 address wrote answered =
        let (t, got, left) = read_response-bytes L resp rest s answered in
        (
          read_request-write_request M L _ w w' utf8 address wrote,
          rw (wrote, got)
              (check_status-Concluded (show_target target) resp.status resp.message rest w' t left),
        )
