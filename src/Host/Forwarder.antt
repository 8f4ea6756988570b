-- ===== src/Host/Forwarder.antt =====
-- crates/host/src/dns.rs: `serve`, the loop that hands every query to `resolve` (Host/Dns.antt).
use vpn_bridge.Checks.{bail}
use vpn_bridge.Handshake.{in_context}
use vpn_bridge.Host.Answers.{HasAnswered}
use vpn_bridge.Host.Dns.{DnsConfig, Exchange, query_one, resolve, Failed}
use vpn_bridge.Io.{Result, err, ok}
use vpn_bridge.Io.Reader.{IsReader, Reader}
use vpn_bridge.Io.Text.{text}
use vpn_bridge.Io.Writer.{IsWriter, Writer}
use vpn_bridge.Net.{SocketAddr}
use vpn_bridge.Prelude.{All, Any, ◌⊎◌, List, [], if◌then◌else◌, is_empty, take, ℕ, ◌++◌, ◌∷◌, ◌≡◌}

-- A datagram that came to the forwarder's socket: its bytes, of which the buffer takes 4096, where it
-- came from, and what the outside will do for this query.
abbrev pub Reception : Writer → Reader → Type 0
Reception W R = Result (List ℕ × SocketAddr × Exchange W R)

abbrev pub dns_buf : ℕ
dns_buf = 4096

-- An answer, and where it is sent.
abbrev pub Sending : Type 0
Sending = List ℕ × SocketAddr

abbrev pub answer_to : SocketAddr → Result (List ℕ) → List Sending
answer_to asker (ok answer) = (answer, asker) ∷ []
answer_to asker (err e) = []

module _ (W : Writer) (R : Reader) (show_addr : SocketAddr → List ℕ) (cfg : DnsConfig) where
  abbrev pub forwarded_query : Exchange W R → List ℕ → Result (List ℕ)
  forwarded_query outside query = (resolve (query_one W R outside show_addr query) cfg.upstream).1

  -- The task for one reception; one that failed is skipped.
  abbrev pub serve_one : Reception W R → List Sending
  serve_one (ok (bytes, asker, outside)) =
      answer_to asker (forwarded_query outside (take dns_buf bytes))
  serve_one (err e) = []

  -- What is sent for the receptions of the loop. The tasks run at once, so the order of the answers
  -- is open.
  unfoldable pub serve_loop : List (Reception W R) → List Sending
  unfolding resolve query_one
  serve_loop [] = []
  serve_loop (r ∷ more) = serve_one r ++ serve_loop more

  abbrev pub serve_bound : Result (Unit {0}) → List (Reception W R) → Result (List Sending)
  serve_bound (ok _) receptions = ok (serve_loop receptions)
  serve_bound (err e) receptions =
      in_context (text "binding DNS forwarder on " ++ show_addr cfg.listen) (err e)

  -- `serve`, with how binding the socket ends.
  unfoldable pub serve : Result (Unit {0}) → List (Reception W R) → Result (List Sending)
  unfolding serve_loop
  serve bound receptions =
      if is_empty cfg.upstream
      then bail (text "dns.upstream is empty")
      else serve_bound bound receptions

module _ {W : Writer} (M : IsWriter W) {R : Reader} (L : IsReader R)
    (show_addr : SocketAddr → List ℕ) (cfg : DnsConfig) where
  -- What is sent for one reception: nothing for one that failed; for a query, one answer to its asker,
  -- that of a configured resolver over a tunnel that was opened for this query, or nothing, where the
  -- query fails with each of them.
  abbrev pub IsHandled : Reception W R → List Sending → Type 0
  IsHandled (ok (bytes, asker, outside)) sent =
      ((answer : List ℕ) × (sent ≡ (answer, asker) ∷ [])
        × Any (HasAnswered M L outside (take 4096 bytes) answer) cfg.upstream)
      ⊎ ((sent ≡ [])
          × All (Failed (query_one W R outside show_addr (take 4096 bytes))) cfg.upstream)
  IsHandled (err e) sent = sent ≡ []

  -- What is sent is put together from what is sent for each reception.
  abbrev pub AllHandled : List (Reception W R) → List Sending → Type 0
  AllHandled [] sendings = sendings ≡ []
  AllHandled (r ∷ more) sendings =
      (first : List Sending) × (rest : List Sending) × (sendings ≡ first ++ rest)
      × IsHandled r first
      × AllHandled more rest
