-- ===== src/Host/Answers.antt =====
-- crates/host/src/dns.rs, `query_one`: what an answer is, in terms of the tunnel.
use vpn_bridge.Host.Dns.{Exchange, await_answer, query_one, query_over, query_sent, truncated}
use vpn_bridge.Io.{Result, err, ok, >>=-eq-ok}
use vpn_bridge.Io.Reader.{IsReader, Reader, read_exact_inv, read_u16_inv}
use vpn_bridge.Io.Writer.{IsWriter, Writer}
use vpn_bridge.Net.{SocketAddr}
use vpn_bridge.Prelude.{
  Bool, List, [], ap, drop, false, length, refl, replicate, sym, take, take-append, true, ℕ, ◌*◌,
  ◌++◌, ◌+◌, ◌-◌, ◌∙◌, ◌∷◌, ◌≡◌,
}
use vpn_bridge.Proto.{read_datagram, write_datagram}
use vpn_bridge.Proto.Datagrams.{datagram_layout, write_datagram_written}

module _ {W : Writer} (M : IsWriter W) {R : Reader} (L : IsReader R) where
  -- The datagram stands next in the stream: a length of two bytes, and as many bytes.
  abbrev pub StandsNext : R.State → List ℕ → Type 0
  StandsNext s datagram =
      (hi : ℕ) × (lo : ℕ) × (t : R.State) × (L.pending s
        ≡ (hi ∷ lo ∷ []) ++ datagram ++ L.pending t)
      × (length datagram ≡ hi * 256 + lo)

  -- The resolver was asked this query, over a tunnel that was open, and answered it in time: the query
  -- was written into its tunnel as a datagram, and the answer is the datagram that then came first.
  abbrev pub HasAnswered : Exchange W R → List ℕ → List ℕ → SocketAddr → Type 0
  HasAnswered outside query answer upstream =
      (w : W.State) × (w' : W.State) × (outside.tunnel upstream ≡ ok w)
      × (M.written w' ≡ M.written w ++ datagram_layout query)
      × (outside.in_time upstream ≡ true)
      × StandsNext (outside.incoming upstream w') answer

  truncated_inv :
      (outside : Exchange W R) (show_addr : SocketAddr → List ℕ)
      (r : Result ((ℕ × List ℕ) × R.State)) (answer : List ℕ)
      → truncated W R outside show_addr r ≡ ok answer
      → (n : ℕ) × (buf : List ℕ) × (t : R.State) × (r ≡ ok ((n, buf), t)) × (take n buf ≡ answer)
  truncated_inv outside show_addr (ok ((n, buf), t)) answer h = (n, buf, t, refl, cc)
  truncated_inv outside show_addr (err e) answer h = cc

  cut_to_payload :
      (n len : ℕ) (payload buf left : List ℕ)
      → n ≡ len
      → buf ≡ payload ++ left
      → length payload ≡ len
      → take n buf ≡ payload
  cut_to_payload n len payload buf left same whole e =
      rw (same, ← e, whole) (take-append payload left)

  read_next :
      (s t : R.State) (n : ℕ) (buf answer : List ℕ)
      → read_datagram R [] s ≡ ok ((n, buf), t)
      → take n buf ≡ answer
      → StandsNext s answer
  unfolding read_datagram
  read_next s t n buf answer h cut =
      let (len, t1, got, more) = >>=-eq-ok R.read_u16 _ s h in
      let (payload, t2, filled, end) = >>=-eq-ok (R.read_exact len) _ t1 more in
      let (hi, lo, front, value) = read_u16_inv L s got in
      let (rest, whole) = read_exact_inv L len t1 filled in
      let same : answer ≡ payload =
        sym cut
        ∙ cut_to_payload n len payload buf (drop len (take len [] ++ replicate (len - 0) 0)) (cc)
            (cc) whole in
      (
        hi,
        lo,
        t2,
        front ∙ ap (λ l. hi ∷ lo ∷ l) (rest ∙ ap (λ l. l ++ L.pending t2) (sym same)),
        ap length same ∙ whole ∙ value,
      )

  exchanged_in_time :
      (outside : Exchange W R) (show_addr : SocketAddr → List ℕ) (answer : List ℕ)
      (upstream : SocketAddr) (s : R.State) (in_time : Bool)
      → await_answer W R outside show_addr upstream s in_time ≡ ok answer
      → (in_time ≡ true) × StandsNext s answer
  exchanged_in_time outside show_addr answer upstream s true h =
      let (n, buf, t, got, cut) = truncated_inv outside show_addr (read_datagram R [] s) answer h in
      (refl, read_next s t n buf answer got cut)
  exchanged_in_time outside show_addr answer upstream s false h = cc

  exchanged_sent :
      (outside : Exchange W R) (show_addr : SocketAddr → List ℕ) (query answer : List ℕ)
      (upstream : SocketAddr) (w : W.State) (sent : Result (Unit {0} × W.State))
      → outside.tunnel upstream ≡ ok w
      → write_datagram W query w ≡ sent
      → query_sent W R outside show_addr upstream sent ≡ ok answer
      → HasAnswered outside query answer upstream
  exchanged_sent outside show_addr query answer upstream w (ok (u, w')) there e h =
      let (timely, next) =
        exchanged_in_time outside show_addr answer upstream (outside.incoming upstream w')
          (outside.in_time upstream) h in
      (w, w', there, (write_datagram_written M query w w' e).0, timely, next)
  exchanged_sent outside show_addr query answer upstream w (err e') there e h = cc

  exchanged_over :
      (outside : Exchange W R) (show_addr : SocketAddr → List ℕ) (query answer : List ℕ)
      (upstream : SocketAddr) (opened : Result W.State)
      → outside.tunnel upstream ≡ opened
      → query_over W R outside show_addr query upstream opened ≡ ok answer
      → HasAnswered outside query answer upstream
  exchanged_over outside show_addr query answer upstream (ok w) there h =
      exchanged_sent outside show_addr query answer upstream w (write_datagram W query w) there refl
        h
  exchanged_over outside show_addr query answer upstream (err e) there h = cc

  -- A query that succeeds went to the resolver over an open tunnel, and what it gives is the datagram
  -- that came first over that tunnel once the query had been written, in time.
  pub query_one-HasAnswered :
      (outside : Exchange W R) (show_addr : SocketAddr → List ℕ) (query answer : List ℕ)
      (upstream : SocketAddr)
      → query_one W R outside show_addr query upstream ≡ ok answer
      → HasAnswered outside query answer upstream
  unfolding query_one
  query_one-HasAnswered outside show_addr query answer upstream h =
      exchanged_over outside show_addr query answer upstream (outside.tunnel upstream) refl h
