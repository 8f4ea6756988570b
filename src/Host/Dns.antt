-- ===== src/Host/Dns.antt =====
-- crates/host/src/dns.rs: the choice of a resolver in `resolve`, and `query_one`.
use vpn_bridge.Checks.{bail}
use vpn_bridge.Io.{Error, Result, err, ok}
use vpn_bridge.Io.Reader.{Reader}
use vpn_bridge.Io.Text.{text}
use vpn_bridge.Io.Writer.{Writer}
use vpn_bridge.Net.{SocketAddr}
use vpn_bridge.Prelude.{
  All, Any, Bool, List, Option, [], false, inl, inr, none, refl, some, take, true, ℕ, ◌++◌, ◌∙◌,
  ◌∷◌, ◌≡◌,
}
use vpn_bridge.Proto.{read_datagram, write_datagram}

pub record DnsConfig : Type 0 where
  pub listen : SocketAddr
  pub upstream : List SocketAddr
  pub timeout_ms : ℕ

-- What the outside does for one query, by resolver: the tunnel that `Client::open` gives for a UDP
-- session to it, what comes over that tunnel once so much has been written into it, and whether the
-- answer comes in time. Nothing ties one query's to another's.
pub record Exchange (W : Writer) (R : Reader) : Type 0 where
  pub tunnel : SocketAddr → Result W.State
  pub incoming : SocketAddr → W.State → R.State
  pub in_time : SocketAddr → Bool

-- `query_one`: the query is written into the tunnel, and an answer read.
module _ (W : Writer) (R : Reader) (outside : Exchange W R) (show_addr : SocketAddr → List ℕ) where
  -- `buf.truncate(n)`
  abbrev pub truncated : Result ((ℕ × List ℕ) × R.State) → Result (List ℕ)
  truncated (ok ((n, buf), s)) = ok (take n buf)
  truncated (err e) = err e

  abbrev pub await_answer : SocketAddr → R.State → Bool → Result (List ℕ)
  await_answer upstream s true = truncated (read_datagram R [] s)
  await_answer upstream s false = bail (text "timed out waiting for " ++ show_addr upstream)

  abbrev pub query_sent : SocketAddr → Result (Unit {0} × W.State) → Result (List ℕ)
  query_sent upstream (ok (_, w)) =
      await_answer upstream (outside.incoming upstream w) (outside.in_time upstream)
  query_sent upstream (err e) = err e

  abbrev pub query_over : List ℕ → SocketAddr → Result W.State → Result (List ℕ)
  query_over query upstream (ok w) = query_sent upstream (write_datagram W query w)
  query_over query upstream (err e) = err e

  unfoldable pub query_one : List ℕ → SocketAddr → Result (List ℕ)
  unfolding read_datagram write_datagram
  query_one query upstream = query_over query upstream (outside.tunnel upstream)

-- The resolvers asked, and the answer.
abbrev pub Resolution : Type 0
Resolution = List SocketAddr × Result (List ℕ)

abbrev pub asked : SocketAddr → Resolution → Resolution
asked upstream r = (upstream ∷ r.0, r.1)

abbrev pub last_error : Option Error → Result (List ℕ)
last_error none = bail (text "no upstream resolver configured")
last_error (some e) = err e

module _ (query : SocketAddr → Result (List ℕ)) where
  abbrev pub next_upstream : SocketAddr → (Option Error → Resolution) → Result (List ℕ) → Resolution
  next_upstream upstream rest (ok answer) = (upstream ∷ [], ok answer)
  next_upstream upstream rest (err e) = asked upstream (rest (some e))

  -- The loop of `resolve` over the resolvers, with the last error.
  unfoldable pub try_upstreams : List SocketAddr → Option Error → Resolution
  try_upstreams [] last = ([], last_error last)
  try_upstreams (upstream ∷ more) last =
      next_upstream upstream (try_upstreams more) (query upstream)

  unfoldable pub resolve : List SocketAddr → Resolution
  unfolding try_upstreams
  resolve upstreams = try_upstreams upstreams none

  abbrev pub Failed : SocketAddr → Type 0
  Failed upstream = (e : Error) × (query upstream ≡ err e)

  upstreams_first :
      (before : List SocketAddr) (upstream : SocketAddr) (after : List SocketAddr) (answer : List ℕ)
      (last : Option Error)
      → All Failed before
      → query upstream ≡ ok answer
      → try_upstreams (before ++ (upstream ∷ after)) last ≡ (before ++ (upstream ∷ []), ok answer)
  unfolding try_upstreams
  upstreams_first [] upstream after answer last failed h = rw h refl
  upstreams_first (first ∷ before) upstream after answer last ((e, failed), more) h =
      rw (failed, upstreams_first before upstream after answer (some e) more h) refl

  -- The answer is that of the first resolver whose query succeeds; those before it have been asked,
  -- in order, and none behind it is. Condition: the resolvers before it fail, and it answers.
  resolve-first :
      (before : List SocketAddr) (upstream : SocketAddr) (after : List SocketAddr) (answer : List ℕ)
      → All Failed before
      → query upstream ≡ ok answer
      → resolve (before ++ (upstream ∷ after)) ≡ (before ++ (upstream ∷ []), ok answer)
  unfolding resolve
  resolve-first before upstream after answer = upstreams_first before upstream after answer none

  upstreams_fail :
      (upstreams : List SocketAddr) (upstream : SocketAddr) (e : Error) (last : Option Error)
      → All Failed upstreams
      → query upstream ≡ err e
      → try_upstreams (upstreams ++ (upstream ∷ [])) last ≡ (upstreams ++ (upstream ∷ []), err e)
  unfolding try_upstreams
  upstreams_fail [] upstream e last failed h = rw h refl
  upstreams_fail (first ∷ upstreams) upstream e last ((e', failed), more) h =
      rw (failed, upstreams_fail upstreams upstream e (some e') more h) refl

  -- Where all resolvers fail, all of them have been asked, and the error is the last one's.
  resolve-fails :
      (upstreams : List SocketAddr) (upstream : SocketAddr) (e : Error)
      → All Failed upstreams
      → query upstream ≡ err e
      → resolve (upstreams ++ (upstream ∷ [])) ≡ (upstreams ++ (upstream ∷ []), err e)
  unfolding resolve
  resolve-fails upstreams upstream e = upstreams_fail upstreams upstream e none

  abbrev Answered : List ℕ → SocketAddr → Type 0
  Answered answer upstream = query upstream ≡ ok answer

  next-Answered :
      (upstream : SocketAddr) (more : List SocketAddr) (answer : List ℕ)
      (rest : Option Error → Resolution) (r : Result (List ℕ))
      → query upstream ≡ r
      → ((last : Option Error) → (rest last).1 ≡ ok answer → Any (Answered answer) more)
      → (next_upstream upstream rest r).1 ≡ ok answer
      → Any (Answered answer) (upstream ∷ more)
  next-Answered upstream more answer rest (ok a) e ih h = inl (e ∙ h)
  next-Answered upstream more answer rest (err e') e ih h = inr (ih (some e') h)

  upstreams-Answered :
      (upstreams : List SocketAddr) (answer : List ℕ) (last : Option Error)
      → (try_upstreams upstreams last).1 ≡ ok answer
      → Any (Answered answer) upstreams
  unfolding try_upstreams
  upstreams-Answered [] answer none h = cc
  upstreams-Answered [] answer (some e) h = cc
  upstreams-Answered (upstream ∷ more) answer last h =
      next-Answered upstream more answer (try_upstreams more) (query upstream) refl
        (λ l k. upstreams-Answered more answer l k) h

  -- An answer is one of the resolvers'.
  pub resolve-answered :
      (upstreams : List SocketAddr) (answer : List ℕ)
      → (resolve upstreams).1 ≡ ok answer
      → Any (λ upstream. query upstream ≡ ok answer) upstreams
  unfolding resolve
  resolve-answered upstreams answer h = upstreams-Answered upstreams answer none h

  next-Failed :
      (upstream : SocketAddr) (more : List SocketAddr) (e : Error)
      (rest : Option Error → Resolution) (r : Result (List ℕ))
      → query upstream ≡ r
      → ((last : Option Error) → (rest last).1 ≡ err e → All Failed more)
      → (next_upstream upstream rest r).1 ≡ err e
      → All Failed (upstream ∷ more)
  next-Failed upstream more e rest (ok a) k ih h = cc
  next-Failed upstream more e rest (err e') k ih h = ((e', k), ih (some e') h)

  upstreams-Failed :
      (upstreams : List SocketAddr) (e : Error) (last : Option Error)
      → (try_upstreams upstreams last).1 ≡ err e
      → All Failed upstreams
  unfolding try_upstreams
  upstreams-Failed [] e last h = tt
  upstreams-Failed (upstream ∷ more) e last h =
      next-Failed upstream more e (try_upstreams more) (query upstream) refl
        (λ l k. upstreams-Failed more e l k) h

  -- There is no answer only where every resolver fails.
  pub resolve-Failed :
      (upstreams : List SocketAddr) (e : Error)
      → (resolve upstreams).1 ≡ err e
      → All Failed upstreams
  unfolding resolve
  resolve-Failed upstreams e h = upstreams-Failed upstreams e none h
