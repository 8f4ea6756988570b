-- ===== src/Client/Relays.antt =====
-- crates/proxy-client/src/relay.rs: `relay_udp` and `relay_tcp`. The local side of a UDP flow is
-- that of Frames/Local.antt; `tokio::io::copy` is a parameter.
use vpn_bridge.Frames.{Channel}
use vpn_bridge.Frames.Local.{write_item}
use vpn_bridge.Handshake.{in_context}
use vpn_bridge.Io.{Action, Error, Result, err, ok, pure, ◌>>◌}
use vpn_bridge.Io.Reader.{Reader}
use vpn_bridge.Io.Sink.{IsSink, Sink}
use vpn_bridge.Io.Source.{IsSource, Source}
use vpn_bridge.Io.Text.{text}
use vpn_bridge.Io.Writer.{Writer}
use vpn_bridge.Prelude.{
  Bool, List, Option, [], ap, false, none, refl, some, suc, take, true, zero, ℕ, ◌++◌, ◌∙◌, ◌∷◌,
  ◌≡◌,
}
use vpn_bridge.Proto.{read_datagram, write_datagram}

-- `result.context(..)?` and the `Ok(())` behind it.
abbrev pub settled : List ℕ → Result (Unit {0}) → Result (Unit {0})
settled message r = in_context message r

-- Which loop of `relay_udp` ends first, and how.
pub data Ended : Type 0 where
  upload_ended download_ended : Result (Unit {0}) → Ended

unfoldable pub relay_udp : Ended → Result (Unit {0})
relay_udp (upload_ended r) = settled (text "uploading UDP over proxy transport") r
relay_udp (download_ended r) = settled (text "downloading UDP over proxy transport") r

module _ (W : Writer) (shutdown : Action W.State (Unit {0})) where
  -- The reads of the local flow in order, one datagram each; an empty one ends the loop, and the end
  -- of the list is the loop waiting for the next. The value says that the loop has ended.
  unfoldable pub upload : List (List ℕ) → Action W.State Bool
  unfolding write_datagram
  upload [] = pure false
  upload ([] ∷ reads) = do shutdown; pure true
  upload ((b ∷ bs) ∷ reads) = do write_datagram W (b ∷ bs); upload reads

module _ (R : Reader) (U : Channel (List ℕ)) where
  abbrev pub received_given :
      (U.State → Option (Error × U.State))
      → U.State
      → Result (Unit {0} × U.State)
      → Option (Error × U.State)
  received_given more u (ok (_, u')) = more u'
  received_given more u (err e) = some (e, u)

  abbrev pub received :
      (List ℕ → R.State → U.State → Option (Error × U.State))
      → U.State
      → Result ((ℕ × List ℕ) × R.State)
      → Option (Error × U.State)
  received more u (ok ((n, buf), s)) = received_given (more buf s) u (write_item U (take n buf) u)
  received more u (err e) = some (e, u)

  -- The loop ends by an error only; on fuel, where `none` means that it ran out.
  unfoldable pub download : ℕ → List ℕ → R.State → U.State → Option (Error × U.State)
  unfolding read_datagram write_item
  download zero buf s u = none
  download (suc fuel) buf s u = received (download fuel) u (read_datagram R buf s)

-- `tokio::io::copy` from a stream to another.
abbrev pub Copy : Source → Sink → Type 0
Copy S K = S.State → K.State → Result K.State

-- What is documented of it: where it succeeds, it has read its stream to the end and written all of it.
abbrev pub IsCopy : {S : Source} → IsSource S → {K : Sink} → IsSink K → Copy S K → Type 0
IsCopy {S} L {K} T copy =
    (s : S.State) (k k' : K.State) → copy s k ≡ ok k' → (T.written k' ≡ T.written k ++ L.pending s)

abbrev pub shut_result : (K : Sink) → Result (Unit {0} × K.State) → Result K.State
shut_result K (ok (_, k)) = ok k
shut_result K (err e) = err e

abbrev pub copied_then : (K : Sink) → Result K.State → Result K.State
copied_then K (ok k) = shut_result K (K.shutdown k)
copied_then K (err e) = err e

-- One of the two parts of `relay_tcp`: all is copied, and then the other side is shut down.
abbrev pub copy_through : (S : Source) (K : Sink) → Copy S K → S.State → K.State → Result K.State
copy_through S K copy s k = copied_then K (copy s k)

-- `tokio::try_join!` of two parts that share nothing; the flag says which of two errors comes first.
abbrev pub try_join : {A B : Type 0} → (upload_first : Bool) → Result A → Result B → Result (A × B)
try_join first (ok a) (ok b) = ok (a, b)
try_join first (ok a) (err e) = err e
try_join first (err e) (ok b) = err e
try_join true (err e) (err e') = err e
try_join false (err e) (err e') = err e'

-- The local stream (`S`, `K`) and the transport's (`S'`, `K'`), with a copy for either way; the result
-- has the ends to which was written.
module _ (S S' : Source) (K K' : Sink) (copy_up : Copy S K') (copy_down : Copy S' K) where
  unfoldable pub relay_tcp :
      (upload_first : Bool) → S.State → K.State → S'.State → K'.State → Result (K'.State × K.State)
  relay_tcp first s k s' k' =
      in_context (text "relaying TCP over proxy transport")
        (try_join first (copy_through S K' copy_up s k') (copy_through S' K copy_down s' k))

joined_both :
    {A B : Type 0} (first : Bool) (message : List ℕ) (x : Result A) (y : Result B) (a : A) (b : B)
    → in_context message (try_join first x y) ≡ ok (a, b)
    → (x ≡ ok a) × (y ≡ ok b)
joined_both first message (ok x) (ok y) a b h = (cc, cc)
joined_both first message (ok x) (err e) a b h = cc
joined_both first message (err e) (ok y) a b h = cc
joined_both true message (err e) (err e') a b h = cc
joined_both false message (err e) (err e') a b h = cc

module _ {S : Source} (L : IsSource S) {K : Sink} (T : IsSink K) (copy : Copy S K) where
  shut_complete :
      (before : K.State) (r : Result (Unit {0} × K.State)) (k : K.State)
      → K.shutdown before ≡ r
      → shut_result K r ≡ ok k
      → (T.written k ≡ T.written before) × (T.closed k ≡ true)
  shut_complete before (ok (u, k')) k e h = T.shutdown_ok before k (e ∙ ap (λ x. ok (tt, x)) (cc))
  shut_complete before (err e') k e h = cc

  copy_complete :
      (s : S.State) (k k' : K.State) (r : Result K.State)
      → IsCopy L T copy
      → copy s k ≡ r
      → copied_then K r ≡ ok k'
      → (T.written k' ≡ T.written k ++ L.pending s) × (T.closed k' ≡ true)
  copy_complete s k k' (ok mid) copies e h =
      let (same, over) = shut_complete mid (K.shutdown mid) k' refl h in
      (same ∙ copies s k mid e, over)
  copy_complete s k k' (err e') copies e h = cc

-- A TCP flow that ends without an error has been carried whole, both ways: each side was given all that
-- the other sent, in order, and then the end of the stream. Conditions: the copies do what is
-- documented of them, and the relay succeeds.
pub relay_tcp-carried :
    {S S' : Source} (L : IsSource S) (L' : IsSource S') {K K' : Sink} (T : IsSink K)
    (T' : IsSink K') (copy_up : Copy S K') (copy_down : Copy S' K) (first : Bool) (s : S.State)
    (k l : K.State) (s' : S'.State) (k' l' : K'.State)
    → IsCopy L T' copy_up
    → IsCopy L' T copy_down
    → relay_tcp S S' K K' copy_up copy_down first s k s' k' ≡ ok (l', l)
    → (T'.written l' ≡ T'.written k' ++ L.pending s)
      × (T'.closed l' ≡ true)
      × (T.written l ≡ T.written k ++ L'.pending s')
      × (T.closed l ≡ true)
unfolding relay_tcp
relay_tcp-carried L L' T T' copy_up copy_down first s k l s' k' l' up down h =
    let (sent_up, sent_down) = joined_both first _ _ _ l' l h in
    let (all_up, end_up) = copy_complete L T' copy_up s k' l' (copy_up s k') up refl sent_up in
    let (all_down, end_down) =
      copy_complete L' T copy_down s' k l (copy_down s' k) down refl sent_down in
    (all_up, end_up, all_down, end_down)
