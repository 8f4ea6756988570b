-- ===== src/Frames.antt =====
-- What crates/proxy-server/src/grpc.rs and crates/proxy-client/src/grpc.rs share: the two ends of a
-- stream of `TunnelFrame`s, as tokio's channels and tonic's streams provide them, and the loop that
-- turns frames into bytes. A frame is its payload; the type itself is generated code.
use vpn_bridge.Io.{Action, Result, err, ok}
use vpn_bridge.Io.Sink.{IsSink, Sink}
use vpn_bridge.Io.Source.{IsSound, IsSource, Source}
use vpn_bridge.Io.Transfer.{
  Ending, HandedOn, IsBlock, Takes, broken, finished, join_blocks, stopped, transfer,
  transfer-Carried, transfer_finishes,
}
use vpn_bridge.Prelude.{
  All, List, Option, [], ap, append-nil, append_assoc, arith, length, map, none, refl, some, subst,
  suc, sym, true, zero, ℕ, ◌++◌, ◌<◌, ◌∙◌, ◌∷◌, ◌≡◌,
}
pub mod Transparent
pub mod Memory
pub mod Local

-- The sending half of `mpsc::channel`; an error says that the receiver is gone.
pub record Channel (A : Type 0) : Type 1 where
  pub State : Type 0
  pub send : A → Action State (Unit {0})

pub record IsChannel {A : Type 0} (C : Channel A) : Type 0 where
  pub sent : C.State → List A
  pub send_ok : (a : A) (s t : C.State) → C.send a s ≡ ok (tt, t) → sent t ≡ sent s ++ (a ∷ [])

-- `tonic::Streaming::message`; the value is `none` at the end of the stream.
pub record Inbound : Type 1 where
  pub State : Type 0
  pub message : Action State (Option (List ℕ))

-- `coming` is what the peer has sent and the program has not taken.
pub record IsInbound (N : Inbound) : Type 0 where
  pub coming : N.State → List (List ℕ)
  pub message_some :
      (s t : N.State) (f : List ℕ) → N.message s ≡ ok (some f, t) → coming s ≡ f ∷ coming t
  pub message_none : (s t : N.State) → N.message s ≡ ok (none, t) → coming s ≡ []

-- What a task leaves of that into which it wrote: its last state, or nothing, since the other end is
-- gone.
pub data Pumped (C : Type 0) : Type 0 where
  left_at : C → Pumped C
  abandoned : Pumped C

-- `let _ =` in front of a last write or of the end.
abbrev pub ignoring_error : {C : Type 0} → Result (Unit {0} × C) → Pumped C
ignoring_error (ok (_, c)) = left_at c
ignoring_error (err e) = abandoned

-- What follows the loop, once it has ended.
abbrev pub behind_loop : {A B : Type 0} → (A → B) → Option A → Option B
behind_loop f none = none
behind_loop f (some a) = some (f a)

-- The loop over a stream's messages that writes each payload, with the ways in which it ends.
module _ (N : Inbound) (K : Sink) where
  abbrev pub payload_written :
      (N.State → K.State → Option (Ending N.State K.State))
      → N.State
      → Result (Unit {0} × K.State)
      → Option (Ending N.State K.State)
  payload_written more s (ok (_, k)) = more s k
  payload_written more s (err e) = some (stopped e)

  abbrev pub message_read :
      (N.State → K.State → Option (Ending N.State K.State))
      → K.State
      → Result (Option (List ℕ) × N.State)
      → Option (Ending N.State K.State)
  message_read more k (ok (some payload, s)) = payload_written more s (K.write_all payload k)
  message_read more k (ok (none, s)) = some (finished s k)
  message_read more k (err e) = some (broken e k)

  -- On fuel; `none` means that it ran out.
  unfoldable pub feed : ℕ → N.State → K.State → Option (Ending N.State K.State)
  feed zero s k = none
  feed (suc fuel) s k = message_read (feed fuel) k (N.message s)

-- The stream does not fail.
abbrev pub IsComing : Inbound → Type 0
IsComing N = (s : N.State) → (m : Option (List ℕ)) × (t : N.State) × (N.message s ≡ ok (m, t))

module _ {N : Inbound} (M : IsInbound N) (K : Sink) where
  abbrev FeedFinishes : N.State → K.State → Option (Ending N.State K.State) → Type 0
  FeedFinishes s k r =
      (s' : N.State) × (k' : K.State) × (r ≡ some (finished s' k'))
      × HandedOn K.write_all k (M.coming s) k'

  feeds_on :
      (more : N.State → K.State → Option (Ending N.State K.State)) (s s' : N.State) (k : K.State)
      (m : Option (List ℕ))
      → Takes K.write_all
      → N.message s ≡ ok (m, s')
      → ((u : K.State) → length (M.coming s') < length (M.coming s) → FeedFinishes s' u (more s' u))
      → FeedFinishes s k (message_read N K more k (ok (m, s')))
  feeds_on more s s' k none takes e ih =
      (s', k, refl, subst (λ l. HandedOn K.write_all k l k) (sym (M.message_none s s' e)) refl)
  feeds_on more s s' k (some f) takes e ih =
      let (u, taken) = takes f k in
      let front = M.message_some s s' f e in
      let (s'', k', rest, run) = ih u (omega (arith, ap length front)) in
      (
        s'',
        k',
        ap (payload_written N K more s') taken ∙ rest,
        subst (λ l. HandedOn K.write_all k l k') (sym front) (u, taken, run),
      )

  -- The loop writes every payload, in order, and finishes. Conditions: the stream does not fail, what
  -- it brings is taken, and there is fuel for more messages than are to come.
  feed_finishes :
      (fuel : ℕ) (s : N.State) (k : K.State)
      → IsComing N
      → Takes K.write_all
      → length (M.coming s) < fuel
      → (s' : N.State) × (k' : K.State) × (feed N K fuel s k ≡ some (finished s' k'))
        × HandedOn K.write_all k (M.coming s) k'
  unfolding feed
  feed_finishes zero s k coming takes enough = absurd (omega arith)
  feed_finishes (suc fuel) s k coming takes enough =
      let (m, s', e) = coming s in
      subst (λ r. FeedFinishes s k (message_read N K (feed N K fuel) k r)) (sym e)
        (feeds_on (feed N K fuel) s s' k m takes e
          (λ u fewer. feed_finishes fuel s' u coming takes (omega arith)))

-- Runs of blocks that were taken, as what the sink and the channel hold behind them.
pub HandedOn-written :
    {K : Sink} (M : IsSink K) (k k' : K.State) (blocks : List (List ℕ))
    → HandedOn K.write_all k blocks k'
    → M.written k' ≡ M.written k ++ join_blocks blocks
HandedOn-written M k k' [] e = ap M.written (sym e) ∙ sym (append-nil (M.written k))
HandedOn-written M k k' (block ∷ blocks) (u, wrote, run) =
    HandedOn-written M u k' blocks run
    ∙ ap (λ l. l ++ join_blocks blocks) (M.write_all_ok block k u wrote)
    ∙ append_assoc (M.written k) block (join_blocks blocks)

HandedOn-sent :
    {A : Type 0} {C : Channel A} (M : IsChannel C) (item : List ℕ → A) (c c' : C.State)
    (blocks : List (List ℕ))
    → HandedOn (λ block. C.send (item block)) c blocks c'
    → M.sent c' ≡ M.sent c ++ map item blocks
HandedOn-sent M item c c' [] e = ap M.sent (sym e) ∙ sym (append-nil (M.sent c))
HandedOn-sent M item c c' (block ∷ blocks) (u, passed, run) =
    HandedOn-sent M item u c' blocks run
    ∙ ap (λ l. l ++ map item blocks) (M.send_ok (item block) c u passed)
    ∙ append_assoc (M.sent c) (item block ∷ []) (map item blocks)

module _ {S : Source} (L : IsSource S) {A : Type 0} {C : Channel A} (M : IsChannel C)
    (item : List ℕ → A) (room : ℕ) where
  -- The loop that reads a stream and sends each block as an item sends the whole of it, and finishes.
  -- Conditions: the buffer is not empty, the stream does not fail, the items are taken, and there is
  -- fuel for more reads than there are bytes.
  pub transfer-sent :
      (fuel : ℕ) (s : S.State) (c : C.State)
      → 0 < room
      → IsSound S
      → Takes (λ block. C.send (item block))
      → length (L.pending s) < fuel
      → (s' : S.State) × (c' : C.State) × (blocks : List (List ℕ)) × (transfer S room
            (λ block. C.send (item block))
            fuel
            s
            c
          ≡ some (finished s' c'))
        × (M.sent c' ≡ M.sent c ++ map item blocks)
        × All (IsBlock room) blocks
        × (join_blocks blocks ≡ L.pending s)
  transfer-sent fuel s c wide sound takes enough =
      let hand_on = λ (block : List ℕ). C.send (item block) in
      let (s', c', e) = transfer_finishes L room hand_on fuel s c sound takes enough in
      let (blocks, run, fit, whole) =
        transfer-Carried L room hand_on fuel s c (finished s' c') wide e in
      (
        s',
        c',
        blocks,
        e,
        HandedOn-sent M item c c' blocks run,
        fit,
        sym (whole ∙ append-nil (join_blocks blocks)),
      )

module _ {N : Inbound} (M : IsInbound N) {K : Sink} (T : IsSink K) where
  -- The loop that writes the payloads of a stream writes all of them, and finishes. Conditions: the
  -- stream does not fail, what it brings is taken, and there is fuel for more messages than come.
  pub feed_written :
      (fuel : ℕ) (s : N.State) (k : K.State)
      → IsComing N
      → Takes K.write_all
      → length (M.coming s) < fuel
      → (s' : N.State) × (k' : K.State) × (feed N K fuel s k ≡ some (finished s' k'))
        × (T.written k' ≡ T.written k ++ join_blocks (M.coming s))
  feed_written fuel s k coming takes enough =
      let (s', k', e, run) = feed_finishes M K fuel s k coming takes enough in
      (s', k', e, HandedOn-written T k k' (M.coming s) run)

-- The end of a stream can be handed over.
abbrev pub Shuts : Sink → Type 0
Shuts K = (k : K.State) → (k' : K.State) × (K.shutdown k ≡ ok (tt, k'))

pub ignoring-shutdown :
    {K : Sink} (T : IsSink K) (k : K.State)
    → Shuts K
    → (k' : K.State) × (ignoring_error (K.shutdown k) ≡ left_at k')
      × (T.written k' ≡ T.written k)
      × (T.closed k' ≡ true)
ignoring-shutdown T k shuts =
    let (k', e) = shuts k in
    let (same, over) = T.shutdown_ok k k' e in (k', ap ignoring_error e, same, over)
