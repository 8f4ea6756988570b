-- ===== src/Client/Frames.antt =====
-- crates/proxy-client/src/grpc.rs: the two tasks that `open` starts, from the flow's bytes to the
-- frames of the request, and from the frames of the response to the flow's bytes.
use vpn_bridge.Frames.{
  Channel, Inbound, IsChannel, IsComing, IsInbound, Pumped, Shuts, abandoned, behind_loop, feed,
  feed_written, ignoring-shutdown, ignoring_error, left_at, transfer-sent,
}
use vpn_bridge.Io.Sink.{IsSink, Sink}
use vpn_bridge.Io.Source.{IsSound, IsSource, Source}
use vpn_bridge.Io.Transfer.{
  Ending, IsBlock, Takes, broken, finished, join_blocks, stopped, transfer,
}
use vpn_bridge.Prelude.{
  All, List, Option, ap, arith, length, map, some, true, ℕ, ◌*◌, ◌++◌, ◌<◌, ◌∙◌, ◌≡◌,
}

abbrev pub frame_size : ℕ
frame_size = 16 * 1024

-- The frames of the request are their payloads.
module _ (S : Source) (C : Channel (List ℕ)) where
  abbrev pub request_end : Ending S.State C.State → Pumped C.State
  request_end (finished s c) = left_at c
  request_end (stopped e) = abandoned
  request_end (broken e c) = left_at c

  -- The first task: a loop of reads from the flow, on fuel. It drops the channel behind itself, which
  -- closes it.
  unfoldable pub request_pump : ℕ → S.State → C.State → Option (Pumped C.State)
  unfolding transfer
  request_pump fuel s c = behind_loop request_end (transfer S frame_size C.send fuel s c)

module _ (N : Inbound) (K : Sink) where
  abbrev pub response_end : Ending N.State K.State → Pumped K.State
  response_end (finished s k) = ignoring_error (K.shutdown k)
  response_end (stopped e) = abandoned
  response_end (broken e k) = ignoring_error (K.shutdown k)

  -- The second task, on fuel.
  unfoldable pub response_feed : ℕ → N.State → K.State → Option (Pumped K.State)
  unfolding feed
  response_feed fuel s k = behind_loop response_end (feed N K fuel s k)

-- What the flow writes goes out as frames of one to 16384 bytes that put together are its bytes, in
-- order, and behind the last one the request ends. Conditions: reading from the flow does not fail,
-- the receiver of the frames stays, and there is fuel for more reads than there are bytes.
pub request_pump-framed :
    {S : Source} (L : IsSource S) {C : Channel (List ℕ)} (M : IsChannel C) (fuel : ℕ) (s : S.State)
    (c : C.State)
    → IsSound S
    → Takes C.send
    → length (L.pending s) < fuel
    → (c' : C.State) × (blocks : List (List ℕ)) × (request_pump S C fuel s c ≡ some (left_at c'))
      × (M.sent c' ≡ M.sent c ++ map (λ block. block) blocks)
      × All (IsBlock 16384) blocks
      × (join_blocks blocks ≡ L.pending s)
unfolding request_pump
request_pump-framed {S} L {C} M fuel s c sound takes enough =
    let (s', c', blocks, e, sent_all, fit, whole) =
      transfer-sent L M (λ block. block) frame_size fuel s c (omega arith) sound takes enough in
    (c', blocks, ap (behind_loop (request_end S C)) e, sent_all, fit, whole)

-- The flow receives the payloads of all frames, in order, and then the end of the stream.
-- Conditions: the stream of frames does not fail, the flow takes the bytes and their end, and there
-- is fuel for more messages than come.
pub response_feed_written :
    {N : Inbound} (M : IsInbound N) {K : Sink} (T : IsSink K) (fuel : ℕ) (s : N.State) (k : K.State)
    → IsComing N
    → Takes K.write_all
    → Shuts K
    → length (M.coming s) < fuel
    → (k' : K.State) × (response_feed N K fuel s k ≡ some (left_at k'))
      × (T.written k' ≡ T.written k ++ join_blocks (M.coming s))
      × (T.closed k' ≡ true)
unfolding response_feed
response_feed_written {N} M {K} T fuel s k coming takes shuts enough =
    let (s', k', e, wrote) = feed_written M T fuel s k coming takes enough in
    let (v, ended, same, over) = ignoring-shutdown T k' shuts in
    (v, ap (behind_loop (response_end N K)) e ∙ ap some ended, same ∙ wrote, over)
