-- ===== src/Server/Frames.antt =====
-- crates/proxy-server/src/grpc.rs: the two tasks that `open` starts, from the handler's bytes to the
-- frames of the response, and from the frames of the request to the handler's bytes.
use vpn_bridge.Frames.{
  Channel, Inbound, IsChannel, IsComing, IsInbound, Pumped, Shuts, abandoned, behind_loop, feed,
  feed_written, ignoring-shutdown, ignoring_error, left_at, transfer-sent,
}
use vpn_bridge.Io.Sink.{IsSink, Sink}
use vpn_bridge.Io.Source.{IsSound, IsSource, Source}
use vpn_bridge.Io.Text.{text}
use vpn_bridge.Io.Transfer.{
  Ending, IsBlock, Takes, broken, finished, join_blocks, stopped, transfer,
}
use vpn_bridge.Prelude.{
  All, List, Option, ap, arith, length, map, some, true, ℕ, ◌*◌, ◌++◌, ◌<◌, ◌∙◌, ◌≡◌,
}

-- `tonic::Status`, with the codes that the service gives.
pub data Code : Type 0 where
  internal deadline_exceeded invalid_argument : Code

pub record GrpcStatus : Type 0 where
  pub code : Code
  pub message : List ℕ

-- `Result<TunnelFrame, Status>`
pub data Item : Type 0 where
  frame : List ℕ → Item
  failure : GrpcStatus → Item

abbrev pub frame_size : ℕ
frame_size = 16 * 1024

module _ (S : Source) (C : Channel Item) where
  abbrev pub respond_end : Ending S.State C.State → Pumped C.State
  respond_end (finished s c) = left_at c
  respond_end (stopped e) = abandoned
  respond_end (broken e c) = ignoring_error (
      C.send
        (failure
          (record { code = internal; message = text "reading proxy response: " ++ e.message }))
        c)

  -- The first task: a loop of reads from the handler, on fuel. It drops the channel behind itself,
  -- which closes it.
  unfoldable pub respond_pump : ℕ → S.State → C.State → Option (Pumped C.State)
  unfolding transfer
  respond_pump fuel s c =
      behind_loop respond_end (transfer S frame_size (λ block. C.send (frame block)) fuel s c)

module _ (N : Inbound) (K : Sink) where
  -- A request stream that fails leaves the handler's side open.
  abbrev pub request_end : Ending N.State K.State → Pumped K.State
  request_end (finished s k) = ignoring_error (K.shutdown k)
  request_end (stopped e) = abandoned
  request_end (broken e k) = left_at k

  -- The second task, on fuel.
  unfoldable pub request_feed : ℕ → N.State → K.State → Option (Pumped K.State)
  unfolding feed
  request_feed fuel s k = behind_loop request_end (feed N K fuel s k)

-- What the handler writes goes out as frames of one to 16384 bytes that put together are its bytes, in
-- order, and behind the last one the response ends. Conditions: reading from the handler does not
-- fail, the receiver of the frames stays, and there is fuel for more reads than there are bytes.
pub respond_pump-framed :
    {S : Source} (L : IsSource S) {C : Channel Item} (M : IsChannel C) (fuel : ℕ) (s : S.State)
    (c : C.State)
    → IsSound S
    → Takes (λ block. C.send (frame block))
    → length (L.pending s) < fuel
    → (c' : C.State) × (blocks : List (List ℕ)) × (respond_pump S C fuel s c ≡ some (left_at c'))
      × (M.sent c' ≡ M.sent c ++ map frame blocks)
      × All (IsBlock 16384) blocks
      × (join_blocks blocks ≡ L.pending s)
unfolding respond_pump
respond_pump-framed {S} L {C} M fuel s c sound takes enough =
    let (s', c', blocks, e, sent_all, fit, whole) =
      transfer-sent L M frame frame_size fuel s c (omega arith) sound takes enough in
    (c', blocks, ap (behind_loop (respond_end S C)) e, sent_all, fit, whole)

-- The handler receives the payloads of all frames, in order, and then the end of the stream.
-- Conditions: the stream of frames does not fail, the handler takes the bytes and their end, and
-- there is fuel for more messages than come.
pub request_feed_written :
    {N : Inbound} (M : IsInbound N) {K : Sink} (T : IsSink K) (fuel : ℕ) (s : N.State) (k : K.State)
    → IsComing N
    → Takes K.write_all
    → Shuts K
    → length (M.coming s) < fuel
    → (k' : K.State) × (request_feed N K fuel s k ≡ some (left_at k'))
      × (T.written k' ≡ T.written k ++ join_blocks (M.coming s))
      × (T.closed k' ≡ true)
unfolding request_feed
request_feed_written {N} M {K} T fuel s k coming takes shuts enough =
    let (s', k', e, wrote) = feed_written M T fuel s k coming takes enough in
    let (v, ended, same, over) = ignoring-shutdown T k' shuts in
    (v, ap (behind_loop (request_end N K)) e ∙ ap some ended, same ∙ wrote, over)
