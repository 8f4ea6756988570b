-- ===== src/Frames/Transparent.antt =====
-- The tasks of crates/proxy-client/src/grpc.rs and crates/proxy-server/src/grpc.rs one behind the
-- other: the stream of frames between them carries a flow's bytes as they are, both ways.
use vpn_bridge.Client.Frames.{
  request_pump, request_pump-framed, response_feed, response_feed_written,
}
use vpn_bridge.Frames.{Channel, Inbound, IsChannel, IsComing, IsInbound, Pumped, Shuts, left_at}
use vpn_bridge.Io.Sink.{IsSink, Sink}
use vpn_bridge.Io.Source.{IsSound, IsSource, Source}
use vpn_bridge.Io.Transfer.{Takes, join_blocks, length-join_blocks}
use vpn_bridge.Prelude.{
  List, Option, [], ap, arith, length, map, refl, some, sym, true, ℕ, ◌++◌, ◌<◌, ◌∙◌, ◌∷◌, ◌≡◌,
}
use vpn_bridge.Server.Frames.{
  Item, frame, request_feed, request_feed_written, respond_pump, respond_pump-framed,
}

append_cancel : {A : Type 0} (xs ys zs : List A) → xs ++ ys ≡ xs ++ zs → ys ≡ zs
append_cancel [] ys zs h = h
append_cancel (x ∷ xs) ys zs h = append_cancel xs ys zs (cc)

map-frame_cancel : (xs ys : List (List ℕ)) → map frame xs ≡ map frame ys → xs ≡ ys
map-frame_cancel [] [] h = refl
map-frame_cancel [] (y ∷ ys) h = cc
map-frame_cancel (x ∷ xs) [] h = cc
map-frame_cancel (x ∷ xs) (y ∷ ys) h =
    let same = map-frame_cancel xs ys (cc) in let front : x ≡ y = cc in cc

map_same : (xs : List (List ℕ)) → map (λ x. x) xs ≡ xs
map_same [] = refl
map_same (x ∷ xs) = ap (λ l. x ∷ l) (map_same xs)

left-eq :
    {C : Type 0} {c c' : C}
    → ◌≡◌ {A = Option (Pumped C)} (some (left_at c)) (some (left_at c'))
    → c ≡ c'
left-eq h = cc

module _ {S : Source} (L : IsSource S) {N : Inbound} (I : IsInbound N) {K : Sink}
    (T : IsSink K) where
  -- The bytes that a flow writes reach the server's handler as the same bytes, followed by the end of
  -- the stream. Conditions: the client's task has sent its frames, and the server's stream brings
  -- those frames; no stream fails, no receiver is gone, and both tasks have fuel for more turns than
  -- there are bytes.
  pub request_feed-request_pump :
      {C : Channel (List ℕ)} (M : IsChannel C) (fuel fuel' : ℕ) (s : S.State) (c c' : C.State)
      (n : N.State) (k : K.State)
      → request_pump S C fuel s c ≡ some (left_at c')
      → M.sent c' ≡ M.sent c ++ I.coming n
      → IsSound S
      → Takes C.send
      → length (L.pending s) < fuel
      → IsComing N
      → Takes K.write_all
      → Shuts K
      → length (L.pending s) < fuel'
      → (k' : K.State) × (request_feed N K fuel' n k ≡ some (left_at k'))
        × (T.written k' ≡ T.written k ++ L.pending s)
        × (T.closed k' ≡ true)
  request_feed-request_pump M fuel fuel' s c c' n k pumped brought sound takes enough coming taken
        shuts enough' =
      let (u, blocks, ran, sent_all, fit, whole) =
        request_pump-framed L M fuel s c sound takes enough in
      let same : u ≡ c' = left-eq (sym ran ∙ pumped) in
      let frames : blocks ≡ I.coming n = append_cancel (M.sent c) blocks (I.coming n) (
        ap (λ l. M.sent c ++ l) (sym (map_same blocks))
        ∙ sym sent_all
        ∙ ap M.sent same
        ∙ brought) in
      let bytes : join_blocks (I.coming n) ≡ L.pending s = ap join_blocks (sym frames) ∙ whole in
      let (k', fed, wrote, over) =
        request_feed_written I T fuel' n k coming taken shuts
          (omega (arith, ap length frames, length-join_blocks 16384 blocks fit, ap length whole)) in
      (k', fed, wrote ∙ ap (λ l. T.written k ++ l) bytes, over)

  -- The bytes that the server's handler writes reach the flow as the same bytes, followed by the end
  -- of the stream. Conditions: the server's task has sent its frames, and the client's stream brings
  -- those frames; no stream fails, no receiver is gone, and both tasks have fuel for more turns than
  -- there are bytes.
  response_feed-respond_pump :
      {C : Channel Item} (M : IsChannel C) (fuel fuel' : ℕ) (s : S.State) (c c' : C.State)
      (n : N.State) (k : K.State)
      → respond_pump S C fuel s c ≡ some (left_at c')
      → M.sent c' ≡ M.sent c ++ map frame (I.coming n)
      → IsSound S
      → Takes (λ block. C.send (frame block))
      → length (L.pending s) < fuel
      → IsComing N
      → Takes K.write_all
      → Shuts K
      → length (L.pending s) < fuel'
      → (k' : K.State) × (response_feed N K fuel' n k ≡ some (left_at k'))
        × (T.written k' ≡ T.written k ++ L.pending s)
        × (T.closed k' ≡ true)
  response_feed-respond_pump M fuel fuel' s c c' n k pumped brought sound takes enough coming taken
        shuts enough' =
      let (u, blocks, ran, sent_all, fit, whole) =
        respond_pump-framed L M fuel s c sound takes enough in
      let same : u ≡ c' = left-eq (sym ran ∙ pumped) in
      let frames : blocks ≡ I.coming n = map-frame_cancel blocks (I.coming n) (
        append_cancel (M.sent c) (map frame blocks) (map frame (I.coming n))
          (sym sent_all ∙ ap M.sent same ∙ brought)) in
      let bytes : join_blocks (I.coming n) ≡ L.pending s = ap join_blocks (sym frames) ∙ whole in
      let (k', fed, wrote, over) =
        response_feed_written I T fuel' n k coming taken shuts
          (omega (arith, ap length frames, length-join_blocks 16384 blocks fit, ap length whole)) in
      (k', fed, wrote ∙ ap (λ l. T.written k ++ l) bytes, over)
