-- ===== src/Server/Copy.antt =====
-- crates/proxy-server/src/server.rs: `copy_with_activity`, one direction of a TCP flow.
use vpn_bridge.Frames.{HandedOn-written, Shuts, behind_loop}
use vpn_bridge.Io.{Action, Result, err, ok}
use vpn_bridge.Io.Sink.{IsSink, Sink}
use vpn_bridge.Io.Source.{IsSound, IsSource, Source}
use vpn_bridge.Io.Transfer.{
  Ending, HandedOn, IsBlock, Takes, broken, finished, join_blocks, length-join_blocks, stopped,
  transfer, transfer-Carried, transfer_finishes,
}
use vpn_bridge.Prelude.{
  All, List, Option, [], ap, append-nil, arith, length, length-append, some, sym, true, ℕ, ◌*◌,
  ◌++◌, ◌+◌, ◌<◌, ◌∙◌, ◌∷◌, ◌≡◌, ◌≤◌,
}

module _ (S : Source) (K : Sink) where
  -- The writer, and how often `activity.notify_one()` has been called.
  abbrev pub Copying : Type 0
  Copying = K.State × ℕ

  abbrev pub noted : ℕ → Result (Unit {0} × K.State) → Result (Unit {0} × Copying)
  noted n (ok (_, k)) = ok (tt, (k, n + 1))
  noted n (err e) = err e

  abbrev pub write_block : List ℕ → Action Copying (Unit {0})
  write_block block (k, n) = noted n (K.write_all block k)

  abbrev pub shut_behind : ℕ → Result (Unit {0} × K.State) → Result (Unit {0} × Copying)
  shut_behind n (ok (_, k)) = ok (tt, (k, n))
  shut_behind n (err e) = err e

  abbrev pub copy_end : Ending S.State Copying → Result (Unit {0} × Copying)
  copy_end (finished s (k, n)) = shut_behind n (K.shutdown k)
  copy_end (stopped e) = err e
  copy_end (broken e t) = err e

  abbrev pub copy_buffer : ℕ
  copy_buffer = 16 * 1024

  -- A loop of reads, on fuel; `none` means that it ran out.
  unfoldable pub copy_with_activity : ℕ → S.State → Copying → Option (Result (Unit {0} × Copying))
  unfolding transfer
  copy_with_activity fuel s t = behind_loop copy_end (transfer S copy_buffer write_block fuel s t)

  noted-ok :
      (n : ℕ) (r : Result (Unit {0} × K.State)) (k' : K.State) (n' : ℕ)
      → noted n r ≡ ok (tt, (k', n'))
      → (r ≡ ok (tt, k')) × (n' ≡ n + 1)
  noted-ok n (ok (_, k)) k' n' h = (cc, cc)
  noted-ok n (err e) k' n' h = cc

  blocks_noted :
      (t t' : Copying) (blocks : List (List ℕ))
      → HandedOn write_block t blocks t'
      → HandedOn K.write_all t.0 blocks t'.0 × (t'.1 ≡ t.1 + length blocks)
  blocks_noted (k, n) (k', n') [] e = (ap (λ p. p.0) e, omega (arith, ap (λ (p : Copying). p.1) e))
  blocks_noted (k, n) (k', n') (block ∷ blocks) ((u, m), wrote, run) =
      let (first, noted_once) = noted-ok n (K.write_all block k) u m wrote in
      let (rest, count) = blocks_noted (u, m) (k', n') blocks run in
      ((u, first, rest), omega (arith, noted_once, count))

  block_takes : Takes K.write_all → Takes write_block
  block_takes takes block (k, n) =
      let (u, wrote) = takes block k in ((u, n + 1), ap (noted n) wrote)

-- A block is at most 16384 bytes, so there are not many fewer of them than there are bytes.
blocks_many :
    (blocks : List (List ℕ))
    → All (IsBlock 16384) blocks
    → length (join_blocks blocks) ≤ length blocks * 16384
blocks_many [] fit = omega arith
blocks_many (block ∷ blocks) ((some_bytes, short), fit) =
    omega (arith, length-append block (join_blocks blocks), blocks_many blocks fit)

-- One direction of a flow ends with all bytes copied, in order, and the end of the stream passed on;
-- the idle timer is told at least once for each 16 KiB, and not more often than there are bytes.
-- Conditions: neither side fails, and there is fuel for more reads than there are bytes.
pub copy_with_activity-copied :
    {S : Source} (L : IsSource S) {K : Sink} (T : IsSink K) (fuel : ℕ) (s : S.State) (k : K.State)
    (n : ℕ)
    → IsSound S
    → Takes K.write_all
    → Shuts K
    → length (L.pending s) < fuel
    → (k' : K.State) × (notes : ℕ) × (copy_with_activity S K fuel s (k, n)
        ≡ some (ok (tt, (k', n + notes))))
      × (T.written k' ≡ T.written k ++ L.pending s)
      × (T.closed k' ≡ true)
      × (length (L.pending s) ≤ notes * 16384)
      × (notes ≤ length (L.pending s))
unfolding copy_with_activity
copy_with_activity-copied {S} L {K} T fuel s k n sound takes shuts enough =
    let (s', t', e) =
      transfer_finishes L (copy_buffer S K) (write_block S K) fuel s (k, n) sound
        (block_takes S K takes) enough in
    let (blocks, run, fit, whole) =
      transfer-Carried L (copy_buffer S K) (write_block S K) fuel s (k, n) (finished s' t')
        (omega arith) e in
    let (wrote, count) = blocks_noted S K (k, n) t' blocks run in
    let (k', ended) = shuts t'.0 in
    let (same, over) = T.shutdown_ok t'.0 k' ended in
    let bytes : join_blocks blocks ≡ L.pending s = sym (whole ∙ append-nil (join_blocks blocks)) in
    (
      k',
      length blocks,
      ap (behind_loop (copy_end S K)) e
          ∙ ap (λ r. some (shut_behind S K t'.1 r)) ended
          ∙ ap (λ m. some (ok (tt, (k', m)))) count,
      same ∙ HandedOn-written T k t'.0 blocks wrote ∙ ap (λ l. T.written k ++ l) bytes,
      over,
      omega (arith, blocks_many blocks fit, ap length bytes),
      omega (arith, length-join_blocks 16384 blocks fit, ap length bytes),
    )
