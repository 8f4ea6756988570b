-- ===== src/Host/Downlink.antt =====
-- crates/host/src/tunnel.rs: `downlink`, `relay_udp`, `relay_tcp` and `is_benign_eof`. The local side of
-- a UDP flow is that of Frames/Local.antt.
use vpn_bridge.Frames.{Channel, IsChannel}
use vpn_bridge.Frames.Local.{non_empty, non_empty_first, write_item, write_item_takes}
use vpn_bridge.Io.{
  Error, Result, broken_pipe, connection_aborted, connection_reset, err, not_connected, ok,
  timed_out, unexpected_eof,
}
use vpn_bridge.Io.Reader.{IsReader, Reader, eof}
use vpn_bridge.Io.Transfer.{Takes}
use vpn_bridge.Prelude.{
  All, Bool, List, Option, [], ap, append-nil, append_assoc, arith, false, if◌then◌else◌, length,
  none, some, suc, sym, take, take_all, true, zero, ℕ, ◌++◌, ◌<◌, ◌∙◌, ◌∷◌, ◌≡◌,
}
use vpn_bridge.Proto.{read_datagram}
use vpn_bridge.Proto.Datagrams.{
  IsCut, IsPayload, datagram_layout, read_datagram-IsCut, read_datagram_layout, session_layout,
}

-- Errors that end a flow in the normal way.
unfoldable pub is_benign_eof : Error → Bool
is_benign_eof e = elim e.kind [
  | unexpected_eof ↦ true
  | broken_pipe ↦ true
  | connection_reset ↦ true
  | connection_aborted ↦ true
  | not_connected ↦ true
  | timed_out ↦ true
  | _ ↦ false
]

module _ (R : Reader) (U : Channel (List ℕ)) where
  abbrev pub datagram_given :
      (U.State → Option (Error × U.State))
      → U.State
      → Result (Unit {0} × U.State)
      → Option (Error × U.State)
  datagram_given more u (ok (_, u')) = more u'
  datagram_given more u (err e) = some (e, u)

  abbrev pub datagram_come :
      (List ℕ → R.State → U.State → Option (Error × U.State))
      → U.State
      → Result ((ℕ × List ℕ) × R.State)
      → Option (Error × U.State)
  datagram_come more u (ok ((n, buf), s)) =
      datagram_given (more buf s) u (write_item U (take n buf) u)
  datagram_come more u (err e) = some (e, u)

  -- The loop ends by an error only; on fuel, where `none` means that it ran out.
  unfoldable pub downlink : ℕ → List ℕ → R.State → U.State → Option (Error × U.State)
  unfolding read_datagram write_item
  downlink zero buf s u = none
  downlink (suc fuel) buf s u = datagram_come (downlink fuel) u (read_datagram R buf s)

-- The first of the two loops to end decides about the flow.
unfoldable pub relay_udp : Result (Unit {0}) → Result (Unit {0})
unfolding is_benign_eof
relay_udp (ok _) = ok tt
relay_udp (err e) = if is_benign_eof e then ok tt else err e

module _ {R : Reader} (L : IsReader R) {U : Channel (List ℕ)} (M : IsChannel U) where
  open L use {pending}

  some_datagram :
      (fuel : ℕ) (p buf : List ℕ) (s s' : R.State) (u u' : U.State)
      → read_datagram R buf s ≡ ok ((length p, p), s')
      → write_item U p u ≡ ok (tt, u')
      → downlink R U (suc fuel) buf s u ≡ downlink R U fuel p s' u'
  unfolding downlink
  some_datagram fuel p buf s s' u u' got given =
      ap (datagram_come R U (downlink R U fuel) u) got
      ∙ ap (λ l. datagram_given R U (downlink R U fuel p s') u (write_item U l u))
          (take_all (length p) p (omega arith))
      ∙ ap (datagram_given R U (downlink R U fuel p s') u) given

  -- The datagrams that arrive, less the empty ones, are given on one by one, in order, until the stream
  -- ends: behind the last, or within one, which is dropped. Conditions: each has at most 65535 bytes, the local side
  -- takes them, and there is fuel for one turn more than there are datagrams.
  pub downlink_given :
      (payloads : List (List ℕ)) (part buf : List ℕ) (fuel : ℕ) (s : R.State) (u : U.State)
      → pending s ≡ session_layout payloads ++ part
      → IsCut part
      → All IsPayload payloads
      → Takes U.send
      → length payloads < fuel
      → (u' : U.State) × (downlink R U fuel buf s u ≡ some (eof, u'))
        × (M.sent u' ≡ M.sent u ++ non_empty payloads)
  downlink_given payloads part buf zero s u p cut fit takes enough = absurd (omega arith)
  downlink_given [] part buf (suc fuel) s u p cut fit takes enough =
      (u, at_end, sym (append-nil (M.sent u)))
    where
      at_end : downlink R U (suc fuel) buf s u ≡ some (eof, u)
      at_end =
          unfold downlink in
          ap (datagram_come R U (downlink R U fuel) u) (read_datagram-IsCut L part buf cut s p)
  downlink_given (first ∷ payloads) part buf (suc fuel) s u p cut (fits, fit) takes enough =
      let (s', got, left) =
        read_datagram_layout L first buf (session_layout payloads ++ part) fits s
          (p ∙ append_assoc (datagram_layout first) (session_layout payloads) part) in
      let (u', given, one) = write_item_takes M first u takes in
      let (u'', ended, all) =
        downlink_given payloads part first fuel s' u' left cut fit takes (omega arith) in
      (
        u'',
        some_datagram fuel first buf s s' u u' got given ∙ ended,
        all
            ∙ ap (λ l. l ++ non_empty payloads) one
            ∙ append_assoc (M.sent u) (non_empty (first ∷ [])) (non_empty payloads)
            ∙ ap (λ l. M.sent u ++ l) (sym (non_empty_first first payloads)),
      )
