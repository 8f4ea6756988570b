-- ===== src/Host/Uplink.antt =====
-- crates/host/src/tunnel.rs: `uplink`, which frames the datagrams of a local UDP flow, and what the
-- other end of the tunnel reads of them.
use vpn_bridge.Io.{>>=-eq-ok, Action, Result, ok, pure, ◌>>◌}
use vpn_bridge.Io.Reader.{IsReader, Reader, Reads}
use vpn_bridge.Io.Writer.{IsWriter, Writer}
use vpn_bridge.Prelude.{
  All, Bool, List, [], ap, append-nil, append_assoc, false, length, sym, true, ℕ, ◌++◌, ◌∙◌, ◌∷◌,
  ◌≡◌,
}
use vpn_bridge.Proto.{write_datagram}
use vpn_bridge.Proto.Datagrams.{
  IsPayload, datagram_layout, read_datagrams, read_datagrams-session, session_layout,
  write_datagram_written,
}

-- The reads of the local flow in order, one datagram each; an empty one ends the loop, and the end of
-- the list is the loop waiting for the next. The value says that the loop has ended, and that it has
-- shut the tunnel's sending side down.
module _ (W : Writer) where
  unfoldable pub uplink : List (List ℕ) → Action W.State Bool
  unfolding write_datagram
  uplink [] = pure false
  uplink ([] ∷ reads) = pure true
  uplink ((b ∷ bs) ∷ reads) = do write_datagram W (b ∷ bs); uplink reads

-- The datagrams before the first empty one.
abbrev pub forwarded : List (List ℕ) → List (List ℕ)
forwarded [] = []
forwarded ([] ∷ reads) = []
forwarded ((b ∷ bs) ∷ reads) = (b ∷ bs) ∷ forwarded reads

same_state :
    {A S : Type 0} {a b : A} {x y : S} → ◌≡◌ {A = Result (A × S)} (ok (a, x)) (ok (b, y)) → y ≡ x
same_state e = cc

module _ {W : Writer} (M : IsWriter W) where
  open M use {written}

  uplink_written :
      (reads : List (List ℕ)) (ended : Bool) (w w' : W.State)
      → uplink W reads w ≡ ok (ended, w')
      → (written w' ≡ written w ++ session_layout (forwarded reads))
        × All IsPayload (forwarded reads)
  unfolding uplink
  uplink_written [] ended w w' h = (ap written (same_state h) ∙ sym (append-nil (written w)), tt)
  uplink_written ([] ∷ reads) ended w w' h =
      (ap written (same_state h) ∙ sym (append-nil (written w)), tt)
  uplink_written ((b ∷ bs) ∷ reads) ended w w' h =
      let (_, u, first, rest) = >>=-eq-ok (write_datagram W (b ∷ bs)) (λ _. uplink W reads) w h in
      let (wrote, fits) = write_datagram_written M (b ∷ bs) w u first in
      let (more, all) = uplink_written reads ended u w' rest in
      (
        more
            ∙ ap (λ l. l ++ session_layout (forwarded reads)) wrote
            ∙ append_assoc (written w) (datagram_layout (b ∷ bs))
                (session_layout (forwarded reads)),
        (fits, all),
      )

  -- What a local UDP flow sends arrives at the other end of the tunnel as the same datagrams, in the
  -- same order, up to the first empty one, which ends the loop and is not sent; reading stops exactly
  -- behind the last. Condition: the writes succeed.
  pub uplink-delivered :
      {R : Reader} (L : IsReader R) (reads : List (List ℕ)) (buf : List ℕ) (ended : Bool)
      (w w' : W.State)
      → uplink W reads w ≡ ok (ended, w')
      → (bs : List ℕ) × (written w' ≡ written w ++ bs)
        × ((rest : List ℕ)
            → Reads L
                (read_datagrams R (length (forwarded reads)) buf)
                (bs ++ rest)
                (forwarded reads)
                rest)
  uplink-delivered L reads buf ended w w' h =
      let (wrote, fits) = uplink_written reads ended w w' h in
      (
        session_layout (forwarded reads),
        wrote,
        λ rest. read_datagrams-session L (forwarded reads) buf rest fits,
      )
