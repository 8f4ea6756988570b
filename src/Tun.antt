-- ===== src/Tun.antt =====
-- A TUN interface as `tun_rs::AsyncDevice` gives it, and the buffer of a read, as both devices
-- (crates/host/src/main.rs and crates/proxy-client/src/device.rs) use them.
use vpn_bridge.Io.{Result, err, ok}
use vpn_bridge.Prelude.{
  List, ap, arith, inr, length, length-append, refl, subst, take, ℕ, ◌++◌, ◌-◌, ◌∷◌, ◌≡◌, ◌≤◌, ◌⊎◌,
  ◌<◌,
}

-- `std::task::Poll` of an `std::io::Result`.
pub data Poll (A : Type 0) : Type 0 where
  ready : Result A → Poll A
  pending : Poll A

-- `tokio::io::ReadBuf`: what is filled, and how much it can hold.
pub record ReadBuf : Type 0 where
  pub filled : List ℕ
  pub capacity : ℕ

-- Not less than 0, since no more is filled than the buffer holds.
abbrev pub remaining : ReadBuf → ℕ
remaining buf = buf.capacity - length buf.filled

abbrev pub IsReadBuf : ReadBuf → Type 0
IsReadBuf buf = length buf.filled ≤ buf.capacity

pub record Tun : Type 1 where
  pub State : Type 0
  -- Into a buffer of that length.
  pub poll_recv : ℕ → State → Poll (List ℕ) × State
  pub poll_send : List ℕ → State → Poll ℕ × State

abbrev pub FitsIn : ℕ → Poll (List ℕ) → Type 0
FitsIn room (ready (ok packet)) = length packet ≤ room
FitsIn room (ready (err e)) = Unit {0}
FitsIn room pending = Unit {0}

-- `coming` is what the interface has for the program: a packet is taken off its front, without the part
-- that does not fit, and nothing is taken where there is none.
pub record IsTun (D : Tun) : Type 0 where
  pub coming : D.State → List (List ℕ)
  pub recv_fits : (room : ℕ) (d : D.State) → FitsIn room (D.poll_recv room d).0
  pub recv_ready :
      (room : ℕ) (d d' : D.State) (packet : List ℕ)
      → D.poll_recv room d ≡ (ready (ok packet), d')
      → (whole : List ℕ) × (coming d ≡ whole ∷ coming d') × (packet ≡ take room whole)
  pub recv_pending :
      (room : ℕ) (d d' : D.State) → D.poll_recv room d ≡ (pending, d') → coming d' ≡ coming d

module _ (D : Tun) where
  abbrev pub read_into : ReadBuf → Poll (List ℕ) → Poll (Unit {0}) × ReadBuf
  read_into buf (ready (ok packet)) = (ready (ok tt), record buf { filled = buf.filled ++ packet })
  read_into buf (ready (err e)) = (ready (err e), buf)
  read_into buf pending = (pending, buf)

  abbrev pub received_into :
      ReadBuf → Poll (List ℕ) × D.State → (Poll (Unit {0}) × ReadBuf) × D.State
  received_into buf (answer, d) = (read_into buf answer, d)

module _ {D : Tun} (L : IsTun D) where
  -- What a poll leaves. A full buffer stays as it is, and so does the interface. Otherwise the next
  -- packet of the interface stands behind the old bytes, whole where it fits, or, where the interface
  -- gives none, the buffer stays as it is.
  abbrev pub Polled : ReadBuf → D.State → (Poll (Unit {0}) × ReadBuf) × D.State → Type 0
  Polled buf d ((ready (ok _), after), d') =
      IsReadBuf after
      × ((remaining buf ≡ 0) × (after.filled ≡ buf.filled) × (d' ≡ d)
          ⊎ (packet : List ℕ) × (0 < remaining buf)
            × (L.coming d ≡ packet ∷ L.coming d')
            × (after.filled ≡ buf.filled ++ take (remaining buf) packet))
  Polled buf d ((ready (err e), after), d') = (0 < remaining buf) × (after ≡ buf)
  Polled buf d ((pending, after), d') =
      (0 < remaining buf) × (after ≡ buf) × (L.coming d' ≡ L.coming d)

  into_Polled :
      (buf : ReadBuf) (d : D.State) (answer : Poll (List ℕ)) (d' : D.State)
      → IsReadBuf buf
      → 0 < remaining buf
      → FitsIn (remaining buf) answer
      → D.poll_recv (remaining buf) d ≡ (answer, d')
      → Polled buf d (received_into D buf (answer, d'))
  into_Polled buf d (ready (ok packet)) d' held room fits e =
      let (whole, front, part) = L.recv_ready (remaining buf) d d' packet e in
      (
        omega (arith, length-append buf.filled packet),
        inr (whole, room, front, ap (λ l. buf.filled ++ l) part),
      )
  into_Polled buf d (ready (err e')) d' held room fits e = (room, refl)
  into_Polled buf d pending d' held room fits e =
      (room, refl, L.recv_pending (remaining buf) d d' e)

  pub received-Polled :
      (buf : ReadBuf) (d : D.State)
      → IsReadBuf buf
      → 0 < remaining buf
      → (r : Poll (List ℕ) × D.State) → D.poll_recv (remaining buf) d ≡ r
      → Polled buf d (received_into D buf r)
  received-Polled buf d held room (answer, d') e =
      into_Polled buf d answer d' held room
        (subst (FitsIn (remaining buf)) (ap (λ p. p.0) e) (L.recv_fits (remaining buf) d)) e
