-- ===== src/Client/Device.antt =====
-- crates/proxy-client/src/device.rs: `TunDevice`, as a stream of packets over the TUN interface.
use vpn_bridge.Io.{ok}
use vpn_bridge.Prelude.{Bool-cases, List, arith, if◌then◌else◌, inl, inr, refl, ℕ, ◌==◌}
use vpn_bridge.Tun.{
  IsReadBuf, IsTun, Poll, Polled, ReadBuf, Tun, ready, received-Polled, received_into, remaining,
}

module _ (D : Tun) where
  -- A full buffer takes nothing, and nothing is asked of the interface.
  unfoldable pub poll_read : ReadBuf → D.State → (Poll (Unit {0}) × ReadBuf) × D.State
  poll_read buf d =
      if remaining buf == 0
      then ((ready (ok tt), buf), d)
      else received_into D buf (D.poll_recv (remaining buf) d)

  unfoldable pub poll_write : List ℕ → D.State → Poll ℕ × D.State
  poll_write packet d = D.poll_send packet d

  unfoldable pub poll_flush : D.State → Poll (Unit {0}) × D.State
  poll_flush d = (ready (ok tt), d)

  unfoldable pub poll_shutdown : D.State → Poll (Unit {0}) × D.State
  poll_shutdown d = (ready (ok tt), d)

-- A read never fills the buffer beyond what it holds and never loses what stands in it; what it adds is
-- the next packet of the interface, whole where it fits, and nothing where the interface has none or
-- fails. A read into a full buffer succeeds and takes no packet off the interface. Condition: the buffer holds no more than it can.
pub poll_read-Polled :
    {D : Tun} (L : IsTun D) (buf : ReadBuf) (d : D.State)
    → IsReadBuf buf
    → Polled L buf d (poll_read D buf d)
unfolding poll_read
poll_read-Polled {D} L buf d fits = elim (Bool-cases (remaining buf == 0)) [
  | inl full ↦ rw full (fits, inl (ground arith, refl, refl))
  | inr roomy ↦ rw roomy (received-Polled L buf d fits (ground arith) _ refl)
]
