-- ===== src/Frames/Local.antt =====
-- crates/host/src/tunnel.rs and crates/proxy-client/src/relay.rs: the local side of a UDP flow, to which
-- a datagram is given by `write_all`. It takes one datagram with each write, as a channel takes items;
-- `write_all` makes no write for an empty buffer.
use vpn_bridge.Frames.{Channel, IsChannel}
use vpn_bridge.Io.{Action, ok}
use vpn_bridge.Io.Transfer.{Takes}
use vpn_bridge.Prelude.{List, [], append-nil, refl, sym, ℕ, ◌++◌, ◌∷◌, ◌≡◌}

unfoldable pub write_item : (U : Channel (List ℕ)) → List ℕ → Action U.State (Unit {0})
write_item U [] u = ok (tt, u)
write_item U (b ∷ bs) u = U.send (b ∷ bs) u

-- The datagrams for which there is a write.
abbrev pub non_empty : List (List ℕ) → List (List ℕ)
non_empty [] = []
non_empty ([] ∷ payloads) = non_empty payloads
non_empty ((b ∷ bs) ∷ payloads) = (b ∷ bs) ∷ non_empty payloads

pub non_empty_first :
    (payload : List ℕ) (payloads : List (List ℕ))
    → non_empty (payload ∷ payloads) ≡ non_empty (payload ∷ []) ++ non_empty payloads
non_empty_first [] payloads = refl
non_empty_first (b ∷ bs) payloads = refl

-- A local side that takes what is sent takes every datagram, and gets it unless it is empty.
pub write_item_takes :
    {U : Channel (List ℕ)} (M : IsChannel U) (payload : List ℕ) (u : U.State)
    → Takes U.send
    → (u' : U.State) × (write_item U payload u ≡ ok (tt, u'))
      × (M.sent u' ≡ M.sent u ++ non_empty (payload ∷ []))
unfolding write_item
write_item_takes M [] u takes = (u, refl, sym (append-nil (M.sent u)))
write_item_takes M (b ∷ bs) u takes =
    let (u', given) = takes (b ∷ bs) u in (u', given, M.send_ok (b ∷ bs) u u' given)
