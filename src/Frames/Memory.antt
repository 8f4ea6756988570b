-- ===== src/Frames/Memory.antt =====
-- Channels and streams of frames in memory, the instances of Frames.antt that the tests use.
use vpn_bridge.Frames.{Channel, Inbound, IsChannel, IsComing, IsInbound}
use vpn_bridge.Io.{Action, ok}
use vpn_bridge.Prelude.{List, Option, [], none, refl, some, ℕ, ◌++◌, ◌∷◌, ◌≡◌}

abbrev pub items : (A : Type 0) → Channel A
items A = record { State = List A; send = λ a s. ok (tt, s ++ (a ∷ [])) }

unfoldable pub items-IsChannel : (A : Type 0) → IsChannel (items A)
items-IsChannel A = record { sent = λ s. s; send_ok = λ a s t e. cc }

abbrev pub next_frame : Action (List (List ℕ)) (Option (List ℕ))
next_frame [] = ok (none, [])
next_frame (f ∷ frames) = ok (some f, frames)

abbrev pub frames_in : Inbound
frames_in = record { State = List (List ℕ); message = next_frame }

frames_some : (s t : List (List ℕ)) (f : List ℕ) → next_frame s ≡ ok (some f, t) → s ≡ f ∷ t
frames_some [] t f h = cc
frames_some (x ∷ s) t f h = let p : x ≡ f = cc in let q : s ≡ t = cc in cc

frames_none : (s t : List (List ℕ)) → next_frame s ≡ ok (none, t) → s ≡ []
frames_none [] t h = refl
frames_none (x ∷ s) t h = cc

unfoldable pub frames_in-IsInbound : IsInbound frames_in
unfolding frames_some frames_none
frames_in-IsInbound = record {
  coming = λ s. s;
  message_some = frames_some;
  message_none = frames_none;
}

pub frames_in-IsComing : IsComing frames_in
frames_in-IsComing [] = (none, [], refl)
frames_in-IsComing (f ∷ s) = (some f, s, refl)
