-- ===== src/Io/Memory.antt =====
-- Streams in memory, the instances of Io/Source and Io/Sink that the tests use.
use vpn_bridge.Io.Defs.{Result, ok}
use vpn_bridge.Io.Sink.{IsSink, Sink}
use vpn_bridge.Io.Source.{IsSound, IsSource, Source}
use vpn_bridge.Prelude.{
  Bool, List, [], ap, ap₂, arith, drop, length, length-take, refl, suc, sym, take, take-append-drop,
  true, zero, ℕ, ◌++◌, ◌<◌, ◌∙◌, ◌∷◌, ◌≡◌, ◌≤◌,
}

abbrev pub bytes_in : Source
bytes_in = record { State = List ℕ; read = λ room s. ok (take room s, drop room s) }

taken_apart :
    (room : ℕ) (s t bs : List ℕ)
    → ◌≡◌ {A = Result (List ℕ × List ℕ)} (ok (take room s, drop room s)) (ok (bs, t))
    → (s ≡ bs ++ t) × (length bs ≤ room)
taken_apart room s t bs e =
    let front : take room s ≡ bs = cc in
    let back : drop room s ≡ t = cc in
    (
      sym (ap₂ (λ x y. x ++ y) (sym front) (sym back) ∙ take-append-drop room s),
      omega (arith, ap length front, length-take room s),
    )

nothing_taken :
    (room : ℕ) (s t : List ℕ)
    → 0 < room
    → ◌≡◌ {A = Result (List ℕ × List ℕ)} (ok (take room s, drop room s)) (ok ([], t))
    → s ≡ []
nothing_taken room [] t wide e = refl
nothing_taken zero (x ∷ xs) t wide e = absurd (omega arith)
nothing_taken (suc room) (x ∷ xs) t wide e = cc

unfoldable pub bytes_in-IsSource : IsSource bytes_in
unfolding taken_apart nothing_taken
bytes_in-IsSource = record { pending = λ s. s; read_ok = taken_apart; read_end = nothing_taken }

unfoldable pub bytes_in-IsSound : IsSound bytes_in
bytes_in-IsSound room s = (take room s, drop room s, refl)

-- The bytes, and whether the end has been handed over.
abbrev pub bytes_out : Sink
bytes_out = record {
  State = List ℕ × Bool;
  write_all = λ bs s. ok (tt, (s.0 ++ bs, s.1));
  shutdown = λ s. ok (tt, (s.0, true));
}

unfoldable pub bytes_out-IsSink : IsSink bytes_out
bytes_out-IsSink = record {
  written = λ s. s.0;
  closed = λ s. s.1;
  write_all_ok = λ bs s t e. cc;
  shutdown_ok = λ s t e. (cc, cc);
}
