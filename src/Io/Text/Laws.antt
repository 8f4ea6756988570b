-- ===== src/Io/Text/Laws.antt =====
-- A lossy reading changes nothing in valid UTF-8, and ASCII text is valid.
use vpn_bridge.Prelude.{
  ℕ, ◌<◌, ◌≡◌, refl, sym, ap, ◌∙◌, true, List, [], ◌∷◌, ◌++◌, append-nil, append_assoc, arith, All,
  ◌≢◌,
}
use vpn_bridge.Io.Text.Defs.{
  Scan, start, bad, lead, next, scan, is_utf8, is_start, lossy_next, lossy_scan, from_utf8_lossy,
}

scan-bad : (bs : List ℕ) → scan bad bs ≡ bad
unfolding scan
scan-bad [] = refl
scan-bad (b ∷ bs) = scan-bad bs

bad-ne-start : bad ≢ start
bad-ne-start h = cc

is_start-eq : (s : Scan) → is_start s ≡ true → s ≡ start
is_start-eq start h = refl
is_start-eq _ h = cc

-- Nothing is held back between characters.
abbrev Fits : Scan → List ℕ → Type 0
Fits start held = held ≡ []
Fits bad held = ⊥
Fits _ held = Unit {0}

-- A step that is not refused writes nothing new: what is out and held is what came in.
lossy_next-valid :
    (s s' : Scan) (held : List ℕ) (b : ℕ)
    → Fits s held
    → s' ≢ bad
    → ((lossy_next s s' held b).1 ≡ s')
      × ((lossy_next s s' held b).0 ++ (lossy_next s s' held b).2 ≡ held ++ (b ∷ []))
      × Fits s' (lossy_next s s' held b).2
lossy_next-valid s bad held b f h = absurd (h refl)
lossy_next-valid start start held b f h = (refl, rw f, refl)
lossy_next-valid start s' held b f h = (refl, rw f, tt)
lossy_next-valid bad s' held b f h = absurd f
lossy_next-valid s start held b f h = (refl, append-nil _, refl)
lossy_next-valid s s' held b f h = (refl, refl, tt)

lossy_scan-valid :
    (s : Scan) (held bs : List ℕ)
    → Fits s held
    → scan s bs ≡ start
    → lossy_scan s held bs ≡ held ++ bs
unfolding lossy_scan scan
lossy_scan-valid start held [] f h = sym (append-nil held ∙ f)
lossy_scan-valid bad held [] f h = absurd f
lossy_scan-valid s held [] f h = cc
lossy_scan-valid s held (b ∷ bs) f h =
    let alive : next s b ≢ bad = λ e. bad-ne-start (sym (scan-bad bs) ∙ (rw e at h)) in
    let (same, joined, f') = lossy_next-valid s (next s b) held b f alive in
    let out = (lossy_next s (next s b) held b).0 in
    let held' = (lossy_next s (next s b) held b).2 in
    rw same (
      ap (λ l. out ++ l) (lossy_scan-valid (next s b) held' bs f' h)
      ∙ sym (append_assoc out held' bs)
      ∙ ap (λ l. l ++ bs) joined
      ∙ append_assoc held (b ∷ []) bs)

-- `from_utf8_lossy` gives valid UTF-8 back unchanged.
from_utf8_lossy_valid : (bs : List ℕ) → is_utf8 bs ≡ true → from_utf8_lossy bs ≡ bs
unfolding from_utf8_lossy is_utf8
from_utf8_lossy_valid bs h = lossy_scan-valid start [] bs refl (is_start-eq _ h)

lead-ascii : (b : ℕ) → b < 128 → lead b ≡ start
unfolding lead
lead-ascii b h = ground arith

scan-ascii : (bs : List ℕ) → All (λ b. b < 128) bs → scan start bs ≡ start
unfolding scan
scan-ascii [] h = refl
scan-ascii (b ∷ bs) h = rw (lead-ascii b h.0) (scan-ascii bs h.1)

-- ASCII is valid UTF-8.
is_utf8-ascii : (bs : List ℕ) → All (λ b. b < 128) bs → is_utf8 bs ≡ true
unfolding is_utf8
is_utf8-ascii bs h = rw (scan-ascii bs h)
