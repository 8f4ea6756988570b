-- ===== src/Io/Text/Blank.antt =====
-- `s.trim().is_empty()` of the standard library: every character is white space of the Unicode
-- property White_Space, here read off the UTF-8 bytes.
use vpn_bridge.Prelude.{ℕ, Bool, true, false, ◌||◌, List, [], ◌∷◌, ◌==◌, if◌then◌else◌}
use vpn_bridge.Io.Text.Defs.{within}

-- Where a reader stands: between characters, behind the bytes that the name says, or at a character
-- that is not white space.
pub data Gap : Type 0 where
  between after_c2 after_e1 after_e1_9a after_e2 after_e2_80 after_e2_81 after_e3 after_e3_80 : Gap
  solid : Gap

abbrev close_if : Bool → Gap
close_if test = if test then between else solid

-- U+0009 to U+000D, U+0020, U+0085, U+00A0, U+1680, U+2000 to U+200A, U+2028, U+2029, U+202F, U+205F
-- and U+3000.
unfoldable pub gap_step : Gap → ℕ → Gap
gap_step between b =
    if within 0x09 0x0d b || (b == 0x20)
    then between
    else if b == 0xc2
    then after_c2
    else if b == 0xe1
    then after_e1
    else if b == 0xe2
    then after_e2
    else if b == 0xe3
    then after_e3
    else solid
gap_step after_c2 b = close_if ((b == 0x85) || (b == 0xa0))
gap_step after_e1 b = if b == 0x9a then after_e1_9a else solid
gap_step after_e1_9a b = close_if (b == 0x80)
gap_step after_e2 b = if b == 0x80 then after_e2_80 else if b == 0x81 then after_e2_81 else solid
gap_step after_e2_80 b =
    close_if (within 0x80 0x8a b || ((b == 0xa8) || ((b == 0xa9) || (b == 0xaf))))
gap_step after_e2_81 b = close_if (b == 0x9f)
gap_step after_e3 b = if b == 0x80 then after_e3_80 else solid
gap_step after_e3_80 b = close_if (b == 0x80)
gap_step solid b = solid

abbrev is_between : Gap → Bool
is_between between = true
is_between _ = false

unfoldable pub gap_run : Gap → List ℕ → Gap
unfolding gap_step
gap_run g [] = g
gap_run g (b ∷ bs) = gap_run (gap_step g b) bs

unfoldable pub is_blank : List ℕ → Bool
unfolding gap_run
is_blank s = is_between (gap_run between s)
