-- ===== src/Io/Text/Defs.antt =====
-- Text literals as bytes, the decimal digits of a byte, and UTF-8 as `String::from_utf8` and
-- `String::from_utf8_lossy` of the standard library check it.
use Prim.Native.Char.{code}
use Prim.Native.String.{String}
use vpn_bridge.Prelude.{
  ℕ, ◌+◌, ◌/◌, ◌%◌, Bool, true, false, ◌&&◌, List, [], ◌∷◌, ◌++◌, ltb, leb, ◌==◌, if◌then◌else◌,
}

-- The bytes of an ASCII literal.
abbrev pub text : String → List ℕ
text String.[] = []
text (String.◌∷◌ c s) = code c ∷ text s

-- `{}` of a `u8`.
unfoldable pub show_u8 : ℕ → List ℕ
show_u8 n =
    if ltb n 10
    then digit n ∷ []
    else if ltb n 100
    then digit (n / 10) ∷ digit n ∷ []
    else digit (n / 100) ∷ digit (n / 10) ∷ digit n ∷ []
  where
    digit : ℕ → ℕ
    digit d = 48 + d % 10

-- Where a reader of UTF-8 stands: between characters, with one, two or three bytes to come, or after
-- a lead byte that restricts the next one (0xE0, 0xED, 0xF0, 0xF4).
pub data Scan : Type 0 where
  start one two three after_e0 after_ed after_f0 after_f4 bad : Scan

abbrev pub within : ℕ → ℕ → ℕ → Bool
within lo hi b = leb lo b && leb b hi

-- Table 3-7 of the Unicode standard, which the standard library follows.
unfoldable pub lead : ℕ → Scan
lead b =
    if ltb b 0x80
    then start
    else if within 0xc2 0xdf b
    then one
    else if b == 0xe0
    then after_e0
    else if b == 0xed
    then after_ed
    else if within 0xe1 0xef b
    then two
    else if b == 0xf0
    then after_f0
    else if b == 0xf4
    then after_f4
    else if within 0xf1 0xf3 b
    then three
    else bad

abbrev pub if_within : ℕ → ℕ → ℕ → Scan → Scan
if_within lo hi b next = if within lo hi b then next else bad

unfoldable pub next : Scan → ℕ → Scan
unfolding lead
next start b = lead b
next one b = if_within 0x80 0xbf b start
next two b = if_within 0x80 0xbf b one
next three b = if_within 0x80 0xbf b two
next after_e0 b = if_within 0xa0 0xbf b one
next after_ed b = if_within 0x80 0x9f b one
next after_f0 b = if_within 0x90 0xbf b two
next after_f4 b = if_within 0x80 0x8f b two
next bad b = bad

abbrev pub is_start : Scan → Bool
is_start start = true
is_start _ = false

unfoldable pub scan : Scan → List ℕ → Scan
unfolding next
scan s [] = s
scan s (b ∷ bs) = scan (next s b) bs

-- Whether `String::from_utf8` accepts the bytes.
unfoldable pub is_utf8 : List ℕ → Bool
unfolding scan
is_utf8 bs = is_start (scan start bs)

-- U+FFFD
abbrev pub replacement : List ℕ
replacement = 0xef ∷ 0xbf ∷ 0xbd ∷ []

-- One byte of `from_utf8_lossy`: what is written, and the state with the bytes still held back.
-- A byte that does not go on with the character begun replaces that part and is read afresh.
abbrev pub restart : List ℕ → ℕ → Scan → List ℕ × Scan × List ℕ
restart out b start = (out ++ (b ∷ []), start, [])
restart out b bad = (out ++ replacement, start, [])
restart out b s = (out, s, b ∷ [])

abbrev pub lossy_next : Scan → Scan → List ℕ → ℕ → List ℕ × Scan × List ℕ
lossy_next start after held b = restart [] b after
lossy_next s start held b = (held ++ (b ∷ []), start, [])
lossy_next s bad held b = restart replacement b (next start b)
lossy_next s s' held b = ([], s', held ++ (b ∷ []))

-- A character cut off by the end of the bytes is replaced.
abbrev pub lossy_end : Scan → List ℕ
lossy_end start = []
lossy_end _ = replacement

unfoldable pub lossy_scan : Scan → List ℕ → List ℕ → List ℕ
unfolding next
lossy_scan s held [] = lossy_end s
lossy_scan s held (b ∷ bs) =
    let (out, s', held') = lossy_next s (next s b) held b in out ++ lossy_scan s' held' bs

-- `String::from_utf8_lossy`
unfoldable pub from_utf8_lossy : List ℕ → List ℕ
unfolding lossy_scan
from_utf8_lossy bs = lossy_scan start [] bs
