-- ===== src/Host/Lookup.antt =====
-- crates/host/src/route.rs: how `lookup` reads the first line of `ip route get`, given as its words.
use vpn_bridge.Checks.{bail}
use vpn_bridge.Io.{Result, ok}
use vpn_bridge.Io.Text.{text}
use vpn_bridge.Net.{IpAddr}
use vpn_bridge.Prelude.{
  All, List, Option, [], ap, false, if◌then◌else◌, is_empty, none, refl, same_bytes, some, ℕ, ◌++◌,
  ◌∙◌, ◌∷◌, ◌≡◌,
}
use vpn_bridge.Routing.{NextHop}

pub data Keyword : Type 0 where
  via dev src : Keyword

abbrev pub keyword_of : List ℕ → Option Keyword
keyword_of word =
    if same_bytes word (text "via")
    then some via
    else if same_bytes word (text "dev")
    then some dev
    else if same_bytes word (text "src")
    then some src
    else none

-- `FromStr` of an address.
module _ (parse : List ℕ → Option IpAddr) where
  -- What a keyword does with the word behind it, if there is one.
  unfoldable pub take_word : Keyword → NextHop → Option (List ℕ) → NextHop
  take_word via hop (some word) = record hop { gateway = parse word }
  take_word via hop none = record hop { gateway = none }
  take_word dev hop (some word) = record hop { dev = word }
  take_word dev hop none = record hop { dev = [] }
  take_word src hop (some word) = record hop { src = parse word }
  take_word src hop none = record hop { src = none }

  -- The loop over the words; with `some`, the word is the value of that keyword (`i + 1`).
  unfoldable pub scan_words : Option Keyword → NextHop → List (List ℕ) → NextHop
  unfolding take_word
  scan_words none hop [] = hop
  scan_words (some key) hop [] = take_word key hop none
  scan_words none hop (word ∷ words) = scan_words (keyword_of word) hop words
  scan_words (some key) hop (word ∷ words) = scan_words none (take_word key hop (some word)) words

  abbrev no_hop : NextHop
  no_hop = record { dev = []; gateway = none; src = none }

  abbrev named : List ℕ → NextHop → Result NextHop
  named message hop = if is_empty hop.dev then bail message else ok hop

  unfoldable pub parse_hop : (target line : List ℕ) → List (List ℕ) → Result NextHop
  unfolding scan_words
  parse_hop target line words =
      named (text "could not determine outgoing device for " ++ target ++ text ": " ++ line)
        (scan_words none no_hop words)

  abbrev pub IsPlain : List ℕ → Type 0
  IsPlain word = keyword_of word ≡ none

  scan_words-plain :
      (hop : NextHop) (words more : List (List ℕ))
      → All IsPlain words
      → scan_words none hop (words ++ more) ≡ scan_words none hop more
  unfolding scan_words
  scan_words-plain hop [] more plain = refl
  scan_words-plain hop (word ∷ words) more plain =
      ap (λ key. scan_words key hop (words ++ more)) plain.0
      ∙ scan_words-plain hop words more plain.1

  scan_words-last :
      (hop : NextHop) (words : List (List ℕ)) → All IsPlain words → scan_words none hop words ≡ hop
  unfolding scan_words
  scan_words-last hop [] plain = refl
  scan_words-last hop (word ∷ words) plain =
      ap (λ key. scan_words key hop words) plain.0 ∙ scan_words-last hop words plain.1

  -- A line that names a gateway, a device and a source, with any other words around them, gives
  -- exactly these. Conditions: the other words are no keywords, and the device has a name.
  parse_hop-line :
      (target line : List ℕ) (before middle beyond after : List (List ℕ))
      (gateway device source : List ℕ)
      → All IsPlain before
      → All IsPlain middle
      → All IsPlain beyond
      → All IsPlain after
      → is_empty device ≡ false
      → parse_hop target line (
          before
          ++ (text "via"
              ∷ gateway
              ∷ (middle ++ (text "dev" ∷ device ∷ (beyond ++ (text "src" ∷ source ∷ after))))))
        ≡ ok (record { dev = device; gateway = parse gateway; src = parse source })
  unfolding parse_hop
  parse_hop-line target line before middle beyond after gateway device source p q r s named_device =
      ap (named _) (
        scan_words-plain _ before _ p
        ∙ scan_words-plain _ middle _ q
        ∙ scan_words-plain _ beyond _ r
        ∙ scan_words-last _ after s)
      ∙ rw named_device refl
