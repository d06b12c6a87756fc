-- ===== src/Examples/Filter.antt =====
-- The witness of the theorem that the filter does not panic: a lowercasing that widens one letter, on
-- a text of ASCII characters.
use p2s.Prelude.{
  ℕ, ◌+◌, ◌≡◌, refl, Bool, true, ◌&&◌, [], ◌∷◌, arith, ltb, leb, ◌==◌, if◌then◌else◌, nat_eq,
  list_eq, all, ok, Text, codes, utf8_char,
}
use p2s.Verifier.Slices.Cuts.{SameWidths}
use p2s.Verifier.Sanitize.{sanitize_content}
use p2s.Verifier.Sanitize.Kept.{sanitize_content-total}

abbrev is_ascii : ℕ → Bool
is_ascii c = ltb c 128

-- U+0130 becomes an i and a dot above it, as in `str::to_lowercase`.
abbrev widening : Text → Text
widening [] = []
widening (c ∷ s) =
    let rest = widening s in
    if c == 0x130
    then 0x69 ∷ 0x307 ∷ rest
    else (if leb b'A' c && leb c b'Z' then c + 32 else c) ∷ rest

widening-SameWidths : (s : Text) → all is_ascii s ≡ true → SameWidths s (widening s)
unfolding utf8_char
widening-SameWidths [] h = tt
widening-SameWidths (c ∷ s) h = ground (arith, widening-SameWidths s)

abbrev shop : Text
shop = codes "<STYLE>a</style>Buy <b style=\"DISPLAY:none\">ignore</b> <meta name=x> now"

sanitize_content-total_example : (r : Text) × (sanitize_content widening shop ≡ ok r)
sanitize_content-total_example =
    sanitize_content-total widening is_ascii widening-SameWidths shop refl
