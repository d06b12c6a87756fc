-- ===== src/Examples/Tools.antt =====
-- The witness of the theorem on a generated card, and its number parser on a few texts.
use p2s.Prelude.{
  ℕ, ◌+◌, ◌-◌, ◌*◌, ◌≡◌, refl, inr, none, some, List, [], ◌∷◌, leb, if◌then◌else◌, nat_eq, list_eq,
  ok, lookup, Text, Bytes, codes, is_control, is_whitespace, trim, utf8,
}
use p2s.Proto.{SignedCard, canonical_encode}
use p2s.Card.{encode_card}
use p2s.Publisher.{hex_encode}
use p2s.Node.Request.{HexReader}
use p2s.Tools.CardGen.{CardJson, record_of, generate_card, parse_digits, parse_u64}
use p2s.Node.RateLimit.{allowed, check, check_count, check_cooldown, new_limiter}
use p2s.Node.Metrics.{new_metrics}
use p2s.Node.TrustWeight.{new_weights}
use p2s.Node.HttpApi.{AppState, Publication, publish_request}
use p2s.Verifier.Harden.{harden_label}
use p2s.Verifier.Manifest.Checks.{secure}
use p2s.Tools.CardGen.Accepted.{request_of, ReadsBack}
use p2s.Tools.CardGen.Published.{publish_request-generate_card}
use p2s.Examples.Toy.{toy_platform, toy_net, toy_float, toy_sled, card_coding, signed_card_coding}
use p2s.Examples.Data.{site}
use p2s.Examples.Running.{toy_env, toy_reader}

parse_u64_largest : parse_u64 (codes "+18446744073709551615") ≡ some 18446744073709551615
unfolding parse_u64 parse_digits
parse_u64_largest = refl

parse_u64_too_large : parse_u64 (codes "18446744073709551616") ≡ none
unfolding parse_u64 parse_digits
parse_u64_too_large = refl

parse_u64_sign_only : parse_u64 (codes "+") ≡ none
unfolding parse_u64 parse_digits
parse_u64_sign_only = refl

-- Two digits for a byte.
abbrev digit : ℕ → ℕ
digit c = if leb c b'9' then c - b'0' else c - 87

abbrev from_hex : Text → Bytes
from_hex [] = []
from_hex (a ∷ []) = []
from_hex (a ∷ b ∷ cs) = (digit a * 16 + digit b) ∷ from_hex cs

abbrev hex_reader : HexReader
hex_reader text = ok (from_hex text)

abbrev some_args : List Text
some_args = codes "card-gen" ∷ codes "a.example" ∷ codes "3" ∷ []

abbrev message : Bytes
message = card_coding.write (record_of toy_platform 7 some_args) []

abbrev toy_signed : SignedCard
toy_signed = record { card = record_of toy_platform 7 some_args; sig = toy_platform.sign 7 message }

toy_encoded : encode_card toy_platform (record_of toy_platform 7 some_args) ≡ ok message
unfolding encode_card canonical_encode
toy_encoded = refl

toy_signed-ReadsBack : ReadsBack toy_platform hex_reader toy_signed
unfolding hex_encode parse_u64 parse_digits utf8
toy_signed-ReadsBack = record { pubkey = refl; manifest_hash = refl; sig = refl }

toy_signed_encoded :
    canonical_encode ⦃c = toy_platform.signed_card_codec⦄ toy_signed
    ≡ ok (signed_card_coding.write toy_signed [])
unfolding canonical_encode
toy_signed_encoded = refl

toy_hardens : harden_label (codes "a.example") ≡ ok (codes "a.example")
unfolding harden_label trim is_control is_whitespace
toy_hardens = refl

toy_allowed : check new_limiter (codes "a.example") 5 ≡ allowed
unfolding check check_count check_cooldown new_limiter lookup
toy_allowed = refl

abbrev toy_node : AppState toy_platform (toy_net site []) toy_float toy_sled toy_reader hex_reader
toy_node = record {
  metrics = new_metrics;
  rate_limiter = new_limiter;
  trust_weights = new_weights toy_float toy_sled;
}

publish_request-generate_card_example :
    (json : CardJson) × (publication : Publication toy_platform
      (toy_net site [])
      toy_float
      toy_sled
      toy_reader
      hex_reader)
    × (generate_card toy_platform 7 some_args ≡ ok json)
    × ((publish_request toy_platform
          (toy_net site [])
          toy_float
          toy_sled
          toy_reader
          hex_reader
          toy_env
          (request_of json)
          toy_node).1
        ≡ ok publication)
    × (publication.card ≡ toy_signed)
    × (publication.value ≡ signed_card_coding.write toy_signed [])
    × (publication.trust_weight ≡ none)
    × (json.address ≡ hex_encode publication.address)
publish_request-generate_card_example =
    publish_request-generate_card toy_platform (toy_net site []) toy_float toy_sled toy_reader
      hex_reader (λ secs. refl) toy_env toy_node 7 some_args message
      (signed_card_coding.write toy_signed []) (codes "a.example") toy_encoded toy_signed-ReadsBack
      toy_signed_encoded toy_hardens (secure (codes "https://a.example/mcp") refl refl refl refl)
      (inr toy_allowed) refl refl
