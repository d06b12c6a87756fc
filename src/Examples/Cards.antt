-- ===== src/Examples/Cards.antt =====
-- Witnesses of the theorems on cards, clients, mandates and domain proofs.
use p2s.Prelude.{
  ℕ, ◌+◌, ◌≡◌, refl, ◌↔◌, [], ◌∷◌, arith, ltb, if◌then◌else◌, nat_eq, list_eq, Result, ok, err,
  Text, Bytes,
}
use mathlib.Core.List.{Memᴰ}
use p2s.Proto.{CardRecord, SignedCard, SignedMandate}
use p2s.Card.{verify_card, encode_card, sign_card}
use p2s.Card.Verify.{IsAuthentic, verify_card_iff, verify_card-sign_card}
use p2s.Consumer.{verify_fetched_card, fetch_and_verify_manifest}
use p2s.Consumer.Resolve.{Accepts, verify_fetched_card_iff, fetch_and_verify_manifest_sound}
use p2s.Validator.Issuer.{
  encode_mandate, fresh_record, issue_mandate, new_issuer, mandate_ttl_secs, mandate_not_yet_valid,
  mandate_expired,
}
use p2s.Validator.Verifier.{MandateVerifier, verify_at, verify_at_iff, IsTrusted, InForce}
use p2s.Validator.Lifetime.{issue_mandate-verify_at}
use p2s.Examples.Toy.{toy_platform, toy_net, mandate_coding, fit}
use p2s.Examples.Data.{site, toy_record, toy_message, toy_card, toy_address}

verify_card_iff_example :
    (verify_card toy_platform (toy_card 3) ≡ ok tt) ↔ IsAuthentic toy_platform (toy_card 3)
verify_card_iff_example = verify_card_iff toy_platform (toy_card 3)

toy_encoded : encode_card toy_platform (toy_record 3) ≡ ok (toy_message 3)
unfolding encode_card
toy_encoded = refl

verify_card-sign_card_example :
    (c : SignedCard) × (sign_card toy_platform (toy_record 3) 7 ≡ ok c)
    × (c.card ≡ toy_record 3)
    × (verify_card toy_platform c ≡ ok tt)
    × ((r' : CardRecord) (k' : toy_platform.SigningKey)
        → ((c' : SignedCard) × (sign_card toy_platform r' k' ≡ ok c'))
          ↔ ((m' : Bytes) × (encode_card toy_platform r' ≡ ok m')))
verify_card-sign_card_example =
    verify_card-sign_card toy_platform (toy_record 3) 7 (toy_message 3) refl toy_encoded

toy_fetched : fetch_and_verify_manifest toy_platform (toy_net site []) (toy_card 3) ≡ ok site
unfolding fetch_and_verify_manifest
toy_fetched = refl

verify_fetched_card_iff_example :
    (verify_fetched_card toy_platform (toy_card 3) toy_address ≡ ok tt)
    ↔ Accepts toy_platform (toy_card 3) toy_address
verify_fetched_card_iff_example = verify_fetched_card_iff toy_platform (toy_card 3) toy_address

fetch_and_verify_manifest_sound_example :
    (fit 32 site ≡ fit 32 site)
    × (r : Bytes) × (◌≡◌ {A = Result Text Bytes} (ok site) (ok r))
    × (◌≡◌ {A = Result Text Bytes} (ok r) (ok site))
fetch_and_verify_manifest_sound_example =
    fetch_and_verify_manifest_sound toy_platform (toy_net site []) (toy_card 3) site toy_fetched

abbrev trusting : MandateVerifier toy_platform
trusting = record { trusted_keys = 5 ∷ 7 ∷ [] }

abbrev toy_mandate : SignedMandate
toy_mandate = record {
  mandate = fresh_record (fit 32 []) 1000;
  validator_sig = fit 64 (7 ∷ mandate_coding.write (fresh_record (fit 32 []) 1000) []);
}

verify_at_iff_example :
    (verify_at toy_platform trusting toy_mandate 2000 ≡ ok tt)
    ↔ (IsTrusted toy_platform (5 ∷ 7 ∷ []) toy_mandate × InForce toy_platform toy_mandate 2000)
verify_at_iff_example = verify_at_iff toy_platform trusting toy_mandate 2000

toy_mandate_encoded :
    encode_mandate toy_platform (fresh_record (fit 32 []) 1000)
    ≡ ok (mandate_coding.write (fresh_record (fit 32 []) 1000) [])
unfolding encode_mandate
toy_mandate_encoded = refl

issue_mandate-verify_at_example :
    (m : SignedMandate) × (issue_mandate toy_platform (new_issuer toy_platform 7) 1000 (fit 32 [])
      ≡ ok m)
    × ((t : ℕ)
        → verify_at toy_platform trusting m t ≡ (
            if ltb t 1000
            then err (mandate_not_yet_valid 1000 t)
            else if ltb t (1000 + mandate_ttl_secs)
            then ok tt
            else err (mandate_expired (1000 + mandate_ttl_secs) t)))
issue_mandate-verify_at_example =
    issue_mandate-verify_at toy_platform 7 trusting (fit 32 []) 1000
      (mandate_coding.write (fresh_record (fit 32 []) 1000) []) refl (omega arith)
      (Memᴰ.tail (Memᴰ.head refl)) toy_mandate_encoded
