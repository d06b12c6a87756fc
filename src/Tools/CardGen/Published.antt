-- ===== src/Tools/CardGen/Published.antt =====
-- A card of the tool gets through the checks of `publish_card` (card_gen.rs, http_api.rs).
use p2s.Prelude.{ℕ, ◌≡◌, refl, true, none, List, nat_eq, list_eq, ok, Text, Bytes}
use mathlib.Core.Path.{subst}
use p2s.Proto.{canonical_encode}
use p2s.Platform.{Platform}
use p2s.Net.{Net}
use p2s.Float.{Float}
use p2s.Card.{encode_card, verify_card}
use p2s.Card.Verify.{verify_card_iff}
use p2s.Publisher.{hex_encode}
use p2s.Verifier.Harden.{harden_label}
use p2s.Verifier.Harden.Label.{harden_label-IsHardened}
use p2s.Verifier.Manifest.{ManifestReader}
use p2s.Verifier.Manifest.Checks.{IsSecure}
use p2s.Node.Sled.{Sled}
use p2s.Node.Request.{Env, HexReader, decode_card}
use p2s.Node.HttpApi.{AppState, Publication, publish_request}
use p2s.Node.HttpApi.Publish.{LabelPasses, DomainPasses, InLimit}
use p2s.Node.HttpApi.Admits.{publish_request_iff}
use p2s.Tools.CardGen.{CardJson, record_of, generate_card}
use p2s.Tools.CardGen.Accepted.{request_of, ReadsBack, decode_card-generate_card, signed_of}

module _ (p : Platform) (net : Net) (fl : Float) (sled : Sled) (from_slice : ManifestReader)
    (hex_decode : HexReader) where
  -- What the tool prints, for arguments whose card can be encoded, bare and signed, and with its byte
  -- strings read back by the decoder, with a domain that is a label that hardens and an endpoint that
  -- is secure: sent to a node as it is, within the limit of the domain (if the limiter can be locked),
  -- where every HTTP client can be built, the task of the signature check ends and the event loop takes
  -- the command, it is sent to the event loop without a weight, with the card that was signed, under
  -- the address that the tool printed.
  pub publish_request-generate_card :
      (builds : (secs : ℕ) → net.build_client secs ≡ ok tt) (env : Env)
      (app : AppState p net fl sled from_slice hex_decode) (drawn : p.SigningKey) (args : List Text)
      (m value : Bytes) (r : Text)
      → encode_card p (record_of p drawn args) ≡ ok m
      → ReadsBack p hex_decode (signed_of p drawn args m)
      → canonical_encode ⦃c = p.signed_card_codec⦄ (signed_of p drawn args m) ≡ ok value
      → harden_label (record_of p drawn args).domain ≡ ok r
      → IsSecure net (record_of p drawn args).endpoint
      → InLimit p net fl sled from_slice hex_decode env app.rate_limiter
          (record_of p drawn args).domain
      → env.task_ends ≡ true
      → env.is_sent ≡ true
      → (json : CardJson) × (publication : Publication p net fl sled from_slice hex_decode)
        × (generate_card p drawn args ≡ ok json)
        × ((publish_request p net fl sled from_slice hex_decode env (request_of json) app).1
            ≡ ok publication)
        × (publication.card ≡ signed_of p drawn args m)
        × (publication.value ≡ value)
        × (publication.trust_weight ≡ none)
        × (json.address ≡ hex_encode publication.address)
  publish_request-generate_card builds env app drawn args m value r e reads encoded label endpoint
        limit ends sent =
      let (json, c, made, decoded, same, valid, shown) =
        decode_card-generate_card p hex_decode drawn args m e reads in
      let publication : Publication p net fl sled from_slice hex_decode = record {
        card = signed_of p drawn args m;
        address = p.hash (p.as_bytes (p.verifying_key drawn));
        value = value;
        trust_weight = none;
      } in
      (
        json,
        publication,
        made,
        (publish_request_iff p net fl sled from_slice hex_decode builds env (request_of json) app
              publication ends sent).1
            (record {
              decoded = subst (λ x. decode_card hex_decode (request_of json) ≡ ok x) same decoded;
              authentic =
                  (verify_card_iff p (signed_of p drawn args m)).0
                    (subst (λ x. verify_card p x ≡ ok tt) same valid);
              own_address = refl;
              encoded = encoded;
              in_limit = limit;
              label_passes =
                  LabelPasses.hardens (record_of p drawn args).domain r refl label
                    (harden_label-IsHardened (record_of p drawn args).domain r label);
              secure_endpoint = endpoint;
              domain_passes = DomainPasses.unchecked refl refl;
            }),
        refl,
        refl,
        refl,
        shown,
      )
