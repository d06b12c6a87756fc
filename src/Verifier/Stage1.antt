-- ===== src/Verifier/Stage1.antt =====
-- verifier/src/stage1.rs: the deterministic checks, in order. An error is printed by the `Display`
-- of its type, as the source's `format!` does.
pub mod Passed
pub mod Complete
use p2s.Prelude.{
  Bool, true, false, Option, none, some, ◌++◌, nat_eq, list_eq, Result, ok, err, ◌>>=◌, ◌>>◌, Text,
  Bytes, codes,
}
use p2s.Proto.{SignedCard}
use p2s.Platform.{Platform}
use p2s.Net.{Net}
use p2s.Card.{compute_address, verify_card, verify_address, card_error_display}
use p2s.Publisher.{
  reconstruct_challenge, verify_domain_dns, verify_domain_wellknown, publisher_error_display,
}
use p2s.Verifier.Harden.{HardenError, harden_label, harden_error_display}
use p2s.Verifier.Manifest.{
  Manifest, ManifestReader, ManifestError, validate_endpoint, fetch_manifest, verify_manifest_hash,
  parse_and_validate_manifest, manifest_error_display,
}

-- The variants of the error type of this stage, and their texts. `run_stage1` returns outcomes instead.
pub data Stage1Error : Type 0 where
  structural_validity domain_ownership : Text → Stage1Error
  endpoint_validation : ManifestError → Stage1Error
  label_hardening : HardenError → Stage1Error

pub stage1_error_display : Stage1Error → Text
stage1_error_display (structural_validity reason) = codes "structural validity: " ++ reason
stage1_error_display (domain_ownership reason) = codes "domain ownership: " ++ reason
stage1_error_display (endpoint_validation e) =
    codes "endpoint validation: " ++ manifest_error_display e
stage1_error_display (label_hardening e) = codes "label hardening: " ++ harden_error_display e

pub record Stage1Facts : Type 0 where
  pub domain_verified : Bool
  pub endpoint_valid : Bool
  pub manifest_valid : Bool
  pub manifest : Option Manifest
  pub label_hardened : Option Text

pub data Stage1Outcome : Type 0 where
  passed : Stage1Facts → Stage1Outcome
  rejected : (step reason : Text) → Stage1Outcome

module _ (p : Platform) (net : Net) (from_slice : ManifestReader) where
  -- The error is an `anyhow::Error`, kept by its text.
  unfoldable pub verify_domain_ownership : Bytes → Text → Bytes → Result Text Bool
  verify_domain_ownership pubkey domain nonce =
      let challenge = reconstruct_challenge p pubkey domain nonce in
      elim (verify_domain_dns net challenge) [
        | ok _ ↦ ok true
        | err _ ↦ elim (verify_domain_wellknown net challenge) [
          | ok _ ↦ ok true
          | err e ↦
              err (codes "neither DNS nor .well-known verified: " ++ publisher_error_display e)
        ]
      ]

  unfoldable pub fetch_and_validate_manifest : Text → Bytes → Result ManifestError Manifest
  fetch_and_validate_manifest endpoint expected_hash = do
    bytes ← fetch_manifest net endpoint
    verify_manifest_hash p bytes expected_hash
    parse_and_validate_manifest from_slice bytes

  -- The last step: the label, and the facts of a card that passed.
  unfoldable pub harden_step : SignedCard → Bool → Manifest → Stage1Outcome
  harden_step c domain_verified manifest = elim c.card.label [
    | none ↦ passed (facts none)
    | some label ↦ elim (harden_label label) [
      | ok hardened ↦ passed (facts (some hardened))
      | err e ↦
          rejected (codes "label_hardening") (codes "invalid label: " ++ harden_error_display e)
    ]
  ]
    where
      facts : Option Text → Stage1Facts
      facts label_hardened = record {
        domain_verified = domain_verified;
        endpoint_valid = true;
        manifest_valid = true;
        manifest = some manifest;
        label_hardened = label_hardened;
      }

  -- The endpoint and the manifest.
  unfoldable pub endpoint_step : SignedCard → Bool → Stage1Outcome
  endpoint_step c domain_verified = elim (validate_endpoint net c.card.endpoint) [
    | err e ↦
        rejected (codes "endpoint_validation")
          (codes "invalid endpoint: " ++ manifest_error_display e)
    | ok _ ↦ elim (fetch_and_validate_manifest c.card.endpoint c.card.manifest_hash) [
      | ok manifest ↦ harden_step c domain_verified manifest
      | err e ↦
          rejected (codes "manifest_validation")
            (codes "manifest validation failed: " ++ manifest_error_display e)
    ]
  ]

  -- The domain.
  unfoldable pub domain_step : SignedCard → Bytes → Stage1Outcome
  domain_step c nonce = elim (verify_domain_ownership c.card.pubkey c.card.domain nonce) [
    | ok true ↦ endpoint_step c true
    | ok false ↦ rejected (codes "domain_ownership") (codes "domain ownership verification failed")
    | err e ↦ rejected (codes "domain_ownership") (codes "domain verification error: " ++ e)
  ]

  -- The structure first: signature and address.
  unfoldable pub run_stage1 : SignedCard → Bytes → Stage1Outcome
  run_stage1 c nonce = elim (verify_card p c) [
    | err e ↦
        rejected (codes "structural_validity")
          (codes "card verification failed: " ++ card_error_display e)
    | ok _ ↦ elim (verify_address p c (compute_address p c.card.pubkey)) [
      | err e ↦
          rejected (codes "structural_validity")
            (codes "address mismatch: " ++ card_error_display e)
      | ok _ ↦ domain_step c nonce
    ]
  ]
