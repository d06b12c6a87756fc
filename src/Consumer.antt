-- ===== src/Consumer.antt =====
-- consumer/src: what a client checks of a card and a manifest that it has fetched (resolve.rs,
-- error.rs). The HTTP client
-- is a parameter.
pub mod Resolve
use p2s.Prelude.{
  not, nat_eq, list_beq, list_eq, Result, ok, ◌>>=◌, ◌>>◌, map_err, reject_if, Text, Bytes,
}
use p2s.Proto.{SignedCard, revoked, status_eq}
use p2s.Platform.{Platform}
use p2s.Net.{Net}
use p2s.Card.{CardError, Address, compute_address, verify_card}

pub data ConsumerError : Type 0 where
  card_verification : CardError → ConsumerError
  address_mismatch : ConsumerError
  manifest_hash_mismatch : ConsumerError
  card_revoked : ConsumerError
  manifest_fetch_failed : Text → ConsumerError

module _ (p : Platform) where
  pub verify_fetched_card : SignedCard → Address → Result ConsumerError (Unit {0})
  unfolding status_eq compute_address
  verify_fetched_card c expected = do
    map_err card_verification (verify_card p c)
    reject_if (not (list_beq (compute_address p c.card.pubkey) expected)) address_mismatch
    reject_if (status_eq c.card.status revoked) card_revoked

  pub verify_manifest : Bytes → Bytes → Result ConsumerError (Unit {0})
  verify_manifest manifest_bytes expected_hash =
      reject_if (not (list_beq (p.hash manifest_bytes) expected_hash)) manifest_hash_mismatch

  module _ (net : Net) where
    unfoldable pub fetch_and_verify_manifest : SignedCard → Result ConsumerError Bytes
    unfolding verify_manifest
    fetch_and_verify_manifest c = do
      map_err manifest_fetch_failed (net.build_client 15)
      response ← map_err manifest_fetch_failed (net.send c.card.endpoint)
      manifest_bytes ← map_err manifest_fetch_failed (net.body_bytes response)
      verify_manifest manifest_bytes c.card.manifest_hash
      ok manifest_bytes
