-- ===== src/Card.antt =====
-- card/src: the operations on signed cards (ops.rs) and their errors (error.rs).
-- The key that `generate_keypair` draws from the system is an argument.
pub mod Verify
use p2s.Prelude.{
  ℕ, not, ◌++◌, ◌==◌, nat_eq, list_beq, list_eq, length, Result, ok, ◌>>=◌, ◌>>◌, map_err,
  reject_if, ok_or, Text, Bytes, codes, decimal,
}
use p2s.Proto.{CardRecord, SignedCard, ProtoError, Codec, canonical_encode, proto_error_display}
use p2s.Platform.{Platform}

pub data CardError : Type 0 where
  serialization : ProtoError → CardError
  invalid_signature : CardError
  address_mismatch : CardError
  invalid_pubkey_length : ℕ → CardError
  invalid_signature_length : ℕ → CardError

pub card_error_display : CardError → Text
unfolding proto_error_display decimal
card_error_display (serialization e) = codes "serialization error: " ++ proto_error_display e
card_error_display invalid_signature =
    codes "invalid signature: card content has been tampered with or wrong key used"
card_error_display address_mismatch =
    codes "address mismatch: card address does not match BLAKE3(pubkey)"
card_error_display (invalid_pubkey_length n) =
    codes "pubkey length must be 32 bytes, got " ++ decimal n
card_error_display (invalid_signature_length n) =
    codes "signature length must be 64 bytes, got " ++ decimal n

-- `[u8; 32]`
abbrev pub Address : Type 0
Address = Bytes

module _ (p : Platform) where
  pub record CardKeypair : Type 0 where
    pub signing_key : p.SigningKey
    pub verifying_key : p.VerifyingKey

  abbrev pub generate_keypair : p.SigningKey → CardKeypair
  generate_keypair drawn = record { signing_key = drawn; verifying_key = p.verifying_key drawn }

  unfoldable pub compute_address : Bytes → Address
  compute_address pubkey = p.hash pubkey

  unfoldable pub encode_card : CardRecord → Result CardError Bytes
  unfolding canonical_encode
  encode_card r = map_err serialization (canonical_encode ⦃c = p.card_codec⦄ r)

  unfoldable pub sign_card : CardRecord → p.SigningKey → Result CardError SignedCard
  unfolding encode_card
  sign_card r signing_key = do
    canonical_bytes ← encode_card r
    ok (record { card = r; sig = p.sign signing_key canonical_bytes })

  unfoldable pub verify_card : SignedCard → Result CardError (Unit {0})
  unfolding encode_card
  verify_card c = do
    reject_if (not (length c.card.pubkey == 32)) (invalid_pubkey_length (length c.card.pubkey))
    reject_if (not (length c.sig == 64)) (invalid_signature_length (length c.sig))
    verifying_key ← ok_or (p.from_bytes c.card.pubkey) invalid_signature
    canonical_bytes ← encode_card c.card
    reject_if (not (p.verify verifying_key canonical_bytes c.sig)) invalid_signature

  unfoldable pub verify_address : SignedCard → Address → Result CardError (Unit {0})
  unfolding compute_address
  verify_address c expected =
      reject_if (not (list_beq (compute_address c.card.pubkey) expected)) address_mismatch
