-- ===== src/Proto.antt =====
-- proto/src: the card and mandate records (card.rs, mandate.rs), their errors (error.rs) and the
-- canonical encoding (serialize.rs). CBOR itself (the crate ciborium with the derived serde code)
-- is not part of the repository: a `Codec` stands for it.
use p2s.Prelude.{
  ℕ, ◌≡◌, Bool, true, false, Option, ◌++◌, nat_eq, list_eq, Result, ok, map_err, map_err-eq-ok,
  Text, Bytes, codes,
}

pub data CardStatus : Type 0 where
  active revoked : CardStatus

-- `PartialEq` of the status.
unfoldable pub status_eq : CardStatus → CardStatus → Bool
status_eq active active = true
status_eq active revoked = false
status_eq revoked active = false
status_eq revoked revoked = true

pub record CardRecord : Type 0 where
  pub pubkey : Bytes
  pub seq : ℕ
  pub status : CardStatus
  pub endpoint : Text
  pub manifest_hash : Bytes
  pub domain : Text
  pub label : Option Text

-- The source's field `record` is `card` here.
pub record SignedCard : Type 0 where
  pub card : CardRecord
  pub sig : Bytes

pub record MandateRecord : Type 0 where
  pub node_pubkey : Bytes
  pub issued_at : ℕ
  pub expires_at : ℕ

-- The source's field `record` is `mandate` here.
pub record SignedMandate : Type 0 where
  pub mandate : MandateRecord
  pub validator_sig : Bytes

pub data ProtoError : Type 0 where
  encode decode : Text → ProtoError
  invalid_signature : ProtoError
  address_mismatch : Text → Text → ProtoError
  invalid_status : Text → ProtoError

-- The messages of the `#[error]` attributes.
unfoldable pub proto_error_display : ProtoError → Text
proto_error_display (encode e) = codes "CBOR encoding failed: " ++ e
proto_error_display (decode e) = codes "CBOR decoding failed: " ++ e
proto_error_display invalid_signature = codes "invalid signature"
proto_error_display (address_mismatch expected got) =
    codes "address mismatch: expected " ++ (expected ++ (codes ", got " ++ got))
proto_error_display (invalid_status s) = codes "invalid card status: " ++ s

-- ciborium on the serde form of a type. Its errors are kept by their text. What is written reads
-- back as the value that was written.
pub record Codec {ℓ} (A : Type ℓ) : Type ℓ where
  pub into_writer : A → Result Text Bytes
  pub from_reader : Bytes → Result Text A
  pub read_back : (a : A) (b : Bytes) → into_writer a ≡ ok b → from_reader b ≡ ok a

module _ {ℓ} {A : Type ℓ} ⦃c : Codec A⦄ where
  unfoldable pub canonical_encode : A → Result ProtoError Bytes
  canonical_encode value = map_err encode (c.into_writer value)

  unfoldable pub canonical_decode : Bytes → Result ProtoError A
  canonical_decode bytes = map_err decode (c.from_reader bytes)

  -- What `canonical_encode` produces, `canonical_decode` takes back to the same value.
  pub decode-encode : (a : A) (b : Bytes) → canonical_encode a ≡ ok b → canonical_decode b ≡ ok a
  unfolding canonical_encode canonical_decode
  decode-encode a b h = rw (c.read_back a b (map_err-eq-ok encode _ b h))
