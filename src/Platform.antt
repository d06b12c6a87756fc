-- ===== src/Platform.antt =====
-- The crates that the repository calls for its cryptography, as one interface: ed25519-dalek,
-- blake3, and ciborium for the three records that are encoded. None of them is modelled; the laws
-- are their documented behaviour, and nothing is assumed of collisions or forgeries.
use p2s.Prelude.{◌≡◌, Bool, true, Option, some, nat_eq, list_eq, length, Bytes}
use p2s.Proto.{CardRecord, SignedCard, MandateRecord, Codec}

pub record Platform : Type 1 where
  pub SigningKey : Type 0
  pub VerifyingKey : Type 0
  -- `blake3::hash`, `blake3::keyed_hash(key, input)`
  pub hash : Bytes → Bytes
  pub keyed_hash : Bytes → Bytes → Bytes
  -- `VerifyingKey::from_bytes`, `as_bytes`, `SigningKey::verifying_key`
  pub from_bytes : Bytes → Option VerifyingKey
  pub as_bytes : VerifyingKey → Bytes
  pub verifying_key : SigningKey → VerifyingKey
  -- `sign(message)` as its 64 bytes, and whether `verify(message, signature)` is `Ok`
  pub sign : SigningKey → Bytes → Bytes
  pub verify : VerifyingKey → Bytes → Bytes → Bool
  pub card_codec : Codec CardRecord
  pub signed_card_codec : Codec SignedCard
  pub mandate_codec : Codec MandateRecord
  pub length-hash : (b : Bytes) → length (hash b) ≡ 32
  pub length-keyed_hash : (k b : Bytes) → length (keyed_hash k b) ≡ 32
  pub length-as_bytes : (k : VerifyingKey) → length (as_bytes k) ≡ 32
  pub from_bytes-as_bytes : (k : VerifyingKey) → from_bytes (as_bytes k) ≡ some k
  pub length-sign : (k : SigningKey) (m : Bytes) → length (sign k m) ≡ 64
  pub verify-sign : (k : SigningKey) (m : Bytes) → verify (verifying_key k) m (sign k m) ≡ true
