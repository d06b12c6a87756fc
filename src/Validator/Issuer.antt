-- ===== src/Validator/Issuer.antt =====
-- validator/src/issuer.rs and error.rs.
use p2s.Prelude.{
  ℕ, ◌+◌, ◌*◌, ◌%◌, ◌^◌, not, ◌==◌, nat_eq, list_eq, length, Result, ok, ◌>>=◌, ◌>>◌, map_err,
  reject_if, Bytes,
}
use p2s.Proto.{MandateRecord, SignedMandate, ProtoError, canonical_encode}
use p2s.Platform.{Platform}

pub data ValidatorError : Type 0 where
  serialization : ProtoError → ValidatorError
  invalid_signature : ValidatorError
  mandate_expired : (expired_at now : ℕ) → ValidatorError
  mandate_not_yet_valid : (issued_at now : ℕ) → ValidatorError
  unknown_validator_key : ValidatorError
  invalid_node_pubkey_length : ℕ → ValidatorError

-- 24 hours
abbrev pub mandate_ttl_secs : ℕ
mandate_ttl_secs = 24 * 60 * 60

abbrev pub u64_mod : ℕ
u64_mod = 2 ^ 64

-- The sum of times is taken modulo 2^64, as in a release build.
abbrev pub fresh_record : Bytes → ℕ → MandateRecord
fresh_record node_pubkey now = record {
  node_pubkey = node_pubkey;
  issued_at = now;
  expires_at = (now + mandate_ttl_secs) % u64_mod;
}

module _ (p : Platform) where
  pub record MandateIssuer : Type 0 where
    pub signing_key : p.SigningKey
    pub verifying_key : p.VerifyingKey

  -- `MandateIssuer::new`
  unfoldable pub new_issuer : p.SigningKey → MandateIssuer
  new_issuer signing_key = record {
    signing_key = signing_key;
    verifying_key = p.verifying_key signing_key;
  }

  unfoldable pub encode_mandate : MandateRecord → Result ValidatorError Bytes
  unfolding canonical_encode
  encode_mandate r = map_err serialization (canonical_encode ⦃c = p.mandate_codec⦄ r)

  unfoldable pub issue_mandate : MandateIssuer → ℕ → Bytes → Result ValidatorError SignedMandate
  issue_mandate issuer now node_pubkey = do
    reject_if (not (length node_pubkey == 32)) (invalid_node_pubkey_length (length node_pubkey))
    canonical_bytes ← encode_mandate (fresh_record node_pubkey now)
    ok (record {
      mandate = fresh_record node_pubkey now;
      validator_sig = p.sign issuer.signing_key canonical_bytes;
    })

  pub renew_mandate : MandateIssuer → ℕ → Bytes → Result ValidatorError SignedMandate
  unfolding issue_mandate
  renew_mandate issuer now node_pubkey = issue_mandate issuer now node_pubkey
