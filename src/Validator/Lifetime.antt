-- ===== src/Validator/Lifetime.antt =====
-- The life of a mandate: what an issuer signs (issuer.rs), a verifier that trusts it accepts for
-- exactly the time to live (verifier.rs).
use mathlib.Core.List.{Memᴰ}
use p2s.Prelude.{
  ℕ, ◌+◌, ◌≤◌, ◌<◌, ◌≡◌, List, arith, ltb, if◌then◌else◌, nat_eq, list_eq, length, ok, err, Bytes,
}
use p2s.Proto.{SignedMandate}
use p2s.Platform.{Platform}
use p2s.Validator.Issuer.{
  issue_mandate, new_issuer, encode_mandate, fresh_record, mandate_ttl_secs, u64_mod,
  mandate_expired, mandate_not_yet_valid,
}
use p2s.Validator.Verifier.{
  MandateVerifier, IsTrusted, verify_at, verify_temporal, IsTrusted-verify_signature,
}

-- The verdict that is due at a time, for a mandate issued at `issued`.
abbrev pub Due : ℕ → ℕ → Type 0
Due issued now = (issued ≤ now) × (now < issued + mandate_ttl_secs)

module _ (p : Platform) where
  issued : p.SigningKey → Bytes → ℕ → Bytes → SignedMandate
  issued k node now message = record {
    mandate = fresh_record node now;
    validator_sig = p.sign k message;
  }

  issued-IsTrusted :
      (k : p.SigningKey) (keys : List p.VerifyingKey) (node : Bytes) (now : ℕ) (message : Bytes)
      → Memᴰ (p.verifying_key k) keys
      → encode_mandate p (fresh_record node now) ≡ ok message
      → IsTrusted p keys (issued k node now message)
  unfolding issued
  issued-IsTrusted k keys node now message l e = record {
    key = p.verifying_key k;
    message = message;
    listed = l;
    sig_length = p.length-sign k message;
    message_of_mandate = e;
    signed = p.verify-sign k message;
  }

  -- For a node key of 32 bytes, a clock that is not within a day of the end of `u64`, and a fresh record
  -- of the two that can be encoded, the issuer returns a mandate, and a verifier with the issuer's key
  -- among its keys accepts it from the time of issue on for 24 hours, says "not yet valid" before and
  -- "expired" from then on.
  pub issue_mandate-verify_at :
      (k : p.SigningKey) (v : MandateVerifier p) (node : Bytes) (now : ℕ) (message : Bytes)
      → length node ≡ 32
      → now + mandate_ttl_secs < u64_mod
      → Memᴰ (p.verifying_key k) v.trusted_keys
      → encode_mandate p (fresh_record node now) ≡ ok message
      → (m : SignedMandate) × (issue_mandate p (new_issuer p k) now node ≡ ok m)
        × ((t : ℕ)
            → verify_at p v m t ≡ (
                if ltb t now
                then err (mandate_not_yet_valid now t)
                else if ltb t (now + mandate_ttl_secs)
                then ok tt
                else err (mandate_expired (now + mandate_ttl_secs) t)))
  unfolding issue_mandate new_issuer issued verify_at verify_temporal
  issue_mandate-verify_at k v node now message len fits l e = (
    issued k node now message,
    ground arith,
    λ t. ground (
      arith,
      IsTrusted-verify_signature p v (issued k node now message)
          (issued-IsTrusted k v.trusted_keys node now message l e),
    ),
  )
