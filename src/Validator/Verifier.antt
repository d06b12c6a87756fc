-- ===== src/Validator/Verifier.antt =====
-- validator/src/verifier.rs.
use p2s.Prelude.{
  ℕ, ◌≤◌, ◌<◌, ◌≡◌, refl, ◌↔◌, inl, inr, Bool, true, false, not, List, [], ◌∷◌, arith, ltb, leb,
  ◌==◌, if◌then◌else◌, Bool-cases, nat_eq, list_eq, length, Result, ok, ◌>>=◌, ◌>>◌, reject_if,
  Result-cases, Bytes,
}
use mathlib.Core.List.{Memᴰ}
use p2s.Proto.{SignedMandate}
use p2s.Platform.{Platform}
use p2s.Validator.Issuer.{
  ValidatorError, encode_mandate, invalid_signature, unknown_validator_key, mandate_not_yet_valid,
  mandate_expired,
}

module _ (p : Platform) where
  pub record MandateVerifier : Type 0 where
    pub trusted_keys : List p.VerifyingKey

  -- The loop over the trusted keys: some key accepts the signature.
  pub any_key_verifies : List p.VerifyingKey → Bytes → Bytes → Bool
  any_key_verifies [] message signature = false
  any_key_verifies (key ∷ keys) message signature =
      if p.verify key message signature then true else any_key_verifies keys message signature

  pub verify_signature : MandateVerifier → SignedMandate → Result ValidatorError (Unit {0})
  verify_signature v m = do
    reject_if (not (length m.validator_sig == 64)) invalid_signature
    canonical_bytes ← encode_mandate p m.mandate
    reject_if (not (any_key_verifies v.trusted_keys canonical_bytes m.validator_sig))
        unknown_validator_key

  unfoldable pub verify_temporal : SignedMandate → ℕ → Result ValidatorError (Unit {0})
  verify_temporal m now = do
    reject_if (ltb now m.mandate.issued_at) (mandate_not_yet_valid m.mandate.issued_at now)
    reject_if (leb m.mandate.expires_at now) (mandate_expired m.mandate.expires_at now)

  unfoldable pub verify_at : MandateVerifier → SignedMandate → ℕ → Result ValidatorError (Unit {0})
  verify_at v m now = do verify_signature v m; verify_temporal m now

  -- Some trusted key accepts the signature over the encoded record.
  pub record IsTrusted (keys : List p.VerifyingKey) (m : SignedMandate) : Type 0 where
    pub key : p.VerifyingKey
    pub message : Bytes
    pub listed : Memᴰ key keys
    pub sig_length : length m.validator_sig ≡ 64
    pub message_of_mandate : encode_mandate p m.mandate ≡ ok message
    pub signed : p.verify key message m.validator_sig ≡ true

  any_key_verifies_sound :
      (keys : List p.VerifyingKey) (message signature : Bytes)
      → any_key_verifies keys message signature ≡ true
      → (key : p.VerifyingKey) × Memᴰ key keys × (p.verify key message signature ≡ true)
  unfolding any_key_verifies
  any_key_verifies_sound [] message signature h = absurd (ground arith)
  any_key_verifies_sound (k ∷ keys) message signature h =
      elim (Bool-cases (p.verify k message signature)) [
        | inl e ↦ (k, Memᴰ.head refl, e)
        | inr e ↦
            let (j, m, v) = any_key_verifies_sound keys message signature (ground arith) in
            (j, Memᴰ.tail m, v)
      ]

  any_key_verifies_complete :
      (message signature : Bytes) (key : p.VerifyingKey) (keys : List p.VerifyingKey)
      → Memᴰ key keys
      → p.verify key message signature ≡ true
      → any_key_verifies keys message signature ≡ true
  unfolding any_key_verifies
  any_key_verifies_complete message signature key keys (Memᴰ.head e) v = ground arith
  any_key_verifies_complete message signature key keys (Memᴰ.tail {x = x} {xs = xs} m) v =
      ground (arith, any_key_verifies_complete message signature key xs m v)

  verify_signature-IsTrusted :
      (v : MandateVerifier) (m : SignedMandate)
      → verify_signature v m ≡ ok tt
      → IsTrusted v.trusted_keys m
  unfolding verify_signature
  verify_signature-IsTrusted v m h = elim (Result-cases (encode_mandate p m.mandate)) [
    | inr (x, f) ↦ absurd (ground arith)
    | inl (b, f) ↦
        let (k, l, s) = any_key_verifies_sound v.trusted_keys b m.validator_sig (ground arith) in
        record {
          key = k;
          message = b;
          listed = l;
          sig_length = ground arith;
          message_of_mandate = f;
          signed = s;
        }
  ]

  pub IsTrusted-verify_signature :
      (v : MandateVerifier) (m : SignedMandate)
      → IsTrusted v.trusted_keys m
      → verify_signature v m ≡ ok tt
  unfolding verify_signature
  IsTrusted-verify_signature v m t = ground (
    arith,
    t.sig_length,
    t.message_of_mandate,
    any_key_verifies_complete t.message m.validator_sig t.key v.trusted_keys t.listed t.signed,
  )

  -- The mandate is in force at `now`.
  abbrev pub InForce : SignedMandate → ℕ → Type 0
  InForce m now = (m.mandate.issued_at ≤ now) × (now < m.mandate.expires_at)

  verify_at-parts :
      (v : MandateVerifier) (m : SignedMandate) (now : ℕ)
      → verify_at v m now ≡ ok tt
      → (verify_signature v m ≡ ok tt) × InForce m now
  unfolding verify_at verify_temporal
  verify_at-parts v m now h = ground arith

  -- A mandate verifies at `now` exactly when a trusted key signed its encoded record and `now` lies
  -- in the half-open interval from its issue to its expiry.
  pub verify_at_iff :
      (v : MandateVerifier) (m : SignedMandate) (now : ℕ)
      → (verify_at v m now ≡ ok tt) ↔ (IsTrusted v.trusted_keys m × InForce m now)
  unfolding verify_at verify_temporal
  verify_at_iff v m now = (
    λ h. let (s, f) = verify_at-parts v m now h in (verify_signature-IsTrusted v m s, f),
    λ h. ground (arith, IsTrusted-verify_signature v m h.0),
  )
