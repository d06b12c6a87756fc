-- ===== src/Card/Verify.antt =====
-- When a card verifies (ops.rs): `sign_card` and `verify_card` fit together, and nothing else
-- than a signature by the embedded key over the encoded record passes.
use p2s.Prelude.{
  ◌≡◌, refl, ◌↔◌, inl, inr, true, some, arith, Option-cases, nat_eq, list_eq, length, ok,
  Result-cases, Bytes,
}
use p2s.Proto.{CardRecord, SignedCard}
use p2s.Platform.{Platform}
use p2s.Card.{encode_card, sign_card, verify_card}

module _ (p : Platform) where
  -- What a verified card guarantees.
  pub record IsAuthentic (c : SignedCard) : Type 0 where
    pub key : p.VerifyingKey
    pub message : Bytes
    pub pubkey_length : length c.card.pubkey ≡ 32
    pub sig_length : length c.sig ≡ 64
    pub key_of_pubkey : p.from_bytes c.card.pubkey ≡ some key
    pub message_of_card : encode_card p c.card ≡ ok message
    pub signed : p.verify key message c.sig ≡ true

  pub verify_card-IsAuthentic : (c : SignedCard) → verify_card p c ≡ ok tt → IsAuthentic c
  unfolding verify_card
  verify_card-IsAuthentic c h = elim (Option-cases (p.from_bytes c.card.pubkey)) [
    | inl e ↦ absurd (ground arith)
    | inr (k, e) ↦ elim (Result-cases (encode_card p c.card)) [
      | inr (x, f) ↦ absurd (ground arith)
      | inl (m, f) ↦ record {
        key = k;
        message = m;
        pubkey_length = ground arith;
        sig_length = ground arith;
        key_of_pubkey = e;
        message_of_card = f;
        signed = ground arith;
      }
    ]
  ]

  pub IsAuthentic-verify_card : (c : SignedCard) → IsAuthentic c → verify_card p c ≡ ok tt
  unfolding verify_card
  IsAuthentic-verify_card c a =
      ground (arith, a.pubkey_length, a.sig_length, a.key_of_pubkey, a.message_of_card, a.signed)

  -- `verify_card` accepts a card exactly when its lengths are right and its signature is one by the
  -- key in its `pubkey` over the canonical encoding of its record.
  pub verify_card_iff : (c : SignedCard) → (verify_card p c ≡ ok tt) ↔ IsAuthentic c
  verify_card_iff c = (verify_card-IsAuthentic c, IsAuthentic-verify_card c)

  sign_card-IsAuthentic :
      (r : CardRecord) (k : p.SigningKey) (m : Bytes)
      → r.pubkey ≡ p.as_bytes (p.verifying_key k)
      → encode_card p r ≡ ok m
      → IsAuthentic (record { card = r; sig = p.sign k m })
  sign_card-IsAuthentic r k m own f = record {
    key = p.verifying_key k;
    message = m;
    pubkey_length = rw own (p.length-as_bytes (p.verifying_key k));
    sig_length = p.length-sign k m;
    key_of_pubkey = rw own (p.from_bytes-as_bytes (p.verifying_key k));
    message_of_card = f;
    signed = p.verify-sign k m;
  }

  sign_card_iff :
      (r : CardRecord) (k : p.SigningKey)
      → ((c : SignedCard) × (sign_card p r k ≡ ok c)) ↔ ((m : Bytes) × (encode_card p r ≡ ok m))
  unfolding sign_card
  sign_card_iff r k = elim (Result-cases (encode_card p r)) [
    | inl (m, e) ↦
        (λ h. (m, e), λ h. (record { card = r; sig = p.sign k m }, rw (e, sign_card) refl))
    | inr (x, e) ↦
        (λ (c, h). absurd (ground (arith, e, h)), λ (m, h). absurd (ground (arith, e, h)))
  ]

  -- A record that holds its signer's own public key and can be encoded: `sign_card` makes a card of it
  -- that holds this record, and verifies. For every record and every key, `sign_card` makes a card
  -- exactly if the record can be encoded.
  pub verify_card-sign_card :
      (r : CardRecord) (k : p.SigningKey) (m : Bytes)
      → r.pubkey ≡ p.as_bytes (p.verifying_key k)
      → encode_card p r ≡ ok m
      → (c : SignedCard) × (sign_card p r k ≡ ok c)
        × (c.card ≡ r)
        × (verify_card p c ≡ ok tt)
        × ((r' : CardRecord) (k' : p.SigningKey)
            → ((c' : SignedCard) × (sign_card p r' k' ≡ ok c'))
              ↔ ((m' : Bytes) × (encode_card p r' ≡ ok m')))
  unfolding sign_card
  verify_card-sign_card r k m own f = (
    record { card = r; sig = p.sign k m },
    ground arith,
    refl,
    IsAuthentic-verify_card _ (sign_card-IsAuthentic r k m own f),
    sign_card_iff,
  )
