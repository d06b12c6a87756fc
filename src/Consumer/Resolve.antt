-- ===== src/Consumer/Resolve.antt =====
-- What passes the checks of resolve.rs.
use p2s.Prelude.{◌≡◌, ◌↔◌, inl, inr, arith, nat_eq, list_beq_iff, list_eq, ok, Result-cases, Bytes}
use p2s.Proto.{SignedCard, active}
use p2s.Platform.{Platform}
use p2s.Net.{Net}
use p2s.Card.{Address, verify_card}
use p2s.Card.Verify.{IsAuthentic, verify_card_iff}
use p2s.Consumer.{verify_fetched_card, fetch_and_verify_manifest}

module _ (p : Platform) where
  abbrev pub Accepts : SignedCard → Address → Type 0
  Accepts c a = IsAuthentic p c × (p.hash c.card.pubkey ≡ a) × (c.card.status ≡ active)

  verified :
      (c : SignedCard) (a : Address)
      → verify_fetched_card p c a ≡ ok tt
      → (verify_card p c ≡ ok tt) × (p.hash c.card.pubkey ≡ a) × (c.card.status ≡ active)
  unfolding verify_fetched_card
  verified c a h = ground (arith, list_beq_iff (p.hash c.card.pubkey) a)

  accepted :
      (c : SignedCard) (a : Address)
      → verify_card p c ≡ ok tt
      → p.hash c.card.pubkey ≡ a
      → c.card.status ≡ active
      → verify_fetched_card p c a ≡ ok tt
  unfolding verify_fetched_card
  accepted c a h k l = ground (arith, list_beq_iff (p.hash c.card.pubkey) a)

  -- A client accepts a fetched card for an address exactly when the card is authentic, the address
  -- is the hash of its public key, and the card is not revoked.
  pub verify_fetched_card_iff :
      (c : SignedCard) (a : Address) → (verify_fetched_card p c a ≡ ok tt) ↔ Accepts c a
  verify_fetched_card_iff c a = (
    λ h. let v = verified c a h in ((verify_card_iff p c).0 v.0, v.1, v.2),
    λ h. accepted c a ((verify_card_iff p c).1 h.0) h.1 h.2,
  )

  module _ (net : Net) where
    -- A manifest that a client gets through is the body that the card's endpoint served, and its
    -- hash is the one that the publisher signed.
    pub fetch_and_verify_manifest_sound :
        (c : SignedCard) (b : Bytes)
        → fetch_and_verify_manifest p net c ≡ ok b
        → (p.hash b ≡ c.card.manifest_hash)
          × (r : net.Response) × (net.send c.card.endpoint ≡ ok r)
          × (net.body_bytes r ≡ ok b)
    unfolding fetch_and_verify_manifest
    fetch_and_verify_manifest_sound c b h = elim (Result-cases (net.send c.card.endpoint)) [
      | inr (x, f) ↦ absurd (ground arith)
      | inl (r, f) ↦
          (ground (arith, list_beq_iff (p.hash b) c.card.manifest_hash), r, f, ground arith)
    ]
