-- ===== src/Verifier/Stage1/Passed.antt =====
-- What a card that passes stage 1 has been checked for.
use p2s.Prelude.{
  ◌≡◌, ◌⊎◌, inl, inr, Bool, true, Option, none, some, arith, Option-cases, nat_eq, list_eq, ok,
  Result-cases, Text, Bytes,
}
use p2s.Proto.{SignedCard}
use p2s.Platform.{Platform}
use p2s.Net.{Net}
use p2s.Card.{verify_card}
use p2s.Card.Verify.{IsAuthentic, verify_card_iff}
use p2s.Publisher.{reconstruct_challenge, verify_domain_dns, verify_domain_wellknown}
use p2s.Publisher.Proof.{
  PublishedInDns, PublishedInHttp, verify_domain_dns_sound, verify_domain_wellknown_sound,
}
use p2s.Verifier.Harden.{harden_label}
use p2s.Verifier.Harden.Label.{IsHardened, harden_label-IsHardened}
use p2s.Verifier.Manifest.{Manifest, ManifestReader, fetch_manifest}
use p2s.Verifier.Manifest.Checks.{
  IsServed, fetch_manifest-IsServed, verify_manifest_hash_sound, IsValidManifest,
  parse_and_validate_manifest-IsValidManifest,
}
use p2s.Verifier.Stage1.{
  Stage1Facts, passed, verify_domain_ownership, fetch_and_validate_manifest, run_stage1,
  domain_step, endpoint_step, harden_step,
}

-- The label fact of a card: none for a card without a label, else the hardened label.
pub data LabelChecked (label fact : Option Text) : Type 0 where
  no_label : label ≡ none → fact ≡ none → LabelChecked label fact
  label_hardened :
      (l r : Text)
      → label ≡ some l
      → fact ≡ some r
      → harden_label l ≡ ok r
      → IsHardened r
      → LabelChecked label fact

module _ (p : Platform) (net : Net) (from_slice : ManifestReader) where
  -- The domain shows the token for this key, this domain and this nonce.
  abbrev pub OwnsDomain : SignedCard → Bytes → Type 0
  OwnsDomain c nonce =
      let challenge = reconstruct_challenge p c.card.pubkey c.card.domain nonce in
      PublishedInDns net challenge ⊎ PublishedInHttp net challenge

  -- The manifest is what the endpoint serves over https, hashes to the signed hash, and is valid.
  pub record HasManifest (c : SignedCard) (m : Manifest) : Type 0 where
    pub bytes : Bytes
    pub is_served : IsServed net c.card.endpoint bytes
    pub hashed : p.hash bytes ≡ c.card.manifest_hash
    pub valid : IsValidManifest from_slice bytes m

  verify_domain_ownership_sound :
      (c : SignedCard) (nonce : Bytes) (b : Bool)
      → verify_domain_ownership p net from_slice c.card.pubkey c.card.domain nonce ≡ ok b
      → (b ≡ true) × OwnsDomain c nonce
  unfolding verify_domain_ownership
  verify_domain_ownership_sound c nonce b h =
      let challenge = reconstruct_challenge p c.card.pubkey c.card.domain nonce in
      elim (Result-cases (verify_domain_dns net challenge)) [
        | inl (m, f) ↦ (ground arith, inl (verify_domain_dns_sound net challenge m f))
        | inr (x, f) ↦ elim (Result-cases (verify_domain_wellknown net challenge)) [
          | inl (m, g) ↦ (ground arith, inr (verify_domain_wellknown_sound net challenge m g))
          | inr (y, g) ↦ absurd (ground arith)
        ]
      ]

  fetch_and_validate_manifest-HasManifest :
      (c : SignedCard) (m : Manifest)
      → fetch_and_validate_manifest p net from_slice c.card.endpoint c.card.manifest_hash ≡ ok m
      → HasManifest c m
  unfolding fetch_and_validate_manifest
  fetch_and_validate_manifest-HasManifest c m h =
      elim (Result-cases (fetch_manifest net c.card.endpoint)) [
        | inr (x, f) ↦ absurd (ground arith)
        | inl (bytes, f) ↦ record {
          bytes = bytes;
          is_served = fetch_manifest-IsServed net c.card.endpoint bytes f;
          hashed = verify_manifest_hash_sound p bytes c.card.manifest_hash (ground arith);
          valid = parse_and_validate_manifest-IsValidManifest from_slice bytes m (ground arith);
        }
      ]

  -- What stage 1 has established when it passes a card.
  pub record IsEstablished (c : SignedCard) (nonce : Bytes) (f : Stage1Facts) : Type 0 where
    pub authentic : IsAuthentic p c
    pub owns_domain : OwnsDomain c nonce
    pub manifest : Manifest
    pub manifest_fact : f.manifest ≡ some manifest
    pub has_manifest : HasManifest c manifest
    pub label_checked : LabelChecked c.card.label f.label_hardened
    pub domain_verified : f.domain_verified ≡ true
    pub endpoint_valid : f.endpoint_valid ≡ true
    pub manifest_valid : f.manifest_valid ≡ true

  harden_step-label :
      (c : SignedCard) (m : Manifest) (f : Stage1Facts)
      → harden_step p net from_slice c true m ≡ passed f
      → LabelChecked c.card.label f.label_hardened
  unfolding harden_step
  harden_step-label c m f h = elim (Option-cases c.card.label) [
    | inl e ↦ no_label e (ground arith)
    | inr (l, e) ↦ elim (Result-cases (harden_label l)) [
      | inl (r, g) ↦ label_hardened l r e (ground arith) g (harden_label-IsHardened l r g)
      | inr (x, g) ↦ absurd (ground arith)
    ]
  ]

  harden_step-facts :
      (c : SignedCard) (m : Manifest) (f : Stage1Facts)
      → harden_step p net from_slice c true m ≡ passed f
      → (f.manifest ≡ some m)
        × (f.domain_verified ≡ true)
        × (f.endpoint_valid ≡ true)
        × (f.manifest_valid ≡ true)
  unfolding harden_step
  harden_step-facts c m f h = ground arith

  endpoint_step-facts :
      (c : SignedCard) (f : Stage1Facts)
      → endpoint_step p net from_slice c true ≡ passed f
      → (m : Manifest) × HasManifest c m × (harden_step p net from_slice c true m ≡ passed f)
  unfolding endpoint_step
  endpoint_step-facts c f h =
      let fetched =
        fetch_and_validate_manifest p net from_slice c.card.endpoint c.card.manifest_hash in
      elim (Result-cases fetched) [
        | inl (m, e) ↦ (m, fetch_and_validate_manifest-HasManifest c m e, ground arith)
        | inr (x, e) ↦ absurd (ground arith)
      ]

  domain_step-facts :
      (c : SignedCard) (nonce : Bytes) (f : Stage1Facts)
      → domain_step p net from_slice c nonce ≡ passed f
      → OwnsDomain c nonce × (endpoint_step p net from_slice c true ≡ passed f)
  unfolding domain_step
  domain_step-facts c nonce f h =
      let owned = verify_domain_ownership p net from_slice c.card.pubkey c.card.domain nonce in
      elim (Result-cases owned) [
        | inl (b, e) ↦ let (t, o) = verify_domain_ownership_sound c nonce b e in (o, ground arith)
        | inr (x, e) ↦ absurd (ground arith)
      ]

  structure-facts :
      (c : SignedCard) (nonce : Bytes) (f : Stage1Facts)
      → run_stage1 p net from_slice c nonce ≡ passed f
      → (verify_card p c ≡ ok tt) × (domain_step p net from_slice c nonce ≡ passed f)
  unfolding run_stage1
  structure-facts c nonce f h = ground arith

  -- A card that passes is authentic, its domain shows the token made from its key, domain and nonce,
  -- and its endpoint serves over https a manifest with the signed hash. The facts hold this manifest,
  -- hardened, and the label, hardened, if the card has one; every flag in them is true.
  pub run_stage1_sound :
      (c : SignedCard) (nonce : Bytes) (f : Stage1Facts)
      → run_stage1 p net from_slice c nonce ≡ passed f
      → IsEstablished c nonce f
  run_stage1_sound c nonce f h =
      let (v, h1) = structure-facts c nonce f h in
      let (o, h2) = domain_step-facts c nonce f h1 in
      let (m, hm, h3) = endpoint_step-facts c f h2 in
      let facts = harden_step-facts c m f h3 in
      record {
        authentic = (verify_card_iff p c).0 v;
        owns_domain = o;
        manifest = m;
        manifest_fact = facts.0;
        has_manifest = hm;
        label_checked = harden_step-label c m f h3;
        domain_verified = facts.1;
        endpoint_valid = facts.2;
        manifest_valid = facts.3;
      }
