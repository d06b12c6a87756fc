-- ===== src/Verifier/Stage1/Complete.antt =====
-- A publisher who does what stage 1 asks for passes it.
use p2s.Prelude.{
  ℕ, ◌≤◌, ◌≡◌, refl, ◌↔◌, ◌⊎◌, inl, inr, true, Option, none, some, List, [], ◌∷◌, arith, nat_eq,
  list_beq_refl, list_eq, length, ok, Result-cases, Text, Bytes,
}
use p2s.Proto.{SignedCard}
use p2s.Platform.{Platform}
use p2s.Net.{Net}
use p2s.Card.{compute_address, verify_address}
use p2s.Card.Verify.{IsAuthentic, verify_card_iff}
use p2s.Publisher.{reconstruct_challenge, verify_domain_dns}
use p2s.Publisher.Complete.{verify_domain_dns_ok, verify_domain_wellknown_ok}
use p2s.Verifier.Harden.{harden_label}
use p2s.Verifier.Manifest.{Manifest, ManifestReader, ToolEntry, harden_tools}
use p2s.Verifier.Manifest.Checks.{IsSecure, IsServed, names}
use p2s.Verifier.Manifest.Complete.{
  validate_endpoint_ok, fetch_manifest_ok, parse_and_validate_manifest_ok, verify_manifest_hash_ok,
}
use p2s.Verifier.Stage1.{
  Stage1Facts, passed, verify_domain_ownership, fetch_and_validate_manifest, run_stage1,
  domain_step, endpoint_step, harden_step,
}
use p2s.Verifier.Stage1.Passed.{
  LabelChecked, no_label, label_hardened, OwnsDomain, IsEstablished, run_stage1_sound,
}

-- There is no label, or it hardens.
abbrev pub LabelHardens : Option Text → Type 0
LabelHardens label = (label ≡ none) ⊎ ((l r : Text) × (label ≡ some l) × (harden_label l ≡ ok r))

same_names-some : (a b : List ToolEntry) → names a ≡ names b → 1 ≤ length a → 1 ≤ length b
same_names-some [] b e h = absurd (omega (arith, h))
same_names-some (x ∷ a) [] e h = absurd (ground (arith, e))
same_names-some (x ∷ a) (y ∷ b) e h = omega arith

module _ (p : Platform) (net : Net) (from_slice : ManifestReader) where
  -- What a publisher has to provide for a card and a nonce.
  pub record MeetsStage1 (c : SignedCard) (nonce : Bytes) : Type 0 where
    pub authentic : IsAuthentic p c
    pub owns_domain : OwnsDomain p net from_slice c nonce
    pub bytes : Bytes
    pub is_served : IsServed net c.card.endpoint bytes
    pub hashed : p.hash bytes ≡ c.card.manifest_hash
    pub manifest : Manifest
    pub read : from_slice bytes ≡ ok manifest
    pub some_tools : 1 ≤ length manifest.tools
    pub label : LabelHardens c.card.label

  module _ (builds : (secs : ℕ) → net.build_client secs ≡ ok tt) where
    verify_domain_ownership_ok :
        (c : SignedCard) (nonce : Bytes)
        → OwnsDomain p net from_slice c nonce
        → verify_domain_ownership p net from_slice c.card.pubkey c.card.domain nonce ≡ ok true
    unfolding verify_domain_ownership
    verify_domain_ownership_ok c nonce (inl d) =
        rw (verify_domain_dns_ok net _ d, verify_domain_ownership) refl
    verify_domain_ownership_ok c nonce (inr w) =
        let challenge = reconstruct_challenge p c.card.pubkey c.card.domain nonce in
        elim (Result-cases (verify_domain_dns net challenge)) [
          | inl (m, f) ↦ rw (f, verify_domain_ownership) refl
          | inr (x, f) ↦
              rw
                (f, verify_domain_wellknown_ok net challenge (builds 10) w, verify_domain_ownership)
                refl
        ]

    -- The manifest that stage 1 returns for what it reads: its tools are hardened.
    abbrev hardened : Manifest → Manifest
    hardened raw = record raw { tools = harden_tools raw.tools }

    fetch_and_validate_manifest_ok :
        (c : SignedCard) (nonce : Bytes) (m : MeetsStage1 c nonce)
        → fetch_and_validate_manifest p net from_slice c.card.endpoint c.card.manifest_hash
          ≡ ok (hardened m.manifest)
    unfolding fetch_and_validate_manifest
    fetch_and_validate_manifest_ok c nonce m =
        rw
          (
            fetch_manifest_ok net c.card.endpoint m.bytes (builds 15) m.is_served,
            verify_manifest_hash_ok p m.bytes c.card.manifest_hash m.hashed,
          )
          (parse_and_validate_manifest_ok from_slice m.bytes m.manifest m.read m.some_tools)

    IsServed-IsSecure :
        (endpoint : Text) (bytes : Bytes) → IsServed net endpoint bytes → IsSecure net endpoint
    IsServed-IsSecure endpoint bytes (IsServed.served response s e status b) = s

    -- What stage 1 reports on a card that it passes.
    abbrev all_true : Manifest → Option Text → Stage1Facts
    all_true m label = record {
      domain_verified = true;
      endpoint_valid = true;
      manifest_valid = true;
      manifest = some m;
      label_hardened = label;
    }

    harden_step_passes :
        (c : SignedCard) (m : Manifest)
        → LabelHardens c.card.label
        → (f : Stage1Facts) × (harden_step p net from_slice c true m ≡ passed f)
    unfolding harden_step
    harden_step_passes c m (inl e) = (all_true m none, rw (e, harden_step) refl)
    harden_step_passes c m (inr (l, r, e, h)) = (all_true m (some r), rw (e, h, harden_step) refl)

    run_stage1_passes :
        (c : SignedCard) (nonce : Bytes)
        → MeetsStage1 c nonce
        → (f : Stage1Facts) × (run_stage1 p net from_slice c nonce ≡ passed f)
    unfolding run_stage1 domain_step endpoint_step verify_address compute_address
    run_stage1_passes c nonce m =
        let (f, h) = harden_step_passes c (hardened m.manifest) m.label in
        let secure =
          validate_endpoint_ok net c.card.endpoint
            (IsServed-IsSecure c.card.endpoint m.bytes m.is_served) in
        (
          f,
          rw
              (
                (verify_card_iff p c).1 m.authentic,
                list_beq_refl (p.hash c.card.pubkey),
                verify_domain_ownership_ok c nonce m.owns_domain,
                secure.1,
                fetch_and_validate_manifest_ok c nonce m,
                run_stage1,
                domain_step,
                endpoint_step,
              )
              h,
        )

    label_of : (label fact : Option Text) → LabelChecked label fact → LabelHardens label
    label_of label fact (no_label e f) = inl e
    label_of label fact (label_hardened l r e f h i) = inr (l, r, e, h)

    pub IsEstablished-MeetsStage1 :
        (c : SignedCard) (nonce : Bytes) (f : Stage1Facts)
        → IsEstablished p net from_slice c nonce f
        → MeetsStage1 c nonce
    IsEstablished-MeetsStage1 c nonce f i = record {
      authentic = i.authentic;
      owns_domain = i.owns_domain;
      bytes = i.has_manifest.bytes;
      is_served = i.has_manifest.is_served;
      hashed = i.has_manifest.hashed;
      manifest = i.has_manifest.valid.raw;
      read = i.has_manifest.valid.read;
      some_tools =
          same_names-some i.manifest.tools i.has_manifest.valid.raw.tools
            i.has_manifest.valid.tool_names i.has_manifest.valid.some_tools;
      label = label_of c.card.label f.label_hardened i.label_checked;
    }

    -- Where an HTTP client can be built, stage 1 passes a card exactly if the card is authentic, its
    -- domain shows the token for its key, domain and nonce in a TXT record or under the well-known path,
    -- its endpoint is secure and serves a manifest of the signed hash that can be read and has a tool,
    -- and its label, if any, can be hardened.
    pub run_stage1_iff :
        (c : SignedCard) (nonce : Bytes)
        → ((f : Stage1Facts) × (run_stage1 p net from_slice c nonce ≡ passed f))
          ↔ MeetsStage1 c nonce
    run_stage1_iff c nonce = (
      λ (f, h). IsEstablished-MeetsStage1 c nonce f (run_stage1_sound p net from_slice c nonce f h),
      run_stage1_passes c nonce,
    )
