-- ===== src/Publisher/Proof.antt =====
-- What a proof of a domain rests on.
use mathlib.Core.List.{Memᴰ}
use p2s.Prelude.{
  ◌+◌, ◌≡◌, refl, inl, inr, true, List, [], ◌∷◌, ◌++◌, arith, Bool-cases, nat_eq, list_beq,
  list_beq_iff, list_eq, length, ok, Result-cases, Text, Bytes, codes, trim, utf8, starts_with,
}
use p2s.Platform.{Platform}
use p2s.Net.{Net}
use p2s.Publisher.{
  ChallengeToken, DomainProofMethod, hex_encode, reconstruct_challenge, generate_challenge,
  any_record_matches, verify_domain_dns, verify_domain_wellknown,
}

length-hex_encode : (b : Bytes) → length (hex_encode b) ≡ length b + length b
unfolding hex_encode
length-hex_encode [] = omega arith
length-hex_encode (x ∷ b) = omega (arith, length-hex_encode b)

-- A node that rebuilds a challenge from its nonce gets the publisher's own challenge, and its token
-- is "p2s-verify=" with 64 hexadecimal digits behind it.
pub reconstruct-generate :
    (p : Platform) (random pubkey : Bytes) (domain : Text)
    → let c = generate_challenge p random pubkey domain in
      (reconstruct_challenge p pubkey domain c.nonce ≡ c)
      × (length c.token ≡ 75)
      × (starts_with c.token (codes "p2s-verify=") ≡ true)
unfolding reconstruct_challenge generate_challenge starts_with
reconstruct-generate p random pubkey domain = (
  refl,
  omega (
    arith,
    length-hex_encode (
        p.keyed_hash (p.hash (utf8 (codes "p2s-domain-challenge")))
          (pubkey ++ (utf8 domain ++ random))),
    p.length-keyed_hash (p.hash (utf8 (codes "p2s-domain-challenge")))
        (pubkey ++ (utf8 domain ++ random)),
  ),
  refl,
)

module _ (net : Net) where
  -- The domain's TXT records hold the token.
  pub data PublishedInDns (c : ChallengeToken) : Type 0 where
    published :
        (records : List Text) (txt : Text)
        → net.txt_lookup c.dns_record_name ≡ ok records
        → Memᴰ txt records
        → trim txt ≡ c.token
        → PublishedInDns c

  -- The domain serves the token under its well-known path.
  pub data PublishedInHttp (c : ChallengeToken) : Type 0 where
    served :
        (response : net.Response) (body : Text)
        → net.send c.wellknown_path ≡ ok response
        → net.body_text response ≡ ok body
        → trim body ≡ c.token
        → PublishedInHttp c

  any_record_matches_sound :
      (token : Text) (records : List Text)
      → any_record_matches token records ≡ true
      → (txt : Text) × Memᴰ txt records × (trim txt ≡ token)
  unfolding any_record_matches
  any_record_matches_sound token [] h = absurd (ground arith)
  any_record_matches_sound token (txt ∷ records) h = elim (Bool-cases (list_beq (trim txt) token)) [
    | inl e ↦ (txt, Memᴰ.head refl, (list_beq_iff _ _).0 e)
    | inr e ↦
        let (x, m, q) = any_record_matches_sound token records (ground arith) in (x, Memᴰ.tail m, q)
  ]

  pub verify_domain_dns_sound :
      (c : ChallengeToken) (m : DomainProofMethod)
      → verify_domain_dns net c ≡ ok m
      → PublishedInDns c
  unfolding verify_domain_dns
  verify_domain_dns_sound c m h = elim (Result-cases (net.txt_lookup c.dns_record_name)) [
    | inr (x, f) ↦ absurd (ground arith)
    | inl (records, f) ↦
        let (txt, i, q) = any_record_matches_sound c.token records (ground arith) in
        published records txt f i q
  ]

  pub verify_domain_wellknown_sound :
      (c : ChallengeToken) (m : DomainProofMethod)
      → verify_domain_wellknown net c ≡ ok m
      → PublishedInHttp c
  unfolding verify_domain_wellknown
  verify_domain_wellknown_sound c m h = elim (Result-cases (net.send c.wellknown_path)) [
    | inr (x, f) ↦ absurd (ground arith)
    | inl (r, f) ↦ elim (Result-cases (net.body_text r)) [
      | inr (x, g) ↦ absurd (ground arith)
      | inl (body, g) ↦ served r body f g (ground (arith, list_beq_iff (trim body) c.token))
    ]
  ]
