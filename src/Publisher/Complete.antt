-- ===== src/Publisher/Complete.antt =====
-- A token that is published proves its domain (publisher/src/domain_proof.rs).
use p2s.Prelude.{
  ◌≡◌, refl, ap, true, List, [], ◌∷◌, arith, nat_eq, list_beq_refl, list_beq_iff, list_eq, ok, Text,
  trim,
}
use mathlib.Core.List.{Memᴰ}
use p2s.Net.{Net}
use p2s.Publisher.{
  ChallengeToken, any_record_matches, verify_domain_dns, verify_domain_wellknown, dns, well_known,
}
use p2s.Publisher.Proof.{PublishedInDns, published, PublishedInHttp, served}

any_record_matches-Mem :
    (token txt : Text) (records : List Text)
    → Memᴰ txt records
    → trim txt ≡ token
    → any_record_matches token records ≡ true
unfolding any_record_matches
any_record_matches-Mem token txt [] m e = elim m [ ]
any_record_matches-Mem token txt (x ∷ records) (Memᴰ.head q) e =
    ground (arith, e, ap trim q, list_beq_iff (trim x) token)
any_record_matches-Mem token txt (x ∷ records) (Memᴰ.tail m) e =
    ground (arith, any_record_matches-Mem token txt records m e)

module _ (net : Net) where
  pub verify_domain_dns_ok :
      (c : ChallengeToken) → PublishedInDns net c → verify_domain_dns net c ≡ ok dns
  unfolding verify_domain_dns
  verify_domain_dns_ok c (published records txt t m e) =
      rw (t, any_record_matches-Mem c.token txt records m e) refl

  -- Where an HTTP client can be built.
  pub verify_domain_wellknown_ok :
      (c : ChallengeToken)
      → net.build_client 10 ≡ ok tt
      → PublishedInHttp net c
      → verify_domain_wellknown net c ≡ ok well_known
  unfolding verify_domain_wellknown
  verify_domain_wellknown_ok c builds (served response body s b e) =
      rw (builds, s, b, e, list_beq_refl c.token) refl
