-- ===== src/Publisher.antt =====
-- publisher/src: the proof that a publisher controls a domain. The challenge (challenge.rs), its
-- verification over DNS and HTTPS (domain_proof.rs) and the errors (error.rs).
pub mod Proof
pub mod Complete
use p2s.Prelude.{
  ◌/◌, ◌%◌, Bool, true, false, List, [], ◌∷◌, ◌++◌, if◌then◌else◌, nat_eq, list_beq, list_eq, all,
  Result, ok, err, ◌>>=◌, ◌>>◌, map_err, lookup, Text, Bytes, codes, trim, hex_digit, utf8,
}
use p2s.Platform.{Platform}
use p2s.Net.{Net}

pub record ChallengeToken : Type 0 where
  pub token : Text
  pub nonce : Bytes
  pub dns_record_name : Text
  pub wellknown_path : Text

-- `format!("{b:02x}")` of a byte, over all bytes
unfoldable pub hex_encode : Bytes → Text
unfolding hex_digit
hex_encode [] = []
hex_encode (b ∷ bytes) = hex_digit (b / 16 % 16) ∷ hex_digit (b % 16) ∷ hex_encode bytes

pub data DomainProofMethod : Type 0 where
  dns well_known : DomainProofMethod

pub data PublisherError : Type 0 where
  dns_lookup_failed : (domain reason : Text) → PublisherError
  no_matching_txt_record : (domain : Text) → PublisherError
  http_fetch_failed : (url reason : Text) → PublisherError
  well_known_token_mismatch : (domain : Text) → PublisherError
  verification_failed : Text → PublisherError

pub publisher_error_display : PublisherError → Text
publisher_error_display (dns_lookup_failed d r) =
    codes "DNS lookup failed for " ++ (d ++ (codes ": " ++ r))
publisher_error_display (no_matching_txt_record d) = codes "no matching TXT record found for " ++ d
publisher_error_display (http_fetch_failed u r) =
    codes "HTTP fetch failed for " ++ (u ++ (codes ": " ++ r))
publisher_error_display (well_known_token_mismatch d) = codes "well-known token mismatch for " ++ d
publisher_error_display (verification_failed r) = codes "domain verification failed: " ++ r

module _ (p : Platform) where
  unfoldable pub reconstruct_challenge : Bytes → Text → Bytes → ChallengeToken
  unfolding utf8
  reconstruct_challenge pubkey domain nonce = record {
    token = codes "p2s-verify=" ++ hex_encode token_hash;
    nonce = nonce;
    dns_record_name = codes "_p2s-verify." ++ domain;
    wellknown_path = codes "https://" ++ (domain ++ codes "/.well-known/p2s-verify");
  }
    where
      token_hash : Bytes
      token_hash =
          p.keyed_hash (p.hash (utf8 (codes "p2s-domain-challenge")))
            (pubkey ++ (utf8 domain ++ nonce))

  -- The nonce is what the system's random source has filled in; the rest is written out again in
  -- the source.
  pub generate_challenge : Bytes → Bytes → Text → ChallengeToken
  unfolding utf8
  generate_challenge random pubkey domain = record {
    token = codes "p2s-verify=" ++ hex_encode token_hash;
    nonce = random;
    dns_record_name = codes "_p2s-verify." ++ domain;
    wellknown_path = codes "https://" ++ (domain ++ codes "/.well-known/p2s-verify");
  }
    where
      token_hash : Bytes
      token_hash =
          p.keyed_hash (p.hash (utf8 (codes "p2s-domain-challenge")))
            (pubkey ++ (utf8 domain ++ random))

-- The loop over the TXT records.
unfoldable pub any_record_matches : Text → List Text → Bool
any_record_matches token [] = false
any_record_matches token (txt ∷ records) =
    if list_beq (trim txt) token then true else any_record_matches token records

module _ (net : Net) where
  unfoldable pub verify_domain_dns : ChallengeToken → Result PublisherError DomainProofMethod
  verify_domain_dns c = do
    records ← map_err (dns_lookup_failed c.dns_record_name) (net.txt_lookup c.dns_record_name)
    if any_record_matches c.token records
        then ok dns
        else err (no_matching_txt_record c.dns_record_name)

  pub verify_domain_wellknown : ChallengeToken → Result PublisherError DomainProofMethod
  verify_domain_wellknown c = do
    map_err (http_fetch_failed c.wellknown_path) (net.build_client 10)
    response ← map_err (http_fetch_failed c.wellknown_path) (net.send c.wellknown_path)
    body ← map_err (http_fetch_failed c.wellknown_path) (net.body_text response)
    if list_beq (trim body) c.token
        then ok well_known
        else err (well_known_token_mismatch c.wellknown_path)
