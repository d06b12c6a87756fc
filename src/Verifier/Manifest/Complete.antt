-- ===== src/Verifier/Manifest/Complete.antt =====
-- A manifest that is served and valid is fetched and accepted (verifier/src/manifest.rs).
use p2s.Prelude.{
  ◌≤◌, ◌≡◌, refl, false, List, [], ◌∷◌, arith, nat_eq, list_beq_refl, list_eq, length, ok, Text,
  Bytes,
}
use p2s.Platform.{Platform}
use p2s.Net.{Net}
use p2s.Verifier.Manifest.{
  Manifest, ManifestReader, ToolEntry, validate_endpoint, fetch_manifest,
  parse_and_validate_manifest, verify_manifest_hash, harden_tools, is_some, has_no_tools,
}
use p2s.Verifier.Manifest.Checks.{IsSecure, secure, IsServed, served}

module _ (net : Net) where
  pub validate_endpoint_ok :
      (endpoint : Text)
      → IsSecure net endpoint
      → (url : net.Url) × (validate_endpoint net endpoint ≡ ok url)
  unfolding validate_endpoint is_some
  validate_endpoint_ok endpoint (secure url u s n w) = (url, rw (u, s, n, w) refl)

  pub fetch_manifest_ok :
      (endpoint : Text) (bytes : Bytes)
      → net.build_client 15 ≡ ok tt
      → IsServed net endpoint bytes
      → fetch_manifest net endpoint ≡ ok bytes
  unfolding fetch_manifest
  fetch_manifest_ok endpoint bytes builds (served response s e status b) =
      rw ((validate_endpoint_ok endpoint s).1, builds, e, status, b) refl

has_tools : (tools : List ToolEntry) → 1 ≤ length tools → has_no_tools tools ≡ false
unfolding has_no_tools
has_tools [] h = absurd (omega (arith, h))
has_tools (t ∷ ts) h = refl

pub parse_and_validate_manifest_ok :
    (from_slice : ManifestReader) (bytes : Bytes) (raw : Manifest)
    → from_slice bytes ≡ ok raw
    → 1 ≤ length raw.tools
    → parse_and_validate_manifest from_slice bytes
      ≡ ok (record raw { tools = harden_tools raw.tools })
unfolding parse_and_validate_manifest
parse_and_validate_manifest_ok from_slice bytes raw r h = rw (r, has_tools raw.tools h) refl

pub verify_manifest_hash_ok :
    (p : Platform) (bytes expected : Bytes)
    → p.hash bytes ≡ expected
    → verify_manifest_hash p bytes expected ≡ ok tt
unfolding verify_manifest_hash
verify_manifest_hash_ok p bytes expected e = rw (e, list_beq_refl expected) refl
