-- ===== src/Verifier/Manifest.antt =====
-- verifier/src/manifest.rs: the endpoint of a card and the manifest that it serves. The URL parser
-- and the HTTP client are `Net`; serde_json's reading of a `Manifest` is a parameter.
pub mod Checks
pub mod Complete
use p2s.Prelude.{
  Bool, true, false, not, ◌||◌, Option, none, some, List, [], ◌∷◌, ◌++◌, nat_eq, list_beq, list_eq,
  Result, ok, ◌>>=◌, ◌>>◌, map_err, reject_if, Text, Bytes, codes,
}
use p2s.Platform.{Platform}
use p2s.Net.{Net}
use p2s.Verifier.Harden.{harden_tool_description}

pub data ManifestError : Type 0 where
  invalid_endpoint_url : Text → ManifestError
  insecure_scheme : Text → ManifestError
  endpoint_has_userinfo : ManifestError
  fetch_failed : Text → ManifestError
  invalid_json : Text → ManifestError
  hash_mismatch : ManifestError
  no_tools : ManifestError

pub manifest_error_display : ManifestError → Text
manifest_error_display (invalid_endpoint_url e) = codes "endpoint is not a valid URL: " ++ e
manifest_error_display (insecure_scheme s) = codes "endpoint must use https scheme, got " ++ s
manifest_error_display endpoint_has_userinfo = codes "endpoint must not contain userinfo"
manifest_error_display (fetch_failed e) = codes "manifest fetch failed: " ++ e
manifest_error_display (invalid_json e) = codes "manifest is not valid JSON: " ++ e
manifest_error_display hash_mismatch = codes "manifest hash mismatch"
manifest_error_display no_tools = codes "manifest has no tools"

pub record ToolEntry : Type 0 where
  pub name : Text
  pub description : Text

pub record Manifest : Type 0 where
  pub name : Text
  pub version : Text
  pub tools : List ToolEntry

-- `serde_json::from_slice::<Manifest>`
abbrev pub ManifestReader : Type 0
ManifestReader = Bytes → Result Text Manifest

is_some {ℓ} : {A : Type ℓ} → Option A → Bool
is_some none = false
is_some (some a) = true

module _ (net : Net) where
  unfoldable pub validate_endpoint : Text → Result ManifestError net.Url
  unfolding is_some
  validate_endpoint endpoint = do
    url ← map_err invalid_endpoint_url (net.parse_url endpoint)
    reject_if (not (list_beq (net.scheme url) (codes "https"))) (insecure_scheme (net.scheme url))
    reject_if (not (list_beq (net.username url) []) || is_some (net.password url))
        endpoint_has_userinfo
    ok url

  unfoldable pub fetch_manifest : Text → Result ManifestError Bytes
  fetch_manifest endpoint = do
    url ← validate_endpoint endpoint
    map_err fetch_failed (net.build_client 15)
    response ← map_err fetch_failed (net.send endpoint)
    reject_if (not (net.status_is_success response))
        (fetch_failed (codes "HTTP " ++ net.status_display response))
    map_err fetch_failed (net.body_bytes response)

-- The loop over the tools.
unfoldable pub harden_tools : List ToolEntry → List ToolEntry
harden_tools [] = []
harden_tools (tool ∷ tools) =
    record tool { description = harden_tool_description tool.description } ∷ harden_tools tools

has_no_tools : List ToolEntry → Bool
has_no_tools [] = true
has_no_tools (t ∷ ts) = false

unfoldable pub parse_and_validate_manifest : ManifestReader → Bytes → Result ManifestError Manifest
unfolding has_no_tools
parse_and_validate_manifest from_slice bytes = do
  manifest ← map_err invalid_json (from_slice bytes)
  reject_if (has_no_tools manifest.tools) no_tools
  ok (record manifest { tools = harden_tools manifest.tools })

unfoldable pub verify_manifest_hash : Platform → Bytes → Bytes → Result ManifestError (Unit {0})
verify_manifest_hash p bytes expected_hash =
    reject_if (not (list_beq (p.hash bytes) expected_hash)) hash_mismatch
