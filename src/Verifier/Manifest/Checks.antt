-- ===== src/Verifier/Manifest/Checks.antt =====
-- What manifest.rs lets through.
use p2s.Prelude.{
  ◌≤◌, ◌≡◌, refl, ap, inl, inr, true, false, Option, none, some, List, [], ◌∷◌, map, arith, nat_eq,
  list_beq_iff, list_eq, length, all, ok, Result-cases, map_err-eq-ok, Text, Bytes, codes,
}
use p2s.Platform.{Platform}
use p2s.Net.{Net}
use p2s.Verifier.Harden.{description_char, default_max_description_len}
use p2s.Verifier.Harden.Label.{harden_tool_description_bounds}
use p2s.Verifier.Manifest.{
  Manifest, ManifestReader, ToolEntry, fetch_failed, validate_endpoint, fetch_manifest,
  harden_tools, parse_and_validate_manifest, verify_manifest_hash, is_some, has_no_tools,
}

module _ (net : Net) where
  -- The endpoint parses as an https URL with no user information.
  pub data IsSecure (endpoint : Text) : Type 0 where
    secure :
        (url : net.Url)
        → net.parse_url endpoint ≡ ok url
        → net.scheme url ≡ codes "https"
        → net.username url ≡ []
        → net.password url ≡ none
        → IsSecure endpoint

  is_some-none {ℓ} : {A : Type ℓ} (o : Option A) → is_some o ≡ false → o ≡ none
  unfolding is_some
  is_some-none none h = refl
  is_some-none (some a) h = cc

  pub validate_endpoint-IsSecure :
      (endpoint : Text) (url : net.Url)
      → validate_endpoint net endpoint ≡ ok url
      → IsSecure endpoint
  unfolding validate_endpoint
  validate_endpoint-IsSecure endpoint url h = elim (Result-cases (net.parse_url endpoint)) [
    | inr (x, f) ↦ absurd (ground arith)
    | inl (u, f) ↦
        secure u f (ground (arith, list_beq_iff (net.scheme u) (codes "https")))
          (ground (arith, list_beq_iff (net.username u) [])) (ground arith)
  ]

  -- The bytes are a successful answer of the endpoint, which is secure.
  pub data IsServed (endpoint : Text) (bytes : Bytes) : Type 0 where
    served :
        (response : net.Response)
        → IsSecure endpoint
        → net.send endpoint ≡ ok response
        → net.status_is_success response ≡ true
        → net.body_bytes response ≡ ok bytes
        → IsServed endpoint bytes

  pub fetch_manifest-IsServed :
      (endpoint : Text) (bytes : Bytes)
      → fetch_manifest net endpoint ≡ ok bytes
      → IsServed endpoint bytes
  unfolding fetch_manifest
  fetch_manifest-IsServed endpoint bytes h = elim (Result-cases (validate_endpoint net endpoint)) [
    | inr (x, f) ↦ absurd (ground arith)
    | inl (u, f) ↦ elim (Result-cases (net.send endpoint)) [
      | inr (x, g) ↦ absurd (ground arith)
      | inl (r, g) ↦
          served r (validate_endpoint-IsSecure endpoint u f) g (ground arith)
            (map_err-eq-ok fetch_failed (net.body_bytes r) bytes (ground arith))
    ]
  ]

-- Every description is within the ceiling and free of control characters.
abbrev pub IsHardenedTool : ToolEntry → Type 0
IsHardenedTool t =
    (length t.description ≤ default_max_description_len)
    × (all description_char t.description ≡ true)

abbrev pub AllHardened : List ToolEntry → Type 0
AllHardened [] = Unit {0}
AllHardened (t ∷ ts) = IsHardenedTool t × AllHardened ts

harden_tools-AllHardened : (ts : List ToolEntry) → AllHardened (harden_tools ts)
unfolding harden_tools
harden_tools-AllHardened [] = tt
harden_tools-AllHardened (t ∷ ts) =
    (harden_tool_description_bounds t.description, harden_tools-AllHardened ts)

some_harden_tools : (ts : List ToolEntry) → has_no_tools ts ≡ false → 1 ≤ length (harden_tools ts)
unfolding harden_tools has_no_tools
some_harden_tools [] h = absurd (ground arith)
some_harden_tools (t ∷ ts) h = omega arith

-- The tools keep their order, their number and their names.
abbrev pub names : List ToolEntry → List Text
names = map (λ t. t.name)

names-harden_tools : (ts : List ToolEntry) → names (harden_tools ts) ≡ names ts
unfolding harden_tools
names-harden_tools [] = refl
names-harden_tools (t ∷ ts) = ap (λ r. t.name ∷ r) (names-harden_tools ts)

-- How a manifest relates to the one that the reader finds in the bytes.
pub record IsValidManifest (from_slice : ManifestReader) (bytes : Bytes) (m : Manifest)
    : Type 0 where
  pub raw : Manifest
  pub read : from_slice bytes ≡ ok raw
  pub some_tools : 1 ≤ length m.tools
  pub name : m.name ≡ raw.name
  pub version : m.version ≡ raw.version
  pub tool_names : names m.tools ≡ names raw.tools
  pub hardened : AllHardened m.tools

-- A manifest that is returned is the one in the bytes, with at least one tool and the same tools in
-- order, each description hardened to at most 512 characters.
pub parse_and_validate_manifest-IsValidManifest :
    (from_slice : ManifestReader) (bytes : Bytes) (m : Manifest)
    → parse_and_validate_manifest from_slice bytes ≡ ok m
    → IsValidManifest from_slice bytes m
unfolding parse_and_validate_manifest
parse_and_validate_manifest-IsValidManifest from_slice bytes m h =
    elim (Result-cases (from_slice bytes)) [
      | inr (x, f) ↦ absurd (ground arith)
      | inl (raw, f) ↦
          let e : m.tools ≡ harden_tools raw.tools = ground arith in
          record {
            raw = raw;
            read = f;
            some_tools = rw e (ground (arith, some_harden_tools raw.tools));
            name = ground arith;
            version = ground arith;
            tool_names = rw e (names-harden_tools raw.tools);
            hardened = rw e (harden_tools-AllHardened raw.tools);
          }
    ]

pub verify_manifest_hash_sound :
    (p : Platform) (bytes expected : Bytes)
    → verify_manifest_hash p bytes expected ≡ ok tt
    → p.hash bytes ≡ expected
unfolding verify_manifest_hash
verify_manifest_hash_sound p bytes expected h = ground (arith, list_beq_iff (p.hash bytes) expected)
