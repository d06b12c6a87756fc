-- ===== src/Node/Startup/Parsed.antt =====
-- What the lists of the command line have to be for a node to start (main.rs, its first lines).
use p2s.Prelude.{
  ℕ, zero, suc, ◌≡◌, refl, ap, ◌↔◌, inl, inr, some, List, [], ◌∷◌, arith, ◌==◌, Bool-cases,
  Option-cases, nat_eq, list_eq, length, ok, Result-cases, Text, Bytes, Zips, Zips-map, collect_iff,
}
use p2s.Platform.{Platform}
use p2s.Node.Config.{Protocol, p2p, other_protocol, Addresses}
use p2s.Node.Request.{HexReader}
use p2s.Node.Startup.{
  extract_peer_id, parse_bootstrap_peer, parse_bootstrap_peers, parse_validator_key,
  parse_validator_keys,
}

module _ (p : Platform) (addresses : Addresses) (hex_decode : HexReader) where
  -- Parts of an address that name no peer, and other parts behind them.
  abbrev behind_others : ℕ → List (Protocol addresses.PeerId) → List (Protocol addresses.PeerId)
  behind_others zero rest = rest
  behind_others (suc n) rest = other_protocol ∷ behind_others n rest

  -- The first peer that an address names.
  abbrev IsFirstPeer : List (Protocol addresses.PeerId) → addresses.PeerId → Type 0
  IsFirstPeer protos id =
      (n : ℕ) × (rest : List (Protocol addresses.PeerId)) × (protos
        ≡ behind_others n (p2p id ∷ rest))

  extract_peer_id_sound :
      (protos : List (Protocol addresses.PeerId)) (id : addresses.PeerId)
      → extract_peer_id p addresses hex_decode protos ≡ some id
      → IsFirstPeer protos id
  unfolding extract_peer_id
  extract_peer_id_sound [] id h = cc
  extract_peer_id_sound (p2p i ∷ protos) id h = (0, protos, ground (arith, h))
  extract_peer_id_sound (other_protocol ∷ protos) id h =
      let (n, rest, e) = extract_peer_id_sound protos id h in
      (suc n, rest, ap (λ l. other_protocol ∷ l) e)

  extract-behind_others :
      (n : ℕ) (id : addresses.PeerId) (rest : List (Protocol addresses.PeerId))
      → extract_peer_id p addresses hex_decode (behind_others n (p2p id ∷ rest)) ≡ some id
  unfolding extract_peer_id
  extract-behind_others zero id rest = refl
  extract-behind_others (suc n) id rest = extract-behind_others n id rest

  -- A bootstrap peer of the command line: an address that parses, and the first peer that it names.
  pub record IsPeer (text : Text) (peer : addresses.PeerId × addresses.Multiaddr) : Type 0 where
    pub parsed : addresses.parse text ≡ ok peer.1
    pub first : IsFirstPeer (addresses.iter peer.1) peer.0

  parse_bootstrap_peer-IsPeer :
      (text : Text) (peer : addresses.PeerId × addresses.Multiaddr)
      → parse_bootstrap_peer p addresses hex_decode text ≡ ok peer
      → IsPeer text peer
  unfolding parse_bootstrap_peer
  parse_bootstrap_peer-IsPeer text (i, a) h = elim (Result-cases (addresses.parse text)) [
    | inr (e, f) ↦ absurd (ground arith)
    | inl (addr, f) ↦
        elim (Option-cases (extract_peer_id p addresses hex_decode (addresses.iter addr))) [
          | inl g ↦ absurd (ground arith)
          | inr (id, g) ↦ record {
            parsed = ground arith;
            first = extract_peer_id_sound (addresses.iter a) i (ground arith);
          }
        ]
  ]

  IsPeer-parse :
      (text : Text) (peer : addresses.PeerId × addresses.Multiaddr)
      → IsPeer text peer
      → parse_bootstrap_peer p addresses hex_decode text ≡ ok peer
  unfolding parse_bootstrap_peer
  IsPeer-parse text (i, a) h =
      let (n, rest, e) = h.first in rw (h.parsed, e, extract-behind_others n i rest) refl

  -- The bootstrap peers are accepted exactly if each of them is an address that parses and names a
  -- peer; they are then the addresses in order, each with the first peer that it names.
  pub parse_bootstrap_peers_iff :
      (texts : List Text) (peers : List (addresses.PeerId × addresses.Multiaddr))
      → (parse_bootstrap_peers p addresses hex_decode texts ≡ ok peers) ↔ Zips IsPeer texts peers
  unfolding parse_bootstrap_peers
  parse_bootstrap_peers_iff texts peers =
      let both = collect_iff (parse_bootstrap_peer p addresses hex_decode) texts peers in
      (
        λ h. Zips-map _ IsPeer parse_bootstrap_peer-IsPeer (both.0 h),
        λ z. both.1 (Zips-map IsPeer _ IsPeer-parse z),
      )

  -- A validator's key on the command line: 32 bytes in hexadecimal that are a point of the curve.
  pub record IsKey (text : Text) (key : p.VerifyingKey) : Type 0 where
    pub bytes : Bytes
    pub decoded : hex_decode text ≡ ok bytes
    pub measured : length bytes ≡ 32
    pub point : p.from_bytes bytes ≡ some key

  parse_validator_key-IsKey :
      (point_error text : Text) (key : p.VerifyingKey)
      → parse_validator_key p addresses hex_decode point_error text ≡ ok key
      → IsKey text key
  unfolding parse_validator_key
  parse_validator_key-IsKey point_error text key h = elim (Result-cases (hex_decode text)) [
    | inr (e, f) ↦ absurd (ground arith)
    | inl (bytes, f) ↦ elim (Bool-cases (length bytes == 32)) [
      | inr g ↦ absurd (ground arith)
      | inl g ↦ elim (Option-cases (p.from_bytes bytes)) [
        | inl i ↦ absurd (ground arith)
        | inr (k, i) ↦ record {
          bytes = bytes;
          decoded = f;
          measured = ground arith;
          point = ground arith;
        }
      ]
    ]
  ]

  IsKey-parse :
      (point_error text : Text) (key : p.VerifyingKey)
      → IsKey text key
      → parse_validator_key p addresses hex_decode point_error text ≡ ok key
  unfolding parse_validator_key
  IsKey-parse point_error text key h = ground (arith, h.decoded, h.measured, h.point)

  -- The validators' keys are accepted exactly if each is 32 bytes in hexadecimal that are a point of
  -- the curve; they are then these points in order.
  pub parse_validator_keys_iff :
      (point_error : Text) (texts : List Text) (keys : List p.VerifyingKey)
      → (parse_validator_keys p addresses hex_decode point_error texts ≡ ok keys)
        ↔ Zips IsKey texts keys
  unfolding parse_validator_keys
  parse_validator_keys_iff point_error texts keys =
      let both = collect_iff (parse_validator_key p addresses hex_decode point_error) texts keys in
      (
        λ h. Zips-map _ IsKey (parse_validator_key-IsKey point_error) (both.0 h),
        λ z. both.1 (Zips-map IsKey _ (IsKey-parse point_error) z),
      )
