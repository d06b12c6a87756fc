-- ===== src/Tools/CardGen/Accepted.antt =====
-- A card of the tool at a node.
use p2s.Prelude.{◌≡◌, refl, sym, ◌∙◌, none, List, nat_eq, list_eq, ok, ok-injective, Text, Bytes}
use mathlib.Core.Path.{subst}
use p2s.Proto.{CardStatus, active, revoked, SignedCard}
use p2s.Platform.{Platform}
use p2s.Card.{encode_card, sign_card, verify_card, compute_address}
use p2s.Card.Verify.{verify_card-sign_card}
use p2s.Publisher.{hex_encode}
use p2s.Node.Request.{PublishCardRequest, HexReader, parse_status, decode_card}
use p2s.Tools.CardGen.{CardJson, status_text, record_of, json_of, generate_card}

-- A request to publish what the tool has printed.
abbrev pub request_of : CardJson → PublishCardRequest
request_of json = record { card = json.card; sig = json.sig; challenge_nonce = none }

parse_status-status_text : (s : CardStatus) → parse_status (status_text s) ≡ ok s
unfolding parse_status
parse_status-status_text active = refl
parse_status-status_text revoked = refl

-- The card that is signed over the message `m`.
abbrev pub signed_of : (p : Platform) → p.SigningKey → List Text → Bytes → SignedCard
signed_of p drawn args m = record { card = record_of p drawn args; sig = p.sign drawn m }

module _ (p : Platform) (hex_decode : HexReader) where
  -- The three byte strings of a card that are printed read back.
  pub record ReadsBack (c : SignedCard) : Type 0 where
    pub pubkey : hex_decode (hex_encode c.card.pubkey) ≡ ok c.card.pubkey
    pub manifest_hash : hex_decode (hex_encode c.card.manifest_hash) ≡ ok c.card.manifest_hash
    pub sig : hex_decode (hex_encode c.sig) ≡ ok c.sig

  decode_card-json_of :
      (c : SignedCard) → ReadsBack c → decode_card hex_decode (request_of (json_of p c)) ≡ ok c
  unfolding decode_card
  decode_card-json_of c h =
      rw (h.pubkey, h.sig, h.manifest_hash, parse_status-status_text c.card.status) refl

  -- What the tool prints, for whatever arguments, if its card can be encoded and the decoder reads back
  -- the three byte strings in it: sent to a node it decodes to the card that was signed, which verifies,
  -- and the address that is printed is the hash of its key.
  pub decode_card-generate_card :
      (drawn : p.SigningKey) (args : List Text) (m : Bytes)
      → encode_card p (record_of p drawn args) ≡ ok m
      → ReadsBack (signed_of p drawn args m)
      → (json : CardJson) × (c : SignedCard) × (generate_card p drawn args ≡ ok json)
        × (decode_card hex_decode (request_of json) ≡ ok c)
        × (c ≡ signed_of p drawn args m)
        × (verify_card p c ≡ ok tt)
        × (json.address ≡ hex_encode (p.hash (p.as_bytes (p.verifying_key drawn))))
  unfolding generate_card compute_address sign_card
  decode_card-generate_card drawn args m e h =
      let (c', e', _, v, _) = verify_card-sign_card p (record_of p drawn args) drawn m refl e in
      let c : SignedCard = signed_of p drawn args m in
      let signed : sign_card p (record_of p drawn args) drawn ≡ ok c = rw e refl in
      let same : c' ≡ c = ok-injective (sym e' ∙ signed) in
      (
        json_of p c,
        c,
        rw e refl,
        decode_card-json_of c h,
        refl,
        subst (λ x. verify_card p x ≡ ok tt) same v,
        refl,
      )
