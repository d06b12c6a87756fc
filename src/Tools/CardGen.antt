-- ===== src/Tools/CardGen.antt =====
-- tools/src/card_gen.rs: the command line, the card, and the JSON that is printed.
pub mod Accepted
pub mod Published
use p2s.Prelude.{
  ℕ, zero, suc, ◌+◌, ◌-◌, ◌*◌, ◌^◌, ◌&&◌, Option, none, some, List, [], ◌∷◌, ◌++◌, ltb, leb, ◌==◌,
  if◌then◌else◌, nat_eq, list_beq, list_eq, Result, ok, ◌>>=◌, ◌>>◌, Text, codes, utf8,
}
use p2s.Proto.{CardStatus, active, revoked, CardRecord, SignedCard}
use p2s.Platform.{Platform}
use p2s.Card.{CardError, card_error_display, generate_keypair, sign_card, compute_address}
use p2s.Publisher.{hex_encode}
use p2s.Node.Request.{CardRecordJson}

-- `args.get(i)`
abbrev pub arg : List Text → ℕ → Option Text
arg [] i = none
arg (a ∷ args) zero = some a
arg (a ∷ args) (suc i) = arg args i

-- `unwrap_or`
abbrev pub unwrap_or {ℓ} : {A : Type ℓ} → Option A → A → A
unwrap_or none d = d
unwrap_or (some a) d = a

-- The digits behind `acc`, as far as `u64` holds them.
unfoldable pub parse_digits : ℕ → Text → Option ℕ
parse_digits acc [] = some acc
parse_digits acc (c ∷ cs) =
    let rest = parse_digits (acc * 10 + (c - b'0')) cs in
    if leb b'0' c && leb c b'9' && ltb (acc * 10 + (c - b'0')) (2 ^ 64) then rest else none

-- `s.parse::<u64>().ok()`
unfoldable pub parse_u64 : Text → Option ℕ
parse_u64 [] = none
parse_u64 (c ∷ []) = parse_digits 0 (c ∷ [])
parse_u64 (c ∷ d ∷ cs) = parse_digits 0 (if c == b'+' then d ∷ cs else c ∷ d ∷ cs)

-- What is printed: the source's field `record` is `card`, and `_address` is `address`.
pub record CardJson : Type 0 where
  pub card : CardRecordJson
  pub sig : Text
  pub address : Text

abbrev pub status_text : CardStatus → Text
status_text active = codes "active"
status_text revoked = codes "revoked"

abbrev pub status_arg : Option Text → CardStatus
status_arg none = active
status_arg (some s) = if list_beq s (codes "revoked") then revoked else active

module _ (p : Platform) where
  abbrev pub record_of : p.SigningKey → List Text → CardRecord
  record_of drawn args =
      let domain = unwrap_or (arg args 1) (codes "test.p2s") in
      record {
        pubkey = p.as_bytes (generate_keypair p drawn).verifying_key;
        seq = unwrap_or (elim (arg args 2) [ none ↦ none | some s ↦ parse_u64 s ]) 1;
        status = status_arg (arg args 3);
        endpoint = codes "https://" ++ (domain ++ codes "/mcp");
        manifest_hash = p.hash (utf8 (codes "manifest-" ++ domain));
        domain = domain;
        label = some domain;
      }

  abbrev pub json_of : SignedCard → CardJson
  json_of signed = record {
    card = record {
      pubkey = hex_encode signed.card.pubkey;
      seq = signed.card.seq;
      status = status_text signed.card.status;
      endpoint = signed.card.endpoint;
      manifest_hash = hex_encode signed.card.manifest_hash;
      domain = signed.card.domain;
      label = signed.card.label;
    };
    sig = hex_encode signed.sig;
    address = hex_encode (compute_address p signed.card.pubkey);
  }

  -- `main`: the key is drawn from the system; `sign_card(…).unwrap()` panics with the error.
  pub generate_card : p.SigningKey → List Text → Result CardError CardJson
  generate_card drawn args = do
    signed ← sign_card p (record_of drawn args) (generate_keypair p drawn).signing_key
    ok (json_of signed)
