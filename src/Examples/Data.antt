-- ===== src/Examples/Data.antt =====
-- Concrete cards, mandates and records of the toy platform.
use p2s.Prelude.{ℕ, some, [], ◌∷◌, nat_eq, list_eq, Bytes, codes}
use p2s.Proto.{active, CardRecord, SignedCard}
use p2s.Node.RecordStore.{KadRecord, disk_record}
use p2s.Examples.Toy.{fit, card_coding, signed_card_coding}

abbrev pub site : Bytes
site = 1 ∷ 2 ∷ 3 ∷ []

-- Version `n` of the card of the key 7.
abbrev pub toy_record : ℕ → CardRecord
toy_record n = record {
  pubkey = fit 32 (7 ∷ []);
  seq = n;
  status = active;
  endpoint = codes "https://a.example/m";
  manifest_hash = fit 32 site;
  domain = codes "a.example";
  label = some (codes " Weather ");
}

abbrev pub toy_message : ℕ → Bytes
toy_message n = card_coding.write (toy_record n) []

abbrev pub toy_card : ℕ → SignedCard
toy_card n = record { card = toy_record n; sig = fit 64 (7 ∷ toy_message n) }

abbrev pub toy_address : Bytes
toy_address = fit 32 (7 ∷ [])

abbrev pub toy_disk_record : ℕ → KadRecord
toy_disk_record n = disk_record toy_address (signed_card_coding.write (toy_card n) [])
