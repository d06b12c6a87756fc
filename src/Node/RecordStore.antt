-- ===== src/Node/RecordStore.antt =====
-- node/src/record_store.rs: the store of signed cards behind Kademlia, one record for each address,
-- the one with the highest sequence number. The default tree of the database holds the records, and
-- the tree "weights" the trust weights; either is absent where it cannot be opened.
pub mod Loading
pub mod Refinement
pub mod Registry
pub mod Newest
pub mod Restart
pub mod Validity
pub mod Versions
use p2s.Prelude.{
  ℕ, not, ◌&&◌, Option, none, some, List, [], ◌∷◌, map, leb, ◌==◌, if◌then◌else◌, nat_eq, list_beq,
  list_eq, length, Result, ok, err, ◌>>=◌, ◌>>◌, map_err, reject_if, HashMap, lookup, insert, erase,
  contains_key, Bytes,
}
use p2s.Proto.{SignedCard, canonical_decode}
use p2s.Platform.{Platform}
use p2s.Float.{Float}
use p2s.Card.{compute_address, verify_card, verify_address}
use p2s.Node.Sled.{Sled, Database}

abbrev pub RecordKey : Type 0
RecordKey = Bytes

-- `libp2p::kad::Record`
pub record KadRecord : Type 0 where
  pub key : RecordKey
  pub value : Bytes
  pub publisher : Option Bytes
  pub expires : Option ℕ

-- The record that is made of an entry on disk.
abbrev pub disk_record : Bytes → Bytes → KadRecord
disk_record key value = record { key = key; value = value; publisher = none; expires = none }

-- The variants of `KadStoreError` that the store returns.
pub data KadStoreError : Type 0 where
  max_records_reached value_too_large : KadStoreError

module _ (p : Platform) (fl : Float) (sled : Sled) where
  pub record CardRecordStore : Type 0 where
    pub records : HashMap RecordKey KadRecord
    pub seq_cache : HashMap RecordKey ℕ
    pub weight_cache : HashMap RecordKey fl.F64
    pub max_records : ℕ
    pub db : Option (Database sled)

  unfoldable pub new_store : ℕ → CardRecordStore
  new_store max_records = record {
    records = [];
    seq_cache = [];
    weight_cache = [];
    max_records = max_records;
    db = none;
  }

  -- Every failure is reported as `ValueTooLarge`.
  unfoldable pub validate_and_extract_seq : KadRecord → Result KadStoreError ℕ
  validate_and_extract_seq r = do
    signed_card ←
        map_err (λ _. value_too_large) (canonical_decode ⦃c = p.signed_card_codec⦄ r.value)
    map_err (λ _. value_too_large) (verify_card p signed_card)
    let expected_address = compute_address p signed_card.card.pubkey
    map_err (λ _. value_too_large) (verify_address p signed_card expected_address)
    reject_if (not (list_beq r.key expected_address)) value_too_large
    ok signed_card.card.seq

  pub insert_weight : Database sled → RecordKey → fl.F64 → Database sled
  insert_weight db key weight = elim db.weights [
    | none ↦ db
    | some tree ↦ record db { weights = some (sled.tree_insert tree key (fl.to_le_bytes weight)).0 }
  ]

  pub set_trust_weight : CardRecordStore → RecordKey → fl.F64 → CardRecordStore
  set_trust_weight s key weight = record s {
    weight_cache = insert key weight s.weight_cache;
    db = elim s.db [ none ↦ none | some db ↦ some (insert_weight db key weight) ];
  }

  pub get_trust_weight : CardRecordStore → RecordKey → Option fl.F64
  get_trust_weight s key = lookup key s.weight_cache

  pub persist : Option (Database sled) → KadRecord → Option (Database sled)
  persist none r = none
  persist (some db) r = some (record db { cards = (sled.tree_insert db.cards r.key r.value).0 })

  unpersist : Option (Database sled) → RecordKey → Option (Database sled)
  unpersist none key = none
  unpersist (some db) key = some (record db { cards = (sled.tree_remove db.cards key).0 })

  unfoldable pub get : CardRecordStore → RecordKey → Option KadRecord
  get s key = lookup key s.records

  -- The end of `put`: the record replaces what is there.
  unfoldable pub write : CardRecordStore → KadRecord → ℕ → CardRecordStore
  write s r seq = record s {
    seq_cache = insert r.key seq s.seq_cache;
    db = persist s.db r;
    records = insert r.key r s.records;
  }

  -- `if let Some(&existing_seq) = …`: a sequence number that is not higher changes nothing.
  unfoldable pub supersede : CardRecordStore → KadRecord → ℕ → Option ℕ → CardRecordStore
  supersede s r seq none = write s r seq
  supersede s r seq (some existing) = if leb seq existing then s else write s r seq

  unfoldable pub put :
      CardRecordStore → KadRecord → CardRecordStore × Result KadStoreError (Unit {0})
  unfolding supersede
  put s r =
      if leb s.max_records (length s.records) && not (contains_key r.key s.records)
      then (s, err max_records_reached)
      else elim (validate_and_extract_seq r) [
        | err e ↦ (s, err e)
        | ok seq ↦ (supersede s r seq (lookup r.key s.seq_cache), ok tt)
      ]

  pub remove : CardRecordStore → RecordKey → CardRecordStore
  remove s key = record s {
    records = erase key s.records;
    seq_cache = erase key s.seq_cache;
    db = unpersist s.db key;
  }

  -- `records()`
  pub all_records : CardRecordStore → List KadRecord
  all_records s = map (λ e. e.1) s.records

  -- Of provider records the store keeps none.
  abbrev pub add_provider :
      (Provider : Type 0)
      → CardRecordStore
      → Provider
      → CardRecordStore × Result KadStoreError (Unit {0})
  add_provider Provider s provider = (s, ok tt)

  abbrev pub providers : (Provider : Type 0) → CardRecordStore → RecordKey → List Provider
  providers Provider s key = []

  abbrev pub provided : (Provider : Type 0) → CardRecordStore → List Provider
  provided Provider s = []

  abbrev pub remove_provider :
      (PeerId : Type 0) → CardRecordStore → RecordKey → PeerId → CardRecordStore
  remove_provider PeerId s key provider = s

  -- One entry of the default tree; an unreadable or invalid one is passed over.
  unfoldable pub load_entry : CardRecordStore → Option (Bytes × Bytes) → CardRecordStore
  load_entry s none = s
  load_entry s (some (key, value)) = elim (validate_and_extract_seq (disk_record key value)) [
    | err _ ↦ s
    | ok seq ↦ record s {
      seq_cache = insert key seq s.seq_cache;
      records = insert key (disk_record key value) s.records;
    }
  ]

  unfoldable pub load_entries : CardRecordStore → List (Option (Bytes × Bytes)) → CardRecordStore
  load_entries s [] = s
  load_entries s (entry ∷ entries) = load_entries (load_entry s entry) entries

  -- One entry of the tree "weights": eight bytes are a weight.
  pub load_weight : CardRecordStore → Option (Bytes × Bytes) → CardRecordStore
  load_weight s none = s
  load_weight s (some (key, bytes)) =
      if length bytes == 8
      then record s { weight_cache = insert key (fl.from_le_bytes bytes) s.weight_cache }
      else s

  unfoldable pub load_weights : CardRecordStore → List (Option (Bytes × Bytes)) → CardRecordStore
  load_weights s [] = s
  load_weights s (entry ∷ entries) = load_weights (load_weight s entry) entries

  unfoldable pub load_weight_tree : CardRecordStore → Option sled.Tree → CardRecordStore
  load_weight_tree s none = s
  load_weight_tree s (some tree) = load_weights s (sled.iter tree)

  unfoldable pub load_from_disk : CardRecordStore → Option (Database sled) → CardRecordStore
  load_from_disk s none = s
  load_from_disk s (some db) = load_weight_tree (load_entries s (sled.iter db.cards)) db.weights

  -- The database is what `sled::open` gave.
  unfoldable pub with_persistence : ℕ → Option (Database sled) → CardRecordStore
  with_persistence max_records db = load_from_disk (record (new_store max_records) { db = db }) db
