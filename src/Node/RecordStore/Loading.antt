-- ===== src/Node/RecordStore/Loading.antt =====
-- The two loops of `load_from_disk`: what they read, and what they leave as it is (record_store.rs).
use p2s.Prelude.{
  ℕ, ◌≡◌, refl, sym, ap, ◌∙◌, inl, inr, true, Option, none, some, List, [], ◌∷◌, map, ◌==◌,
  if◌then◌else◌, Bool-cases, nat_eq, list_beq, list_beq_iff, list_eq, length, ok, err, Result-cases,
  HashMap, Bytes, read_into, read_all,
}
use p2s.Platform.{Platform}
use p2s.Float.{Float}
use p2s.Node.Sled.{Sled}
use p2s.Node.RecordStore.{
  RecordKey, KadRecord, CardRecordStore, disk_record, validate_and_extract_seq, load_entry,
  load_entries, load_weight, load_weights, load_weight_tree,
}

module _ (p : Platform) (fl : Float) (sled : Sled) where
  abbrev pub SameCards : CardRecordStore p fl sled → CardRecordStore p fl sled → Type 0
  SameCards s t =
      (t.records ≡ s.records)
      × (t.seq_cache ≡ s.seq_cache)
      × (t.max_records ≡ s.max_records)
      × (t.db ≡ s.db)

  load_weight-SameCards :
      (s : CardRecordStore p fl sled) (o : Option (Bytes × Bytes))
      → SameCards s (load_weight p fl sled s o)
  unfolding load_weight
  load_weight-SameCards s none = (refl, refl, refl, refl)
  load_weight-SameCards s (some (key, bytes)) = elim (Bool-cases (length bytes == 8)) [
    | inl e ↦ rw e (refl, refl, refl, refl)
    | inr e ↦ rw e (refl, refl, refl, refl)
  ]

  load_weights-SameCards :
      (s : CardRecordStore p fl sled) (l : List (Option (Bytes × Bytes)))
      → SameCards s (load_weights p fl sled s l)
  unfolding load_weights
  load_weights-SameCards s [] = (refl, refl, refl, refl)
  load_weights-SameCards s (o ∷ l) =
      let (a, b, c, d) = load_weights-SameCards (load_weight p fl sled s o) l in
      let (a', b', c', d') = load_weight-SameCards s o in (a ∙ a', b ∙ b', c ∙ c', d ∙ d')

  pub load_weight_tree-SameCards :
      (s : CardRecordStore p fl sled) (o : Option sled.Tree)
      → SameCards s (load_weight_tree p fl sled s o)
  unfolding load_weight_tree
  load_weight_tree-SameCards s none = (refl, refl, refl, refl)
  load_weight_tree-SameCards s (some tree) = load_weights-SameCards s (sled.iter tree)

  -- The rest of a store: its limit, its database and its weights.
  abbrev pub SameRest : CardRecordStore p fl sled → CardRecordStore p fl sled → Type 0
  SameRest s t = (t.max_records ≡ s.max_records) × (t.db ≡ s.db) × (t.weight_cache ≡ s.weight_cache)

  load_entry-SameRest :
      (s : CardRecordStore p fl sled) (o : Option (Bytes × Bytes))
      → SameRest s (load_entry p fl sled s o)
  unfolding load_entry
  load_entry-SameRest s none = (refl, refl, refl)
  load_entry-SameRest s (some (key, value)) =
      elim (Result-cases (validate_and_extract_seq p fl sled (disk_record key value))) [
        | inr (x, f) ↦ rw (f, load_entry) (refl, refl, refl)
        | inl (seq, f) ↦ rw (f, load_entry) (refl, refl, refl)
      ]

  pub load_entries-SameRest :
      (s : CardRecordStore p fl sled) (l : List (Option (Bytes × Bytes)))
      → SameRest s (load_entries p fl sled s l)
  unfolding load_entries
  load_entries-SameRest s [] = (refl, refl, refl)
  load_entries-SameRest s (o ∷ l) =
      let (a, b, c) = load_entries-SameRest (load_entry p fl sled s o) l in
      let (a', b', c') = load_entry-SameRest s o in (a ∙ a', b ∙ b', c ∙ c')

  abbrev pub card_in : Bytes → Bytes → Option KadRecord
  card_in k v = elim (validate_and_extract_seq p fl sled (disk_record k v)) [
    | err _ ↦ none
    | ok _ ↦ some (disk_record k v)
  ]

  abbrev pub seq_in : Bytes → Bytes → Option ℕ
  seq_in k v = elim (validate_and_extract_seq p fl sled (disk_record k v)) [
    | err _ ↦ none
    | ok seq ↦ some seq
  ]

  abbrev pub weight_in : Bytes → Bytes → Option fl.F64
  weight_in k bytes = if length bytes == 8 then some (fl.from_le_bytes bytes) else none

  load_entry-read :
      (s : CardRecordStore p fl sled) (k v : Bytes)
      → ((load_entry p fl sled s (some (k, v))).records
          ≡ read_into card_in s.records k (card_in k v))
        × ((load_entry p fl sled s (some (k, v))).seq_cache
            ≡ read_into seq_in s.seq_cache k (seq_in k v))
  unfolding load_entry
  load_entry-read s k v =
      elim (Result-cases (validate_and_extract_seq p fl sled (disk_record k v))) [
        | inr (x, f) ↦ rw (f, load_entry, card_in, seq_in) (refl, refl)
        | inl (seq, f) ↦ rw (f, load_entry, card_in, seq_in) (refl, refl)
      ]

  pub load_entries-read :
      (s : CardRecordStore p fl sled) (l : HashMap Bytes Bytes)
      → ((load_entries p fl sled s (map some l)).records ≡ read_all card_in s.records l)
        × ((load_entries p fl sled s (map some l)).seq_cache ≡ read_all seq_in s.seq_cache l)
  unfolding load_entries read_all
  load_entries-read s [] = (refl, refl)
  load_entries-read s ((k, v) ∷ l) =
      let (a, b) = load_entries-read (load_entry p fl sled s (some (k, v))) l in
      let (a', b') = load_entry-read s k v in
      (a ∙ ap (λ m. read_all card_in m l) a', b ∙ ap (λ m. read_all seq_in m l) b')

  load_weight-read :
      (s : CardRecordStore p fl sled) (k v : Bytes)
      → (load_weight p fl sled s (some (k, v))).weight_cache
        ≡ read_into weight_in s.weight_cache k (weight_in k v)
  unfolding load_weight
  load_weight-read s k v = elim (Bool-cases (length v == 8)) [
    | inl e ↦ rw (e, weight_in) refl
    | inr e ↦ rw (e, weight_in) refl
  ]

  pub load_weights-read :
      (s : CardRecordStore p fl sled) (l : HashMap Bytes Bytes)
      → (load_weights p fl sled s (map some l)).weight_cache ≡ read_all weight_in s.weight_cache l
  unfolding load_weights read_all
  load_weights-read s [] = refl
  load_weights-read s ((k, v) ∷ l) =
      load_weights-read (load_weight p fl sled s (some (k, v))) l
      ∙ ap (λ m. read_all weight_in m l) (load_weight-read s k v)

  -- Validation reads the key and the value of a record only.
  pub reads_back :
      (r : KadRecord) (seq : ℕ) (k : RecordKey)
      → validate_and_extract_seq p fl sled r ≡ ok seq
      → list_beq r.key k ≡ true
      → (card_in k r.value ≡ some (disk_record k r.value)) × (seq_in k r.value ≡ some seq)
  unfolding validate_and_extract_seq
  reads_back r seq k v hit =
      let same : r.key ≡ k = (list_beq_iff r.key k).0 hit in
      let w : validate_and_extract_seq p fl sled (disk_record k r.value) ≡ ok seq =
        ap (λ j. validate_and_extract_seq p fl sled (disk_record j r.value)) (sym same) ∙ v in
      (rw (w, card_in) refl, rw (w, seq_in) refl)
