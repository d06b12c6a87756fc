-- ===== src/Node/RecordStore/Refinement.antt =====
-- The record store implements the registry, from whatever database it starts (record_store.rs).
use p2s.Prelude.{
  ℕ, ◌+◌, ◌≤◌, ◌≡◌, refl, sym, ap, ◌∙◌, inl, inr, Option, none, some, List, [], ◌∷◌, arith, nat_eq,
  list_eq, length, Result-cases, lookup, lookup-insert, Bytes,
}
use p2s.Platform.{Platform}
use p2s.Float.{Float}
use p2s.Node.Sled.{Sled, Database}
use p2s.Node.RecordStore.{
  RecordKey, CardRecordStore, disk_record, new_store, validate_and_extract_seq, load_entry,
  load_entries, load_from_disk, with_persistence,
}
use p2s.Node.RecordStore.Validity.{Call, run}
use p2s.Node.RecordStore.Loading.{load_weight_tree-SameCards, load_entries-SameRest}
use p2s.Node.RecordStore.Registry.{Agrees, version, seq_of_valid, view, replay, run_refines}

module _ (p : Platform) (fl : Float) (sled : Sled) where
  load_entry-Agrees :
      (s : CardRecordStore p fl sled) (o : Option (Bytes × Bytes))
      → Agrees p fl sled s
      → Agrees p fl sled (load_entry p fl sled s o)
  unfolding load_entry
  load_entry-Agrees s none a k = a k
  load_entry-Agrees s (some (key, value)) a k =
      let r = disk_record key value in
      elim (Result-cases (validate_and_extract_seq p fl sled r)) [
        | inr (x, f) ↦ rw (f, load_entry) (a k)
        | inl (seq, f) ↦
            rw (f, load_entry)
              (ground (
                arith,
                seq_of_valid p fl sled r seq f,
                a k,
                lookup-insert key k seq s.seq_cache,
                lookup-insert key k r s.records,
              ))
      ]

  load_entries-Agrees :
      (s : CardRecordStore p fl sled) (l : List (Option (Bytes × Bytes)))
      → Agrees p fl sled s
      → Agrees p fl sled (load_entries p fl sled s l)
  unfolding load_entries
  load_entries-Agrees s [] a = a
  load_entries-Agrees s (o ∷ l) a =
      load_entries-Agrees (load_entry p fl sled s o) l (load_entry-Agrees s o a)

  pub load_from_disk-Agrees :
      (s : CardRecordStore p fl sled) (db : Option (Database sled))
      → Agrees p fl sled s
      → Agrees p fl sled (load_from_disk p fl sled s db)
        × ((load_from_disk p fl sled s db).max_records ≡ s.max_records)
  unfolding load_from_disk
  load_from_disk-Agrees s none a = (a, refl)
  load_from_disk-Agrees s (some db) a =
      let t = load_entries p fl sled s (sled.iter db.cards) in
      let (recs, seqs, limit, _) = load_weight_tree-SameCards p fl sled t db.weights in
      (
        λ k.
            ap (lookup k) seqs
            ∙ load_entries-Agrees s (sled.iter db.cards) a k
            ∙ ap (λ m. version p fl sled (lookup k m)) (sym recs),
        limit ∙ (load_entries-SameRest p fl sled s (sled.iter db.cards)).0,
      )

  -- As long as the calls are no more than the room that is left: after any puts, removals and weights,
  -- the store that has started from a database holds under every key the record that the registry
  -- holds which starts from the same records, drops every invalid record, replaces a record by a valid
  -- one with a higher sequence number only, and forgets a removed one. The cache of sequence numbers
  -- and the database make no difference.
  pub run-with_persistence_refines :
      (n : ℕ) (db : Option (Database sled)) (cs : List (Call p fl sled)) (k : RecordKey)
      → length (with_persistence p fl sled n db).records + length cs ≤ n
      → lookup k (run p fl sled (with_persistence p fl sled n db) cs).records
        ≡ replay p fl sled (view p fl sled (with_persistence p fl sled n db)) cs k
  unfolding with_persistence new_store lookup
  run-with_persistence_refines n db cs k h =
      let s = record (new_store p fl sled n) { db = db } in
      let (a, limit) = load_from_disk-Agrees s db (λ k. refl) in
      ap (λ f. f k)
        (run_refines p fl sled (with_persistence p fl sled n db) cs a (omega (arith, h, limit)))
