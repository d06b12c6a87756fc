-- ===== src/Node/RecordStore/Restart.antt =====
-- What a restart of the node gives back (record_store.rs, `load_from_disk` and `persist`).
use p2s.Prelude.{
  ℕ, ◌≡◌, refl, sym, ap, ◌∙◌, inl, inr, Option, none, some, List, [], ◌∷◌, arith, Bool-cases,
  nat_eq, list_beq, list_eq, ok, lookup, lookup-insert, lookup-erase, Bytes, read_all, value_read,
  lookup-read_all,
}
use mathlib.Core.Path.{subst}
use p2s.Platform.{Platform}
use p2s.Float.{Float}
use p2s.Node.Sled.{Sled, Database, IsMap}
use p2s.Node.RecordStore.{
  RecordKey, KadRecord, CardRecordStore, new_store, validate_and_extract_seq, insert_weight,
  persist, unpersist, set_trust_weight, write, put, remove, load_entries, load_weights,
  load_weight_tree, load_from_disk, with_persistence,
}
use p2s.Node.RecordStore.Validity.{Call, puts, removes, weighs, step, run}
use p2s.Node.RecordStore.Versions.{put-PutOutcome, refused, stale, stored}
use p2s.Node.RecordStore.Loading.{
  load_weight_tree-SameCards, load_entries-SameRest, card_in, seq_in, weight_in, load_entries-read,
  load_weights-read, reads_back,
}

module _ (p : Platform) (fl : Float) (sled : Sled) where
  abbrev value_of : Option KadRecord → Option Bytes
  value_of none = none
  value_of (some r) = some r.value

  module _ (m : IsMap sled) where
    abbrev pub opened : sled.Tree → sled.Tree → Database sled
    opened cards weights = record { cards = cards; weights = some weights }

    -- The store holds what the two trees of its database say.
    pub record SyncedWith (s : CardRecordStore p fl sled) (cards weights : sled.Tree) : Type 0 where
      pub database : s.db ≡ some (opened cards weights)
      pub values :
          (k : RecordKey)
          → value_of (lookup k s.records)
            ≡ value_of (value_read (card_in p fl sled) k (lookup k (m.entries cards)) none)
      pub seqs :
          (k : RecordKey)
          → lookup k s.seq_cache ≡ value_read (seq_in p fl sled) k (lookup k (m.entries cards)) none
      pub weighed :
          (k : RecordKey)
          → lookup k s.weight_cache
            ≡ value_read (weight_in p fl sled) k (lookup k (m.entries weights)) none

    with_persistence-SyncedWith :
        (n : ℕ) (cards weights : sled.Tree)
        → SyncedWith (with_persistence p fl sled n (some (opened cards weights))) cards weights
    unfolding with_persistence load_from_disk load_weight_tree new_store lookup
    with_persistence-SyncedWith n cards weights =
        let db = opened cards weights in
        let s0 = record (new_store p fl sled n) { db = some db } in
        let s1 = load_entries p fl sled s0 (sled.iter cards) in
        let (a, b, c, d) = load_weight_tree-SameCards p fl sled s1 (some weights) in
        let (_, d', w) = load_entries-SameRest p fl sled s0 (sled.iter cards) in
        let (e, f) = load_entries-read p fl sled s0 (m.entries cards) in
        let l = m.iter_lem cards in
        let recs = a ∙ ap (λ x. (load_entries p fl sled s0 x).records) l ∙ e in
        let seqs = b ∙ ap (λ x. (load_entries p fl sled s0 x).seq_cache) l ∙ f in
        let weighs =
          ap (λ x. (load_weights p fl sled s1 x).weight_cache) (m.iter_lem weights)
          ∙ load_weights-read p fl sled s1 (m.entries weights)
          ∙ ap (λ c. read_all (weight_in p fl sled) c (m.entries weights)) w in
        let once = m.distinct cards in
        record {
          database = d ∙ d';
          values = λ k. ap value_of (
              ap (lookup k) recs ∙ lookup-read_all (card_in p fl sled) [] (m.entries cards) k once);
          seqs = λ k.
              ap (lookup k) seqs ∙ lookup-read_all (seq_in p fl sled) [] (m.entries cards) k once;
          weighed = λ k.
              ap (lookup k) weighs
              ∙ lookup-read_all (weight_in p fl sled) [] (m.entries weights) k (m.distinct weights);
        }

    write-SyncedWith :
        (s : CardRecordStore p fl sled) (r : KadRecord) (seq : ℕ) (cards weights : sled.Tree)
        → validate_and_extract_seq p fl sled r ≡ ok seq
        → SyncedWith s cards weights
        → SyncedWith (write p fl sled s r seq) (sled.tree_insert cards r.key r.value).0 weights
    unfolding write persist
    write-SyncedWith s r seq cards weights v y = record {
      database = ap (λ o. persist p fl sled o r) y.database;
      values = λ k. elim (Bool-cases (list_beq r.key k)) [
        | inl hit ↦ ground (
          arith,
          (reads_back p fl sled r seq k v hit).0,
          lookup-insert r.key k r s.records,
          m.lookup_inserted cards r.key r.value k,
        )
        | inr miss ↦ ground (
          arith,
          y.values k,
          lookup-insert r.key k r s.records,
          m.lookup_inserted cards r.key r.value k,
        )
      ];
      seqs = λ k. elim (Bool-cases (list_beq r.key k)) [
        | inl hit ↦ ground (
          arith,
          (reads_back p fl sled r seq k v hit).1,
          lookup-insert r.key k seq s.seq_cache,
          m.lookup_inserted cards r.key r.value k,
        )
        | inr miss ↦ ground (
          arith,
          y.seqs k,
          lookup-insert r.key k seq s.seq_cache,
          m.lookup_inserted cards r.key r.value k,
        )
      ];
      weighed = y.weighed;
    }

    remove-SyncedWith :
        (s : CardRecordStore p fl sled) (key : RecordKey) (cards weights : sled.Tree)
        → SyncedWith s cards weights
        → SyncedWith (remove p fl sled s key) (sled.tree_remove cards key).0 weights
    unfolding remove unpersist
    remove-SyncedWith s key cards weights y = record {
      database = ap (λ o. unpersist p fl sled o key) y.database;
      values = λ k.
          ground (arith, y.values k, lookup-erase key k s.records, m.lookup_removed cards key k);
      seqs = λ k.
          ground (arith, y.seqs k, lookup-erase key k s.seq_cache, m.lookup_removed cards key k);
      weighed = y.weighed;
    }

    set_trust_weight-SyncedWith :
        (s : CardRecordStore p fl sled) (key : RecordKey) (w : fl.F64) (cards weights : sled.Tree)
        → SyncedWith s cards weights
        → SyncedWith
            (set_trust_weight p fl sled s key w)
            cards
            (sled.tree_insert weights key (fl.to_le_bytes w)).0
    unfolding set_trust_weight insert_weight
    set_trust_weight-SyncedWith s key w cards weights y = record {
      database = rw y.database refl;
      values = y.values;
      seqs = y.seqs;
      weighed = λ k. ground (
        arith,
        y.weighed k,
        lookup-insert key k w s.weight_cache,
        m.lookup_inserted weights key (fl.to_le_bytes w) k,
        fl.length-to_le_bytes w,
        fl.from_le_bytes-to_le_bytes w,
      );
    }

    put-SyncedWith :
        (s : CardRecordStore p fl sled) (r : KadRecord) (cards weights : sled.Tree)
        → SyncedWith s cards weights
        → (cards' weights' : sled.Tree) × SyncedWith (put p fl sled s r).0 cards' weights'
    put-SyncedWith s r cards weights y = elim (put-PutOutcome p fl sled s r) [
      | refused e q ↦ (cards, weights, rw q y)
      | stale seq existing v c le q ↦ (cards, weights, rw q y)
      | stored seq v room new q ↦ (
        (sled.tree_insert cards r.key r.value).0,
        weights,
        rw q (write-SyncedWith s r seq cards weights v y),
      )
    ]

    step-SyncedWith :
        (s : CardRecordStore p fl sled) (c : Call p fl sled) (cards weights : sled.Tree)
        → SyncedWith s cards weights
        → (cards' weights' : sled.Tree) × SyncedWith (step p fl sled s c) cards' weights'
    unfolding step
    step-SyncedWith s (puts r) cards weights y = put-SyncedWith s r cards weights y
    step-SyncedWith s (removes key) cards weights y =
        ((sled.tree_remove cards key).0, weights, remove-SyncedWith s key cards weights y)
    step-SyncedWith s (weighs key w) cards weights y = (
      cards,
      (sled.tree_insert weights key (fl.to_le_bytes w)).0,
      set_trust_weight-SyncedWith s key w cards weights y,
    )

    run-SyncedWith :
        (s : CardRecordStore p fl sled) (cs : List (Call p fl sled)) (cards weights : sled.Tree)
        → SyncedWith s cards weights
        → (cards' weights' : sled.Tree) × SyncedWith (run p fl sled s cs) cards' weights'
    unfolding run
    run-SyncedWith s [] cards weights y = (cards, weights, y)
    run-SyncedWith s (c ∷ cs) cards weights y =
        let (cards', weights', z) = step-SyncedWith s c cards weights y in
        run-SyncedWith (step p fl sled s c) cs cards' weights' z

    -- A store gives back under every key the bytes of the other one's card, its sequence number and
    -- its trust weight.
    pub record SameContents (s t : CardRecordStore p fl sled) : Type 0 where
      pub values : (k : RecordKey) → value_of (lookup k t.records) ≡ value_of (lookup k s.records)
      pub seqs : (k : RecordKey) → lookup k t.seq_cache ≡ lookup k s.seq_cache
      pub weighed : (k : RecordKey) → lookup k t.weight_cache ≡ lookup k s.weight_cache

    SyncedWith-SameContents :
        (s t : CardRecordStore p fl sled) (cards weights : sled.Tree)
        → SyncedWith s cards weights
        → SyncedWith t cards weights
        → SameContents s t
    SyncedWith-SameContents s t cards weights y z = record {
      values = λ k. z.values k ∙ sym (y.values k);
      seqs = λ k. z.seqs k ∙ sym (y.seqs k);
      weighed = λ k. z.weighed k ∙ sym (y.weighed k);
    }

    -- If the database behaves as a map and both of its trees open: a node that has started from it, run
    -- for any puts, removals and weights, and starts again from what it has written, with whatever
    -- limit, has the same card, the same sequence number and the same trust weight under every key.
    pub restart_same :
        (n n' : ℕ) (cards weights : sled.Tree) (cs : List (Call p fl sled))
        → let s = run p fl sled (with_persistence p fl sled n (some (opened cards weights))) cs in
          SameContents s (with_persistence p fl sled n' s.db)
    restart_same n n' cards weights cs =
        let s = run p fl sled (with_persistence p fl sled n (some (opened cards weights))) cs in
        let (cards', weights', y) =
          run-SyncedWith _ cs cards weights (with_persistence-SyncedWith n cards weights) in
        SyncedWith-SameContents s (with_persistence p fl sled n' s.db) cards' weights' y (
          subst (λ db. SyncedWith (with_persistence p fl sled n' db) cards' weights')
            (sym y.database) (with_persistence-SyncedWith n' cards' weights'))
