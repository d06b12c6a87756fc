-- ===== src/Examples/Restarts.antt =====
-- Witnesses of the theorems on the record store over a run and over a restart.
use p2s.Prelude.{
  ℕ, ◌≡◌, refl, inl, inr, Option, none, some, List, [], ◌∷◌, map, arith, ltb, if◌then◌else◌,
  Bool-cases, nat_eq, list_eq, length, all, ok, HashMap, lookup, insert, erase, contains_key,
  lookup-insert, lookup-erase, Text, Bytes, codes, HasDistinctKeys, insert-HasDistinctKeys,
  erase-HasDistinctKeys,
}
use p2s.Node.Sled.{Sled, IsMap}
use p2s.Node.RecordStore.{
  with_persistence, load_from_disk, load_entries, load_entry, load_weight_tree, load_weights,
  new_store, validate_and_extract_seq,
}
use p2s.Proto.{canonical_decode}
use p2s.Card.{verify_card, verify_address, compute_address}
use p2s.Node.RecordStore.Validity.{Call, puts, removes, weighs, run}
use p2s.Node.RecordStore.Versions.{Store}
use p2s.Node.RecordStore.Registry.{view, replay}
use p2s.Node.RecordStore.Refinement.{run-with_persistence_refines}
use p2s.Node.RecordStore.Restart.{SameContents, restart_same}
use p2s.Node.TrustWeight.{get, with_persistence as reload}
use p2s.Node.TrustWeight.Reloaded.{IsUtf8Reader, utf8-ascii, set_all, get-with_persistence}
use p2s.Examples.Toy.{toy_platform, toy_float, signed_card_coding}
use p2s.Examples.Data.{toy_card, toy_address, toy_disk_record}

-- Trees of entries with distinct keys.
abbrev KeyedTree : Type 0
KeyedTree = (m : HashMap Bytes Bytes) × HasDistinctKeys m

abbrev pub keyed_sled : Sled
keyed_sled = record {
  Tree = KeyedTree;
  tree_insert = λ t k v. ((insert k v t.0, insert-HasDistinctKeys k v t.0 t.1), ok tt);
  tree_remove = λ t k. ((erase k t.0, erase-HasDistinctKeys k t.0 t.1), ok (contains_key k t.0));
  iter = λ t. map some t.0;
}

abbrev pub keyed_sled_map : IsMap keyed_sled
keyed_sled_map = record {
  entries = λ t. t.0;
  iter_lem = λ t. refl;
  distinct = λ t. t.1;
  lookup_inserted = λ t k v j. lookup-insert k j v t.0;
  lookup_removed = λ t k j. lookup-erase k j t.0;
}

abbrev some_calls : List (Call toy_platform toy_float keyed_sled)
some_calls =
    puts (toy_disk_record 2)
    ∷ puts (toy_disk_record 1)
    ∷ removes (7 ∷ [])
    ∷ weighs toy_address (some 512)
    ∷ []

abbrev first_version : HashMap Bytes Bytes
first_version = (toy_address, signed_card_coding.write (toy_card 1) []) ∷ []

first_version-HasDistinctKeys : HasDistinctKeys first_version
unfolding lookup
first_version-HasDistinctKeys = (refl, tt)

abbrev disk : KeyedTree
disk = (first_version, first_version-HasDistinctKeys)

abbrev no_weights : KeyedTree
no_weights = ([], tt)

abbrev at_start : Store toy_platform toy_float keyed_sled
at_start =
    with_persistence toy_platform toy_float keyed_sled 10
      (some (record { cards = disk; weights = some no_weights }))

at_start_length : length at_start.records ≡ 1
unfolding with_persistence load_from_disk load_entries load_entry load_weight_tree load_weights
    new_store insert lookup validate_and_extract_seq canonical_decode verify_card verify_address
    compute_address
at_start_length = refl

run-with_persistence_refines_example :
    lookup toy_address (run toy_platform toy_float keyed_sled at_start some_calls).records
    ≡ replay toy_platform toy_float keyed_sled
        (view toy_platform toy_float keyed_sled at_start)
        some_calls
        toy_address
run-with_persistence_refines_example =
    run-with_persistence_refines toy_platform toy_float keyed_sled 10
      (some (record { cards = disk; weights = some no_weights })) some_calls toy_address
      (omega (arith, at_start_length))

restart_same_example :
    SameContents toy_platform toy_float keyed_sled keyed_sled_map
      (run toy_platform toy_float keyed_sled at_start some_calls)
      (with_persistence toy_platform toy_float keyed_sled 3
        (run toy_platform toy_float keyed_sled at_start some_calls).db)
restart_same_example =
    restart_same toy_platform toy_float keyed_sled keyed_sled_map 10 3 disk no_weights some_calls

-- A reader of ASCII alone.
abbrev ascii_reader : Bytes → Option Text
ascii_reader k = if all (λ c. ltb c 0x80) k then some k else none

ascii_reader-IsUtf8Reader : IsUtf8Reader ascii_reader
ascii_reader-IsUtf8Reader = record {
  reads_ascii = λ t h. rw h refl;
  reads_own = λ k t e. elim (Bool-cases (all (λ c. ltb c 0x80) k)) [
    | inl h ↦ ground (arith, h, e, utf8-ascii k h)
    | inr h ↦ absurd (ground (arith, h, e))
  ];
}

abbrev weighings : List (Text × Option ℕ)
weighings = (codes "aa", some 512) ∷ (codes "bb", some 0) ∷ (codes "aa", some 256) ∷ []

get-with_persistence_example :
    let s =
      set_all toy_float keyed_sled ascii_reader ascii_reader-IsUtf8Reader keyed_sled_map weighings
        (reload toy_float keyed_sled ascii_reader (some ([], tt))) in
    get toy_float keyed_sled (reload toy_float keyed_sled ascii_reader s.tree) (codes "aa")
    ≡ get toy_float keyed_sled s (codes "aa")
get-with_persistence_example =
    get-with_persistence toy_float keyed_sled ascii_reader ascii_reader-IsUtf8Reader keyed_sled_map
      ([], tt) weighings (codes "aa") (refl, (refl, (refl, tt))) refl
