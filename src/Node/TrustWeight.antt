-- ===== src/Node/TrustWeight.antt =====
-- node/src/trust_weight.rs: the weights that the node gives to addresses, kept in memory and in a
-- tree of the database if it opens. `std::str::from_utf8` is a parameter.
pub mod Known
pub mod Reloaded
use p2s.Prelude.{
  Option, none, some, List, [], ◌∷◌, ◌==◌, if◌then◌else◌, nat_eq, list_eq, length, HashMap, lookup,
  insert, Text, Bytes, utf8,
}
use p2s.Float.{Float}
use p2s.Node.Sled.{Sled}

module _ (fl : Float) (sled : Sled) where
  pub record TrustWeightStore : Type 0 where
    pub weights : HashMap Text fl.F64
    pub tree : Option sled.Tree

  pub new_weights : TrustWeightStore
  new_weights = record { weights = []; tree = none }

  insert_weight : Option sled.Tree → Text → fl.F64 → Option sled.Tree
  insert_weight none address weight = none
  insert_weight (some tree) address weight =
      some (sled.tree_insert tree (utf8 address) (fl.to_le_bytes weight)).0

  pub set : TrustWeightStore → Text → fl.F64 → TrustWeightStore
  unfolding insert_weight
  set s address weight = record {
    weights = insert address weight s.weights;
    tree = insert_weight s.tree address weight;
  }

  pub get : TrustWeightStore → Text → Option fl.F64
  get s address = lookup address s.weights

  module _ (from_utf8 : Bytes → Option Text) where
    -- One entry of the tree; an unreadable one is passed over.
    load_entry : HashMap Text fl.F64 → Option (Bytes × Bytes) → HashMap Text fl.F64
    load_entry weights none = weights
    load_entry weights (some (key_bytes, weight_bytes)) =
        if length weight_bytes == 8
        then (elim (from_utf8 key_bytes) [
          | none ↦ weights
          | some key ↦ insert key (fl.from_le_bytes weight_bytes) weights
        ])
        else weights

    load_entries : HashMap Text fl.F64 → List (Option (Bytes × Bytes)) → HashMap Text fl.F64
    unfolding load_entry
    load_entries weights [] = weights
    load_entries weights (entry ∷ entries) = load_entries (load_entry weights entry) entries

    load_from_disk : Option sled.Tree → HashMap Text fl.F64
    unfolding load_entries
    load_from_disk none = []
    load_from_disk (some tree) = load_entries [] (sled.iter tree)

    -- The tree is what `open_tree` gave.
    pub with_persistence : Option sled.Tree → TrustWeightStore
    unfolding load_from_disk
    with_persistence tree = record { weights = load_from_disk tree; tree = tree }
