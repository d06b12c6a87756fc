-- ===== src/Node/Sled.antt =====
-- The embedded database sled as the node uses it: trees of byte keys and values. A write may fail,
-- and comes with the tree that it leaves.
use p2s.Prelude.{
  ◌≡◌, Bool, Option, none, some, List, map, if◌then◌else◌, nat_eq, list_beq, list_eq, Result,
  HashMap, lookup, Text, Bytes, HasDistinctKeys,
}

pub record Sled : Type 1 where
  pub Tree : Type 0
  pub tree_insert : Tree → Bytes → Bytes → Tree × Result Text (Unit {0})
  -- Whether there was an entry.
  pub tree_remove : Tree → Bytes → Tree × Result Text Bool
  -- `iter()`: an entry that cannot be read is `none`.
  pub iter : Tree → List (Option (Bytes × Bytes))

-- The database of the record store: its default tree, and the tree "weights" if it opens.
pub record Database (sled : Sled) : Type 0 where
  pub cards : sled.Tree
  pub weights : Option sled.Tree

-- Trees that behave as maps: no write fails, every entry can be read, and a tree lists each of its
-- keys once.
pub record IsMap (sled : Sled) : Type 0 where
  pub entries : sled.Tree → HashMap Bytes Bytes
  pub iter_lem : (t : sled.Tree) → sled.iter t ≡ map some (entries t)
  pub distinct : (t : sled.Tree) → HasDistinctKeys (entries t)
  pub lookup_inserted :
      (t : sled.Tree) (k v j : Bytes)
      → lookup j (entries (sled.tree_insert t k v).0)
        ≡ (if list_beq k j then some v else lookup j (entries t))
  pub lookup_removed :
      (t : sled.Tree) (k j : Bytes)
      → lookup j (entries (sled.tree_remove t k).0)
        ≡ (if list_beq k j then none else lookup j (entries t))
