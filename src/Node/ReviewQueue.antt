-- ===== src/Node/ReviewQueue.antt =====
-- node/src/review_queue.rs: the appeals that wait for a review, in a tree of the database, one for
-- each address. serde_json on an entry and the clock are parameters.
pub mod Pending
use p2s.Prelude.{
  ◌≡◌, Bool, Option, none, some, List, [], ◌∷◌, nat_eq, list_eq, Result, ok, err, Text, Bytes,
  decimal, utf8,
}
use p2s.Float.{Float, InUnit}
use p2s.Node.Sled.{Sled}

pub record ReviewEntry (fl : Float) : Type 0 where
  pub address : Text
  pub submitted_at : Text
  pub publisher_reason : Text
  pub current_weight : fl.F64

-- `serde_json::to_vec` and `from_slice` on an entry, an error as its text. An entry whose weight is a
-- number from 0 to 1 reads back with its three texts and a number for its weight; JSON writes numbers
-- as decimal text, and nothing is said on how exactly it reads back.
pub record EntryCodec (fl : Float) : Type 0 where
  pub to_vec : ReviewEntry fl → Result Text Bytes
  pub from_slice : Bytes → Result Text (ReviewEntry fl)
  pub read_back :
      (e : ReviewEntry fl) (b : Bytes)
      → InUnit fl e.current_weight
      → to_vec e ≡ ok b
      → (w : fl.F64) × (from_slice b ≡ ok (record e { current_weight = w }))

module _ (fl : Float) (sled : Sled) (codec : EntryCodec fl) where
  -- The queue is its tree; the time of submission is `now` as RFC 3339 text.
  pub submit : sled.Tree → (now address reason : Text) → fl.F64 → sled.Tree × Result Text (Unit {0})
  submit tree now address reason current_weight =
      elim (codec.to_vec (record {
        address = address;
        submitted_at = now;
        publisher_reason = reason;
        current_weight = current_weight;
      })) [ err e ↦ (tree, err e) | ok value ↦ sled.tree_insert tree (utf8 address) value ]

  -- `entry.ok()?` and `from_slice(&value).ok()`, over the entries
  pub readable : List (Option (Bytes × Bytes)) → List (ReviewEntry fl)
  readable [] = []
  readable (none ∷ entries) = readable entries
  readable (some (key, value) ∷ entries) = elim (codec.from_slice value) [
    | ok e ↦ e ∷ readable entries
    | err x ↦ readable entries
  ]

  pub list_pending : sled.Tree → List (ReviewEntry fl)
  unfolding readable
  list_pending tree = readable (sled.iter tree)

  pub resolve : sled.Tree → Text → sled.Tree × Result Text Bool
  resolve tree address = sled.tree_remove tree (utf8 address)
