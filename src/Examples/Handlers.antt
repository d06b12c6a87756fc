-- ===== src/Examples/Handlers.antt =====
-- Witnesses of the theorems on batches, fetches, appeals and reviews.
use mathlib.Core.List.{Memᴰ}
use p2s.Prelude.{
  ◌≡◌, refl, ap, ◌↔◌, true, some, List, [], ◌∷◌, map, if◌then◌else◌, nat_eq, list_beq, list_eq,
  lookup, Text, Bytes, codes, utf8,
}
use p2s.Float.{InUnit, clamp}
use p2s.Node.TrustWeight.{TrustWeightStore, new_weights, get}
use p2s.Node.ReviewQueue.{ReviewEntry, EntryCodec, list_pending}
use p2s.Node.ReviewQueue.Pending.{
  Call, submits, resolves, run, open_run, appeal_of, list_pending-run,
}
use p2s.Node.HttpApi.Review.{ReviewState, resolve_review}
use p2s.Node.HttpApi.Review.Resolved.{resolve_review-InUnit}
use p2s.Examples.Coding.{Coding, codec_of, bytes_coding, pair_coding, along}
use p2s.Examples.Restarts.{keyed_sled, keyed_sled_map}
use p2s.Examples.Toy.{toy_float, toy_sled}

abbrev weights : TrustWeightStore toy_float toy_sled
weights = new_weights toy_float toy_sled

-- An entry as bytes: the weight first, in eight bytes and with its length, then the three texts.
abbrev entry_parts : ReviewEntry toy_float → Bytes × (Text × (Text × Text))
entry_parts e =
    (toy_float.to_le_bytes e.current_weight, (e.address, (e.submitted_at, e.publisher_reason)))

abbrev of_entry_parts : Bytes × (Text × (Text × Text)) → ReviewEntry toy_float
of_entry_parts (w, (a, (t, r))) = record {
  address = a;
  submitted_at = t;
  publisher_reason = r;
  current_weight = toy_float.from_le_bytes w;
}

pub entry_parts_back : (e : ReviewEntry toy_float) → of_entry_parts (entry_parts e) ≡ e
entry_parts_back e =
    ap
      (λ w. record {
        address = e.address;
        submitted_at = e.submitted_at;
        publisher_reason = e.publisher_reason;
        current_weight = w;
      })
      (toy_float.from_le_bytes-to_le_bytes e.current_weight)

abbrev entry_coding : Coding (ReviewEntry toy_float)
entry_coding =
    along
      (pair_coding bytes_coding (pair_coding bytes_coding (pair_coding bytes_coding bytes_coding)))
      entry_parts of_entry_parts entry_parts_back

abbrev entry_codec : EntryCodec toy_float
entry_codec = record {
  to_vec = (codec_of entry_coding).into_writer;
  from_slice = (codec_of entry_coding).from_reader;
  read_back = λ e b n h. (e.current_weight, (codec_of entry_coding).read_back e b h);
}

abbrev appeals : List (Call toy_float keyed_sled entry_codec)
appeals =
    submits (codes "1") (codes "aa") (codes "a mistake") (some 512)
    ∷ submits (codes "2") (codes "bb") (codes "a copy") (some 0)
    ∷ submits (codes "3") (codes "aa") (codes "two mistakes") (some 256)
    ∷ resolves (codes "bb")
    ∷ []

abbrev latest : Text × Text × Text
latest = (codes "aa", codes "3", codes "two mistakes")

list_pending-run_example :
    Memᴰ latest (
      map (appeal_of toy_float keyed_sled entry_codec) (
        list_pending toy_float keyed_sled entry_codec
          (run toy_float keyed_sled entry_codec appeals ([], tt))))
    ↔ (lookup (utf8 (codes "aa")) (open_run toy_float keyed_sled entry_codec appeals [])
        ≡ some latest)
list_pending-run_example =
    list_pending-run toy_float keyed_sled entry_codec keyed_sled_map (λ e. (_, refl)) appeals
      ([], tt) latest refl
      (
        record { not_nan = refl; nonneg = refl; le_one = refl },
        (
          record { not_nan = refl; nonneg = refl; le_one = refl },
          (record { not_nan = refl; nonneg = refl; le_one = refl }, tt),
        ),
      )

abbrev reviewing : ReviewState toy_float toy_sled entry_codec
reviewing = record { trust_weights = weights; review_queue = some [] }

resolve_review-InUnit_example :
    let after =
      (resolve_review toy_float toy_sled entry_codec true
        (codes "aa")
        (some (some 5000))
        reviewing).0.trust_weights in
    let clamped = clamp toy_float (some 5000) (some 0) (some 1024) in
    (get toy_float toy_sled after (codes "aa") ≡ (
      if list_beq (codes "aa") (codes "aa")
      then some clamped
      else get toy_float toy_sled weights (codes "aa")))
    × InUnit toy_float clamped
resolve_review-InUnit_example =
    resolve_review-InUnit toy_float toy_sled entry_codec (codes "aa") (codes "aa") (some 5000)
      reviewing [] refl refl
