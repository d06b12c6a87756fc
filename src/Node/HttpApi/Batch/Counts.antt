-- ===== src/Node/HttpApi/Batch/Counts.antt =====
-- The answer of a batch.
use p2s.Prelude.{
  ℕ, ◌+◌, ◌^◌, ◌<◌, ◌≡◌, refl, Option, none, some, List, [], ◌∷◌, ◌++◌, arith, nat_eq, list_eq,
  length, length-append, Text,
}
use p2s.Platform.{Platform}
use p2s.Net.{Net}
use p2s.Float.{Float}
use p2s.Verifier.Manifest.{ManifestReader}
use p2s.Node.Sled.{Sled}
use p2s.Node.Request.{HexReader}
use p2s.Node.HttpApi.Batch.{
  App, BatchAnswer, Round, batch_card, count_card, batch_loop, publish_batch,
}

length-snoc : {A : Type 0} (xs : List A) (x : A) → length (xs ++ x ∷ []) ≡ length xs + 1
length-snoc xs x = omega (arith, length-append xs (x ∷ []))

module _ (p : Platform) (net : Net) (fl : Float) (sled : Sled) (from_slice : ManifestReader)
    (hex_decode : HexReader) where
  abbrev Answer : Type 0
  Answer = BatchAnswer p net fl sled from_slice hex_decode

  -- The counters add up to the number of cards seen, and there is a result for each success.
  abbrev pub AddsUp : Answer → ℕ → Type 0
  AddsUp a n = (a.ok_count + a.fail_count ≡ n) × (length a.results ≡ a.ok_count)

  count_card-AddsUp :
      (o : Option Text) (a : Answer) (n : ℕ)
      → AddsUp a n
      → n + 1 < 2 ^ 64
      → AddsUp (count_card p net fl sled from_slice hex_decode o a) (n + 1)
  unfolding count_card
  count_card-AddsUp none a n h b = ground (arith, h.0, h.1)
  count_card-AddsUp (some address) a n h b = ground (arith, h.0, h.1, length-snoc a.results address)

  batch_loop-AddsUp :
      (rounds : List (Round p net fl sled from_slice hex_decode))
      (app : App p net fl sled from_slice hex_decode) (a : Answer) (n : ℕ)
      → AddsUp a n
      → n + length rounds < 2 ^ 64
      → AddsUp (batch_loop p net fl sled from_slice hex_decode rounds app a).1 (n + length rounds)
  unfolding batch_loop
  batch_loop-AddsUp [] app a n h b = (omega (arith, h.0), h.1)
  batch_loop-AddsUp (round ∷ rounds) app a n h b =
      let (next, result) =
        batch_card p net fl sled from_slice hex_decode round.env round.others round.req app in
      let counted = count_card p net fl sled from_slice hex_decode result a in
      let (sum, shown) =
        batch_loop-AddsUp rounds next counted (n + 1)
          (count_card-AddsUp result a n h (omega (arith, b))) (omega (arith, b)) in
      (omega (arith, sum), shown)

  -- For fewer than 2^64 cards, the counters of successes and failures in the answer add up to the
  -- number of cards, and the answer lists one address for each success.
  pub publish_batch-AddsUp :
      (rounds : List (Round p net fl sled from_slice hex_decode))
      (app : App p net fl sled from_slice hex_decode)
      → length rounds < 2 ^ 64
      → AddsUp (publish_batch p net fl sled from_slice hex_decode rounds app).1 (length rounds)
  unfolding publish_batch
  publish_batch-AddsUp rounds app b =
      let (sum, shown) =
        batch_loop-AddsUp rounds app (record { ok_count = 0; fail_count = 0; results = [] }) 0
          (refl, refl) (omega (arith, b)) in
      (omega (arith, sum), shown)
