-- ===== src/Node/HttpApi/Batch.antt =====
-- node/src/http_api.rs, `publish_batch`: a list of cards, one after the other. Unlike `publish_card`,
-- it asks neither the limiter nor the checks of stage 1.
pub mod Counts
use p2s.Prelude.{
  ℕ, ◌+◌, ◌%◌, ◌^◌, Option, none, some, List, [], ◌∷◌, ◌++◌, if◌then◌else◌, nat_eq, list_eq, ok,
  err, ◌>>=◌, ◌>>◌, Text,
}
use p2s.Proto.{SignedCard, canonical_encode}
use p2s.Platform.{Platform}
use p2s.Net.{Net}
use p2s.Float.{Float}
use p2s.Card.{compute_address, verify_card}
use p2s.Publisher.{hex_encode}
use p2s.Verifier.Manifest.{ManifestReader}
use p2s.Node.Sled.{Sled}
use p2s.Node.RateLimit.{record_publish}
use p2s.Node.Metrics.{
  Metrics, inc_put_total, inc_put_success, inc_put_rejected, inc_http_requests, inc_sig_ok,
  inc_sig_fail, record_put_latency,
}
use p2s.Node.EventLoop.{QueryResult, put_ok, found, not_found, error}
use p2s.Node.Request.{Env, PublishCardRequest, HexReader, decode_card}
use p2s.Node.HttpApi.{AppState}

module _ (p : Platform) (net : Net) (fl : Float) (sled : Sled) (from_slice : ManifestReader)
    (hex_decode : HexReader) where
  abbrev pub App : Type 0
  App = AppState p net fl sled from_slice hex_decode

  abbrev counting : (Metrics → Metrics) → App → App
  counting f app = record app { metrics = f app.metrics }

  -- A card for which the event loop has been asked: the reply, and the address if it was put.
  pub batch_reply : Env → SignedCard → Option QueryResult → App → App × Option Text
  batch_reply env c (some put_ok) app = (
    record app {
      metrics = inc_put_success app.metrics;
      rate_limiter =
          if env.limiter_locks_after
          then record_publish app.rate_limiter c.card.domain env.published_at
          else app.rate_limiter;
    },
    some (hex_encode (compute_address p c.card.pubkey)),
  )
  batch_reply env c (some (error e)) app = (counting inc_put_rejected app, none)
  batch_reply env c (some (found v)) app = (counting inc_put_rejected app, none)
  batch_reply env c (some not_found) app = (counting inc_put_rejected app, none)
  batch_reply env c none app = (counting inc_put_rejected app, none)

  -- A card whose signature is right: encoded and sent.
  pub batch_send : Env → (App → App) → SignedCard → App → App × Option Text
  unfolding batch_reply
  batch_send env others c app = elim (canonical_encode ⦃c = p.signed_card_codec⦄ c) [
    | err e ↦ (app, none)
    | ok value ↦
        if env.is_sent
        then (let (replied, result) = batch_reply env c env.reply (others app) in
            (counting (record_put_latency env.elapsed_us) replied, result))
        else (app, none)
  ]

  -- One round of the loop: the address of a card that was put.
  pub batch_card : Env → (App → App) → PublishCardRequest → App → App × Option Text
  unfolding batch_send
  batch_card env others req app =
      let begun = counting (λ m. inc_put_total (inc_http_requests m)) app in
      elim (decode_card hex_decode req) [
        | err e ↦ (counting inc_put_rejected begun, none)
        | ok c ↦ elim (verify_card p c) [
          | err e ↦ (counting (λ m. inc_put_rejected (inc_sig_fail m)) begun, none)
          | ok _ ↦ batch_send env others c (counting inc_sig_ok begun)
        ]
      ]

  -- The answer: the counters `ok` and `fail`, of 64 bits, and the addresses.
  pub record BatchAnswer : Type 0 where
    pub ok_count : ℕ
    pub fail_count : ℕ
    pub results : List Text

  pub count_card : Option Text → BatchAnswer → BatchAnswer
  count_card none a = record a { fail_count = (a.fail_count + 1) % 2 ^ 64 }
  count_card (some address) a = record a {
    ok_count = (a.ok_count + 1) % 2 ^ 64;
    results = a.results ++ address ∷ [];
  }

  -- What happens around each card, and what others do while it waits.
  pub record Round : Type 0 where
    pub env : Env
    pub others : App → App
    pub req : PublishCardRequest

  pub batch_loop : List Round → App → BatchAnswer → App × BatchAnswer
  batch_loop [] app a = (app, a)
  batch_loop (round ∷ rounds) app a =
      let (next, result) = batch_card round.env round.others round.req app in
      batch_loop rounds next (count_card result a)

  pub publish_batch : List Round → App → App × BatchAnswer
  unfolding batch_loop
  publish_batch rounds app =
      batch_loop rounds app (record { ok_count = 0; fail_count = 0; results = [] })
