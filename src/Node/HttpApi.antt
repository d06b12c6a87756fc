-- ===== src/Node/HttpApi.antt =====
-- node/src/http_api.rs: the handlers of the HTTP interface. A handler runs between awaits while others
-- run, so a publication is in two halves: up to the command to the event loop, and from its reply on.
-- The locks, the clock, the tasks and the channel of a request are its `Env`.
pub mod Publish
pub mod Admits
pub mod Created
pub mod Info
pub mod Race
pub mod Findable
pub mod Batch
pub mod Review
pub mod Fetch
use p2s.Prelude.{
  ℕ, not, Option, none, some, ◌++◌, if◌then◌else◌, nat_eq, list_eq, Result, ok, err, ◌>>=◌, ◌>>◌,
  map_err, reject_if, Text, Bytes, codes,
}
use p2s.Proto.{
  CardStatus, active, revoked, CardRecord, SignedCard, canonical_encode, proto_error_display,
}
use p2s.Platform.{Platform}
use p2s.Net.{Net}
use p2s.Float.{Float}
use p2s.Card.{Address, compute_address, verify_card, card_error_display}
use p2s.Publisher.{hex_encode}
use p2s.Verifier.Harden.{harden_label, harden_error_display}
use p2s.Verifier.Manifest.{ManifestReader, validate_endpoint, manifest_error_display}
use p2s.Verifier.Stage1.{Stage1Outcome, passed, rejected, run_stage1}
use p2s.Node.Sled.{Sled}
use p2s.Node.RateLimit.{
  RateLimiter, RateLimitResult, allowed, too_many_cards, cooldown_active, check, record_publish,
}
use p2s.Node.Metrics.{
  Metrics, inc_put_total, inc_put_success, inc_put_rejected, inc_http_requests, inc_http_errors,
  inc_sig_ok, inc_sig_fail, record_put_latency,
}
use p2s.Node.TrustWeight.{TrustWeightStore, set}
use p2s.Node.EventLoop.{QueryResult, put_ok, found, not_found, error}
use p2s.Node.Request.{
  CardRecordJson, PublishCardRequest, Env, Refusal, counted, uncounted, HexReader, parse_status,
  decode_card, limit_response, check_limit, check_label, decode_nonce,
}

module _ (p : Platform) (net : Net) (fl : Float) (sled : Sled) (from_slice : ManifestReader)
    (hex_decode : HexReader) where
  -- The parts of `NodeState` that a publication uses.
  pub record AppState : Type 0 where
    pub metrics : Metrics
    pub rate_limiter : RateLimiter
    pub trust_weights : TrustWeightStore fl sled

  pub data Body : Type 0 where
    error_body : Text → Body
    published_body : (address : Text) (trust_weight : Option fl.F64) → Body

  pub record Response : Type 0 where
    pub status : ℕ
    pub body : Body

  -- A publication that waits for the event loop: the command, and what is kept for the reply.
  pub record Publication : Type 0 where
    pub card : SignedCard
    pub address : Address
    pub value : Bytes
    pub trust_weight : Option fl.F64

  unfoldable pub check_endpoint : Text → Result Refusal (Unit {0})
  check_endpoint endpoint = elim (validate_endpoint net endpoint) [
    | ok url ↦ ok tt
    | err e ↦ err (counted 400 (codes "invalid endpoint: " ++ manifest_error_display e))
  ]

  -- Stage 1 with the nonce of the request.
  pub stage1_weight : SignedCard → Bytes → Result Refusal (Option fl.F64)
  stage1_weight c nonce = elim (run_stage1 p net from_slice c nonce) [
    | passed facts ↦ ok (some (if facts.domain_verified then fl.one_f else fl.zero_f))
    | rejected step reason ↦
        err (counted 403 (codes "verification failed at " ++ (step ++ (codes ": " ++ reason))))
  ]

  -- The ownership of the domain, if the request has a nonce.
  unfoldable pub check_domain : SignedCard → Option Text → Result Refusal (Option fl.F64)
  unfolding stage1_weight
  check_domain c none = ok none
  check_domain c (some nonce_hex) = do
    nonce ← decode_nonce hex_decode nonce_hex
    stage1_weight c nonce

  -- The checks behind the signature, and the command.
  unfoldable pub admit : Env → RateLimiter → SignedCard → Option Text → Result Refusal Publication
  admit env limiter c nonce = do
    check_limit env limiter c.card.domain
    check_label c.card.label
    check_endpoint c.card.endpoint
    trust_weight ← check_domain c nonce
    value ←
        map_err (λ e. uncounted 500 (codes "encoding failed: " ++ proto_error_display e))
          (canonical_encode ⦃c = p.signed_card_codec⦄ c)
    reject_if (not env.is_sent) (uncounted 500 (codes "node event loop unavailable"))
    ok (record {
      card = c;
      address = compute_address p c.card.pubkey;
      value = value;
      trust_weight = trust_weight;
    })

  abbrev counting : (Metrics → Metrics) → AppState → AppState
  counting f app = record app { metrics = f app.metrics }

  abbrev refuse : Refusal → Response
  refuse r = record { status = r.code; body = error_body r.message }

  -- The outcome of `admit`.
  unfoldable pub admitted_or_refused :
      AppState → Result Refusal Publication → AppState × Result Response Publication
  admitted_or_refused app (ok publication) = (app, ok publication)
  admitted_or_refused app (err r) =
      (if r.is_counted then counting inc_put_rejected app else app, err (refuse r))

  -- The signature, checked in a task of its own.
  unfoldable pub verified_publish :
      Env → AppState → SignedCard → Option Text → AppState × Result Response Publication
  unfolding admitted_or_refused
  verified_publish env app c nonce =
      if env.task_ends
      then (elim (verify_card p c) [
        | err e ↦ (
          counting (λ m. inc_put_rejected (inc_sig_fail m)) app,
          err (refuse (uncounted 400 (codes "card verification failed: " ++ card_error_display e))),
        )
        | ok _ ↦ admitted_or_refused (counting inc_sig_ok app) (admit env app.rate_limiter c nonce)
      ])
      else (app, err (refuse (uncounted 500 (codes "verification task failed"))))

  -- The first half of `publish_card`.
  unfoldable pub publish_request :
      Env → PublishCardRequest → AppState → AppState × Result Response Publication
  unfolding verified_publish
  publish_request env req app =
      let begun = counting (λ m. inc_put_total (inc_http_requests m)) app in
      elim (decode_card hex_decode req) [
        | err e ↦ (
          counting (λ m. inc_put_rejected (inc_http_errors m)) begun,
          err (refuse (uncounted 400 e)),
        )
        | ok c ↦ verified_publish env begun c req.challenge_nonce
      ]

  -- The weight of an address whose domain was checked.
  pub set_weight : Env → Publication → TrustWeightStore fl sled → TrustWeightStore fl sled
  set_weight env publication weights = elim publication.trust_weight [
    | none ↦ weights
    | some w ↦
        if env.weights_lock then set fl sled weights (hex_encode publication.address) w else weights
  ]

  -- The match on the event loop's reply.
  unfoldable pub handle_reply :
      Env → Publication → Option QueryResult → AppState → AppState × Response
  unfolding set_weight
  handle_reply env publication (some put_ok) app = (
    record {
      metrics = inc_put_success app.metrics;
      rate_limiter =
          if env.limiter_locks_after
          then record_publish app.rate_limiter publication.card.card.domain env.published_at
          else app.rate_limiter;
      trust_weights = set_weight env publication app.trust_weights;
    },
    record {
      status = 201;
      body = published_body (hex_encode publication.address) publication.trust_weight;
    },
  )
  handle_reply env publication (some (error e)) app =
      (counting inc_put_rejected app, refuse (uncounted 500 e))
  handle_reply env publication (some (found v)) app =
      (counting inc_put_rejected app, refuse (uncounted 504 (codes "DHT put timed out")))
  handle_reply env publication (some not_found) app =
      (counting inc_put_rejected app, refuse (uncounted 504 (codes "DHT put timed out")))
  handle_reply env publication none app =
      (counting inc_put_rejected app, refuse (uncounted 504 (codes "DHT put timed out")))

  -- The second half of `publish_card`.
  unfoldable pub publish_reply : Env → Publication → AppState → AppState × Response
  unfolding handle_reply
  publish_reply env publication app =
      let (replied, response) = handle_reply env publication env.reply app in
      (counting (record_put_latency env.elapsed_us) replied, response)

  -- The two halves, the second one on a refusal left out.
  unfoldable pub finish :
      Env → (AppState → AppState) → AppState × Result Response Publication → AppState × Response
  finish env others (app, err response) = (app, response)
  finish env others (app, ok publication) = publish_reply env publication (others app)

  -- A publication, with what other requests do to the state while it waits for the reply.
  unfoldable pub publish_card :
      Env → (AppState → AppState) → PublishCardRequest → AppState → AppState × Response
  unfolding finish
  publish_card env others req app = finish env others (publish_request env req app)
