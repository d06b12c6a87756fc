-- ===== src/Node/HttpApi/Race.antt =====
-- Two publications at once (http_api.rs, `publish_card`): the limiter is asked before the event loop
-- stores a card, and told behind it.
use p2s.Prelude.{
  ◌-◌, ◌<◌, ◌≡◌, refl, sym, ap, ◌∙◌, ◌≢◌, inl, inr, true, Option, some, arith, Bool-cases, nat_eq,
  list_eq, Result, ok, err, Result-cases, Text,
}
use mathlib.Core.Path.{subst}
use p2s.Proto.{SignedCard}
use p2s.Platform.{Platform}
use p2s.Net.{Net}
use p2s.Float.{Float}
use p2s.Card.{verify_card}
use p2s.Verifier.Manifest.{ManifestReader}
use p2s.Node.Sled.{Sled}
use p2s.Node.RateLimit.{allowed, check, record_publish}
use p2s.Node.RateLimit.Limits.{check-record_publish}
use p2s.Node.EventLoop.{put_ok}
use p2s.Node.Request.{Env, PublishCardRequest, HexReader, Refusal, decode_card}
use p2s.Node.HttpApi.{
  AppState, Response, Publication, admitted_or_refused, verified_publish, publish_request,
  handle_reply, publish_reply,
}

module _ (p : Platform) (net : Net) (fl : Float) (sled : Sled) (from_slice : ManifestReader)
    (hex_decode : HexReader) where
  abbrev App : Type 0
  App = AppState p net fl sled from_slice hex_decode

  abbrev Waiting : Type 0
  Waiting = Publication p net fl sled from_slice hex_decode

  abbrev request :
      Env
      → PublishCardRequest
      → App
      → App × Result (Response p net fl sled from_slice hex_decode) Waiting
  request = publish_request p net fl sled from_slice hex_decode

  abbrev reply : Env → Waiting → App → App × Response p net fl sled from_slice hex_decode
  reply = publish_reply p net fl sled from_slice hex_decode

  admitted_or_refused-rate_limiter :
      (app : App) (r : Result Refusal Waiting)
      → (admitted_or_refused p net fl sled from_slice hex_decode app r).0.rate_limiter
        ≡ app.rate_limiter
  unfolding admitted_or_refused
  admitted_or_refused-rate_limiter app (ok publication) = refl
  admitted_or_refused-rate_limiter app (err r) = ground arith

  verified_publish-rate_limiter :
      (env : Env) (app : App) (c : SignedCard) (nonce : Option Text)
      → (verified_publish p net fl sled from_slice hex_decode env app c nonce).0.rate_limiter
        ≡ app.rate_limiter
  unfolding verified_publish
  verified_publish-rate_limiter env app c challenge = elim (Bool-cases env.task_ends) [
    | inr e ↦ rw (e, verified_publish) refl
    | inl e ↦ elim (Result-cases (verify_card p c)) [
      | inr (x, f) ↦ rw (e, f, verified_publish) refl
      | inl (u, f) ↦ rw (e, f, verified_publish) (admitted_or_refused-rate_limiter _ _)
    ]
  ]

  -- Asking leaves the limiter as it was.
  publish_request-rate_limiter :
      (env : Env) (req : PublishCardRequest) (app : App)
      → (request env req app).0.rate_limiter ≡ app.rate_limiter
  unfolding publish_request
  publish_request-rate_limiter env req app = elim (Result-cases (decode_card hex_decode req)) [
    | inr (x, f) ↦ rw (f, publish_request) refl
    | inl (c, f) ↦ rw (f, publish_request) (verified_publish-rate_limiter env _ c _)
  ]

  -- A card that is stored is created, and recorded in the limiter if it can be locked.
  reply_created :
      (env : Env) (publication : Waiting) (app : App)
      → env.reply ≡ some put_ok
      → (reply env publication app).1.status ≡ 201
  unfolding publish_reply handle_reply
  reply_created env publication app r = rw (r, publish_reply) refl

  reply_recorded :
      (env : Env) (publication : Waiting) (app : App)
      → env.reply ≡ some put_ok
      → env.limiter_locks_after ≡ true
      → (reply env publication app).0.rate_limiter
        ≡ record_publish app.rate_limiter publication.card.card.domain env.published_at
  unfolding publish_reply handle_reply
  reply_recorded env publication app r locks = rw (r, locks, publish_reply) refl

  -- Two requests for cards of one domain that have both been let through before the event loop answers
  -- either, where it puts both cards and the limiter can be locked to record the first one: both are
  -- answered with "created", although the limiter, asked when the second is recorded, denies it,
  -- because the pause that the first one began is not over.
  publish_request_race :
      (env env' : Env) (req req' : PublishCardRequest) (app a b : App) (first second : Waiting)
      → request env req app ≡ (a, ok first)
      → request env' req' a ≡ (b, ok second)
      → second.card.card.domain ≡ first.card.card.domain
      → env.reply ≡ some put_ok
      → env'.reply ≡ some put_ok
      → env.limiter_locks_after ≡ true
      → env'.published_at - env.published_at < app.rate_limiter.cooldown
      → let c = (reply env first b).0 in
        ((reply env first b).1.status ≡ 201)
        × (check c.rate_limiter second.card.card.domain env'.published_at ≢ allowed)
        × ((reply env' second c).1.status ≡ 201)
  publish_request_race env env' req req' app a b first second e e' same r r' locks early =
      let kept : b.rate_limiter ≡ app.rate_limiter =
        sym (ap (λ w. w.0.rate_limiter) e')
        ∙ publish_request-rate_limiter env' req' a
        ∙ sym (ap (λ w. w.0.rate_limiter) e)
        ∙ publish_request-rate_limiter env req app in
      let denied =
        check-record_publish b.rate_limiter first.card.card.domain env.published_at
          env'.published_at
          (subst (λ l. env'.published_at - env.published_at < l.cooldown) (sym kept) early) in
      (
        reply_created env first b r,
        λ h. denied (
            ap (λ l. check l first.card.card.domain env'.published_at)
              (sym (reply_recorded env first b r locks))
            ∙ ap (λ d. check (reply env first b).0.rate_limiter d env'.published_at) (sym same)
            ∙ h),
        reply_created env' second (reply env first b).0 r',
      )
