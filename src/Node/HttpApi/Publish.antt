-- ===== src/Node/HttpApi/Publish.antt =====
-- What a publication over HTTP has passed (http_api.rs, `publish_card`).
use mathlib.Core.Path.{subst}
use p2s.Prelude.{
  ◌≡◌, refl, sym, ◌⊎◌, inl, inr, false, not, Option, none, some, ◌++◌, arith, ◌==◌, Bool-cases,
  nat_eq, list_eq, length, Result, ok, err, map_err, reject_if, Result-cases, map_err-eq-ok,
  >>=-eq-ok, ok-injective, Text, Bytes, codes,
}
use p2s.Proto.{SignedCard, ProtoError, canonical_encode, proto_error_display}
use p2s.Platform.{Platform}
use p2s.Net.{Net}
use p2s.Float.{Float}
use p2s.Card.{compute_address, verify_card}
use p2s.Card.Verify.{IsAuthentic, verify_card_iff}
use p2s.Verifier.Harden.{harden_label}
use p2s.Verifier.Harden.Label.{IsHardened, harden_label-IsHardened}
use p2s.Verifier.Manifest.{ManifestReader, validate_endpoint}
use p2s.Verifier.Manifest.Checks.{IsSecure, validate_endpoint-IsSecure}
use p2s.Verifier.Stage1.{Stage1Facts, Stage1Outcome, passed, rejected, run_stage1}
use p2s.Verifier.Stage1.Passed.{IsEstablished, run_stage1_sound}
use p2s.Node.Sled.{Sled}
use p2s.Node.RateLimit.{
  RateLimiter, RateLimitResult, allowed, too_many_cards, cooldown_active, check,
}
use p2s.Node.Metrics.{inc_sig_ok, inc_put_total, inc_http_requests}
use p2s.Node.Request.{
  Env, PublishCardRequest, HexReader, Refusal, decode_card, limit_response, check_limit,
  check_label, decode_nonce, uncounted,
}
use p2s.Node.HttpApi.{
  AppState, Publication, check_endpoint, stage1_weight, check_domain, admit, admitted_or_refused,
  verified_publish, publish_request,
}

limit_response-allowed : (r : RateLimitResult) → limit_response r ≡ ok tt → r ≡ allowed
unfolding limit_response
limit_response-allowed allowed h = refl
limit_response-allowed (too_many_cards d c m) h = cc
limit_response-allowed (cooldown_active d s) h = cc

-- There is no label, or it hardens.
pub data LabelPasses (o : Option Text) : Type 0 where
  unlabelled : o ≡ none → LabelPasses o
  hardens :
      (label r : Text) → o ≡ some label → harden_label label ≡ ok r → IsHardened r → LabelPasses o

check_label-LabelPasses : (o : Option Text) → check_label o ≡ ok tt → LabelPasses o
unfolding check_label
check_label-LabelPasses none h = unlabelled refl
check_label-LabelPasses (some l) h = elim (Result-cases (harden_label l)) [
  | inl (r, f) ↦ hardens l r refl f (harden_label-IsHardened l r f)
  | inr (x, f) ↦ absurd (ground arith)
]

Outcome-cases :
    (o : Stage1Outcome)
    → ((facts : Stage1Facts) × (o ≡ passed facts))
      ⊎ ((step : Text) × (reason : Text) × (o ≡ rejected step reason))
Outcome-cases (passed facts) = inl (facts, refl)
Outcome-cases (rejected step reason) = inr (step, reason, refl)

module _ (p : Platform) (net : Net) (fl : Float) (sled : Sled) (from_slice : ManifestReader)
    (hex_decode : HexReader) where
  -- The domain was checked with a nonce, and stage 1 passed the card; or there was no nonce.
  pub data DomainPasses (c : SignedCard) (nonce : Option Text) (weight : Option fl.F64)
      : Type 0 where
    unchecked : nonce ≡ none → weight ≡ none → DomainPasses c nonce weight
    checked :
        (text : Text) (bytes : Bytes) (facts : Stage1Facts)
        → nonce ≡ some text
        → hex_decode text ≡ ok bytes
        → length bytes ≡ 16
        → IsEstablished p net from_slice c bytes facts
        → weight ≡ some fl.one_f
        → DomainPasses c nonce weight

  decode_nonce-eq-ok :
      (text : Text) (bytes : Bytes)
      → decode_nonce hex_decode text ≡ ok bytes
      → (hex_decode text ≡ ok bytes) × (length bytes ≡ 16)
  unfolding decode_nonce
  decode_nonce-eq-ok text bytes h = elim (Result-cases (hex_decode text)) [
    | inr (x, f) ↦ absurd (ground arith)
    | inl (b, f) ↦ elim (Bool-cases (length b == 16)) [
      | inr e ↦ absurd (ground arith)
      | inl e ↦ (ground (arith, f, e), ground (arith, f, e))
    ]
  ]

  stage1_weight-eq-ok :
      (c : SignedCard) (nonce : Bytes) (w : Option fl.F64)
      → stage1_weight p net fl sled from_slice hex_decode c nonce ≡ ok w
      → (facts : Stage1Facts) × IsEstablished p net from_slice c nonce facts × (w ≡ some fl.one_f)
  unfolding stage1_weight
  stage1_weight-eq-ok c nonce w h = elim (Outcome-cases (run_stage1 p net from_slice c nonce)) [
    | inr (step, reason, f) ↦ absurd (ground arith)
    | inl (facts, f) ↦
        let established = run_stage1_sound p net from_slice c nonce facts f in
        (facts, established, ground (arith, h, f, established.domain_verified))
  ]

  check_domain-DomainPasses :
      (c : SignedCard) (o : Option Text) (w : Option fl.F64)
      → check_domain p net fl sled from_slice hex_decode c o ≡ ok w
      → DomainPasses c o w
  unfolding check_domain
  check_domain-DomainPasses c none w h = unchecked refl (sym (ok-injective h))
  check_domain-DomainPasses c (some text) w h =
      let (bytes, d, h1) = >>=-eq-ok (decode_nonce hex_decode text) _ w h in
      let (hex, size) = decode_nonce-eq-ok text bytes d in
      let (facts, established, e) = stage1_weight-eq-ok c bytes w h1 in
      checked text bytes facts refl hex size established e

  check_endpoint-IsSecure :
      (endpoint : Text)
      → check_endpoint p net fl sled from_slice hex_decode endpoint ≡ ok tt
      → IsSecure net endpoint
  unfolding check_endpoint
  check_endpoint-IsSecure endpoint h = elim (Result-cases (validate_endpoint net endpoint)) [
    | inl (url, f) ↦ validate_endpoint-IsSecure net endpoint url f
    | inr (x, f) ↦ absurd (ground arith)
  ]

  -- The limiter could not be locked, or allowed the publication.
  abbrev pub InLimit : Env → RateLimiter → Text → Type 0
  InLimit env limiter domain =
      (env.limiter_locks ≡ false) ⊎ (check limiter domain env.checked_at ≡ allowed)

  check_limit-InLimit :
      (env : Env) (limiter : RateLimiter) (domain : Text)
      → check_limit env limiter domain ≡ ok tt
      → InLimit env limiter domain
  unfolding check_limit
  check_limit-InLimit env limiter domain h = elim (Bool-cases env.limiter_locks) [
    | inr e ↦ inl e
    | inl e ↦
        inr (limit_response-allowed (check limiter domain env.checked_at) (ground (arith, h, e)))
  ]

  -- What a publication has passed when its command goes to the event loop.
  pub record IsAdmitted (env : Env) (limiter : RateLimiter) (req : PublishCardRequest)
      (publication : Publication p net fl sled from_slice hex_decode) : Type 0 where
    pub decoded : decode_card hex_decode req ≡ ok publication.card
    pub authentic : IsAuthentic p publication.card
    pub own_address : publication.address ≡ p.hash publication.card.card.pubkey
    pub encoded : canonical_encode ⦃c = p.signed_card_codec⦄ publication.card ≡ ok publication.value
    pub in_limit : InLimit env limiter publication.card.card.domain
    pub label_passes : LabelPasses publication.card.card.label
    pub secure_endpoint : IsSecure net publication.card.card.endpoint
    pub domain_passes : DomainPasses publication.card req.challenge_nonce publication.trust_weight

  abbrev encoding_refusal : ProtoError → Refusal
  encoding_refusal e = uncounted 500 (codes "encoding failed: " ++ proto_error_display e)

  admit-IsAdmitted :
      (env : Env) (limiter : RateLimiter) (req : PublishCardRequest) (c : SignedCard)
      (publication : Publication p net fl sled from_slice hex_decode)
      → decode_card hex_decode req ≡ ok c
      → verify_card p c ≡ ok tt
      → admit p net fl sled from_slice hex_decode env limiter c req.challenge_nonce ≡ ok publication
      → IsAdmitted env limiter req publication
  unfolding admit compute_address
  admit-IsAdmitted env limiter req c publication d v h =
      let (_, limit, h1) = >>=-eq-ok (check_limit env limiter c.card.domain) _ publication h in
      let (_, label, h2) = >>=-eq-ok (check_label c.card.label) _ publication h1 in
      let (_, endpoint, h3) =
        >>=-eq-ok (check_endpoint p net fl sled from_slice hex_decode c.card.endpoint) _ publication
          h2 in
      let (w, domain, h4) =
        >>=-eq-ok (check_domain p net fl sled from_slice hex_decode c req.challenge_nonce) _
          publication h3 in
      let (value, encode, h5) =
        >>=-eq-ok (map_err encoding_refusal (canonical_encode ⦃c = p.signed_card_codec⦄ c)) _
          publication h4 in
      let (_, _, h6) =
        >>=-eq-ok
          (reject_if (not env.is_sent) (uncounted 500 (codes "node event loop unavailable"))) _
          publication h5 in
      subst (IsAdmitted env limiter req) (ok-injective h6) (record {
        decoded = d;
        authentic = (verify_card_iff p c).0 v;
        own_address = refl;
        encoded = map_err-eq-ok encoding_refusal _ value encode;
        in_limit = check_limit-InLimit env limiter c.card.domain limit;
        label_passes = check_label-LabelPasses c.card.label label;
        secure_endpoint = check_endpoint-IsSecure c.card.endpoint endpoint;
        domain_passes = check_domain-DomainPasses c req.challenge_nonce w domain;
      })

  admitted_or_refused-eq-ok :
      (app : AppState p net fl sled from_slice hex_decode)
      (r : Result Refusal (Publication p net fl sled from_slice hex_decode))
      (publication : Publication p net fl sled from_slice hex_decode)
      → (admitted_or_refused p net fl sled from_slice hex_decode app r).1 ≡ ok publication
      → r ≡ ok publication
  unfolding admitted_or_refused
  admitted_or_refused-eq-ok app (ok x) publication h = cc
  admitted_or_refused-eq-ok app (err x) publication h = cc

  verified_publish-eq-ok :
      (env : Env) (app : AppState p net fl sled from_slice hex_decode) (c : SignedCard)
      (nonce : Option Text) (publication : Publication p net fl sled from_slice hex_decode)
      → (verified_publish p net fl sled from_slice hex_decode env app c nonce).1 ≡ ok publication
      → (verify_card p c ≡ ok tt)
        × (admit p net fl sled from_slice hex_decode env app.rate_limiter c nonce ≡ ok publication)
  unfolding verified_publish
  verified_publish-eq-ok env app c nonce publication h = elim (Bool-cases env.task_ends) [
    | inr e ↦ absurd (ground (arith, h, e))
    | inl e ↦ elim (Result-cases (verify_card p c)) [
      | inr (x, f) ↦ absurd (ground (arith, h, e, f))
      | inl (t, f) ↦ (
        f,
        admitted_or_refused-eq-ok (record app { metrics = inc_sig_ok app.metrics })
            (admit p net fl sled from_slice hex_decode env app.rate_limiter c nonce) publication
            (ground (arith, h, e, f)),
      )
    ]
  ]

  abbrev pub begun :
      AppState p net fl sled from_slice hex_decode → AppState p net fl sled from_slice hex_decode
  begun app = record app { metrics = inc_put_total (inc_http_requests app.metrics) }

  pub publish_request-IsAdmitted :
      (env : Env) (req : PublishCardRequest) (app : AppState p net fl sled from_slice hex_decode)
      (publication : Publication p net fl sled from_slice hex_decode)
      → (publish_request p net fl sled from_slice hex_decode env req app).1 ≡ ok publication
      → IsAdmitted env app.rate_limiter req publication
  unfolding publish_request
  publish_request-IsAdmitted env req app publication h =
      elim (Result-cases (decode_card hex_decode req)) [
        | inr (x, f) ↦ absurd (ground (arith, h, f))
        | inl (c, f) ↦
            let (v, a) =
              verified_publish-eq-ok env (begun app) c req.challenge_nonce publication
                (ground (arith, h, f)) in
            admit-IsAdmitted env app.rate_limiter req c publication f v a
      ]
