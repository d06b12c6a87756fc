-- ===== src/Node/HttpApi/Admits.antt =====
-- A request that meets what `publish_card` asks for gets as far as the event loop (http_api.rs).
use p2s.Prelude.{
  ℕ, ◌≡◌, refl, sym, ap, ◌↔◌, inl, inr, true, Option, some, Bool-cases, nat_eq, list_eq, length, ok,
  Text, Bytes,
}
use p2s.Proto.{SignedCard}
use p2s.Platform.{Platform}
use p2s.Net.{Net}
use p2s.Float.{Float}
use p2s.Card.{compute_address}
use p2s.Card.Verify.{verify_card_iff}
use p2s.Verifier.Manifest.{ManifestReader}
use p2s.Verifier.Manifest.Checks.{IsSecure}
use p2s.Verifier.Manifest.Complete.{validate_endpoint_ok}
use p2s.Verifier.Stage1.{Stage1Facts}
use p2s.Verifier.Stage1.Passed.{IsEstablished, run_stage1_sound}
use p2s.Verifier.Stage1.Complete.{IsEstablished-MeetsStage1, run_stage1_iff}
use p2s.Node.Sled.{Sled}
use p2s.Node.RateLimit.{RateLimiter}
use p2s.Node.Request.{
  Env, PublishCardRequest, HexReader, limit_response, check_limit, check_label, decode_nonce,
}
use p2s.Node.HttpApi.{
  AppState, Publication, check_endpoint, stage1_weight, check_domain, admit, admitted_or_refused,
  verified_publish, publish_request,
}
use p2s.Node.HttpApi.Publish.{
  LabelPasses, DomainPasses, InLimit, IsAdmitted, publish_request-IsAdmitted,
}

check_label_ok : (o : Option Text) → LabelPasses o → check_label o ≡ ok tt
unfolding check_label
check_label_ok o (LabelPasses.unlabelled e) = rw (e, check_label) refl
check_label_ok o (LabelPasses.hardens label r e h i) = rw (e, h, check_label) refl

module _ (p : Platform) (net : Net) (fl : Float) (sled : Sled) (from_slice : ManifestReader)
    (hex_decode : HexReader) where
  check_limit_ok :
      (env : Env) (limiter : RateLimiter) (domain : Text)
      → InLimit p net fl sled from_slice hex_decode env limiter domain
      → check_limit env limiter domain ≡ ok tt
  unfolding check_limit limit_response
  check_limit_ok env limiter domain (inl e) = rw (e, check_limit) refl
  check_limit_ok env limiter domain (inr a) = elim (Bool-cases env.limiter_locks) [
    | inr e ↦ rw (e, check_limit) refl
    | inl e ↦ rw (e, a, check_limit) refl
  ]

  check_endpoint_ok :
      (endpoint : Text)
      → IsSecure net endpoint
      → check_endpoint p net fl sled from_slice hex_decode endpoint ≡ ok tt
  unfolding check_endpoint
  check_endpoint_ok endpoint s = rw ((validate_endpoint_ok net endpoint s).1, check_endpoint) refl

  decode_nonce_ok :
      (text : Text) (bytes : Bytes)
      → hex_decode text ≡ ok bytes
      → length bytes ≡ 16
      → decode_nonce hex_decode text ≡ ok bytes
  unfolding decode_nonce
  decode_nonce_ok text bytes d size = rw (d, size, decode_nonce) refl

  module _ (builds : (secs : ℕ) → net.build_client secs ≡ ok tt) where
    stage1_weight_ok :
        (c : SignedCard) (nonce : Bytes)
        → ((f : Stage1Facts) × IsEstablished p net from_slice c nonce f)
        → stage1_weight p net fl sled from_slice hex_decode c nonce ≡ ok (some fl.one_f)
    unfolding stage1_weight
    stage1_weight_ok c nonce (f, i) =
        let (g, h) =
          (run_stage1_iff p net from_slice builds c nonce).1
            (IsEstablished-MeetsStage1 p net from_slice builds c nonce f i) in
        rw (h, (run_stage1_sound p net from_slice c nonce g h).domain_verified, stage1_weight) refl

    check_domain_ok :
        (c : SignedCard) (o : Option Text) (w : Option fl.F64)
        → DomainPasses p net fl sled from_slice hex_decode c o w
        → check_domain p net fl sled from_slice hex_decode c o ≡ ok w
    unfolding check_domain
    check_domain_ok c o w (DomainPasses.unchecked e f) = rw (e, f, check_domain) refl
    check_domain_ok c o w (DomainPasses.checked text bytes facts e d size i f) =
        rw (e, f, decode_nonce_ok text bytes d size, check_domain)
          (stage1_weight_ok c bytes (facts, i))

    admit_ok :
        (env : Env) (limiter : RateLimiter) (req : PublishCardRequest)
        (publication : Publication p net fl sled from_slice hex_decode)
        → env.is_sent ≡ true
        → IsAdmitted p net fl sled from_slice hex_decode env limiter req publication
        → admit p net fl sled from_slice hex_decode env limiter publication.card req.challenge_nonce
          ≡ ok publication
    unfolding admit compute_address
    admit_ok env limiter req publication sent i =
        rw
          (
            check_limit_ok env limiter publication.card.card.domain i.in_limit,
            check_label_ok publication.card.card.label i.label_passes,
            check_endpoint_ok publication.card.card.endpoint i.secure_endpoint,
            check_domain_ok publication.card req.challenge_nonce publication.trust_weight
                i.domain_passes,
            i.encoded,
            sent,
          )
          (ap (λ a. ok (record publication { address = a })) (sym i.own_address))

    publish_request_ok :
        (env : Env) (req : PublishCardRequest) (app : AppState p net fl sled from_slice hex_decode)
        (publication : Publication p net fl sled from_slice hex_decode)
        → env.task_ends ≡ true
        → env.is_sent ≡ true
        → IsAdmitted p net fl sled from_slice hex_decode env app.rate_limiter req publication
        → (publish_request p net fl sled from_slice hex_decode env req app).1 ≡ ok publication
    unfolding publish_request verified_publish admitted_or_refused
    publish_request_ok env req app publication ends sent i =
        rw
          (
            i.decoded,
            ends,
            (verify_card_iff p publication.card).1 i.authentic,
            admit_ok env app.rate_limiter req publication sent i,
            publish_request,
          )
          refl

    -- Where an HTTP client can be built, the task of the signature check ends and the event loop takes
    -- the command: `publish_card` sends a publication to the event loop exactly if it is the card in
    -- the request, authentic, encoded, under the hash of its key, within the limit of its domain (if
    -- the limiter can be locked), with a label that hardens if any and a secure endpoint, without a
    -- weight if the request has no nonce, and with the full weight if it has one of 16 bytes for which
    -- all that stage 1 asks for is there.
    pub publish_request_iff :
        (env : Env) (req : PublishCardRequest) (app : AppState p net fl sled from_slice hex_decode)
        (publication : Publication p net fl sled from_slice hex_decode)
        → env.task_ends ≡ true
        → env.is_sent ≡ true
        → ((publish_request p net fl sled from_slice hex_decode env req app).1 ≡ ok publication)
          ↔ IsAdmitted p net fl sled from_slice hex_decode env app.rate_limiter req publication
    publish_request_iff env req app publication ends sent = (
      publish_request-IsAdmitted p net fl sled from_slice hex_decode env req app publication,
      publish_request_ok env req app publication ends sent,
    )
